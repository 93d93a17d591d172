-- ===== src/Headers/Slots.antt =====
-- What the concurrent fetch of the headers returns, in whatever order its tasks end.
use cca_go_indexer.Base.{
  ℕ, ◌+◌, ◌<◌, ◌≡◌, refl, ◌∙◌, sym, ◌⊎◌, inl, inr, true, ◌||◌, Option, none, some, List, [], ◌∷◌,
  arith, length, set, replicate, get_elem?, contains, All, All-map, ◌==◌, Bool-cases, Option-cases,
  get_elem?-set_self, get_elem?-set_ne, length-set, length-replicate,
}
use cca_go_indexer.Base.Effect.{Ends}
use cca_go_indexer.Headers.{Fetch, finish, run_tasks, wait, unfetched, fetch_headers, no_header}
use cca_go_indexer.Types.{BlockHeader}
use cca_go_indexer.World.Calls.{Env, World, tick}

module _ (header : ℕ → Option BlockHeader) (from : ℕ) where
  -- The slot has the node's answer.
  abbrev pub SlotFilled : List BlockHeader → ℕ → Type 0
  SlotFilled slots i =
      (h : BlockHeader) × (header (from + i) ≡ some h) × (get_elem? slots i ≡ some h)

  finish_failed :
      (m i : ℕ) (o : Option BlockHeader) (f : Fetch)
      → f.failed ≡ some m
      → (finish from i o f).failed ≡ some m
  unfolding finish
  finish_failed m i none f e = rw e
  finish_failed m i (some h) f e = e

  run_tasks-failed :
      (m : ℕ) (order : List ℕ) (f : Fetch)
      → f.failed ≡ some m
      → (run_tasks header from order f).failed ≡ some m
  unfolding run_tasks
  run_tasks-failed m [] f e = e
  run_tasks-failed m (i ∷ order) f e =
      run_tasks-failed m order (finish from i (header (from + i)) f)
        (finish_failed m i (header (from + i)) f e)

  length-finish :
      (i : ℕ) (o : Option BlockHeader) (f : Fetch)
      → length (finish from i o f).slots ≡ length f.slots
  unfolding finish
  length-finish i none f = refl
  length-finish i (some h) f = length-set f.slots i h

  length-run_tasks :
      (order : List ℕ) (f : Fetch) → length (run_tasks header from order f).slots ≡ length f.slots
  unfolding run_tasks
  length-run_tasks [] f = refl
  length-run_tasks (i ∷ order) f =
      length-run_tasks order (finish from i (header (from + i)) f)
      ∙ length-finish i (header (from + i)) f

  -- A finished task has filled its slot, and the tasks leave one another's slots alone.
  finish-SlotFilled :
      (i j : ℕ) (h : BlockHeader) (f : Fetch)
      → header (from + j) ≡ some h
      → j < length f.slots
      → ((j == i) ≡ true) ⊎ SlotFilled f.slots i
      → SlotFilled (set f.slots j h) i
  finish-SlotFilled i j h f e k d = elim (Bool-cases (j == i)) [
    | inl same ↦
        let s : j ≡ i = ground arith in (h, rw (← s) e, rw (← s) (get_elem?-set_self f.slots j h k))
    | inr other ↦ elim d [
      | inl same ↦ absurd (ground arith)
      | inr (g, a, b) ↦ (g, a, get_elem?-set_ne f.slots h (ground arith) ∙ b)
    ]
  ]

  finish_fails : (i : ℕ) (f : Fetch) → (m : ℕ) × ((finish from i none f).failed ≡ some m)
  unfolding finish
  finish_fails i f = elim (Option-cases f.failed) [
    | inl e ↦ (from + i, rw e)
    | inr (m, e) ↦ (m, rw e)
  ]

  rest-SlotFilled :
      (i j : ℕ) (order : List ℕ) (h : BlockHeader) (f : Fetch)
      → header (from + j) ≡ some h
      → j < length f.slots
      → ((j == i) || contains i order ≡ true) ⊎ SlotFilled f.slots i
      → (contains i order ≡ true) ⊎ SlotFilled (set f.slots j h) i
  rest-SlotFilled i j order h f g k (inr filled) = inr (finish-SlotFilled i j h f g k (inr filled))
  rest-SlotFilled i j order h f g k (inl e) = elim (Bool-cases (j == i)) [
    | inl same ↦ inr (finish-SlotFilled i j h f g k (inl same))
    | inr other ↦ inl (ground arith)
  ]

  task-SlotFilled :
      (o : Option BlockHeader) (j : ℕ) (order : List ℕ) (f : Fetch) (i : ℕ)
      → header (from + j) ≡ o
      → All (λ k. k < length f.slots) (j ∷ order)
      → (run_tasks header from order (finish from j o f)).failed ≡ none
      → ((j == i) || contains i order ≡ true) ⊎ SlotFilled f.slots i
      → ((g : Fetch)
          → All (λ k. k < length g.slots) order
          → (run_tasks header from order g).failed ≡ none
          → (contains i order ≡ true) ⊎ SlotFilled g.slots i
          → SlotFilled (run_tasks header from order g).slots i)
      → SlotFilled (run_tasks header from order (finish from j o f)).slots i
  unfolding finish
  task-SlotFilled none j order f i g r e d next =
      let (m, failed) = finish_fails j f in
      absurd (cc (run_tasks-failed m order (finish from j none f) failed))
  task-SlotFilled (some h) j order f i g r e d next =
      next (finish from j (some h) f)
        (All-map (λ k. k < length f.slots) (λ k. k < length (set f.slots j h))
          (λ k p. rw (length-set f.slots j h) p) order r.1)
        e (rest-SlotFilled i j order h f g r.0 d)

  run_tasks-SlotFilled :
      (order : List ℕ) (f : Fetch) (i : ℕ)
      → All (λ j. j < length f.slots) order
      → (run_tasks header from order f).failed ≡ none
      → (contains i order ≡ true) ⊎ SlotFilled f.slots i
      → SlotFilled (run_tasks header from order f).slots i
  unfolding run_tasks
  run_tasks-SlotFilled [] f i r e (inl h) = cc
  run_tasks-SlotFilled [] f i r e (inr h) = h
  run_tasks-SlotFilled (j ∷ order) f i r e d =
      task-SlotFilled (header (from + j)) j order f i refl r e d
        (λ g. run_tasks-SlotFilled order g i)

  failed-finish :
      (i : ℕ) (o : Option BlockHeader) (h : BlockHeader) (f : Fetch)
      → o ≡ some h
      → (finish from i o f).failed ≡ f.failed
  unfolding finish
  failed-finish i none h f e = cc
  failed-finish i (some g) h f e = refl

  -- A task has failed only if the node did not answer its request.
  run_tasks_failed_request :
      (order : List ℕ) (f : Fetch) (count m : ℕ)
      → All (λ i. i < count) order
      → (run_tasks header from order f).failed ≡ some m
      → (f.failed ≡ some m) ⊎ ((i : ℕ) × (i < count) × (header (from + i) ≡ none))
  unfolding run_tasks
  run_tasks_failed_request [] f count m r e = inl e
  run_tasks_failed_request (i ∷ order) f count m r e = elim (Option-cases (header (from + i))) [
    | inl g ↦ inr (i, r.0, g)
    | inr (h, g) ↦
        elim (run_tasks_failed_request order (finish from i (header (from + i)) f) count m r.1 e) [
          | inl d ↦ inl (sym (failed-finish i (header (from + i)) h f g) ∙ d)
          | inr missing ↦ inr missing
        ]
  ]

module _ (env : Env) (from count : ℕ) (w : World) where
  abbrev order : List ℕ
  order = env.completion_at w.now count

  abbrev fetched : Fetch
  fetched = run_tasks (env.header_at w.now) from order (unfetched count)

  order-in_range : All (λ i. i < length (replicate count no_header)) order
  order-in_range =
      All-map (λ i. i < count) (λ i. i < length (replicate count no_header))
        (λ i p. rw (length-replicate count no_header) p) order
        ((env.completion_IsOrder w.now count).in_range)

  wait-Ends :
      (f : Fetch)
      → ((m : ℕ)
          → f.failed ≡ some m
          → (i : ℕ) × (i < count) × (env.header_at w.now (from + i) ≡ none))
      → (f.failed ≡ none
          → (length f.slots ≡ count)
            × ((i : ℕ) → i < count → SlotFilled (env.header_at w.now) from f.slots i))
      → Ends
          (λ hs w'.
            (w'.db ≡ w.db)
            × (length hs ≡ count)
            × ((i : ℕ) → i < count → SlotFilled (env.header_at w.now) from hs i))
          (λ _ w'.
            (w'.db ≡ w.db) × ((i : ℕ) × (i < count) × (env.header_at w.now (from + i) ≡ none)))
          (wait f, tick w)
  unfolding wait
  wait-Ends f bad good = elim (Option-cases f.failed) [
    | inl e ↦ rw e (refl, (good e).0, (good e).1)
    | inr (m, e) ↦ rw e (refl, bad m e)
  ]

  -- The fetch returns one header for each block of the batch, at its block's place, each as the node
  -- answered it, whatever the order in which the concurrent requests end; or it fails, and then the
  -- node left one of the requests without an answer. It leaves the database alone.
  pub fetch_headers-SlotFilled :
      Ends
        (λ hs w'.
          (w'.db ≡ w.db)
          × (length hs ≡ count)
          × ((i : ℕ) → i < count → SlotFilled (env.header_at w.now) from hs i))
        (λ _ w'. (w'.db ≡ w.db) × ((i : ℕ) × (i < count) × (env.header_at w.now (from + i) ≡ none)))
        (fetch_headers env from count w)
  unfolding fetch_headers
  fetch_headers-SlotFilled =
      wait-Ends fetched
        (λ m e.
          elim (run_tasks_failed_request (env.header_at w.now) from order (unfetched count) count m
            ((env.completion_IsOrder w.now count).in_range) e) [
              | inl h ↦ absurd (cc)
              | inr missing ↦ missing
            ])
        (λ e. (
          length-run_tasks (env.header_at w.now) from order (unfetched count)
              ∙ length-replicate count no_header,
          λ i p.
              run_tasks-SlotFilled (env.header_at w.now) from order (unfetched count) i
                order-in_range e (inl ((env.completion_IsOrder w.now count).complete i p)),
        ))
