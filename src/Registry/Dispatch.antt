-- ===== src/Registry/Dispatch.antt =====
-- What a dispatch writes (internal/indexer/handler.go): handlers that keep to the rows of their logs
-- make a dispatch that does.
use cca_go_indexer.Base.{
  ℕ, zero, suc, ◌≤◌, ◌≡◌, refl, ◌∙◌, inl, inr, Option, none, some, List, [], ◌∷◌, All, All-append,
  ◌==◌, Bool-cases, Option-cases,
}
use mathlib.Core.Path.{subst}
use cca_go_indexer.Base.Effect.{Ends, Ends-and_then, Ends-weaken, pure, ◌>>◌}
use cca_go_indexer.Registry.{
  EventHandler, HandlerMap, Group, Grouping, lookup_handler, append_log, add_at, add_log,
  lookup_index, collect, first_topic, no_groups, handle_each, handle_group, dispatch, handle_logs,
}
use cca_go_indexer.Store.Rows.{EventsUpTo, AuctionsUpTo}
use cca_go_indexer.Types.{Hash, Log}
use cca_go_indexer.World.Calls.{Action, World, wrap, wrap-Ends}
use cca_go_indexer.World.Database.{Database}
use cca_go_indexer.World.Errors.{batch_handler, handling_log}

-- Every row of the chain in the events' and the auctions' tables is up to the block, and the other
-- tables are as they were.
pub record Written (chain n : ℕ) (db db' : Database) : Type 0 where
  pub events : EventsUpTo chain n db'
  pub auctions : AuctionsUpTo chain n db'
  pub blocks : db'.blocks ≡ db.blocks
  pub cursors : db'.cursors ≡ db.cursors

abbrev pub LogsUpTo : ℕ → List Log → Type 0
LogsUpTo n ls = All (λ l. l.block_number ≤ n) ls

-- Where the computation succeeds, it has written rows up to the block only.
abbrev pub Writes : ℕ → ℕ → Action (Unit {0}) → Type 0
Writes chain n m =
    (w : World)
    → EventsUpTo chain n w.db
    → AuctionsUpTo chain n w.db
    → Ends (λ _ w'. Written chain n w.db w'.db) (λ _ _. Unit {0}) (m w)

-- What the indexer expects of a handler: that it stores rows of its chain only with the block
-- numbers of the logs that it is given.
pub record IsRowHandler (h : EventHandler) : Type 0 where
  pub each : (chain n : ℕ) (l : Log) → l.block_number ≤ n → Writes chain n (h.handle chain l)
  pub batch :
      (f : ℕ → List Log → Action (Unit {0}))
      → h.handle_batch ≡ some f
      → (chain n : ℕ) (ls : List Log) → LogsUpTo n ls
      → Writes chain n (f chain ls)

abbrev pub AreRowHandlers : HandlerMap → Type 0
AreRowHandlers m = All (λ e. IsRowHandler e.1) m

module _ (chain n : ℕ) where
  pure-Writes : Writes chain n (pure tt)
  pure-Writes w e a = record { events = e; auctions = a; blocks = refl; cursors = refl }

  Written-trans :
      (a b c : Database) → Written chain n a b → Written chain n b c → Written chain n a c
  Written-trans a b c p q = record {
    events = q.events;
    auctions = q.auctions;
    blocks = q.blocks ∙ p.blocks;
    cursors = q.cursors ∙ p.cursors;
  }

  seq-Writes :
      (m k : Action (Unit {0})) → Writes chain n m → Writes chain n k → Writes chain n (m >> k)
  seq-Writes m k hm hk w e a =
      Ends-and_then (λ _ w'. Written chain n w.db w'.db) _ _ (m w) (λ _. k) (hm w e a)
        (λ _ w' p.
          Ends-weaken _ _ _ _ (k w') (λ _ w'' q. Written-trans w.db w'.db w''.db p q) (λ _ _ u. u)
            (hk w' p.events p.auctions))

  handle_each-Writes :
      (h : EventHandler)
      → IsRowHandler h
      → (ls : List Log) → LogsUpTo n ls
      → Writes chain n (handle_each h chain ls)
  unfolding handle_each
  handle_each-Writes h k [] p = pure-Writes
  handle_each-Writes h k (l ∷ ls) p =
      seq-Writes (wrap handling_log (h.handle chain l)) (handle_each h chain ls)
        (λ w e a. wrap-Ends handling_log _ _ (h.handle chain l w) (k.each chain n l p.0 w e a))
        (handle_each-Writes h k ls p.1)

  handle_batch-Writes :
      (h : EventHandler) (o : Option (ℕ → List Log → Action (Unit {0})))
      → h.handle_batch ≡ o
      → IsRowHandler h
      → (ls : List Log) → LogsUpTo n ls
      → Writes chain n (handle_group (some h) chain ls)
  unfolding handle_group
  handle_batch-Writes h none e k ls p w = rw e (handle_each-Writes h k ls p w)
  handle_batch-Writes h (some f) e k ls p w =
      rw e (λ ev au. wrap-Ends batch_handler _ _ (f chain ls w) (k.batch f e chain n ls p w ev au))

  handle_group-Writes :
      (id : Hash) (m : HandlerMap)
      → AreRowHandlers m
      → (ls : List Log) → LogsUpTo n ls
      → Writes chain n (handle_group (lookup_handler id m) chain ls)
  unfolding lookup_handler
  handle_group-Writes id [] k ls p w = unfold handle_group in pure-Writes w
  handle_group-Writes id (x ∷ m) k ls p w = elim (Bool-cases (x.0 == id)) [
    | inl e ↦ rw e (handle_batch-Writes x.1 x.1.handle_batch refl k.0 ls p w)
    | inr e ↦ rw e (handle_group-Writes id m k.1 ls p w)
  ]

  abbrev GroupsUpTo : List Group → Type 0
  GroupsUpTo gs = All (λ g. LogsUpTo n g.logs) gs

  dispatch-Writes :
      (m : HandlerMap)
      → AreRowHandlers m
      → (gs : List Group) → GroupsUpTo gs
      → Writes chain n (dispatch m chain gs)
  unfolding dispatch
  dispatch-Writes m k [] p = pure-Writes
  dispatch-Writes m k (g ∷ gs) p =
      seq-Writes (handle_group (lookup_handler g.topic m) chain g.logs) (dispatch m chain gs)
        (handle_group-Writes g.topic m k g.logs p.0) (dispatch-Writes m k gs p.1)

  append_log-UpTo :
      (gs : List Group) (i : ℕ) (l : Log)
      → l.block_number ≤ n
      → GroupsUpTo gs
      → GroupsUpTo (append_log gs i l)
  unfolding append_log
  append_log-UpTo [] i l h p = tt
  append_log-UpTo (g ∷ gs) zero l h p =
      (All-append (λ k. k.block_number ≤ n) g.logs (l ∷ []) p.0 (h, tt), p.1)
  append_log-UpTo (g ∷ gs) (suc i) l h p = (p.0, append_log-UpTo gs i l h p.1)

  add_at-UpTo :
      (o : Option ℕ) (t : Hash) (l : Log) (g : Grouping)
      → l.block_number ≤ n
      → GroupsUpTo g.groups
      → GroupsUpTo (add_at o t l g).groups
  unfolding add_at
  add_at-UpTo none t l g h p =
      All-append (λ k. LogsUpTo n k.logs) g.groups (record { topic = t; logs = l ∷ [] } ∷ []) p
        ((h, tt), tt)
  add_at-UpTo (some i) t l g h p = append_log-UpTo g.groups i l h p

  collect-UpTo :
      (ls : List Log) (g g' : Grouping)
      → LogsUpTo n ls
      → GroupsUpTo g.groups
      → collect ls g ≡ some g'
      → GroupsUpTo g'.groups
  unfolding collect add_log
  collect-UpTo [] g g' p q e = let same : g ≡ g' = cc in subst (λ k. GroupsUpTo k.groups) same q
  collect-UpTo (l ∷ ls) g g' p q e = elim (Option-cases (first_topic l)) [
    | inl t ↦ absurd (cc (rw (t, collect) at e))
    | inr (t, h) ↦
        collect-UpTo ls (add_log t l g) g' p.1
          (add_at-UpTo (lookup_index t g.order_index) t l g p.0 q) (rw (h, collect) at e)
  ]

  -- A batch of logs up to a block writes rows up to that block.
  pub handle_logs-Writes :
      (m : HandlerMap)
      → AreRowHandlers m
      → (ls : List Log) → LogsUpTo n ls
      → Writes chain n (handle_logs m chain ls)
  unfolding handle_logs
  handle_logs-Writes m k [] p w e a = pure-Writes w e a
  handle_logs-Writes m k (l ∷ ls) p w e a = elim (Option-cases (collect (l ∷ ls) no_groups)) [
    | inl none_found ↦ rw (none_found, handle_logs) tt
    | inr (g, found) ↦
        rw (found, handle_logs)
          (dispatch-Writes m k g.groups (collect-UpTo (l ∷ ls) no_groups g p tt found) w e a)
  ]
