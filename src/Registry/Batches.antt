-- ===== src/Registry/Batches.antt =====
-- That the grouping loop of `HandleLogs` makes the groups of the plain description, and stops at a log
-- without topics (internal/indexer/handler.go).
use cca_go_indexer.Base.{
  ℕ, ◌≡◌, refl, ap, sym, ◌∙◌, ◌⊎◌, inl, inr, Option, none, some, List, [], ◌∷◌, ◌++◌, arith,
}
use mathlib.Core.Path.{subst}
use mathlib.Core.List.{append_assoc, append-nil}
use cca_go_indexer.Base.Effect.{err}
use cca_go_indexer.Registry.{
  HandlerMap, Grouping, add_log, collect, first_topic, no_groups, dispatch, handle_logs,
}
use cca_go_indexer.Registry.Groups.{Tagged, position, add_topic_at, topics_after, groups_of}
use cca_go_indexer.Types.{Hash, Log}
use cca_go_indexer.World.Calls.{World}
use cca_go_indexer.World.Errors.{no_topics}
use cca_go_indexer.Registry.Collect.{IsGrouped, start-IsGrouped, add_log-IsGrouped}

abbrev tag_next : Option Hash → Log → Option (List Tagged) → Option (List Tagged)
tag_next none l rest = none
tag_next (some t) l none = none
tag_next (some t) l (some rest) = some ((t, l) ∷ rest)

-- Every log with its first topic; no value if one has none.
unfoldable pub tag_all : List Log → Option (List Tagged)
tag_all [] = some []
tag_all (l ∷ ls) = tag_next (first_topic l) l (tag_all ls)

tag_next-some :
    (o : Option Hash) (l : Log) (r : Option (List Tagged)) (ts : List Tagged)
    → tag_next o l r ≡ some ts
    → (t : Hash) × (rest : List Tagged) × (o ≡ some t) × (r ≡ some rest) × (ts ≡ (t, l) ∷ rest)
tag_next-some none l r ts e = cc
tag_next-some (some t) l none ts e = cc
tag_next-some (some t) l (some rest) ts e = (t, rest, refl, refl, ground arith)

tag_next-none :
    (o : Option Hash) (l : Log) (r : Option (List Tagged))
    → tag_next o l r ≡ none
    → (o ≡ none) ⊎ ((t : Hash) × (o ≡ some t) × (r ≡ none))
tag_next-none none l r e = inl refl
tag_next-none (some t) l none e = inr (t, refl, refl)
tag_next-none (some t) l (some rest) e = cc

collect-cons :
    (l : Log) (ls : List Log) (g : Grouping) (t : Hash)
    → first_topic l ≡ some t
    → collect (l ∷ ls) g ≡ collect ls (add_log t l g)
unfolding collect
collect-cons l ls g t e = rw (e, collect)

tag_all-nil : (tagged : List Tagged) → tag_all [] ≡ some tagged → [] ≡ tagged
unfolding tag_all
tag_all-nil tagged e = ground arith

collect-IsGrouped :
    (ls : List Log) (done tagged : List Tagged) (ts : List Hash) (g : Grouping)
    → IsGrouped done ts g
    → tag_all ls ≡ some tagged
    → (g' : Grouping) × (collect ls g ≡ some g')
      × IsGrouped (done ++ tagged) (topics_after ts tagged) g'
unfolding collect tag_all topics_after
collect-IsGrouped [] done tagged ts g p e =
    let none_left : [] ≡ tagged = ground arith in
    (
      g,
      refl,
      subst (λ k. IsGrouped (done ++ k) (topics_after ts k) g) none_left (rw (append-nil done) p),
    )
collect-IsGrouped (l ∷ ls) done tagged ts g p e =
    let (t, rest, first, others, split) = tag_next-some (first_topic l) l (tag_all ls) tagged e in
    let (g', run, grouped) =
      collect-IsGrouped ls (done ++ (t, l) ∷ []) rest (add_topic_at (position t ts) t ts)
        (add_log t l g) (add_log-IsGrouped done (t, l) ts g p) others in
    (
      g',
      collect-cons l ls g t first ∙ run,
      subst (λ k. IsGrouped (done ++ k) (topics_after ts k) g') (sym split)
          (subst (λ k. IsGrouped k (topics_after (add_topic_at (position t ts) t ts) rest) g')
            (append_assoc done ((t, l) ∷ []) rest) grouped),
    )

collect-none : (ls : List Log) (g : Grouping) → tag_all ls ≡ none → collect ls g ≡ none
unfolding collect tag_all
collect-none [] g e = cc
collect-none (l ∷ ls) g e = elim (tag_next-none (first_topic l) l (tag_all ls) e) [
  | inl missing ↦ rw (missing, collect) refl
  | inr (t, first, others) ↦ collect-cons l ls g t first ∙ collect-none ls (add_log t l g) others
]

-- A batch in which every log has a topic is dispatched by its groups: the topics in the order in which
-- they are met first, each with all of its logs, in their order. With a log without topics it fails
-- before any handler is called.
pub handle_logs-groups_of :
    (m : HandlerMap) (chain : ℕ) (ls : List Log) (w : World)
    → (tag_all ls ≡ none → handle_logs m chain ls w ≡ (err no_topics, w))
      × ((tagged : List Tagged)
          → tag_all ls ≡ some tagged
          → handle_logs m chain ls w ≡ dispatch m chain (groups_of tagged) w)
unfolding handle_logs
handle_logs-groups_of m chain [] w = (
  λ e. unfold tag_all in cc,
  λ tagged e.
      subst (λ k. handle_logs m chain [] w ≡ dispatch m chain (groups_of k) w)
        (tag_all-nil tagged e) (unfold dispatch groups_of topics_after in refl),
)
handle_logs-groups_of m chain (l ∷ ls) w = (
  λ e. rw (collect-none (l ∷ ls) no_groups e, handle_logs),
  λ tagged e.
      let (g, run, grouped) = collect-IsGrouped (l ∷ ls) [] tagged [] no_groups start-IsGrouped e in
      rw (run, handle_logs) (unfold groups_of in ap (λ gs. dispatch m chain gs w) grouped.groups),
)
