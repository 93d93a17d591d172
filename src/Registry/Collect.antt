-- ===== src/Registry/Collect.antt =====
-- What holds of the variables of `HandleLogs`'s grouping loop after each log
-- (internal/indexer/handler.go).
use cca_go_indexer.Base.{
  ℕ, suc, ◌≡◌, refl, ap, ap₂, sym, ◌∙◌, inl, inr, false, none, some, List, [], ◌∷◌, ◌++◌, map,
  arith, length, ◌==◌, Bool-cases, Option-cases, if◌then◌else◌, ==_self,
}
use mathlib.Core.List.{map-append}
use cca_go_indexer.Registry.{Grouping, lookup_index, append_log, add_at, add_log, no_groups}
use cca_go_indexer.Registry.Groups.{
  Tagged, logs_with, position, shift, shift-none, add_topic_at, group_of, IsDistinct,
  append_log-groups, groups-absent, logs_with-append,
}
use cca_go_indexer.Types.{Hash}

-- What the loop's variables are after the logs `ls`, with the topics `ts`.
pub record IsGrouped (ls : List Tagged) (ts : List Hash) (g : Grouping) : Type 0 where
  pub groups : g.groups ≡ map (group_of ls) ts
  pub index : (t : Hash) → lookup_index t g.order_index ≡ position t ts
  pub distinct : IsDistinct ts
  pub complete : (t : Hash) → position t ts ≡ none → logs_with t ls ≡ []

pub start-IsGrouped : IsGrouped [] [] no_groups
unfolding lookup_index position logs_with
start-IsGrouped = record { groups = refl; index = λ t. refl; distinct = tt; complete = λ t h. refl }

position-append_ne :
    (t u : Hash) (ts : List Hash) → (t == u) ≡ false → position u (ts ++ t ∷ []) ≡ position u ts
unfolding position
position-append_ne t u [] h = rw h
position-append_ne t u (v ∷ ts) h = rw (position-append_ne t u ts h)

position-append_self :
    (t : Hash) (ts : List Hash)
    → position t ts ≡ none
    → position t (ts ++ t ∷ []) ≡ some (length ts)
unfolding position
position-append_self t [] h = ground arith
position-append_self t (v ∷ ts) h = elim (Bool-cases (v == t)) [
  | inl e ↦ cc (rw e at h)
  | inr e ↦ rw e (ap shift (position-append_self t ts (shift-none (position t ts) (rw e at h))))
]

position-append-none :
    (t u : Hash) (ts : List Hash)
    → position u (ts ++ t ∷ []) ≡ none
    → (position u ts ≡ none) × ((t == u) ≡ false)
unfolding position
position-append-none t u [] h = elim (Bool-cases (t == u)) [
  | inl e ↦ cc (rw e at h)
  | inr e ↦ (refl, e)
]
position-append-none t u (v ∷ ts) h = elim (Bool-cases (v == u)) [
  | inl e ↦ cc (rw e at h)
  | inr e ↦
      let r = position-append-none t u ts (shift-none (position u (ts ++ t ∷ [])) (rw e at h)) in
      (rw (e, r.0), r.1)
]

IsDistinct-append :
    (t : Hash) (ts : List Hash) → IsDistinct ts → position t ts ≡ none → IsDistinct (ts ++ t ∷ [])
unfolding position
IsDistinct-append t [] d h = (refl, tt)
IsDistinct-append t (v ∷ ts) d h = elim (Bool-cases (v == t)) [
  | inl e ↦ cc (rw e at h)
  | inr e ↦ (
    position-append_ne t v ts (ground arith) ∙ d.0,
    IsDistinct-append t ts d.1 (shift-none (position t ts) (rw e at h)),
  )
]

length-map-groups : (ls : List Tagged) (ts : List Hash) → length (map (group_of ls) ts) ≡ length ts
length-map-groups ls [] = refl
length-map-groups ls (t ∷ ts) = ap suc (length-map-groups ls ts)

-- A log with a new topic makes a new group.
new-IsGrouped :
    (ls : List Tagged) (l : Tagged) (ts : List Hash) (g : Grouping)
    → IsGrouped ls ts g
    → position l.0 ts ≡ none
    → IsGrouped (ls ++ l ∷ []) (ts ++ l.0 ∷ []) (add_at none l.0 l.1 g)
unfolding add_at lookup_index
new-IsGrouped ls l ts g p new = record {
  groups =
      ap₂ ◌++◌ (p.groups ∙ sym (groups-absent ls l ts new)) (ap (λ k. k ∷ []) fresh)
      ∙ sym (map-append (group_of (ls ++ l ∷ [])) ts (l.0 ∷ []));
  index = index;
  distinct = IsDistinct-append l.0 ts p.distinct new;
  complete = λ t h.
      let r = position-append-none l.0 t ts h in
      logs_with-append t ls l ∙ rw (r.1, p.complete t r.0) refl;
}
  where
    fresh : record { topic = l.0; logs = l.1 ∷ [] } ≡ group_of (ls ++ l ∷ []) l.0
    fresh =
        ap (λ k. record { topic = l.0; logs = k })
          (sym (logs_with-append l.0 ls l ∙ rw (==_self l.0, p.complete l.0 new) refl))

    index :
        (t : Hash)
        → (if l.0 == t then some (length g.groups) else lookup_index t g.order_index)
          ≡ position t (ts ++ l.0 ∷ [])
    index t = elim (Bool-cases (l.0 == t)) [
      | inl e ↦
          let same : l.0 ≡ t = ground arith in
          rw e (
            ap some (ap length p.groups ∙ length-map-groups ls ts)
            ∙ sym (position-append_self l.0 ts new)
            ∙ ap (λ u. position u (ts ++ l.0 ∷ [])) same)
      | inr e ↦ rw e (p.index t ∙ sym (position-append_ne l.0 t ts e))
    ]

-- A log with a known topic goes to the end of its group.
known-IsGrouped :
    (ls : List Tagged) (l : Tagged) (ts : List Hash) (g : Grouping) (i : ℕ)
    → IsGrouped ls ts g
    → position l.0 ts ≡ some i
    → IsGrouped (ls ++ l ∷ []) ts (add_at (some i) l.0 l.1 g)
unfolding add_at
known-IsGrouped ls l ts g i p known = record {
  groups = ap (λ k. append_log k i l.1) p.groups ∙ append_log-groups ls l ts i p.distinct known;
  index = p.index;
  distinct = p.distinct;
  complete = λ t h. elim (Bool-cases (l.0 == t)) [
    | inl e ↦ let same : l.0 ≡ t = ground arith in cc (ap (λ u. position u ts) same)
    | inr e ↦ logs_with-append t ls l ∙ rw (e, p.complete t h) refl
  ];
}

pub add_log-IsGrouped :
    (ls : List Tagged) (l : Tagged) (ts : List Hash) (g : Grouping)
    → IsGrouped ls ts g
    → IsGrouped (ls ++ l ∷ []) (add_topic_at (position l.0 ts) l.0 ts) (add_log l.0 l.1 g)
unfolding add_log
add_log-IsGrouped ls l ts g p = elim (Option-cases (position l.0 ts)) [
  | inl e ↦ rw (p.index l.0, e) (new-IsGrouped ls l ts g p e)
  | inr (i, e) ↦ rw (p.index l.0, e) (known-IsGrouped ls l ts g i p e)
]
