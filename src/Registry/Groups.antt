-- ===== src/Registry/Groups.antt =====
-- How `HandleLogs` groups a batch (internal/indexer/handler.go), against a plain description: the
-- topics in the order of their first logs, each with its logs in their order.
use cca_go_indexer.Base.{
  ℕ, suc, ◌≡◌, refl, ap, ap₂, sym, ◌∙◌, inl, inr, true, false, Option, none, some, List, [], ◌∷◌,
  ◌++◌, map, arith, ◌==◌, Bool-cases, if◌then◌else◌,
}
use mathlib.Core.List.{append-nil}
use cca_go_indexer.Registry.{Group, append_log}
use cca_go_indexer.Types.{Hash, Log}

-- A log and its first topic.
abbrev pub Tagged : Type 0
Tagged = Hash × Log

-- The logs of a topic, in order.
unfoldable pub logs_with : Hash → List Tagged → List Log
logs_with t [] = []
logs_with t (l ∷ ls) = if l.0 == t then l.1 ∷ logs_with t ls else logs_with t ls

abbrev pub shift : Option ℕ → Option ℕ
shift none = none
shift (some i) = some (suc i)

pub shift-none : (o : Option ℕ) → shift o ≡ none → o ≡ none
shift-none none e = refl
shift-none (some i) e = cc

shift-some : (o : Option ℕ) (i : ℕ) → shift o ≡ some i → (j : ℕ) × (i ≡ suc j) × (o ≡ some j)
shift-some none i e = cc
shift-some (some j) i e = (j, ground arith, refl)

-- Where a topic stands first in a list.
unfoldable pub position : Hash → List Hash → Option ℕ
position t [] = none
position t (u ∷ us) = if u == t then some 0 else shift (position t us)

abbrev pub add_topic_at : Option ℕ → Hash → List Hash → List Hash
add_topic_at none t ts = ts ++ t ∷ []
add_topic_at (some i) t ts = ts

-- The topics, each where it is met first, after those of `ts`.
unfoldable pub topics_after : List Hash → List Tagged → List Hash
unfolding position
topics_after ts [] = ts
topics_after ts (l ∷ ls) = topics_after (add_topic_at (position l.0 ts) l.0 ts) ls

abbrev pub group_of : List Tagged → Hash → Group
group_of ls t = record { topic = t; logs = logs_with t ls }

-- The groups of a batch.
unfoldable pub groups_of : List Tagged → List Group
groups_of ls = map (group_of ls) (topics_after [] ls)

-- No topic is there twice.
abbrev pub IsDistinct : List Hash → Type 0
IsDistinct [] = Unit
IsDistinct (t ∷ ts) = (position t ts ≡ none) × IsDistinct ts

pub logs_with-append :
    (t : Hash) (ls : List Tagged) (l : Tagged)
    → logs_with t (ls ++ l ∷ []) ≡ logs_with t ls ++ (if l.0 == t then l.1 ∷ [] else [])
unfolding logs_with
logs_with-append t [] l = ground arith
logs_with-append t (k ∷ ls) l = elim (Bool-cases (k.0 == t)) [
  | inl e ↦ rw e (ap (◌∷◌ k.1) (logs_with-append t ls l))
  | inr e ↦ rw e (logs_with-append t ls l)
]

-- A log of another topic does not change a group.
pub group_of-ne :
    (ls : List Tagged) (l : Tagged) (t : Hash)
    → (l.0 == t) ≡ false
    → group_of (ls ++ l ∷ []) t ≡ group_of ls t
group_of-ne ls l t h =
    ap (λ k. record { topic = t; logs = k })
      (logs_with-append t ls l ∙ rw h (append-nil (logs_with t ls)))

group_of-same :
    (ls : List Tagged) (l : Tagged) (t : Hash)
    → (l.0 == t) ≡ true
    → record { topic = t; logs = logs_with t ls ++ l.1 ∷ [] } ≡ group_of (ls ++ l ∷ []) t
group_of-same ls l t h =
    ap (λ k. record { topic = t; logs = k }) (sym (logs_with-append t ls l ∙ rw h))

pub groups-absent :
    (ls : List Tagged) (l : Tagged) (ts : List Hash)
    → position l.0 ts ≡ none
    → map (group_of (ls ++ l ∷ [])) ts ≡ map (group_of ls) ts
unfolding position
groups-absent ls l [] h = refl
groups-absent ls l (t ∷ ts) h = elim (Bool-cases (t == l.0)) [
  | inl e ↦ cc (rw e at h)
  | inr e ↦
      ap₂ ◌∷◌ (group_of-ne ls l t (ground arith))
        (groups-absent ls l ts (shift-none (position l.0 ts) (rw e at h)))
]

pub append_log-groups :
    (ls : List Tagged) (l : Tagged) (ts : List Hash) (i : ℕ)
    → IsDistinct ts
    → position l.0 ts ≡ some i
    → append_log (map (group_of ls) ts) i l.1 ≡ map (group_of (ls ++ l ∷ [])) ts
unfolding position append_log
append_log-groups ls l [] i d h = cc
append_log-groups ls l (t ∷ ts) i d h = elim (Bool-cases (t == l.0)) [
  | inl e ↦
      let first : i ≡ 0 = ground arith in
      let same : t ≡ l.0 = ground arith in
      rw first (
        ap₂ ◌∷◌ (group_of-same ls l t (ground arith))
          (sym (groups-absent ls l ts (ap (λ u. position u ts) (sym same) ∙ d.0))))
  | inr e ↦
      let (j, next, found) = shift-some (position l.0 ts) i (rw e at h) in
      rw next
        (ap₂ ◌∷◌ (sym (group_of-ne ls l t (ground arith))) (append_log-groups ls l ts j d.1 found))
]
