-- ===== src/Base/Table.antt =====
-- A table of a relational database as a list of rows, with the statements that the stores send:
-- `INSERT ... ON CONFLICT DO NOTHING`, `DELETE ... WHERE`, and `SELECT ... WHERE` on a key.
use mathlib.Core.Path.{◌≡◌, refl}
use mathlib.Core.Logic.{inl, inr}
use mathlib.Core.Bool.{Bool, true, false}
use mathlib.Core.List.{List, [], ◌∷◌}
use mathlib.Core.Option.{Option, none, some}
use native.Mathlib.Omega.{arith}
use cca_go_indexer.Base.Tests.{if◌then◌else◌, Bool-cases, Option-cases}
use cca_go_indexer.Base.Lists.{All}

module _ {ℓ} {R : Type ℓ} where
  -- The first row that the condition selects.
  abbrev pub find : (R → Bool) → List R → Option R
  find p [] = none
  find p (r ∷ t) = if p r then some r else find p t

  -- A row goes in unless a row that conflicts with it is there.
  abbrev pub insert_unless : Option R → R → List R → List R
  insert_unless none r t = r ∷ t
  insert_unless (some _) r t = t

  abbrev pub insert_new : (R → Bool) → R → List R → List R
  insert_new conflicts r t = insert_unless (find conflicts t) r t

  abbrev pub delete_where : (R → Bool) → List R → List R
  delete_where p [] = []
  delete_where p (r ∷ t) = let rest = delete_where p t in if p r then rest else r ∷ rest

  -- `INSERT ... ON CONFLICT DO UPDATE`: the row replaces the one that it conflicts with.
  abbrev pub upsert : (R → Bool) → R → List R → List R
  upsert conflicts r [] = r ∷ []
  upsert conflicts r (s ∷ t) = if conflicts s then r ∷ t else s ∷ upsert conflicts r t

module _ {ℓ} {R : Type ℓ} where
  pub find-delete_where_kept :
      (p q : R → Bool)
      → ((r : R) → p r ≡ true → q r ≡ false)
      → (t : List R) → find p (delete_where q t) ≡ find p t
  find-delete_where_kept p q h [] = refl
  find-delete_where_kept p q h (r ∷ t) = ground (arith, h r, find-delete_where_kept p q h t)

  pub find-delete_where_gone :
      (p q : R → Bool)
      → ((r : R) → p r ≡ true → q r ≡ true)
      → (t : List R) → find p (delete_where q t) ≡ none
  find-delete_where_gone p q h [] = refl
  find-delete_where_gone p q h (r ∷ t) = ground (arith, h r, find-delete_where_gone p q h t)

  -- A deletion keeps a found row that it does not select.
  pub find-delete_where-some :
      (p q : R → Bool) (r : R)
      → q r ≡ false
      → (t : List R) → find p t ≡ some r
      → find p (delete_where q t) ≡ some r
  find-delete_where-some p q r h [] e = e
  find-delete_where-some p q r h (s ∷ t) e = ground (arith, find-delete_where-some p q r h t)

  pub find-insert_new_self :
      (p : R → Bool) (r : R)
      → p r ≡ true
      → (t : List R) → find p t ≡ none
      → find p (insert_new p r t) ≡ some r
  find-insert_new_self p r h t e = rw (e, find) (rw h)

  -- A condition that the row does not meet selects what it selected.
  pub find-insert_new_other :
      (p q : R → Bool) (r : R) → p r ≡ false → (t : List R) → find p (insert_new q r t) ≡ find p t
  find-insert_new_other p q r h t = elim (Option-cases (find q t)) [
    | inl e ↦ rw (e, find) (rw h)
    | inr (s, e) ↦ rw (e, find)
  ]

  pub find-insert_new_same :
      (p : R → Bool) (r s : R) (t : List R) → find p t ≡ some s → find p (insert_new p r t) ≡ some s
  find-insert_new_same p r s t e = rw (e, find, insert_unless) e

  pub find-upsert_self :
      (p : R → Bool) (r : R) → p r ≡ true → (t : List R) → find p (upsert p r t) ≡ some r
  find-upsert_self p r h [] = ground arith
  find-upsert_self p r h (s ∷ t) = ground (arith, find-upsert_self p r h t)

  pub find-upsert_other :
      (p q : R → Bool) (r : R)
      → p r ≡ false
      → ((s : R) → q s ≡ true → p s ≡ false)
      → (t : List R) → find p (upsert q r t) ≡ find p t
  find-upsert_other p q r h k [] = ground arith
  find-upsert_other p q r h k (s ∷ t) = ground (arith, k s, find-upsert_other p q r h k t)

  pub All-delete_where {κ} :
      (P : R → Type κ) (q : R → Bool) (t : List R) → All P t → All P (delete_where q t)
  All-delete_where P q [] h = tt
  All-delete_where P q (r ∷ t) h = elim (Bool-cases (q r)) [
    | inl e ↦ rw (e, delete_where) (All-delete_where P q t h.1)
    | inr e ↦ rw (e, delete_where) (h.0, All-delete_where P q t h.1)
  ]

  -- What a deletion leaves does not meet its condition.
  pub All-delete_where_rest {κ} :
      (P : R → Type κ) (q : R → Bool)
      → ((r : R) → q r ≡ false → P r)
      → (t : List R) → All P (delete_where q t)
  All-delete_where_rest P q h [] = tt
  All-delete_where_rest P q h (r ∷ t) = elim (Bool-cases (q r)) [
    | inl e ↦ rw (e, delete_where) (All-delete_where_rest P q h t)
    | inr e ↦ rw (e, delete_where) (h r e, All-delete_where_rest P q h t)
  ]

  -- A row that is deleted afterwards might as well not have gone in.
  pub delete_where-insert_new :
      (p q : R → Bool) (r : R)
      → q r ≡ true
      → (t : List R) → delete_where q (insert_new p r t) ≡ delete_where q t
  delete_where-insert_new p q r h t = elim (Option-cases (find p t)) [
    | inl e ↦ rw (e, insert_unless, h) refl
    | inr (s, e) ↦ rw (e, insert_unless) refl
  ]

  pub delete_where_none :
      (q : R → Bool) (t : List R) → All (λ r. q r ≡ false) t → delete_where q t ≡ t
  delete_where_none q [] h = refl
  delete_where_none q (r ∷ t) h = rw (h.0, delete_where_none q t h.1) refl

  pub All-insert_new {κ} :
      (P : R → Type κ) (p : R → Bool) (r : R)
      → P r
      → (t : List R) → All P t
      → All P (insert_new p r t)
  All-insert_new P p r h t k = elim (Option-cases (find p t)) [
    | inl e ↦ rw (e, insert_unless) (h, k)
    | inr (s, e) ↦ rw (e, insert_unless) k
  ]
