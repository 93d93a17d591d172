-- ===== src/BigInt.antt =====
-- `*big.Int` of Go's standard library: `String` and `SetString` in base 10.
use cca_go_indexer.Base.{
  ℕ, zero, suc, ◌+◌, ◌-◌, ◌*◌, ◌/◌, ◌%◌, ◌<◌, ◌≡◌, refl, sym, Bool, true, false, ◌&&◌, Option, none,
  some, [], ◌∷◌, ◌++◌, arith, ltb, leb, ◌==◌, if◌then◌else◌, inl, inr, Bool-cases, ap, ◌∙◌,
}
use cca_go_indexer.Text.{Text}
use mathlib.Core.List.{append_assoc, append-nil}

-- `negsuc n` is -(n + 1).
pub data ℤ : Type 0 where
  pos : ℕ → ℤ
  negsuc : ℕ → ℤ

-- The digits of a number, on fuel that a number's successor is enough of.
digits_on : ℕ → ℕ → Text
digits_on zero n = []
digits_on (suc fuel) n =
    let rest = digits_on fuel (n / 10) in
    if ltb n 10 then (b'0' + n) ∷ [] else rest ++ (b'0' + n % 10) ∷ []

unfoldable pub digits : ℕ → Text
unfolding digits_on
digits n = digits_on (suc n) n

-- `x.String()`
unfoldable pub to_string : ℤ → Text
unfolding digits
to_string (pos n) = digits n
to_string (negsuc n) = b'-' ∷ digits (suc n)

unfoldable pub is_digit : ℕ → Bool
is_digit c = leb b'0' c && leb c b'9'

unfoldable pub read_on : ℕ → Text → Option ℕ
unfolding is_digit
read_on acc [] = some acc
read_on acc (c ∷ s) =
    let rest = read_on (acc * 10 + (c - b'0')) s in if is_digit c then rest else none

-- One digit or more.
unfoldable pub read_digits : Text → Option ℕ
unfolding read_on
read_digits [] = none
read_digits (c ∷ s) = read_on 0 (c ∷ s)

unfoldable pub negate : ℕ → ℤ
negate zero = pos 0
negate (suc n) = negsuc n

-- `new(big.Int).SetString(s, 10)`
unfoldable pub set_string : Text → Option ℤ
unfolding read_digits negate
set_string [] = none
set_string (c ∷ s) =
    if c == b'-'
    then elim (read_digits s) [ none ↦ none | some n ↦ some (negate n) ]
    else elim (read_digits (if c == b'+' then s else c ∷ s)) [ none ↦ none | some n ↦ some (pos n) ]

read_on-digit :
    (acc n : ℕ) (t : Text) → n < 10 → read_on acc ((b'0' + n) ∷ t) ≡ read_on (acc * 10 + n) t
unfolding read_on
read_on-digit acc n t h = let e : b'0' + n - b'0' ≡ n = omega arith in rw e (ground arith)

read_on-digits_on :
    (fuel n : ℕ) (t : Text) → n < fuel → read_on 0 (digits_on fuel n ++ t) ≡ read_on n t
unfolding digits_on
read_on-digits_on zero n t h = elim h [ ]
read_on-digits_on (suc fuel) n t h = elim (Bool-cases (ltb n 10)) [
  | inl small ↦ rw small (read_on-digit 0 n t (ground arith) ∙ ap (λ k. read_on k t) (omega arith))
  | inr big ↦
      rw (big, append_assoc (digits_on fuel (n / 10)) ((b'0' + n % 10) ∷ []) t)
        (read_on-digits_on fuel (n / 10) ((b'0' + n % 10) ∷ t) (ground arith)
          ∙ read_on-digit (n / 10) (n % 10) t (omega arith)
          ∙ ap (λ k. read_on k t) (omega arith))
]

-- A number's text begins with a digit.
digits_on-head :
    (fuel n : ℕ) → (c : ℕ) × (s : Text) × (digits_on (suc fuel) n ≡ c ∷ s) × (is_digit c ≡ true)
unfolding digits_on is_digit
digits_on-head zero n = elim (Bool-cases (ltb n 10)) [
  | inl small ↦ (b'0' + n, [], rw small, ground arith)
  | inr big ↦ (b'0' + n % 10, [], rw big, ground arith)
]
digits_on-head (suc fuel) n = elim (Bool-cases (ltb n 10)) [
  | inl small ↦ (b'0' + n, [], rw small, ground arith)
  | inr big ↦
      let (c, s, e, d) = digits_on-head fuel (n / 10) in
      (c, s ++ (b'0' + n % 10) ∷ [], rw (big, e), d)
]

read_digits-cons : (c : ℕ) (s t : Text) → t ≡ c ∷ s → read_digits t ≡ read_on 0 t
unfolding read_digits
read_digits-cons c s t e = rw e

pub read_digits-digits : (n : ℕ) → read_digits (digits n) ≡ some n
unfolding digits
read_digits-digits n =
    let (c, s, e, d) = digits_on-head n n in
    read_digits-cons c s (digits_on (suc n) n) e
    ∙ ap (read_on 0) (sym (append-nil (digits_on (suc n) n)))
    ∙ read_on-digits_on (suc n) n [] (omega arith)
    ∙ unfold read_on in refl

set_string-digit :
    (c : ℕ) (s : Text)
    → is_digit c ≡ true
    → set_string (c ∷ s) ≡ elim (read_digits (c ∷ s)) [ none ↦ none | some n ↦ some (pos n) ]
unfolding set_string is_digit
set_string-digit c s d =
    let minus : (c == b'-') ≡ false = ground arith in
    let plus : (c == b'+') ≡ false = ground arith in rw (minus, plus)

pub digits-head : (n : ℕ) → (c : ℕ) × (s : Text) × (digits n ≡ c ∷ s) × (is_digit c ≡ true)
unfolding digits
digits-head n = digits_on-head n n

set_string-digits : (n : ℕ) → set_string (digits n) ≡ some (pos n)
set_string-digits n =
    let (c, s, e, d) = digits-head n in
    let r : read_digits (c ∷ s) ≡ some n = ap read_digits (sym e) ∙ read_digits-digits n in
    ap set_string e ∙ set_string-digit c s d ∙ rw r

-- What `String` prints, `SetString` reads back.
pub set_string-to_string : (z : ℤ) → set_string (to_string z) ≡ some z
unfolding to_string
set_string-to_string (pos n) = set_string-digits n
set_string-to_string (negsuc n) = unfold set_string negate in rw (read_digits-digits (suc n))
