-- ===== src/Strconv.antt =====
-- `strconv.ParseUint` and `strconv.ParseInt` in base 10 for 64 bits, with `strconv.Atoi`, which is the
-- latter where `int` has 64 bits; and their agreement with `big.Int`.
use cca_go_indexer.Base.{
  ℕ, zero, suc, ◌+◌, ◌-◌, ◌*◌, ◌<◌, ◌≤◌, ◌≡◌, ◌↔◌, refl, ap, sym, inl, inr, true, Option, none,
  some, [], ◌∷◌, arith, ltb, leb, ◌==◌, Bool-cases, if◌then◌else◌,
}
use mathlib.Core.Path.{subst}
use cca_go_indexer.Base.Effect.{Result, ok, err}
use cca_go_indexer.BigInt.{ℤ, pos, negsuc, is_digit, negate, read_on, read_digits, set_string}
use cca_go_indexer.Text.{Text}

-- `strconv.ErrSyntax` and `strconv.ErrRange`
pub data NumError : Type 0 where
  not_a_number out_of_range : NumError

-- The loop of `ParseUint`, with the value that the digits before have.
unfoldable pub uint_on : ℕ → Text → Result NumError ℕ
unfolding is_digit
uint_on acc [] = ok acc
uint_on acc (c ∷ s) =
    let n = acc * 10 + (c - b'0') in
    let rest = uint_on n s in
    if is_digit c
    then (if ltb n 18446744073709551616 then rest else err out_of_range)
    else err not_a_number

unfoldable pub parse_uint : Text → Result NumError ℕ
unfolding uint_on
parse_uint [] = err not_a_number
parse_uint (c ∷ s) = uint_on 0 (c ∷ s)

unfoldable pub positive : Result NumError ℕ → Result NumError ℤ
positive (ok n) = if ltb n 9223372036854775808 then ok (pos n) else err out_of_range
positive (err e) = err e

unfoldable pub negative : Result NumError ℕ → Result NumError ℤ
unfolding negate
negative (ok n) = if leb n 9223372036854775808 then ok (negate n) else err out_of_range
negative (err e) = err e

unfoldable pub parse_int : Text → Result NumError ℤ
unfolding parse_uint positive negative
parse_int [] = err not_a_number
parse_int (c ∷ s) =
    if c == b'-'
    then negative (parse_uint s)
    else positive (parse_uint (if c == b'+' then s else c ∷ s))

abbrev pub IsUint64 : ℕ → Type 0
IsUint64 n = n < 18446744073709551616

abbrev pub IsInt64 : ℤ → Type 0
IsInt64 (pos n) = n < 9223372036854775808
IsInt64 (negsuc n) = n < 9223372036854775808

-- What a text reads as without a bound is never below what was read so far.
read_on_grows : (acc n : ℕ) (s : Text) → read_on acc s ≡ some n → acc ≤ n
unfolding read_on
read_on_grows acc n [] e = ground arith
read_on_grows acc n (c ∷ s) e = elim (Bool-cases (is_digit c)) [
  | inl d ↦
      let here : read_on (acc * 10 + (c - b'0')) s ≡ some n = ground arith in
      let above = read_on_grows (acc * 10 + (c - b'0')) n s here in omega arith
  | inr d ↦ ground arith
]

uint_on-ok :
    (acc n : ℕ) (s : Text)
    → IsUint64 acc
    → uint_on acc s ≡ ok n
    → (read_on acc s ≡ some n) × IsUint64 n
unfolding uint_on read_on
uint_on-ok acc n [] h e = ground arith
uint_on-ok acc n (c ∷ s) h e = elim (Bool-cases (is_digit c)) [
  | inl d ↦ elim (Bool-cases (ltb (acc * 10 + (c - b'0')) 18446744073709551616)) [
    | inl small ↦
        let here : uint_on (acc * 10 + (c - b'0')) s ≡ ok n = ground arith in
        rw d (uint_on-ok (acc * 10 + (c - b'0')) n s (ground arith) here)
    | inr big ↦ ground arith
  ]
  | inr d ↦ ground arith
]

read_on-uint_on :
    (acc n : ℕ) (s : Text) → IsUint64 n → read_on acc s ≡ some n → uint_on acc s ≡ ok n
unfolding uint_on read_on
read_on-uint_on acc n [] h e = ground arith
read_on-uint_on acc n (c ∷ s) h e = elim (Bool-cases (is_digit c)) [
  | inl d ↦
      let here : read_on (acc * 10 + (c - b'0')) s ≡ some n = ground arith in
      let above = read_on_grows (acc * 10 + (c - b'0')) n s here in
      let small : ltb (acc * 10 + (c - b'0')) 18446744073709551616 ≡ true = ground arith in
      rw (d, small) (read_on-uint_on (acc * 10 + (c - b'0')) n s h here)
  | inr d ↦ ground arith
]

-- `ParseUint` reads the unsigned number that the text writes, if it has 64 bits.
pub parse_uint_iff :
    (s : Text) (n : ℕ) → (parse_uint s ≡ ok n) ↔ ((read_digits s ≡ some n) × IsUint64 n)
unfolding parse_uint read_digits
parse_uint_iff [] n = (λ e. ground arith, λ h. ground (arith, h))
parse_uint_iff (c ∷ s) n =
    (λ e. uint_on-ok 0 n (c ∷ s) (omega arith) e, λ h. read_on-uint_on 0 n (c ∷ s) h.1 h.0)

positive-ok :
    (r : Result NumError ℕ) (z : ℤ)
    → positive r ≡ ok z
    → (n : ℕ) × (r ≡ ok n) × (n < 9223372036854775808) × (z ≡ pos n)
unfolding positive
positive-ok (ok n) z e = elim (Bool-cases (ltb n 9223372036854775808)) [
  | inl h ↦ (n, refl, ground arith, ground arith)
  | inr h ↦ ground arith
]
positive-ok (err x) z e = ground arith

negative-ok :
    (r : Result NumError ℕ) (z : ℤ)
    → negative r ≡ ok z
    → (n : ℕ) × (r ≡ ok n) × (n ≤ 9223372036854775808) × (z ≡ negate n)
unfolding negative
negative-ok (ok n) z e = elim (Bool-cases (leb n 9223372036854775808)) [
  | inl h ↦ (n, refl, ground arith, ground arith)
  | inr h ↦ ground arith
]
negative-ok (err x) z e = ground arith

negate-IsInt64 : (n : ℕ) → n ≤ 9223372036854775808 → IsInt64 (negate n)
unfolding negate
negate-IsInt64 zero h = omega arith
negate-IsInt64 (suc n) h = omega arith

IsInt64-negate : (n : ℕ) → IsInt64 (negate n) → n ≤ 9223372036854775808
unfolding negate
IsInt64-negate zero h = omega arith
IsInt64-negate (suc n) h = omega arith

-- What the cases of `set_string` do with the digits.
abbrev signed : (ℕ → ℤ) → Option ℕ → Option ℤ
signed f o = elim o [ none ↦ none | some n ↦ some (f n) ]

signed-some :
    (f : ℕ → ℤ) (o : Option ℕ) (z : ℤ) → signed f o ≡ some z → (n : ℕ) × (o ≡ some n) × (f n ≡ z)
signed-some f none z e = ground arith
signed-some f (some n) z e = (n, refl, ground arith)

positive_iff :
    (s : Text) (z : ℤ)
    → (positive (parse_uint s) ≡ ok z) ↔ ((signed pos (read_digits s) ≡ some z) × IsInt64 z)
positive_iff s z = (
  λ e.
      let (n, read, h, same) = positive-ok (parse_uint s) z e in
      let digits = (parse_uint_iff s n).0 read in rw (same, digits.0) (refl, h),
  λ (e, h).
      let (n, read, same) = signed-some pos (read_digits s) z e in
      let bound : n < 9223372036854775808 = subst IsInt64 (sym same) h in
      let small : ltb n 9223372036854775808 ≡ true = ground arith in
      let parsed = (parse_uint_iff s n).1 (read, omega arith) in
      unfold positive in rw (parsed, small) (ap ok same),
)

negative_iff :
    (s : Text) (z : ℤ)
    → (negative (parse_uint s) ≡ ok z) ↔ ((signed negate (read_digits s) ≡ some z) × IsInt64 z)
negative_iff s z = (
  λ e.
      let (n, read, h, same) = negative-ok (parse_uint s) z e in
      let digits = (parse_uint_iff s n).0 read in rw (same, digits.0) (refl, negate-IsInt64 n h),
  λ (e, h).
      let (n, read, same) = signed-some negate (read_digits s) z e in
      let bound = IsInt64-negate n (subst IsInt64 (sym same) h) in
      let small : leb n 9223372036854775808 ≡ true = ground arith in
      let parsed = (parse_uint_iff s n).1 (read, omega arith) in
      unfold negative in rw (parsed, small) (ap ok same),
)

-- `ParseInt` reads the integer that `big.Int` reads, if it has 64 bits.
pub parse_int_iff :
    (s : Text) (z : ℤ) → (parse_int s ≡ ok z) ↔ ((set_string s ≡ some z) × IsInt64 z)
unfolding parse_int set_string
parse_int_iff [] z = (λ e. ground arith, λ h. ground (arith, h))
parse_int_iff (c ∷ s) z = elim (Bool-cases (c == b'-')) [
  | inl minus ↦ rw minus (negative_iff s z)
  | inr other ↦ rw other (positive_iff (if c == b'+' then s else c ∷ s) z)
]
