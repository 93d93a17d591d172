-- ===== src/Transport/Backoff.antt =====
-- How long `RoundTrip` sleeps between its attempts (internal/eth/transport.go).
use cca_go_indexer.Base.{
  ℕ, zero, suc, ◌*◌, ◌^◌, ◌-◌, ◌<◌, ◌≡◌, refl, ap, Bool, true, false, Option, some, none, List, [],
  ◌∷◌, ◌++◌, All, arith, ltb, Bool-cases, Option-cases, inl, inr,
}
use cca_go_indexer.BigInt.{pos}
use cca_go_indexer.Transport.{
  Answer, failed, answered, Reply, nothing, Event, sent, slept, closed, Network, RetryConfig,
  is_retryable_status, on_answer, try_from, read_then, round_trip, delay_before,
}
use native.Mathlib.Numerals.{unary_clauses}

-- The delays of a run, before their jitter.
pub sleeps : List Event → List ℕ
sleeps [] = []
sleeps (slept d ∷ es) = d ∷ sleeps es
sleeps (sent n b ∷ es) = sleeps es
sleeps (closed n ∷ es) = sleeps es

-- Delays that begin with `d`, each twice the one before.
unfoldable pub doubled : ℕ → ℕ → List ℕ
doubled d zero = []
doubled d (suc count) = d ∷ doubled (2 * d) count

abbrev pub IsPrefix : List ℕ → List ℕ → Type 0
IsPrefix xs ys = (zs : List ℕ) × (xs ++ zs ≡ ys)

-- No delay has the sign bit of a `time.Duration`.
abbrev pub AreDurations : List ℕ → Type 0
AreDurations ds = All (λ d. d < 9223372036854775808) ds

power_suc : (n : ℕ) → 2 ^ suc n ≡ 2 ^ n * 2
power_suc n = simp unary_clauses

next_delay : (base n d : ℕ) → base * 2 ^ n ≡ d → base * 2 ^ suc n ≡ 2 * d
next_delay base n d e = grind (arith, power_suc n)

delay_before-small :
    (base n d : ℕ) → base * 2 ^ n ≡ d → d < 9223372036854775808 → delay_before base (suc n) ≡ d
delay_before-small base n d e h =
    let one_less : suc n - 1 ≡ n = omega arith in rw (one_less, e) (omega arith)

module _ (net : Network) (cfg : RetryConfig) (body : Option (List ℕ)) where
  on_answer-sleeps :
      (left attempt : ℕ) (a : Answer) (rest : Reply → Reply × List Event) (ds : List ℕ)
      → ((r : Reply) → IsPrefix (sleeps (rest r).1) ds)
      → IsPrefix (sleeps (on_answer net cfg body left attempt a rest).1) ds
  unfolding on_answer sleeps
  on_answer-sleeps left attempt failed rest ds h = h _
  on_answer-sleeps left attempt (answered status) rest ds h =
      elim (Bool-cases (is_retryable_status status)) [
        | inr e ↦ rw e (ds, refl)
        | inl e ↦ elim (Bool-cases (ltb 0 left)) [
          | inl k ↦ rw (e, k) (h _)
          | inr k ↦ rw (e, k) (h _)
        ]
      ]

  try_from-sleeps :
      (left n d : ℕ) (last : Reply)
      → cfg.base_delay * 2 ^ n ≡ d
      → AreDurations (doubled d left)
      → IsPrefix (sleeps (try_from net cfg body left (suc n) last).1) (doubled d left)
  unfolding try_from sleeps doubled
  try_from-sleeps zero n d last e small = ([], refl)
  try_from-sleeps (suc left) n d last e small =
      let delay = delay_before-small cfg.base_delay n d e small.0 in
      elim (Bool-cases (net.sleep_canceled (suc n))) [
        | inl cut ↦ rw (cut, delay) (doubled (2 * d) left, refl)
        | inr whole ↦
            let (zs, rest) =
              on_answer-sleeps left (suc n) (net.answer_to (suc n))
                (try_from net cfg body left (suc (suc n))) (doubled (2 * d) left)
                (λ r.
                  try_from-sleeps left (suc n) (2 * d) r (next_delay cfg.base_delay n d e)
                    small.1) in
            rw (whole, delay) (zs, ap (λ ds. d ∷ ds) rest)
      ]

  -- The first attempt does not sleep.
  first_sleeps :
      (m : ℕ)
      → AreDurations (doubled cfg.base_delay m)
      → IsPrefix (sleeps (try_from net cfg body (suc m) zero nothing).1) (doubled cfg.base_delay m)
  unfolding try_from sleeps
  first_sleeps m small =
      on_answer-sleeps m zero (net.answer_to zero) (try_from net cfg body m 1)
        (doubled cfg.base_delay m)
        (λ r. try_from-sleeps m zero cfg.base_delay r (omega arith) small)

-- With `m` retries, whose delays fit into a duration, the delays of a run, before their jitter, are the
-- first ones of the base delay, its double, and so on, `m` in all: each is twice the one before.
pub round_trip-IsPrefix :
    (net : Network) (cfg : RetryConfig) (has_body : Bool) (m : ℕ)
    → cfg.max_retries ≡ pos m
    → AreDurations (doubled cfg.base_delay m)
    → IsPrefix (sleeps (round_trip net cfg has_body).1) (doubled cfg.base_delay m)
unfolding round_trip read_then sleeps
round_trip-IsPrefix net cfg true m e small = elim (Option-cases net.read_body) [
  | inl none_read ↦ rw none_read (doubled cfg.base_delay m, refl)
  | inr (bytes, read) ↦ rw (read, e) (first_sleeps net cfg (some bytes) m small)
]
round_trip-IsPrefix net cfg false m e small = rw e (first_sleeps net cfg none m small)
