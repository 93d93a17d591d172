-- ===== src/Transport/Bodies.antt =====
-- That `RoundTrip` closes every response that it does not return (internal/eth/transport.go).
use cca_go_indexer.Base.{
  ℕ, zero, suc, ◌≡◌, refl, Bool, true, false, ◌||◌, ◌==◌, Option, List, [], ◌∷◌, arith, ltb, ◌⊎◌,
  inl, inr, Bool-cases, Option-cases, none, some, if◌then◌else◌, ap, sym, ◌∙◌,
}
use cca_go_indexer.Transport.{
  Answer, failed, answered, Reply, response_of, error_of, nothing, Event, sent, slept, closed,
  Network, RetryConfig, is_retryable_status, on_answer, after, try_from, read_then, round_trip,
  attempts,
}

-- Whether the attempt was made, and whether its response was closed.
abbrev pub was_sent : ℕ → List Event → Bool
was_sent j [] = false
was_sent j (sent i _ ∷ es) = (i == j) || was_sent j es
was_sent j (slept _ ∷ es) = was_sent j es
was_sent j (closed _ ∷ es) = was_sent j es

abbrev pub was_closed : ℕ → List Event → Bool
was_closed j [] = false
was_closed j (sent _ _ ∷ es) = was_closed j es
was_closed j (slept _ ∷ es) = was_closed j es
was_closed j (closed i ∷ es) = (i == j) || was_closed j es

-- The response of the attempt was closed, or is the one that is returned.
abbrev pub IsReleased : ℕ → ℕ → Reply × List Event → Type 0
IsReleased j status r = (was_closed j r.1 ≡ true) ⊎ (r.0 ≡ response_of j status)

module _ (net : Network) (cfg : RetryConfig) (body : Option (List ℕ)) (j status : ℕ)
    (response : net.answer_to j ≡ answered status) where
  abbrev Releases : Reply × List Event → Type 0
  Releases r = was_sent j r.1 ≡ true → IsReleased j status r

  same_reply :
      (attempt code : ℕ)
      → attempt ≡ j
      → net.answer_to attempt ≡ answered code
      → response_of attempt code ≡ response_of j status
  same_reply attempt code s e =
      let codes : answered code ≡ answered status = sym e ∙ ap net.answer_to s ∙ response in
      let equal : code ≡ status = ground arith in cc

  -- The last response that is received is returned.
  last-IsReleased :
      (attempt code : ℕ)
      → net.answer_to attempt ≡ answered code
      → (attempt == j) || false ≡ true
      → IsReleased j status (response_of attempt code, [])
  last-IsReleased attempt code e h = inr (same_reply attempt code (ground arith) e)

  -- One that is followed by another attempt is closed.
  closed-IsReleased :
      (attempt : ℕ) (r : Reply × List Event)
      → Releases r
      → (attempt == j) || was_sent j r.1 ≡ true
      → IsReleased j status (after (closed attempt ∷ []) r)
  closed-IsReleased attempt r k h = elim (Bool-cases (attempt == j)) [
    | inl same ↦ inl (rw same refl)
    | inr other ↦ elim (k (rw other at h)) [
      | inl shut ↦ inl (rw other shut)
      | inr returned ↦ inr returned
    ]
  ]

  retried-IsReleased :
      (left attempt code : ℕ)
      → net.answer_to attempt ≡ answered code
      → is_retryable_status code ≡ true
      → ((last : Reply) → Releases (try_from net cfg body left (suc attempt) last))
      → ((attempt == j)
          || was_sent j
              (after
                (if ltb 0 left then closed attempt ∷ [] else [])
                (try_from net cfg body left (suc attempt) (response_of attempt code))).1)
        ≡ true
      → IsReleased j status (
          on_answer net cfg body left attempt
            (answered code)
            (try_from net cfg body left (suc attempt)))
  unfolding on_answer try_from
  retried-IsReleased zero attempt code e again ih h = rw again (last-IsReleased attempt code e h)
  retried-IsReleased (suc left) attempt code e again ih h =
      let closes : ltb 0 (suc left) ≡ true = ground arith in
      rw (again, closes)
        (closed-IsReleased attempt
          (try_from net cfg body (suc left) (suc attempt) (response_of attempt code))
          (ih (response_of attempt code)) (rw closes at h))

  -- The response of the attempt itself, or of a later one.
  on_answer-IsReleased :
      (left attempt : ℕ) (a : Answer)
      → net.answer_to attempt ≡ a
      → ((last : Reply) → Releases (try_from net cfg body left (suc attempt) last))
      → ((attempt == j)
          || was_sent j
              (on_answer net cfg body left attempt a (try_from net cfg body left (suc attempt))).1)
        ≡ true
      → IsReleased j status
          (on_answer net cfg body left attempt a (try_from net cfg body left (suc attempt)))
  unfolding on_answer
  on_answer-IsReleased left attempt failed e ih h = elim (Bool-cases (attempt == j)) [
    | inl same ↦ let s : attempt ≡ j = ground arith in absurd (cc (ap net.answer_to s))
    | inr other ↦ ih (error_of attempt) (rw other at h)
  ]
  on_answer-IsReleased left attempt (answered code) e ih h =
      elim (Bool-cases (is_retryable_status code)) [
        | inr kept ↦ rw kept (last-IsReleased attempt code e (rw (kept, on_answer) at h))
        | inl again ↦ retried-IsReleased left attempt code e again ih (rw (again, on_answer) at h)
      ]

  try_from-Releases :
      (left attempt : ℕ) (last : Reply) → Releases (try_from net cfg body left attempt last)
  unfolding try_from
  try_from-Releases zero attempt last = λ h. cc
  try_from-Releases (suc left) zero last =
      on_answer-IsReleased left 0 (net.answer_to 0) refl (try_from-Releases left 1)
  try_from-Releases (suc left) (suc n) last = elim (Bool-cases (net.sleep_canceled (suc n))) [
    | inl e ↦ rw e (λ h. cc)
    | inr e ↦ rw e (
        on_answer-IsReleased left (suc n) (net.answer_to (suc n)) refl
          (try_from-Releases left (suc (suc n))))
  ]

-- Of every attempt that was made and answered with a response, the response is closed or is the one
-- that `RoundTrip` returns.
pub round_trip-IsReleased :
    (net : Network) (cfg : RetryConfig) (has_body : Bool) (j status : ℕ)
    → net.answer_to j ≡ answered status
    → was_sent j (round_trip net cfg has_body).1 ≡ true
    → IsReleased j status (round_trip net cfg has_body)
unfolding round_trip read_then
round_trip-IsReleased net cfg true j status e = elim (Option-cases net.read_body) [
  | inl none_read ↦ rw none_read (λ h. cc)
  | inr (bytes, read) ↦
      rw read
        (try_from-Releases net cfg (some bytes) j status e (attempts cfg.max_retries) 0 nothing)
]
round_trip-IsReleased net cfg false j status e =
    try_from-Releases net cfg none j status e (attempts cfg.max_retries) 0 nothing
