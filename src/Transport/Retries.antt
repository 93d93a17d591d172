-- ===== src/Transport/Retries.antt =====
-- Which answer `RoundTrip` returns, and which responses it closes (internal/eth/transport.go).
use cca_go_indexer.Base.{
  ℕ, zero, suc, ◌+◌, ◌<◌, ◌≤◌, ◌≡◌, refl, ◌∙◌, ◌==◌, Bool, true, false, Option, none, some,
  Option-cases, List, [], ◌∷◌, arith, ltb, Bool-cases, inl, inr, ◌⊎◌,
}
use cca_go_indexer.BigInt.{pos, negsuc}
use cca_go_indexer.Transport.{
  Answer, failed, answered, Reply, error_of, response_of, nothing, Event, sent, slept, closed,
  Network, RetryConfig, is_retryable_status, on_answer, try_from, read_then, round_trip, attempts,
}

-- An answer after which the loop goes on.
abbrev pub IsRetried : Answer → Type 0
IsRetried failed = Unit
IsRetried (answered status) = is_retryable_status status ≡ true

abbrev pub IsFinal : Answer → Type 0
IsFinal failed = ⊥
IsFinal (answered status) = is_retryable_status status ≡ false

-- The reply that an answer makes.
abbrev pub reply_to : ℕ → Answer → Reply
reply_to attempt failed = error_of attempt
reply_to attempt (answered status) = response_of attempt status

module _ (net : Network) (cfg : RetryConfig) (body : Option (List ℕ)) where
  on_answer-IsRetried :
      (left attempt : ℕ) (a : Answer) (rest : Reply → Reply × List Event)
      → IsRetried a
      → (on_answer net cfg body left attempt a rest).0 ≡ (rest (reply_to attempt a)).0
  unfolding on_answer
  on_answer-IsRetried left attempt failed rest h = refl
  on_answer-IsRetried left attempt (answered status) rest h = rw h refl

  on_answer-IsFinal :
      (left attempt : ℕ) (a : Answer) (rest : Reply → Reply × List Event)
      → IsFinal a
      → (on_answer net cfg body left attempt a rest).0 ≡ reply_to attempt a
  unfolding on_answer
  on_answer-IsFinal left attempt failed rest h = absurd h
  on_answer-IsFinal left attempt (answered status) rest h = rw h refl

  -- An attempt, after its sleep.
  try_from-send :
      (left attempt : ℕ) (last : Reply)
      → (0 < attempt → net.sleep_canceled attempt ≡ false)
      → (try_from net cfg body (suc left) attempt last).0
        ≡ (on_answer net cfg body left attempt
            (net.answer_to attempt)
            (try_from net cfg body left (suc attempt))).0
  unfolding try_from
  try_from-send left zero last h = refl
  try_from-send left (suc n) last h = rw (h (omega arith)) refl

  here :
      (left attempt k : ℕ)
      → attempt ≡ k
      → k < attempt + suc left
      → IsFinal (net.answer_to k) ⊎ (IsRetried (net.answer_to k) × (suc k ≡ attempt + suc left))
      → (on_answer net cfg body left attempt
          (net.answer_to attempt)
          (try_from net cfg body left (suc attempt))).0
        ≡ reply_to k (net.answer_to k)
  here left attempt k e h (inl final) =
      rw e (on_answer-IsFinal left k (net.answer_to k) (try_from net cfg body left (suc k)) final)
  here zero attempt k e h (inr (r, last)) = rw e (
      on_answer-IsRetried zero k (net.answer_to k) (try_from net cfg body zero (suc k)) r
      ∙ unfold try_from in refl)
  here (suc left) attempt k e h (inr (r, last)) = absurd (omega arith)

  -- Where no sleep is cut short and the answers before the attempt `k` are retried, the loop that has
  -- `left` attempts from `attempt` on returns the answer of `k`, if `k` is the last attempt or its
  -- answer is not retried.
  pub try_from-first_final :
      (left attempt k : ℕ) (last : Reply)
      → attempt ≤ k
      → k < attempt + left
      → ((j : ℕ) → 0 < j → j ≤ k → net.sleep_canceled j ≡ false)
      → ((j : ℕ) → attempt ≤ j → j < k → IsRetried (net.answer_to j))
      → IsFinal (net.answer_to k) ⊎ (IsRetried (net.answer_to k) × (suc k ≡ attempt + left))
      → (try_from net cfg body left attempt last).0 ≡ reply_to k (net.answer_to k)
  try_from-first_final zero attempt k last low high awake retried end = absurd (omega arith)
  try_from-first_final (suc left) attempt k last low high awake retried end =
      try_from-send left attempt last (λ h. awake attempt h low)
      ∙ elim (Bool-cases (attempt == k)) [
        | inl e ↦ here left attempt k (ground arith) (omega arith) end
        | inr e ↦
            on_answer-IsRetried left attempt (net.answer_to attempt)
              (try_from net cfg body left (suc attempt))
              (retried attempt (omega arith) (ground arith))
            ∙ try_from-first_final left (suc attempt) k (reply_to attempt (net.answer_to attempt))
                (ground arith) (omega arith) awake (λ j h. retried j (omega arith))
                (elim end [ inl final ↦ inl final | inr (r, last_one) ↦ inr (r, omega arith) ])
      ]

-- The body can be read, if there is one.
abbrev pub IsReadable : Network → Bool → Type 0
IsReadable net true = (bytes : List ℕ) × (net.read_body ≡ some bytes)
IsReadable net false = Unit

-- `RoundTrip` returns the first answer that is not to be retried, or the last one, where the body can
-- be read and no sleep up to that attempt is cut short: the answer of the attempt `k`, if all before
-- are retried, and it is not to be retried or is the last that the configuration allows.
pub round_trip-first_final :
    (net : Network) (cfg : RetryConfig) (has_body : Bool) (m k : ℕ)
    → cfg.max_retries ≡ pos m
    → k ≤ m
    → IsReadable net has_body
    → ((j : ℕ) → 0 < j → j ≤ k → net.sleep_canceled j ≡ false)
    → ((j : ℕ) → j < k → IsRetried (net.answer_to j))
    → IsFinal (net.answer_to k) ⊎ (IsRetried (net.answer_to k) × (k ≡ m))
    → (round_trip net cfg has_body).0 ≡ reply_to k (net.answer_to k)
unfolding round_trip read_then
round_trip-first_final net cfg true m k e h (bytes, read) awake retried end =
    rw (read, e)
      (try_from-first_final net cfg (some bytes) (suc m) 0 k nothing (omega arith) (omega arith)
        awake (λ j _. retried j)
        (elim end [ inl final ↦ inl final | inr (r, last) ↦ inr (r, omega arith) ]))
round_trip-first_final net cfg false m k e h _ awake retried end = rw e (
    try_from-first_final net cfg none (suc m) 0 k nothing (omega arith) (omega arith) awake
      (λ j _. retried j)
      (elim end [ inl final ↦ inl final | inr (r, last) ↦ inr (r, omega arith) ]))

-- How often each kind of event occurs.
abbrev pub requests : List Event → ℕ
requests [] = 0
requests (sent _ _ ∷ es) = suc (requests es)
requests (slept _ ∷ es) = requests es
requests (closed _ ∷ es) = requests es

module _ (net : Network) (cfg : RetryConfig) (body : Option (List ℕ)) where
  on_answer-requests :
      (left attempt : ℕ) (a : Answer) (rest : Reply → Reply × List Event)
      → ((r : Reply) → requests (rest r).1 ≤ left)
      → requests (on_answer net cfg body left attempt a rest).1 ≤ left
  unfolding on_answer
  on_answer-requests left attempt failed rest h = h (error_of attempt)
  on_answer-requests left attempt (answered status) rest h =
      elim (Bool-cases (is_retryable_status status)) [
        | inl e ↦ rw e (elim (Bool-cases (ltb 0 left)) [
          | inl g ↦ rw g (h (response_of attempt status))
          | inr g ↦ rw g (h (response_of attempt status))
        ])
        | inr e ↦ rw e (omega arith)
      ]

  -- A run sends no more requests than it has attempts.
  pub try_from-requests :
      (left attempt : ℕ) (last : Reply)
      → requests (try_from net cfg body left attempt last).1 ≤ left
  unfolding try_from
  try_from-requests zero attempt last = omega arith
  try_from-requests (suc left) zero last =
      let fewer =
        on_answer-requests left 0 (net.answer_to 0) (try_from net cfg body left 1)
          (try_from-requests left 1) in
      ground (arith, fewer)
  try_from-requests (suc left) (suc n) last = elim (Bool-cases (net.sleep_canceled (suc n))) [
    | inl e ↦ rw e (omega arith)
    | inr e ↦
        let fewer =
          on_answer-requests left (suc n) (net.answer_to (suc n))
            (try_from net cfg body left (suc (suc n))) (try_from-requests left (suc (suc n))) in
        rw e (ground (arith, fewer))
  ]

-- `RoundTrip` sends at most one request more than the retries that are configured; with a negative
-- number of retries it sends none.
pub round_trip-requests :
    (net : Network) (cfg : RetryConfig) (has_body : Bool)
    → requests (round_trip net cfg has_body).1 ≤ attempts cfg.max_retries
unfolding round_trip read_then
round_trip-requests net cfg true = elim (Option-cases net.read_body) [
  | inl e ↦ rw e (omega arith)
  | inr (bytes, e) ↦
      rw e (try_from-requests net cfg (some bytes) (attempts cfg.max_retries) 0 nothing)
]
round_trip-requests net cfg false =
    try_from-requests net cfg none (attempts cfg.max_retries) 0 nothing

-- With a negative number of retries `RoundTrip` returns neither a response nor an error, where the
-- body can be read.
pub round_trip-nothing :
    (net : Network) (cfg : RetryConfig) (has_body : Bool) (n : ℕ)
    → cfg.max_retries ≡ negsuc n
    → IsReadable net has_body
    → round_trip net cfg has_body ≡ (nothing, [])
unfolding round_trip read_then try_from
round_trip-nothing net cfg true n e (bytes, read) = rw (read, e) refl
round_trip-nothing net cfg false n e _ = rw e refl
