-- ===== src/Transport.antt =====
-- `retryTransport` (internal/eth/transport.go): the retries of a request. A run leaves the events that
-- others see: the requests that were sent, the times slept, the responses whose body was closed.
pub mod Retries
pub mod Bodies
pub mod Backoff
use cca_go_indexer.Base.{
  ℕ, zero, suc, ◌+◌, ◌*◌, ◌^◌, ◌-◌, ◌%◌, Bool, true, false, ◌||◌, ◌==◌, ltb, Option, none, some,
  List, [], ◌∷◌, ◌++◌, if◌then◌else◌,
}
use cca_go_indexer.BigInt.{ℤ, pos, negsuc}

-- What the base transport answers: an error, or a response with this status.
pub data Answer : Type 0 where
  failed : Answer
  answered : ℕ → Answer

-- What `RoundTrip` returns: the error of the body's reading, of the context, of an attempt; the
-- response of an attempt with its status; or neither a response nor an error.
pub data Reply : Type 0 where
  body_error canceled nothing : Reply
  error_of : ℕ → Reply
  response_of : ℕ → ℕ → Reply

pub data Event : Type 0 where
  -- the request of an attempt, with this body
  sent : ℕ → Option (List ℕ) → Event
  -- a delay, before its jitter
  slept : ℕ → Event
  -- the body of the response of an attempt
  closed : ℕ → Event

-- The services: the base transport's answers by attempt, whether the context ends during the sleep
-- before an attempt, and what reading a body gives.
pub record Network : Type 0 where
  pub answer_to : ℕ → Answer
  pub sleep_canceled : ℕ → Bool
  pub read_body : Option (List ℕ)

pub record RetryConfig : Type 0 where
  pub max_retries : ℤ
  pub base_delay : ℕ

-- `isRetryableStatus`
unfoldable pub is_retryable_status : ℕ → Bool
is_retryable_status code = (code == 429) || ((code == 502) || ((code == 503) || (code == 504)))

-- How often the loop runs.
abbrev pub attempts : ℤ → ℕ
attempts (pos n) = suc n
attempts (negsuc n) = zero

-- The delay before an attempt, in the 64 bits of a `time.Duration`.
abbrev pub delay_before : ℕ → ℕ → ℕ
delay_before base attempt = (base * 2 ^ (attempt - 1)) % 2 ^ 64

-- More events before those of the rest of the run.
abbrev pub after : List Event → Reply × List Event → Reply × List Event
after es r = (r.0, es ++ r.1)

module _ (net : Network) (cfg : RetryConfig) (body : Option (List ℕ)) where
  -- What an attempt does with the answer; `rest` is the run of the attempts after it.
  unfoldable pub on_answer : ℕ → ℕ → Answer → (Reply → Reply × List Event) → Reply × List Event
  unfolding is_retryable_status
  on_answer left attempt failed rest = rest (error_of attempt)
  on_answer left attempt (answered status) rest =
      if is_retryable_status status
      then after (if ltb 0 left then closed attempt ∷ [] else [])
          (rest (response_of attempt status))
      else (response_of attempt status, [])

  abbrev pub send : ℕ → ℕ → (Reply → Reply × List Event) → Reply × List Event
  send left attempt rest =
      after (sent attempt body ∷ []) (on_answer left attempt (net.answer_to attempt) rest)

  -- The loop, on the attempts that are left, from an attempt, with the reply so far.
  unfoldable pub try_from : ℕ → ℕ → Reply → Reply × List Event
  unfolding on_answer
  try_from zero attempt last = (last, [])
  try_from (suc left) zero last = send left zero (try_from left 1)
  try_from (suc left) (suc n) last =
      if net.sleep_canceled (suc n)
      then (canceled, slept (delay_before cfg.base_delay (suc n)) ∷ [])
      else after (slept (delay_before cfg.base_delay (suc n)) ∷ [])
          (send left (suc n) (try_from left (suc (suc n))))

-- The loop, once the body is read.
abbrev pub read_then : Network → RetryConfig → Option (List ℕ) → Reply × List Event
unfolding try_from
read_then net cfg none = (body_error, [])
read_then net cfg (some bytes) = try_from net cfg (some bytes) (attempts cfg.max_retries) 0 nothing

-- `RoundTrip`, of a request with or without a body.
unfoldable pub round_trip : Network → RetryConfig → Bool → Reply × List Event
unfolding read_then try_from
round_trip net cfg true = read_then net cfg net.read_body
round_trip net cfg false = try_from net cfg none (attempts cfg.max_retries) 0 nothing
