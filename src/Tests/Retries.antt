-- ===== src/Tests/Retries.antt =====
-- What the theorems on retries say for a node that is busy twice and then answers.
use cca_go_indexer.Base.{
  ℕ, zero, suc, ◌≡◌, ◌≤◌, refl, true, false, some, [], ◌∷◌, arith, inl, inr, ◌⊎◌, ◌<◌,
}
use cca_go_indexer.BigInt.{pos, negsuc}
use cca_go_indexer.Transport.{
  Answer, failed, answered, response_of, nothing, Network, RetryConfig, is_retryable_status,
  round_trip,
}
use cca_go_indexer.Transport.Backoff.{sleeps, doubled, IsPrefix, round_trip-IsPrefix}
use cca_go_indexer.Transport.Bodies.{IsReleased, round_trip-IsReleased}
use cca_go_indexer.Transport.Retries.{IsRetried, round_trip-first_final, round_trip-nothing}

abbrev answers : ℕ → Answer
answers zero = answered 503
answers (suc zero) = failed
answers (suc (suc n)) = answered 200

abbrev busy : Network
busy = record { answer_to = answers; sleep_canceled = λ n. false; read_body = some (1 ∷ 2 ∷ []) }

abbrev patient : RetryConfig
patient = record { max_retries = pos 5; base_delay = 500 }

abbrev negative : RetryConfig
negative = record { max_retries = negsuc 0; base_delay = 500 }

first_two : (j : ℕ) → IsRetried (answers j) ⊎ (2 ≤ j)
unfolding is_retryable_status
first_two zero = inl refl
first_two (suc zero) = inl tt
first_two (suc (suc n)) = inr (omega arith)

first_two-IsRetried : (j : ℕ) → j < 2 → IsRetried (answers j)
first_two-IsRetried j h = elim (first_two j) [ inl r ↦ r | inr far ↦ absurd (omega arith) ]

round_trip-first_final_example : (round_trip busy patient true).0 ≡ response_of 2 200
unfolding is_retryable_status
round_trip-first_final_example =
    round_trip-first_final busy patient true 5 2 refl (omega arith) (1 ∷ 2 ∷ [], refl)
      (λ j h k. refl) first_two-IsRetried (inl refl)

round_trip-IsPrefix_example :
    IsPrefix (sleeps (round_trip busy patient true).1) (doubled patient.base_delay 5)
unfolding doubled
round_trip-IsPrefix_example = round_trip-IsPrefix busy patient true 5 refl (ground arith)

round_trip-nothing_example : round_trip busy negative true ≡ (nothing, [])
round_trip-nothing_example = round_trip-nothing busy negative true 0 refl (1 ∷ 2 ∷ [], refl)

round_trip-IsReleased_example : IsReleased 0 503 (round_trip busy patient true)
unfolding round_trip is_retryable_status
round_trip-IsReleased_example = round_trip-IsReleased busy patient true 0 503 refl refl
