-- ===== src/Indexer/Budget.antt =====
-- The retry budget of `ChainIndexer.Run` (internal/indexer/indexer.go): which errors end it, and when.
use cca_go_indexer.Base.{
  ℕ, ◌+◌, ◌-◌, ◌≤◌, ◌≡◌, refl, ◌⊎◌, inl, inr, Bool, true, false, arith, leb, ltb, u64, sub64,
  if◌then◌else◌, Bool-cases, List, get_elem?, Option-cases,
}
use cca_go_indexer.Base.Effect.{Result, ok, err, Ends, Ends-and_then, and_then, pure, raise}
use cca_go_indexer.Headers.{fetch_headers}
use cca_go_indexer.Indexer.{
  IndexerConfig, Loop, Exit, continue_with, return_error, panic, Round, pause, check_done,
  retry_or_exit, attempt, attempt_outcome, or_return, or_return_outcome, process_batch, recover,
  round, batch_query, store_batch, index, max_loop_retries,
}
use cca_go_indexer.Registry.{HandlerMap}
use cca_go_indexer.Reorg.{detect_reorg, handle_reorg}
use cca_go_indexer.Types.{BlockHeader, Codec}
use cca_go_indexer.World.Calls.{Env, World, Action, block_number, filter_logs}
use cca_go_indexer.World.Errors.{
  Error, Operation, canceled, wrapped, filter_logs as filtering_logs, fetching_headers,
  executing_batch, handle_reorg as handling_reorg, get_block_number, detect_reorg_at,
}
use cca_go_indexer.World.Tx.{with_tx}

-- The context is done, or a reorganisation could not be handled.
abbrev pub IsFatal : Error → Type 0
IsFatal e = (e ≡ canceled) ⊎ ((cause : Error) × (e ≡ wrapped handling_reorg cause))

-- How a round that began with the loop `l` may end before its last line: it goes on at the same block
-- with at most one more error counted; it returns a fatal error; or it spends the budget.
abbrev pub Spends : Loop → Exit → Type 0
Spends l (continue_with k) =
    (k.cursor ≡ l.cursor)
    × ((k.consecutive_errors ≡ l.consecutive_errors)
        ⊎ (k.consecutive_errors ≡ l.consecutive_errors + 1))
Spends l (return_error e) = IsFatal e ⊎ (max_loop_retries ≤ l.consecutive_errors + 1)
Spends l panic = Unit

module _ (env : Env) (l : Loop) where
  abbrev Fine : {A : Type 0} → Result Exit A × World → Type 0
  Fine r = Ends (λ _ _. Unit {0}) (λ x _. Spends l x) r

  pause-Spends : (A : Type 0) (w : World) → Fine (pause env {A = A} l w)
  unfolding pause
  pause-Spends A w = elim (Bool-cases (env.done_at w.now)) [
    | inl e ↦ rw e (inl (inl refl))
    | inr e ↦ rw e (refl, inl refl)
  ]

  attempt-Spends :
      {A : Type 0} (o : Operation) (r : Result Error A × World) → Fine (attempt_outcome env l o r)
  unfolding retry_or_exit
  attempt-Spends o (ok a, w) = tt
  attempt-Spends o (err e, w) = elim (Bool-cases (leb 5 (l.consecutive_errors + 1))) [
    | inl h ↦ rw h (inr (ground arith))
    | inr h ↦ rw h (
        unfold pause in
        elim (Bool-cases (env.done_at w.now)) [
          | inl d ↦ rw d (inl (inl refl))
          | inr d ↦ rw d (refl, inr refl)
        ])
  ]

  check_done-Spends : (w : World) → Fine (check_done env w)
  unfolding check_done
  check_done-Spends w = elim (Bool-cases (env.done_at w.now)) [
    | inl e ↦ rw e (inl (inl refl))
    | inr e ↦ rw e tt
  ]

  guard-Spends :
      (b : Bool) (w : World) → Fine ((if b then pause env {A = Unit {0}} l else pure tt) w)
  guard-Spends true w = pause-Spends (Unit {0}) w
  guard-Spends false w = tt

  recovery-Spends :
      {A : Type 0} (r : Result Error A × World) → Fine (or_return_outcome env handling_reorg r)
  recovery-Spends (ok a, w) = tt
  recovery-Spends (err e, w) = inl (inr (e, refl))

  length_guard : (b : Bool) (w : World) → Fine ((if b then raise panic else pure tt) w)
  length_guard true w = tt
  length_guard false w = tt

  module _ ⦃c : Codec⦄ (cfg : IndexerConfig) (registry : HandlerMap) where
    -- A round that comes to its end has no errors counted.
    abbrev Resets : Result Exit Loop × World → Type 0
    Resets r = Ends (λ k _. k.consecutive_errors ≡ 0) (λ x _. Spends l x) r

    sequel :
        {A : Type 0} (r : Result Exit A × World) (f : A → Round Loop)
        → Fine r
        → ((a : A) (w : World) → Resets (f a w))
        → Resets (and_then r f)
    sequel r f h k = Ends-and_then (λ _ _. Unit {0}) _ _ r f h (λ a w _. k a w)

    attempt_then :
        {A : Type 0} (o : Operation) (m : Action A) (f : A → Round Loop) (w : World)
        → ((a : A) (w : World) → Resets (f a w))
        → Resets (and_then (attempt env l o m w) f)
    attempt_then o m f w k = sequel (attempt env l o m w) f (attempt-Spends o (m w)) k

    index-Fine :
        (headers : List BlockHeader) (i : ℕ) (w : World) → Fine (index env cfg registry headers i w)
    index-Fine headers i w = elim (Option-cases (get_elem? headers i)) [
      | inl e ↦ rw (e, index) tt
      | inr (h, e) ↦ rw (e, index) tt
    ]

    process-Resets : (from to : ℕ) (w : World) → Resets (process_batch env cfg registry l from to w)
    unfolding process_batch
    process-Resets from to w =
        attempt_then filtering_logs (filter_logs env (batch_query env cfg registry from to)) _ w
          (λ logs w1.
            sequel ((if leb 9223372036854775808 count then raise panic else pure tt) w1) _
              (length_guard (leb 9223372036854775808 count) w1)
              (λ _ w2.
                attempt_then fetching_headers (fetch_headers env from count) _ w2 (λ headers w3.
                  sequel (index env cfg registry headers (sub64 to from) w3) _
                    (index-Fine headers (sub64 to from) w3)
                    (λ last w4.
                      attempt_then executing_batch
                        (with_tx env (store_batch env cfg registry from to logs headers last.hash))
                        _ w4 (λ _ _. refl)))))
      where
        count : ℕ
        count = u64 (sub64 to from + 1)

    recover-Resets : (w : World) → Resets (recover env cfg registry l w)
    unfolding recover
    recover-Resets w =
        sequel (or_return env handling_reorg (handle_reorg env cfg.chain_id l.cursor) w) _
          (recovery-Spends (handle_reorg env cfg.chain_id l.cursor w)) (λ _ _. refl)

    choose-Resets :
        (reorged : Bool) (from to : ℕ) (w : World)
        → Resets (
            (if reorged
                then recover env cfg registry l
                else process_batch env cfg registry l from to)
              w)
    choose-Resets true from to w = recover-Resets w
    choose-Resets false from to w = process-Resets from to w

    guard_then :
        (b : Bool) (f : Unit {0} → Round Loop) (w : World)
        → ((a : Unit {0}) (w : World) → Resets (f a w))
        → Resets (and_then ((if b then pause env {A = Unit {0}} l else pure tt) w) f)
    guard_then b f w k =
        sequel ((if b then pause env {A = Unit {0}} l else pure tt) w) f (guard-Spends b w) k

    -- A round either comes to its end, and no errors are counted; or goes on at the same block with at
    -- most one more error counted; or ends `Run` with a fatal error or with the budget spent.
    pub round-Resets : (w : World) → Resets (round env cfg registry l w)
    unfolding round
    round-Resets w = sequel (check_done env w) _ (check_done-Spends w) (λ _ w1.
        attempt_then get_block_number (block_number env) _ w1 (λ head w2.
          guard_then (ltb head cfg.confirmations) _ w2 (λ _ w3.
            guard_then (ltb head cfg.confirmations) _ w3 (λ _ w4.
              guard_then (leb (head - cfg.confirmations) l.cursor) _ w4 (λ _ w5.
                attempt_then (detect_reorg_at l.cursor) (detect_reorg env cfg.chain_id l.cursor) _
                  w5 (λ reorged w6. choose-Resets reorged _ _ w6))))))
