-- ===== src/Indexer/Entries.antt =====
-- That a batch of the watched event's logs adds their entries, in order, where it succeeds
-- (internal/indexer/handler.go, internal/indexer/handlers/auction_created.go).
use cca_go_indexer.Base.{ℕ, ◌≡◌, refl, ap, ◌∙◌, sym, some, List, [], ◌∷◌, All}
use mathlib.Core.Path.{subst}
use cca_go_indexer.AuctionCreated.{
  Formats, handle, auction_created_handler, auction_of, raw_event_of,
}
use cca_go_indexer.AuctionCreated.Writes.{IsIndexed, Outcome, handle-Outcome}
use cca_go_indexer.Base.Effect.{Result, ok, err, Ends, Ends-and_then, Ends-weaken}
use cca_go_indexer.Indexer.Index.{entry_at, decoded_entry, add_entry, index_logs}
use cca_go_indexer.Registry.{HandlerMap, handle_each, lookup_handler, handle_logs}
use cca_go_indexer.Registry.Single.{HasTopic, handle_logs-handle_each}
use cca_go_indexer.Types.{Address, Codec, Hash, Log}
use cca_go_indexer.World.Calls.{Env, World, wrap, wrap-Ends}
use cca_go_indexer.World.Database.{Database}
use cca_go_indexer.World.Errors.{Error, handling_log}

module _ ⦃c : Codec⦄ (f : Formats) (env : Env) (chain : ℕ) where
  decoded_entry-IsIndexed :
      (log : Log) (auction token : Address) (db db' : Database)
      → (s : IsIndexed f env chain log auction token db db')
      → decoded_entry f chain log auction token
        ≡ some (
          raw_event_of f chain log s.topics s.decoded,
          auction_of f chain log auction token s.amount s.params,
        )
  unfolding decoded_entry
  decoded_entry-IsIndexed log auction token db db' s =
      rw (s.unpacked, s.unpacked_params, s.marshalled, s.marshalled_map, decoded_entry) refl

  Outcome-entry_at :
      (log : Log) (ts : List Hash) (db : Database) (r : Result Error (Unit {0}) × World)
      → Outcome f env chain log ts db r
      → Ends (λ _ w'. w'.db ≡ add_entry f chain (entry_at f chain log ts) db) (λ _ _. Unit {0}) r
  Outcome-entry_at log (t0 ∷ t1 ∷ t2 ∷ ts) db (ok a, w) s =
      s.written
      ∙ ap (λ o. add_entry f chain o db)
          (sym
            (decoded_entry-IsIndexed log (c.bytes_to_address t1) (c.bytes_to_address t2) db w.db s))
  Outcome-entry_at log [] db (ok a, w) s = absurd (cc (s.0))
  Outcome-entry_at log (t0 ∷ []) db (ok a, w) s = absurd (cc (s.0))
  Outcome-entry_at log (t0 ∷ t1 ∷ []) db (ok a, w) s = absurd (cc (s.0))
  Outcome-entry_at log ts db (err e, w) s = tt

  handle-entry_at :
      (log : Log) (w : World)
      → Ends
          (λ _ w'. w'.db ≡ add_entry f chain (entry_at f chain log log.topics) w.db)
          (λ _ _. Unit {0})
          (handle f env chain log w)
  handle-entry_at log w =
      Outcome-entry_at log log.topics w.db (handle f env chain log w)
        (handle-Outcome f env chain log w)

  handle_each-index_logs :
      (ls : List Log) (w : World)
      → Ends
          (λ _ w'. w'.db ≡ index_logs f chain ls w.db)
          (λ _ _. Unit {0})
          (handle_each (auction_created_handler f env) chain ls w)
  unfolding handle_each index_logs auction_created_handler
  handle_each-index_logs [] w = refl
  handle_each-index_logs (l ∷ ls) w =
      Ends-and_then (λ _ w1. w1.db ≡ add_entry f chain (entry_at f chain l l.topics) w.db) _ _
        (wrap handling_log (handle f env chain l) w) _
        (wrap-Ends handling_log _ _ (handle f env chain l w) (handle-entry_at l w))
        (λ _ w1 e.
          Ends-weaken _ _ _ _ (handle_each (auction_created_handler f env) chain ls w1)
            (λ _ w2 k. k ∙ ap (index_logs f chain ls) e) (λ _ _ u. u)
            (handle_each-index_logs ls w1))

  -- A batch of the watched event's logs adds their entries in order, where it succeeds.
  pub handle_logs-index_logs :
      (m : HandlerMap) (ls : List Log) (w : World)
      → lookup_handler f.event_id m ≡ some (auction_created_handler f env)
      → All (HasTopic f.event_id) ls
      → Ends
          (λ _ w'. w'.db ≡ index_logs f chain ls w.db)
          (λ _ _. Unit {0})
          (handle_logs m chain ls w)
  handle_logs-index_logs m ls w found watched =
      subst (Ends (λ _ w'. w'.db ≡ index_logs f chain ls w.db) (λ _ _. Unit {0}))
        (sym (
          handle_logs-handle_each m chain f.event_id (auction_created_handler f env) ls w found
            (unfold auction_created_handler in refl) watched))
        (Ends-and_then (λ _ w'. w'.db ≡ index_logs f chain ls w.db) _ _
          (handle_each (auction_created_handler f env) chain ls w) _ (handle_each-index_logs ls w)
          (λ _ _ e. e))
