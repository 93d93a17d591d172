-- ===== src/AuctionCreated/Again.antt =====
-- That handling a log again changes nothing (internal/indexer/handlers/auction_created.go), on which a
-- batch that is retried after a lost commit rests.
use cca_go_indexer.Base.{
  ℕ, ◌≡◌, ap, sym, ◌∙◌, inl, inr, Bool, true, List, [], ◌∷◌, arith, find, insert_new, insert_unless,
  Option-cases,
}
use mathlib.Core.Path.{subst}
use cca_go_indexer.Base.Effect.{ok}
use cca_go_indexer.AuctionCreated.{Formats, raw_event_of, auction_of, handle}
use cca_go_indexer.AuctionCreated.Writes.{IsIndexed, Outcome, handle-Outcome}
use cca_go_indexer.Store.Auctions.{insert_auction, has_address, lower_hex, auction_row}
use cca_go_indexer.Store.RawEvents.{insert_raw_event, same_event, raw_event_row}
use cca_go_indexer.Text.{text_eq_self}
use cca_go_indexer.Types.{Address, Auction, Codec, Hash, Log, RawEvent}
use cca_go_indexer.World.Calls.{Env, World}
use cca_go_indexer.World.Database.{Database}

-- A row that conflicts with itself goes in once.
insert_new_twice {ℓ} :
    {R : Type ℓ} (p : R → Bool) (r : R) (t : List R)
    → p r ≡ true
    → insert_new p r (insert_new p r t) ≡ insert_new p r t
insert_new_twice p r t h = elim (Option-cases (find p t)) [
  | inl e ↦ rw (e, insert_unless) (rw h)
  | inr (s, e) ↦ rw (e, insert_unless) (rw (e, insert_unless))
]

module _ ⦃c : Codec⦄ (e : RawEvent) (a : Auction) where
  -- Storing an event and its auction again leaves the database as it is after the first time.
  insert_twice :
      (db : Database)
      → insert_auction a (insert_raw_event e (insert_auction a (insert_raw_event e db)))
        ≡ insert_auction a (insert_raw_event e db)
  unfolding insert_auction insert_raw_event
  insert_twice db =
      let events =
        insert_new_twice (same_event e.chain_id e.block_number (c.hash_hex e.tx_hash) e.log_index)
          (raw_event_row e) db.raw_events (ground (arith, text_eq_self (c.hash_hex e.tx_hash))) in
      let auctions =
        insert_new_twice (has_address a.chain_id (lower_hex a.auction_address)) (auction_row a)
          db.auctions (ground (arith, text_eq_self (lower_hex a.auction_address))) in
      λ i. record db { raw_events = events i; auctions = auctions i }

module _ ⦃c : Codec⦄ (f : Formats) (env : Env) (chain : ℕ) (log : Log)
    (auction token : Address) where
  -- What is stored for a log is determined by the log.
  IsIndexed-same :
      (d0 d1 d2 d3 : Database)
      → (s : IsIndexed f env chain log auction token d0 d1)
      → (r : IsIndexed f env chain log auction token d2 d3)
      → d3
        ≡ insert_auction
            (auction_of f chain log auction token s.amount s.params)
            (insert_raw_event (raw_event_of f chain log s.topics s.decoded) d2)
  IsIndexed-same d0 d1 d2 d3 s r =
      let amounts : r.amount ≡ s.amount = ground arith in
      let configs : r.config ≡ s.config = ground arith in
      let params : r.params ≡ s.params = cc in
      let topics : r.topics ≡ s.topics = cc in
      let maps : r.decoded ≡ s.decoded = cc in r.written ∙ rw (amounts, params, topics, maps)

  IsIndexed-twice :
      (db db' db'' : Database)
      → IsIndexed f env chain log auction token db db'
      → IsIndexed f env chain log auction token db' db''
      → db'' ≡ db'
  IsIndexed-twice db db' db'' s r =
      let e = raw_event_of f chain log s.topics s.decoded in
      let a = auction_of f chain log auction token s.amount s.params in
      IsIndexed-same db db' db' db'' s r
      ∙ ap (λ d. insert_auction a (insert_raw_event e d)) s.written
      ∙ insert_twice e a db
      ∙ sym s.written

module _ ⦃c : Codec⦄ (f : Formats) (env : Env) (chain : ℕ) (log : Log) where
  Outcome-twice :
      (ts : List Hash) (db : Database) (w w' : World)
      → Outcome f env chain log ts db (ok tt, w)
      → Outcome f env chain log ts w.db (ok tt, w')
      → w'.db ≡ w.db
  Outcome-twice (t0 ∷ t1 ∷ t2 ∷ ts) db w w' s r =
      IsIndexed-twice f env chain log (c.bytes_to_address t1) (c.bytes_to_address t2) db w.db w'.db
        s r
  Outcome-twice [] db w w' s r = absurd (cc (s.0))
  Outcome-twice (t0 ∷ []) db w w' s r = absurd (cc (s.0))
  Outcome-twice (t0 ∷ t1 ∷ []) db w w' s r = absurd (cc (s.0))

  -- A log that was handled without an error and is handled without an error again leaves the
  -- database as the first time did.
  pub handle_twice :
      (w w' w'' : World)
      → handle f env chain log w ≡ (ok tt, w')
      → handle f env chain log w' ≡ (ok tt, w'')
      → w''.db ≡ w'.db
  handle_twice w w' w'' e e' =
      Outcome-twice log.topics w.db w' w''
        (subst (Outcome f env chain log log.topics w.db) e (handle-Outcome f env chain log w))
        (subst (Outcome f env chain log log.topics w'.db) e' (handle-Outcome f env chain log w'))
