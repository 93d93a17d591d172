-- ===== src/AuctionCreated/Writes.antt =====
-- What `AuctionCreatedHandler.Handle` writes (internal/indexer/handlers/auction_created.go).
use cca_go_indexer.Base.{
  ℕ, suc, ◌≤◌, ◌≡◌, refl, inl, inr, Option, none, some, List, ◌∷◌, map, length, All, insert_unless,
  Bool-cases, Option-cases,
}
use cca_go_indexer.Base.Effect.{Result, err, Ends, Ends-weaken}
use cca_go_indexer.BigInt.{ℤ}
use cca_go_indexer.AuctionCreated.{
  AuctionParams, Formats, raw_event_of, auction_of, decoded_map, store_auction, handle_topics,
  handle, auction_created_handler,
}
use cca_go_indexer.Registry.Dispatch.{Written, Writes, IsRowHandler}
use cca_go_indexer.Store.Auctions.{insert_auction}
use cca_go_indexer.Store.RawEvents.{insert_raw_event}
use cca_go_indexer.Store.Rows.{EventsUpTo, AuctionsUpTo, UpTo}
use cca_go_indexer.Text.{Text}
use cca_go_indexer.Types.{Address, Codec, Hash, Log}
use cca_go_indexer.World.Calls.{Env, World, exec}
use cca_go_indexer.World.Database.{Database}
use cca_go_indexer.World.Errors.{Error, few_topics}

module _ ⦃c : Codec⦄ (f : Formats) (env : Env) where
  -- What is stored for a log: its decoded parts, and the database with the raw event and the auction.
  pub record IsIndexed (chain : ℕ) (log : Log) (auction token : Address) (db db' : Database)
      : Type 0 where
    pub amount : ℤ
    pub config : List ℕ
    pub params : AuctionParams
    pub topics : Text
    pub decoded : Text
    pub unpacked : f.unpack_event log.payload ≡ some (amount, config)
    pub unpacked_params : f.unpack_params config ≡ some params
    pub marshalled : f.marshal_strings (map c.hash_hex log.topics) ≡ some topics
    pub marshalled_map : f.marshal_map (decoded_map f auction token amount params) ≡ some decoded
    pub written :
        db'
        ≡ insert_auction
            (auction_of f chain log auction token amount params)
            (insert_raw_event (raw_event_of f chain log topics decoded) db)

  store_auction-IsIndexed :
      (chain : ℕ) (log : Log) (auction token : Address) (w : World)
      → Ends
          (λ _ w'. IsIndexed chain log auction token w.db w'.db)
          (λ _ w'. w'.db.auctions ≡ w.db.auctions)
          (store_auction f env chain log auction token w)
  unfolding store_auction exec insert_raw_event
  store_auction-IsIndexed chain log auction token w =
      elim (Option-cases (f.unpack_event log.payload)) [
        | inl e ↦ rw e refl
        | inr ((amount, config), e1) ↦ rw e1 (elim (Option-cases (f.unpack_params config)) [
          | inl e ↦ rw e refl
          | inr (params, e2) ↦
              rw e2 (elim (Option-cases (f.marshal_strings (map c.hash_hex log.topics))) [
                | inl e ↦ rw e refl
                | inr (topics, e3) ↦
                    rw e3
                      (elim (Option-cases
                        (f.marshal_map (decoded_map f auction token amount params))) [
                          | inl e ↦ rw e refl
                          | inr (decoded, e4) ↦
                              rw e4 (elim (Bool-cases (env.statement_fails w.now)) [
                                | inl e ↦ rw e refl
                                | inr e5 ↦
                                    rw e5 (elim (Bool-cases (env.statement_fails (suc w.now))) [
                                      | inl e ↦ rw e refl
                                      | inr e6 ↦ rw e6 (record {
                                        amount = amount;
                                        config = config;
                                        params = params;
                                        topics = topics;
                                        decoded = decoded;
                                        unpacked = e1;
                                        unpacked_params = e2;
                                        marshalled = e3;
                                        marshalled_map = e4;
                                        written = refl;
                                      })
                                    ])
                              ])
                        ])
              ])
        ])
      ]

  -- Where the log has three topics, the handler stores the raw event and the auction with the decoded
  -- values, or it fails and stores no auction.
  abbrev pub Outcome : ℕ → Log → List Hash → Database → Result Error (Unit {0}) × World → Type 0
  Outcome chain log (t0 ∷ t1 ∷ t2 ∷ ts) db r =
      Ends (λ _ w'. IsIndexed chain log (c.bytes_to_address t1) (c.bytes_to_address t2) db w'.db)
        (λ _ w'. w'.db.auctions ≡ db.auctions) r
  Outcome chain log ts db (r, w') = (r ≡ err (few_topics (length ts))) × (w'.db ≡ db)

  handle_topics-Outcome :
      (chain : ℕ) (log : Log) (ts : List Hash) (w : World)
      → Outcome chain log ts w.db (handle_topics f env chain log ts w)
  unfolding handle_topics
  handle_topics-Outcome chain log (t0 ∷ t1 ∷ t2 ∷ ts) w =
      store_auction-IsIndexed chain log (c.bytes_to_address t1) (c.bytes_to_address t2) w
  handle_topics-Outcome chain log ts w = (refl, refl)

  -- For a log with three topics or more the handler decodes its data and stores the raw event and the
  -- auction, or it fails and stores no auction. For one with fewer it fails with the number of the
  -- topics and changes nothing.
  pub handle-Outcome :
      (chain : ℕ) (log : Log) (w : World)
      → Outcome chain log log.topics w.db (handle f env chain log w)
  unfolding handle
  handle-Outcome chain log w = handle_topics-Outcome chain log log.topics w

  insert_unless-UpTo :
      {R : Type 0} (P : R → Type 0) (o : Option R) (r : R) (t : List R)
      → P r
      → All P t
      → All P (insert_unless o r t)
  insert_unless-UpTo P none r t h p = (h, p)
  insert_unless-UpTo P (some s) r t h p = p

  IsIndexed-Written :
      (chain n : ℕ) (log : Log) (auction token : Address) (db db' : Database)
      → log.block_number ≤ n
      → EventsUpTo chain n db
      → AuctionsUpTo chain n db
      → IsIndexed chain log auction token db db'
      → Written chain n db db'
  unfolding insert_raw_event insert_auction
  IsIndexed-Written chain n log auction token db db' le e a s = rw s.written (record {
    events =
        insert_unless-UpTo (λ r. UpTo chain n r.chain_id r.block_number) _ _ db.raw_events (λ _. le)
          e;
    auctions =
        insert_unless-UpTo (λ r. UpTo chain n r.chain_id r.block_number) _ _ db.auctions (λ _. le)
          a;
    blocks = refl;
    cursors = refl;
  })

  handle_topics-Writes :
      (chain n : ℕ) (log : Log) (ts : List Hash)
      → log.block_number ≤ n
      → Writes chain n (handle_topics f env chain log ts)
  unfolding handle_topics
  handle_topics-Writes chain n log (t0 ∷ t1 ∷ t2 ∷ ts) le w e a =
      Ends-weaken _ _ _ _
        (store_auction f env chain log (c.bytes_to_address t1) (c.bytes_to_address t2) w)
        (λ _ w' s. IsIndexed-Written chain n log _ _ w.db w'.db le e a s) (λ _ _ _. tt)
        (store_auction-IsIndexed chain log (c.bytes_to_address t1) (c.bytes_to_address t2) w)
  handle_topics-Writes chain n log ts le w e a = tt

  -- The handler stores rows of its log's block only, as the indexer expects of its handlers.
  pub auction_created_handler-IsRowHandler : IsRowHandler (auction_created_handler f env)
  unfolding auction_created_handler handle
  auction_created_handler-IsRowHandler = record {
    each = λ chain n l le. handle_topics-Writes chain n l l.topics le;
    batch = λ g e. absurd (cc);
  }
