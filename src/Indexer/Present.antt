-- ===== src/Indexer/Present.antt =====
-- That a row which is present in a table stays so while blocks are indexed
-- (internal/indexer/indexer.go).
use cca_go_indexer.Base.{
  ℕ, zero, suc, ◌+◌, ◌≡◌, refl, Bool, true, Option, none, some, inl, inr, List, [], ◌∷◌,
  Option-cases, Bool-cases, find, insert_new, insert_unless, find-insert_new_self,
  find-insert_new_same,
}
use cca_go_indexer.AuctionCreated.{Formats}
use cca_go_indexer.Indexer.Index.{Chain, entry_at, add_entry, index_logs, index_blocks}
use cca_go_indexer.Store.Auctions.{insert_auction, has_address, lower_hex, auction_row}
use cca_go_indexer.Store.Blocks.{insert_block, is_block}
use cca_go_indexer.Store.RawEvents.{insert_raw_event, raw_event_row, same_event}
use cca_go_indexer.Types.{Auction, Codec, Hash, Log, RawEvent}
use cca_go_indexer.World.Database.{Database, AuctionRow, BlockRow, RawEventRow}

module _ {R : Type 0} where
  -- Some row is selected.
  abbrev pub Present : (R → Bool) → List R → Type 0
  Present p t = (r : R) × (find p t ≡ some r)

  pub insert_new_idle : (p : R → Bool) (r : R) (t : List R) → Present p t → insert_new p r t ≡ t
  insert_new_idle p r t (s, e) = rw (e, insert_unless) refl

  pub insert_new-Present :
      (p : R → Bool) (r : R) (t : List R) → p r ≡ true → Present p (insert_new p r t)
  insert_new-Present p r t h = elim (Option-cases (find p t)) [
    | inl e ↦ (r, find-insert_new_self p r h t e)
    | inr (s, e) ↦ (s, find-insert_new_same p r s t e)
  ]

  still-Present : (p q : R → Bool) (r : R) (t : List R) → Present p t → Present p (insert_new q r t)
  still-Present p q r t (s, e) = elim (Option-cases (find q t)) [
    | inr (s', e') ↦ rw (e', insert_unless) (s, e)
    | inl e' ↦ elim (Bool-cases (p r)) [
      | inl h ↦ rw (e', insert_unless, h) (r, refl)
      | inr h ↦ rw (e', insert_unless, h) (s, e)
    ]
  ]

-- Whatever row is present in a table stays so.
pub record Grows (db db' : Database) : Type 0 where
  pub events : (p : RawEventRow → Bool) → Present p db.raw_events → Present p db'.raw_events
  pub auctions : (p : AuctionRow → Bool) → Present p db.auctions → Present p db'.auctions
  pub blocks : (p : BlockRow → Bool) → Present p db.blocks → Present p db'.blocks

same-Grows : (db : Database) → Grows db db
same-Grows db = record { events = λ p h. h; auctions = λ p h. h; blocks = λ p h. h }

Grows-trans : (a b d : Database) → Grows a b → Grows b d → Grows a d
Grows-trans a b d g k = record {
  events = λ p h. k.events p (g.events p h);
  auctions = λ p h. k.auctions p (g.auctions p h);
  blocks = λ p h. k.blocks p (g.blocks p h);
}

module _ ⦃c : Codec⦄ (f : Formats) (chain : ℕ) where
  pub add_entry-Grows :
      (o : Option (RawEvent × Auction)) (db : Database) → Grows db (add_entry f chain o db)
  unfolding insert_raw_event insert_auction
  add_entry-Grows none db = same-Grows db
  add_entry-Grows (some (e, a)) db = record {
    events = λ p h.
        still-Present p (same_event e.chain_id e.block_number (c.hash_hex e.tx_hash) e.log_index)
          (raw_event_row e) db.raw_events h;
    auctions = λ p h.
        still-Present p (has_address a.chain_id (lower_hex a.auction_address)) (auction_row a)
          db.auctions h;
    blocks = λ p h. h;
  }

  pub insert_block-Grows :
      (n : ℕ) (hash parent : Hash) (db : Database) → Grows db (insert_block chain n hash parent db)
  unfolding insert_block
  insert_block-Grows n hash parent db = record {
    events = λ p h. h;
    auctions = λ p h. h;
    blocks = λ p h. still-Present p (is_block chain n) _ db.blocks h;
  }

  pub index_logs-Grows : (ls : List Log) (db : Database) → Grows db (index_logs f chain ls db)
  unfolding index_logs
  index_logs-Grows [] db = same-Grows db
  index_logs-Grows (l ∷ ls) db =
      Grows-trans _ _ _ (add_entry-Grows (entry_at f chain l l.topics) db) (index_logs-Grows ls _)

  pub index_blocks-Grows :
      (ch : Chain) (count from : ℕ) (db : Database)
      → Grows db (index_blocks f chain ch from count db)
  unfolding index_blocks
  index_blocks-Grows ch zero from db = same-Grows db
  index_blocks-Grows ch (suc count) from db =
      Grows-trans _ _ _
        (Grows-trans _ _ _ (index_logs-Grows (ch.block_logs from) db)
          (insert_block-Grows from (ch.header from).hash (ch.header from).parent_hash _))
        (index_blocks-Grows ch count (from + 1) _)
