-- ===== src/Tests/Reorged.antt =====
-- What the theorem on reorganisations says for a chain that was dropped from block 4 on.
use cca_go_indexer.Base.{
  ℕ, ◌+◌, ◌<◌, ◌≡◌, refl, sym, ◌∙◌, ◌⊎◌, inl, inr, false, leb, arith, Bool-cases, if◌then◌else◌,
  ◌==◌,
}
use mathlib.Core.Path.{subst}
use cca_go_indexer.Base.Effect.{Ends}
use cca_go_indexer.Indexer.Cut.{IsNumbered}
use cca_go_indexer.Indexer.Index.{Chain, decoded_entry, index_logs, index_blocks}
use cca_go_indexer.Indexer.Reorged.{AreChained, IsIndexed, IsReindexed, handle_reorg-IsReindexed}
use cca_go_indexer.Reorg.{handle_reorg}
use cca_go_indexer.Store.Auctions.{insert_auction}
use cca_go_indexer.Store.Blocks.{insert_block, block_hash}
use cca_go_indexer.Store.RawEvents.{insert_raw_event}
use cca_go_indexer.Types.{BlockHeader}
use cca_go_indexer.World.Calls.{World}
use cca_go_indexer.World.Database.{Database, empty_database}
use cca_go_indexer.Tests.Exact.{chain, logs_of, healthy-IsStill}
use cca_go_indexer.Tests.Setup.{
  test_codec, test_formats, healthy, config, registry, healthy-IsTrusted, header,
}

abbrev pub stale_header : ℕ → BlockHeader
stale_header n = if leb n 3 then header n else record { hash = n + 500; parent_hash = n + 499 }

abbrev pub stale : Chain
stale = record { header = stale_header; block_logs = logs_of }

stale_hash : (n : ℕ) → leb n 3 ≡ false → (stale_header n).hash ≡ n + 500
stale_hash n e = rw e refl

pub stale-AreChained : AreChained stale chain
stale-AreChained n m same h = elim (Bool-cases (leb m 3)) [
  | inl low ↦ rw low (refl, refl)
  | inr high ↦
      let above : leb n 3 ≡ false = ground arith in
      let dropped : n + 500 ≡ n + 100 = sym (stale_hash n above) ∙ same in absurd (omega arith)
]

pub stale-IsNumbered : IsNumbered stale
stale-IsNumbered n = elim (Bool-cases (n == 3)) [
  | inl e ↦ rw e (ground arith, tt)
  | inr e ↦ rw e tt
]

-- The blocks 3 and 4 of the dropped chain.
abbrev indexed : Database
indexed = index_blocks test_formats 1 stale 3 2 empty_database

indexed_hash_three : block_hash 1 3 indexed ≡ (stale_header 3).hash
unfolding index_blocks index_logs decoded_entry insert_block insert_auction insert_raw_event
    block_hash test_codec
indexed_hash_three = refl

indexed_hash_four : block_hash 1 4 indexed ≡ (stale_header 4).hash
unfolding index_blocks index_logs decoded_entry insert_block insert_auction insert_raw_event
    block_hash test_codec
indexed_hash_four = refl

indexed-IsIndexed :
    IsIndexed test_formats healthy config registry stale chain healthy-IsStill stale-AreChained 2
      empty_database 4 indexed
indexed-IsIndexed = record {
  above = omega arith;
  index = refl;
  hashes = λ m low high. elim (Bool-cases (m == 3)) [
    | inl e ↦
        let three : 3 ≡ m = ground arith in
        subst (λ k. block_hash 1 k indexed ≡ (stale_header k).hash) three indexed_hash_three
    | inr e ↦
        let four : 4 ≡ m = ground arith in
        subst (λ k. block_hash 1 k indexed ≡ (stale_header k).hash) four indexed_hash_four
  ];
}

abbrev at_stale : World
at_stale = record { db = indexed; now = 0 }

handle_reorg-IsReindexed_example :
    Ends
      (λ a w.
        (a < 2)
        ⊎ IsReindexed test_formats healthy config registry stale chain healthy-IsStill
            stale-AreChained 2 empty_database a w.db)
      (λ _ w. w.db ≡ indexed)
      (handle_reorg healthy 1 4 at_stale)
handle_reorg-IsReindexed_example =
    handle_reorg-IsReindexed test_formats healthy config registry stale chain healthy-IsStill
      stale-AreChained 2 empty_database healthy-IsTrusted.commits stale-IsNumbered
      (record { events = tt; auctions = tt; blocks = tt }) 4 at_stale indexed-IsIndexed
