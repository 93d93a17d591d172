-- ===== src/Indexer/Overlap.antt =====
-- The index of blocks over an index that has some of them (internal/indexer/indexer.go).
use cca_go_indexer.Base.{
  ℕ, zero, suc, ◌+◌, ◌-◌, ◌≤◌, ◌≡◌, ap, ◌∙◌, sym, inl, inr, arith, Bool-cases, leb,
}
use cca_go_indexer.AuctionCreated.{Formats}
use cca_go_indexer.Indexer.Again.{HasBlocks, index_blocks-HasBlocks, index_blocks_present}
use cca_go_indexer.Indexer.Index.{
  Chain, tables, index_blocks, index_blocks-add, index_blocks_after, tables-index_blocks,
}
use cca_go_indexer.Types.{Codec}
use cca_go_indexer.World.Database.{Database}

module _ ⦃c : Codec⦄ (f : Formats) (chain : ℕ) where
  prefix-HasBlocks :
      (ch : Chain) (k n from : ℕ) (db : Database)
      → k ≤ n
      → HasBlocks f chain ch from n db
      → HasBlocks f chain ch from k db
  prefix-HasBlocks ch zero n from db h p = tt
  prefix-HasBlocks ch (suc k) zero from db h p = absurd (omega arith)
  prefix-HasBlocks ch (suc k) (suc n) from db h p =
      (p.0, p.1, prefix-HasBlocks ch k n (from + 1) db (omega arith) p.2)

  -- The index over itself: nothing is added to it by blocks that it has.
  index_blocks_within :
      (ch : Chain) (base n m k : ℕ) (before db : Database)
      → base ≤ n
      → n + k ≤ m
      → tables db ≡ tables (index_blocks f chain ch (base + 1) (m - base) before)
      → tables (index_blocks f chain ch (n + 1) k db) ≡ tables db
  index_blocks_within ch base n m k before db low h so_far =
      sym (tables-index_blocks f chain ch k (n + 1) db)
      ∙ ap (index_blocks f chain ch (n + 1) k) so_far
      ∙ tables-index_blocks f chain ch k (n + 1)
          (index_blocks f chain ch (base + 1) (m - base) before)
      ∙ ap tables (ap (index_blocks f chain ch (n + 1) k) (sym split) ∙ kept ∙ split)
      ∙ sym so_far
    where
      lower : Database
      lower = index_blocks f chain ch (base + 1) (n - base) before

      split :
          index_blocks f chain ch (n + 1) (m - n) lower
          ≡ index_blocks f chain ch (base + 1) (m - base) before
      split =
          index_blocks-add f chain ch (n - base) (m - n) (base + 1) (n + 1) (m - base) before
            (omega arith) (omega arith)

      kept :
          index_blocks f chain ch (n + 1) k (index_blocks f chain ch (n + 1) (m - n) lower)
          ≡ index_blocks f chain ch (n + 1) (m - n) lower
      kept = index_blocks_present f chain ch k (n + 1) _ (
          prefix-HasBlocks ch k (m - n) (n + 1) _ (omega arith)
            (index_blocks-HasBlocks f chain ch (m - n) (n + 1) lower))

  -- A batch over an index that has some of its blocks leaves the index up to the higher end.
  pub index_blocks_over :
      (ch : Chain) (base n m to : ℕ) (before db db' : Database)
      → base ≤ n
      → n ≤ m
      → n ≤ to
      → tables db ≡ tables (index_blocks f chain ch (base + 1) (m - base) before)
      → tables db' ≡ tables (index_blocks f chain ch (n + 1) (to - n) db)
      → (m' : ℕ) × (to ≤ m')
        × (tables db' ≡ tables (index_blocks f chain ch (base + 1) (m' - base) before))
  index_blocks_over ch base n m to before db db' low le le' so_far e =
      elim (Bool-cases (leb to m)) [
        | inl within ↦ (
          m,
          ground arith,
          e ∙ index_blocks_within ch base n m (to - n) before db low (ground arith) so_far ∙ so_far,
        )
        | inr beyond ↦ (
          to,
          omega arith,
          index_blocks_after f chain ch base m to before
              (index_blocks f chain ch (n + 1) (m - n) db) db' (omega arith) (ground arith)
              (index_blocks_within ch base n m (m - n) before db low (omega arith) so_far ∙ so_far)
              (e
                ∙ ap tables (
                    sym (
                      index_blocks-add f chain ch (m - n) (to - m) (n + 1) (m + 1) (to - n) db
                        (omega arith) (ground arith)))),
        )
      ]
