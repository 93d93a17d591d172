-- ===== src/Indexer/SwitchRounds.antt =====
-- What a round of `ChainIndexer.Run` leaves in the tables when the node has gone over to another chain
-- since the last one (internal/indexer/indexer.go, internal/indexer/reorg.go).
use cca_go_indexer.Base.{ℕ, ◌+◌, ◌≡◌, ap, ◌∙◌, sym, inl, inr, true, false, arith, u64, min}
use mathlib.Core.Path.{subst}
use cca_go_indexer.AuctionCreated.{Formats}
use cca_go_indexer.Base.Effect.{Ends, Ends-and_then, Ends-weaken}
use cca_go_indexer.Indexer.{IndexerConfig, Loop, or_return, process_batch, recover, round}
use cca_go_indexer.Indexer.Detection.{Chooses, round-Chooses}
use cca_go_indexer.Indexer.Index.{Chain, index_blocks_after}
use cca_go_indexer.Indexer.Still.{IsStill}
use cca_go_indexer.Indexer.StillRounds.{Extended, process_batch-Extended}
use cca_go_indexer.Indexer.Trusted.{IsTrusted}
use cca_go_indexer.Indexer.Unchanged.{Unchanged, or_return-Unchanged}
use cca_go_indexer.Registry.{HandlerMap}
use cca_go_indexer.Reorg.{handle_reorg}
use cca_go_indexer.Reorg.Detect.{Detected}
use cca_go_indexer.Reorg.Rollback.{IsRecovered, handle_reorg-IsRecovered}
use cca_go_indexer.Store.Cursors.{stored_cursor}
use cca_go_indexer.Store.Rows.{RowsUpTo}
use cca_go_indexer.Types.{Codec}
use cca_go_indexer.World.Calls.{Env, World}
use cca_go_indexer.World.Database.{Database}
use cca_go_indexer.World.Errors.{handle_reorg as handling_reorg}
use cca_go_indexer.Indexer.Switches.{
  Chains, IsIndexOf, IsIndex, IsIndexOf-block_hash, same-Shares, shared-IsIndexOf,
  rolled_back-IsIndexOf,
}

module _ ⦃c : Codec⦄ (f : Formats) (cfg : IndexerConfig) (chains : Chains) (base : ℕ)
    (before : Database) (rows : RowsUpTo cfg.chain_id 0 before) (env : Env) (registry : HandlerMap)
    (ch' : Chain) (possible : chains.Possible ch') (still : IsStill f env cfg registry ch')
    (trusted : IsTrusted env cfg registry) where
  -- The round has led to the index of the node's chain up to the next cursor, which is stored.
  abbrev pub Follows : Loop → World → Type 0
  Follows k w =
      IsIndexOf f cfg chains base before rows ch' k.cursor w.db
      × ((stored_cursor cfg.chain_id w.db).0 ≡ k.cursor)

  -- With no reorganisation the indexed blocks are the node's too.
  undetected-IsIndexOf :
      (ch : Chain) (n t : ℕ) (db : Database)
      → chains.Possible ch
      → IsIndexOf f cfg chains base before rows ch n db
      → Detected env cfg.chain_id n t db false
      → IsIndexOf f cfg chains base before rows ch' n db
  undetected-IsIndexOf ch n t db p q d =
      shared-IsIndexOf f cfg chains base before rows ch ch' n db q (
        same-Shares f cfg chains base before rows ch ch' q.from n p possible (λ h.
          let stored =
            IsIndexOf-block_hash f cfg chains base before rows ch n n db q h (omega arith) in
          elim d [
            | inl genesis ↦ absurd (omega arith)
            | inr (inl nothing) ↦ absurd (chains.hashed ch p n (sym stored ∙ nothing))
            | inr (inr (h', answered, same)) ↦
                sym stored ∙ same ∙ ap (λ k. k.hash) (still.headers t n h' answered)
          ]))

  recovered-Follows :
      (ch : Chain) (n a : ℕ) (db db' : Database)
      → chains.Possible ch
      → IsIndexOf f cfg chains base before rows ch n db
      → IsRecovered cfg.chain_id env n a db db'
      → IsIndexOf f cfg chains base before rows ch' a db' × ((stored_cursor cfg.chain_id db').0 ≡ a)
  recovered-Follows ch n a db db' p q r = (
    subst (IsIndexOf f cfg chains base before rows ch' a) (sym r.exact) (
        rolled_back-IsIndexOf f cfg chains base before rows ch ch' a n db q (chains.numbered ch p)
          (same-Shares f cfg chains base before rows ch ch' q.from a p possible (λ h.
            elim r.stopped [
              | inl genesis ↦ absurd (omega arith)
              | inr (t, h', answered, stored) ↦
                  sym (IsIndexOf-block_hash f cfg chains base before rows ch n a db q h r.at_most)
                  ∙ stored
                  ∙ ap (λ k. k.hash) (still.headers t a h' answered)
            ]))
          r.at_most),
    ap (λ k. k.0) r.rolled.cursor,
  )

  recover-Follows :
      (l : Loop) (w : World)
      → IsIndex f cfg chains base before rows l.cursor w.db
      → Ends Follows (Unchanged l w.db) (recover env cfg registry l w)
  unfolding recover
  recover-Follows l w (ch, p, q) =
      Ends-and_then
        (λ a w'.
          IsIndexOf f cfg chains base before rows ch' a w'.db
          × ((stored_cursor cfg.chain_id w'.db).0 ≡ a))
        _ _ (or_return env handling_reorg (handle_reorg env cfg.chain_id l.cursor) w) _
        (or_return-Unchanged env l w.db _ handling_reorg (handle_reorg env cfg.chain_id l.cursor w)
          (Ends-weaken _ _ _ _ (handle_reorg env cfg.chain_id l.cursor w)
            (λ a w' r. recovered-Follows ch l.cursor a w.db w'.db p q r) (λ _ _ same. same)
            (handle_reorg-IsRecovered cfg.chain_id env l.cursor w trusted.commits)))
        (λ a w' r. r)

  batch-Follows :
      (l k : Loop) (w w' : World)
      → IsIndexOf f cfg chains base before rows ch' l.cursor w.db
      → Extended f env cfg registry ch' still trusted l w.db k w'
      → Follows k w'
  batch-Follows l k w w' p (le, e, saved) = (
    record {
      from = p.from;
      low = p.low;
      high = omega (arith, p.high);
      index =
          index_blocks_after f cfg.chain_id ch' p.from l.cursor k.cursor before w.db w'.db p.high le
            p.index e;
    },
    saved,
  )

  choose-Follows :
      (l : Loop) (db : Database)
      → IsIndex f cfg chains base before rows l.cursor db
      → Chooses env cfg registry trusted.heads Follows (Unchanged l db) l db
  choose-Follows l db index safe t true w h k same d =
      subst (λ x. Ends Follows (Unchanged l x) (recover env cfg registry l w)) same
        (recover-Follows l w
          (subst (IsIndex f cfg chains base before rows l.cursor) (sym same) index))
  choose-Follows l db (ch, p, q) safe t false w h k same d =
      let next_block : u64 (l.cursor + 1) ≡ l.cursor + 1 = omega arith in
      rw next_block (
        subst
          (λ x. Ends Follows (Unchanged l x) (
            process_batch env cfg registry l (l.cursor + 1)
              (min (u64 (l.cursor + cfg.block_batch_size)) safe) w))
          same
          (Ends-weaken _ _ _ _
            (process_batch env cfg registry l (l.cursor + 1)
              (min (u64 (l.cursor + cfg.block_batch_size)) safe) w)
            (λ k' w' e.
              batch-Follows l k' w w'
                (subst (IsIndexOf f cfg chains base before rows ch' l.cursor) (sym same)
                  (undetected-IsIndexOf ch l.cursor t db p q d))
                e)
            (λ _ _ u. u)
            (process_batch-Extended f env cfg registry ch' still trusted l
              (min (u64 (l.cursor + cfg.block_batch_size)) safe) w
              (ground (arith, trusted.batch_size)) (ground arith))))

  -- From the index of one of the chains over a database with no row of the chain above the block 0,
  -- a round in which the node is on one of them and the services can be trusted leads to the index
  -- of that chain up to the loop's new cursor, which is stored, be it by a batch or by a rollback,
  -- or it leaves cursor and database alone, whatever fails.
  pub round-Follows :
      (l : Loop) (w : World)
      → IsIndex f cfg chains base before rows l.cursor w.db
      → Ends Follows (Unchanged l w.db) (round env cfg registry l w)
  round-Follows l w index =
      round-Chooses env cfg registry trusted.heads Follows (Unchanged l w.db) l w (λ _ _ u. u)
        (choose-Follows l w.db index)
