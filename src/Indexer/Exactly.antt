-- ===== src/Indexer/Exactly.antt =====
-- That the tables are the index of the chain's blocks, neither less nor more (`ChainIndexer.Run` in
-- internal/indexer/indexer.go).
use cca_go_indexer.Base.{
  ℕ, zero, ◌+◌, ◌-◌, ◌<◌, ◌≤◌, ◌≡◌, refl, ap, ◌∙◌, sym, inl, inr, arith, Bool-cases, ltb,
}
use mathlib.Core.Path.{subst}
use cca_go_indexer.AuctionCreated.{Formats}
use cca_go_indexer.Base.Effect.{Result, ok, err, Ends}
use cca_go_indexer.Indexer.{
  IndexerConfig, Loop, Exit, continue_with, return_error, panic, round, next_round, run_rounds,
}
use cca_go_indexer.Indexer.Index.{Chain, tables, index_blocks, index_blocks_after}
use cca_go_indexer.Indexer.Hashes.{tables-block_hash}
use cca_go_indexer.Indexer.Invariant.{IsConsistent, Keeps}
use cca_go_indexer.Indexer.Rounds.{round-Keeps}
use cca_go_indexer.Indexer.Runs.{run_rounds_invariant}
use cca_go_indexer.Indexer.Still.{IsStill}
use cca_go_indexer.Indexer.StillRounds.{Extended, IsCurrent, round-Extended}
use cca_go_indexer.Indexer.Unchanged.{Unchanged}
use cca_go_indexer.Indexer.Trusted.{IsTrusted}
use cca_go_indexer.Registry.{HandlerMap}
use cca_go_indexer.Types.{Codec}
use cca_go_indexer.World.Calls.{Env, World}
use cca_go_indexer.World.Database.{Database}

module _ ⦃c : Codec⦄ (f : Formats) (env : Env) (cfg : IndexerConfig) (registry : HandlerMap)
    (ch : Chain) (still : IsStill f env cfg registry ch) (trusted : IsTrusted env cfg registry)
    (base : ℕ) (before : Database) where
  -- The tables are those of before and the index of the blocks above the base up to `n`.
  abbrev pub IsIndexOf : ℕ → Database → Type 0
  IsIndexOf n db =
      (base ≤ n)
      × (tables db ≡ tables (index_blocks f cfg.chain_id ch (base + 1) (n - base) before))

  -- What holds between rounds.
  pub record IsExact (n : ℕ) (db : Database) : Type 0 where
    pub index : IsIndexOf n db
    pub consistent : IsConsistent env cfg.chain_id base n db
    pub current : IsCurrent f env cfg registry ch still n db

  IsIndexOf-add :
      (m n : ℕ) (db db' : Database)
      → IsIndexOf m db
      → m ≤ n
      → tables db' ≡ tables (index_blocks f cfg.chain_id ch (m + 1) (n - m) db)
      → IsIndexOf n db'
  IsIndexOf-add m n db db' (low, so_far) le e =
      (omega arith, index_blocks_after f cfg.chain_id ch base m n before db db' low le so_far e)

  higher-IsCurrent :
      (n : ℕ) (db : Database)
      → base < n
      → IsConsistent env cfg.chain_id base n db
      → IsCurrent f env cfg registry ch still n db
  higher-IsCurrent n db h p =
      let (t, g, answered, stored) = p.hashes n h (omega arith) in
      inr (stored ∙ ap (λ k. k.hash) (still.headers t n g answered))

  -- The block was not left, so the store has what it had of it.
  kept-IsCurrent :
      (m n : ℕ) (db db' : Database)
      → m ≡ n
      → tables db' ≡ tables (index_blocks f cfg.chain_id ch (m + 1) (n - m) db)
      → IsCurrent f env cfg registry ch still m db
      → IsCurrent f env cfg registry ch still n db'
  kept-IsCurrent m n db db' e k current =
      let none_new : n - m ≡ zero = omega arith in
      let same : tables db' ≡ tables db =
        k
        ∙ ap (λ i. tables (index_blocks f cfg.chain_id ch (m + 1) i db)) none_new
        ∙ (unfold index_blocks in refl) in
      subst (λ i. IsCurrent f env cfg registry ch still i db') e
        (elim current [
          | inl none_stored ↦ inl (tables-block_hash f cfg.chain_id m db db' same ∙ none_stored)
          | inr stored ↦ inr (tables-block_hash f cfg.chain_id m db db' same ∙ stored)
        ])

  -- Where a round or a run of rounds has come to: an exact index, of the blocks up to the cursor of the
  -- next round, or, where `Run` has ended, up to some block.
  abbrev pub ExactAt : Exit × World → Type 0
  ExactAt (continue_with k, w) = IsExact k.cursor w.db
  ExactAt (return_error e, w) = (m : ℕ) × IsExact m w.db
  ExactAt (panic, w) = (m : ℕ) × IsExact m w.db

  Extended-IsExact :
      (l k : Loop) (db : Database) (w : World)
      → IsExact l.cursor db
      → Extended f env cfg registry ch still trusted l db k w
      → IsConsistent env cfg.chain_id base k.cursor w.db
      → IsExact k.cursor w.db
  Extended-IsExact l k db w p (le, e, _) q = record {
    index = IsIndexOf-add l.cursor k.cursor db w.db p.index le e;
    consistent = q;
    current = elim (Bool-cases (ltb base k.cursor)) [
      | inl high ↦ higher-IsCurrent k.cursor w.db (ground arith) q
      | inr low ↦ kept-IsCurrent l.cursor k.cursor db w.db (ground (arith, p.index)) e p.current
    ];
  }

  step-ExactAt :
      (l : Loop) (db : Database) (r : Result Exit Loop × World)
      → IsExact l.cursor db
      → Ends (Extended f env cfg registry ch still trusted l db) (Unchanged l db) r
      → Ends
          (λ k w. IsConsistent env cfg.chain_id base k.cursor w.db)
          (Keeps env cfg.chain_id base)
          r
      → ExactAt (next_round env cfg registry r)
  step-ExactAt l db (ok k, w) p e q = Extended-IsExact l k db w p e q
  step-ExactAt l db (err (continue_with k), w) p (same, kept) q =
      subst (λ n. IsExact n w.db) (sym same) (subst (IsExact l.cursor) (sym kept) p)
  step-ExactAt l db (err (return_error x), w) p kept q =
      (l.cursor, subst (IsExact l.cursor) (sym kept) p)
  step-ExactAt l db (err panic, w) p kept q = (l.cursor, subst (IsExact l.cursor) (sym kept) p)

  -- While the chain stands still and the services can be trusted, any number of rounds keeps the
  -- tables exact, whichever calls fail: they are those of before and the index of the blocks above the
  -- base, up to the loop's cursor, or, where `Run` has ended, up to some block.
  pub run_rounds-ExactAt :
      (n : ℕ) (l : Loop) (w : World)
      → IsExact l.cursor w.db
      → ExactAt (run_rounds env cfg registry n l w)
  run_rounds-ExactAt = run_rounds_invariant env cfg registry ExactAt (λ l w p.
      step-ExactAt l w.db (round env cfg registry l w) p
        (round-Extended f env cfg registry ch still trusted l w p.current)
        (round-Keeps env cfg registry trusted base l w p.consistent))
