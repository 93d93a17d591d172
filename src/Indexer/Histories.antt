-- ===== src/Indexer/Histories.antt =====
-- The life of an indexer over a node that goes over from chain to chain: it is started, runs its
-- rounds, fails or is stopped, and is started again on the same database
-- (internal/indexer/indexer.go, cmd/indexer/main.go).
use cca_go_indexer.Base.{ℕ, ◌≡◌, ◌==◌, refl, ap, ◌∙◌, sym, ◌⊎◌, inl, inr, arith, Bool-cases}
use mathlib.Core.Path.{subst}
use cca_go_indexer.AuctionCreated.{Formats}
use cca_go_indexer.Base.Effect.{Result, ok, err, Ends}
use cca_go_indexer.Indexer.{
  IndexerConfig, Loop, Exit, continue_with, return_error, panic, initial_cursor, round, next_round,
  run_rounds, run,
}
use cca_go_indexer.Indexer.Index.{Chain, tables}
use cca_go_indexer.Indexer.Still.{IsStill}
use cca_go_indexer.Indexer.Switches.{Chains, IsIndexOf, IsIndex, IsIndexOf-tables, none-IsIndexOf}
use cca_go_indexer.Indexer.SwitchRounds.{Follows, round-Follows}
use cca_go_indexer.Indexer.Trusted.{IsTrusted}
use cca_go_indexer.Indexer.Unchanged.{Unchanged}
use cca_go_indexer.Registry.{HandlerMap}
use cca_go_indexer.Store.Cursors.{stored_cursor}
use cca_go_indexer.Store.Rows.{RowsUpTo}
use cca_go_indexer.Types.{Codec}
use cca_go_indexer.World.Calls.{Env, World, query}
use cca_go_indexer.World.Database.{Database}

-- The process is in the loop of `Run`, or there is none.
pub data Phase : Type 0 where
  in_loop : Loop → Phase
  no_process : Phase

abbrev pub phase : Exit → Phase
phase (continue_with l) = in_loop l
phase (return_error e) = no_process
phase panic = no_process

module _ ⦃c : Codec⦄ (f : Formats) (cfg : IndexerConfig) (chains : Chains) where
  -- What a round of a history relies on: the node is on one of the chains while the round lasts, and
  -- the services can be trusted.
  pub record IsServed (env : Env) (registry : HandlerMap) : Type 0 where
    pub chain : Chain
    pub possible : chains.Possible chain
    pub still : IsStill f env cfg registry chain
    pub trusted : IsTrusted env cfg registry

module _ ⦃c : Codec⦄ (f : Formats) (cfg : IndexerConfig) (chains : Chains) (before : Database) where
  -- The histories from the given database on. A process that is stopped in the middle of a round
  -- leaves what it would have left at the round's beginning or at its end, since the round writes in
  -- one transaction.
  pub data History : Phase → World → Type 0 where
    began : {w : World} → w.db ≡ before → History no_process w
    launched :
        {w w' : World} {x : Exit} (env : Env) (registry : HandlerMap)
        → History no_process w
        → run env cfg registry 0 w ≡ (x, w')
        → History (phase x) w'
    went_on :
        {l : Loop} {w w' : World} {x : Exit} (env : Env) (registry : HandlerMap)
        → History (in_loop l) w
        → IsServed f cfg chains env registry
        → next_round env cfg registry (round env cfg registry l w) ≡ (x, w')
        → History (phase x) w'
    killed : {l : Loop} {w : World} → History (in_loop l) w → History no_process w

  -- Where `Run` begins on a database without a cursor of the chain.
  abbrev pub base : ℕ
  base = initial_cursor cfg.start_block 0

  -- The database's cursor is the block, or there is none and the block is the one to begin at.
  abbrev pub IsSaved : ℕ → Database → Type 0
  IsSaved n db =
      ((stored_cursor cfg.chain_id db).0 ≡ n)
      ⊎ (((stored_cursor cfg.chain_id db).0 ≡ 0) × (n ≡ base))

  -- What `Run` does before its loop.
  abbrev Starts : Database → Exit × World → Type 0
  Starts db (continue_with l, w) =
      (w.db ≡ db) × (l.cursor ≡ initial_cursor cfg.start_block (stored_cursor cfg.chain_id db).0)
  Starts db (return_error e, w) = w.db ≡ db
  Starts db (panic, w) = w.db ≡ db

  run-Starts :
      (env : Env) (registry : HandlerMap) (w : World) → Starts w.db (run env cfg registry 0 w)
  unfolding run run_rounds query
  run-Starts env registry w = elim (Bool-cases (env.statement_fails w.now)) [
    | inl e ↦ rw e refl
    | inr e ↦ rw e (refl, refl)
  ]

  module _ (rows : RowsUpTo cfg.chain_id 0 before)
      (fresh : (stored_cursor cfg.chain_id before).0 ≡ 0) where
    -- The tables are the index of one of the chains up to the block, which is saved.
    abbrev pub IsIndexedTo : ℕ → Database → Type 0
    IsIndexedTo n db = IsIndex f cfg chains base before rows n db × IsSaved n db

    -- It is so up to the loop's cursor, or, where there is no process, up to a block that is saved.
    abbrev pub Holds : Phase → World → Type 0
    Holds (in_loop l) w = IsIndexedTo l.cursor w.db
    Holds no_process w = (n : ℕ) × IsIndexedTo n w.db

    -- `Run` goes on where the database was left.
    IsIndexedTo-initial_cursor :
        (n : ℕ) (db : Database)
        → IsIndexedTo n db
        → IsIndexedTo (initial_cursor cfg.start_block (stored_cursor cfg.chain_id db).0) db
    IsIndexedTo-initial_cursor n db ((ch, p, q), saved) =
        let s = (stored_cursor cfg.chain_id db).0 in
        elim (Bool-cases (s == 0)) [
          | inl unsaved ↦
              let fresh_start : s ≡ 0 = ground arith in
              subst (λ k. IsIndexedTo (initial_cursor cfg.start_block k) db) (sym fresh_start)
                (elim saved [
                  | inl e ↦
                      let at_genesis : n ≡ 0 = sym e ∙ fresh_start in
                      (
                        (
                          ch,
                          p,
                          none-IsIndexOf f cfg chains base before rows ch base db (omega arith) (
                              IsIndexOf-tables f cfg chains base before rows ch n db q
                                (omega arith)),
                        ),
                        inr (fresh_start, refl),
                      )
                  | inr (_, e) ↦ (
                    (ch, p, subst (λ k. IsIndexOf f cfg chains base before rows ch k db) e q),
                    inr (fresh_start, refl),
                  )
                ])
          | inr saved_before ↦
              let kept : initial_cursor cfg.start_block s ≡ s = ground arith in
              elim saved [
                | inl e ↦ subst (λ k. IsIndexedTo k db) (sym (kept ∙ e)) ((ch, p, q), inl e)
                | inr (e, _) ↦ absurd (ground arith)
              ]
        ]

    -- How a start or a round ends.
    abbrev HoldsAfter : Exit × World → Type 0
    HoldsAfter (x, w) = Holds (phase x) w

    start-Holds :
        (n : ℕ) (db : Database) (x : Exit × World) → IsIndexedTo n db → Starts db x → HoldsAfter x
    start-Holds n db (continue_with l, w) p (same, at) =
        subst (λ k. IsIndexedTo k w.db) (sym at)
          (subst (IsIndexedTo (initial_cursor cfg.start_block (stored_cursor cfg.chain_id db).0))
            (sym same) (IsIndexedTo-initial_cursor n db p))
    start-Holds n db (return_error e, w) p same = (n, subst (IsIndexedTo n) (sym same) p)
    start-Holds n db (panic, w) p same = (n, subst (IsIndexedTo n) (sym same) p)

    same-Holds :
        (l : Loop) (db : Database) (x : Exit) (w : World)
        → IsIndexedTo l.cursor db
        → Unchanged l db x w
        → Holds (phase x) w
    same-Holds l db (continue_with k) w p (at, same) =
        subst (λ n. IsIndexedTo n w.db) (sym at) (subst (IsIndexedTo l.cursor) (sym same) p)
    same-Holds l db (return_error e) w p same =
        (l.cursor, subst (IsIndexedTo l.cursor) (sym same) p)
    same-Holds l db panic w p same = (l.cursor, subst (IsIndexedTo l.cursor) (sym same) p)

    next-Holds :
        (env : Env) (registry : HandlerMap) (s : IsServed f cfg chains env registry) (l : Loop)
        (db : Database) (r : Result Exit Loop × World)
        → IsIndexedTo l.cursor db
        → Ends
            (Follows f cfg chains base before rows env registry s.chain s.possible s.still
              s.trusted)
            (Unchanged l db)
            r
        → HoldsAfter (next_round env cfg registry r)
    next-Holds env registry s l db (ok k, w) p (index, saved) =
        ((s.chain, s.possible, index), inl saved)
    next-Holds env registry s l db (err x, w) p same = same-Holds l db x w p same

    -- On a database with no row of the chain above the block 0 and no cursor of it, in every
    -- history of an indexer over a node that goes over from one of the chains to another, in whose
    -- rounds the node is on one of them and the services can be trusted, the tables are those of
    -- before and the index of one of the chains, from some block on that is at most the first one,
    -- up to the loop's cursor, or, where there is no process, up to the stored cursor (where none
    -- is stored, to the block that `Run` begins at): no block of another chain is left in them.
    pub History-Holds : {p : Phase} {w : World} → History p w → Holds p w
    History-Holds (began {w} same) = (
      base,
      (
        (
          chains.initial,
          chains.initially,
          none-IsIndexOf f cfg chains base before rows chains.initial base w.db (omega arith)
              (ap tables same),
        ),
        inr (ap (λ d. (stored_cursor cfg.chain_id d).0) same ∙ fresh, refl),
      ),
    )
    History-Holds (launched {w} {w'} {x} env registry h e) =
        let (n, p) = History-Holds h in
        subst HoldsAfter e
          (start-Holds n w.db (run env cfg registry 0 w) p (run-Starts env registry w))
    History-Holds (went_on {l} {w} {w'} {x} env registry h s e) =
        let p = History-Holds h in
        subst HoldsAfter e (
          next-Holds env registry s l w.db (round env cfg registry l w) p (
            round-Follows f cfg chains base before rows env registry s.chain s.possible s.still
              s.trusted l w p.0))
    History-Holds (killed {l} {w} h) = (l.cursor, History-Holds h)
