-- ===== src/Whole.antt =====
-- The indexer (internal/indexer/indexer.go) and the API (internal/api) over one database.
use cca_go_indexer.Base.{
  ℕ, arith, ◌+◌, ◌-◌, ◌≤◌, ◌≡◌, refl, ap, inl, inr, true, Bool-cases, Option-cases,
}
use cca_go_indexer.Api.{get_auction, Writer}
use cca_go_indexer.Api.Answers.{fresh_session}
use cca_go_indexer.Api.Health.{health, ready}
use cca_go_indexer.Api.Middleware.{Request, middleware}
use cca_go_indexer.Api.Paths.{parts, is_clean, auction_path, probe-clean}
use cca_go_indexer.Api.Routes.{is_get, app_mux, health_mux, is_probe, moved, outer}
use cca_go_indexer.AuctionCreated.{Formats}
use cca_go_indexer.Indexer.{IndexerConfig, Loop, run_rounds}
use cca_go_indexer.Indexer.CaughtUp.{GoesOnAt, ExactAt-tables}
use cca_go_indexer.Indexer.Exactly.{IsExact, run_rounds-ExactAt}
use cca_go_indexer.Indexer.Histories.{Phase, in_loop, no_process, History, History-Holds, base}
use cca_go_indexer.Indexer.Switches.{Chains, IsIndex}
use cca_go_indexer.Store.Cursors.{stored_cursor}
use cca_go_indexer.Store.Rows.{RowsUpTo}
use cca_go_indexer.Indexer.Index.{Chain, tables, index_blocks}
use cca_go_indexer.Indexer.Still.{IsStill}
use cca_go_indexer.Indexer.Trusted.{IsTrusted}
use cca_go_indexer.Registry.{HandlerMap}
use cca_go_indexer.Store.Auctions.{auction_by_address}
use cca_go_indexer.Text.{Text, codes, text_eq, to_lower}
use cca_go_indexer.Types.{Codec}
use cca_go_indexer.World.Calls.{Env, World, query, exec}
use cca_go_indexer.World.Database.{Database}

-- What the API sends for a request, over a database and from a time on.
abbrev pub answer_over : ⦃c : Codec⦄ → Env → ℕ → Text → Request → ℕ → Database → Writer
answer_over env chain generated r t db =
    (outer env chain generated r (fresh_session (record { db = db; now = t }))).1.writer

module _ ⦃c : Codec⦄ (env : Env) (chain : ℕ) (generated : Text) (r : Request) (t : ℕ)
    (db db' : Database) (same : tables db ≡ tables db') where
  same_auction :
      (address : Text) → auction_by_address chain address db ≡ auction_by_address chain address db'
  unfolding auction_by_address
  same_auction address = ap (auction_by_address chain address) same

  same_probe :
      is_probe r ≡ true
      → answer_over env chain generated r t db ≡ answer_over env chain generated r t db'
  unfolding outer health_mux health ready exec
  same_probe p =
      let u : is_clean r.path ≡ true = probe-clean r.path p in
      elim (Bool-cases (is_get r.method)) [
        | inl g ↦ elim (Bool-cases (text_eq r.path (codes "/health"))) [
          | inl h ↦ rw (answer_over, u, p, g, h) refl
          | inr h ↦ elim (Bool-cases (text_eq r.path (codes "/ready"))) [
            | inl d ↦ elim (Bool-cases (env.statement_fails t)) [
              | inl f ↦ rw (answer_over, u, g, h, d, f) refl
              | inr f ↦ rw (answer_over, u, g, h, d, f) refl
            ]
            | inr d ↦ absurd (ground arith)
          ]
        ]
        | inr g ↦ elim (Bool-cases (text_eq r.path (codes "/health"))) [
          | inl h ↦ rw (answer_over, u, p, g, h) refl
          | inr h ↦ elim (Bool-cases (text_eq r.path (codes "/ready"))) [
            | inl d ↦ rw (answer_over, u, g, h, d) refl
            | inr d ↦ absurd (ground arith)
          ]
        ]
      ]

  same_moved :
      (moved r (fresh_session (record { db = db; now = t }))).1.writer
      ≡ (moved r (fresh_session (record { db = db'; now = t }))).1.writer
  unfolding moved
  same_moved = elim (Bool-cases (is_get r.method)) [
    | inl g ↦ elim (Bool-cases (text_eq r.method (codes "GET"))) [
      | inl m ↦ rw (g, m) refl
      | inr m ↦ rw (g, m) refl
    ]
    | inr g ↦ elim (Bool-cases (text_eq r.method (codes "GET"))) [
      | inl m ↦ rw (g, m) refl
      | inr m ↦ rw (g, m) refl
    ]
  ]

  -- The API reads nothing of the database but its tables.
  pub same_answers :
      answer_over env chain generated r t db ≡ answer_over env chain generated r t db'
  unfolding outer health_mux app_mux middleware get_auction query health ready exec
  same_answers = elim (Bool-cases (is_clean r.path)) [
    | inr u ↦ rw (answer_over, u) same_moved
    | inl u ↦ elim (Bool-cases (is_probe r)) [
      | inl p ↦ same_probe p
      | inr p ↦ elim (Bool-cases (text_eq r.method (codes "OPTIONS"))) [
        | inl o ↦ rw (answer_over, u, p, o) refl
        | inr o ↦ elim (Option-cases (auction_path (parts r.path))) [
          | inl other ↦ rw (answer_over, u, p, o, other) refl
          | inr (address, path) ↦ elim (Bool-cases (is_get r.method)) [
            | inr g ↦ rw (answer_over, u, p, o, path, g) refl
            | inl g ↦ elim (Bool-cases (c.is_hex_address address)) [
              | inr h ↦ rw (answer_over, u, p, o, path, g, h) refl
              | inl h ↦ elim (Bool-cases (env.statement_fails t)) [
                | inl f ↦ rw (answer_over, u, p, o, path, g, h, f) refl
                | inr f ↦ elim (Option-cases (auction_by_address chain (to_lower address) db')) [
                  | inl there ↦
                      rw
                        (
                          answer_over,
                          u,
                          p,
                          o,
                          path,
                          g,
                          h,
                          f,
                          same_auction (to_lower address),
                          there,
                        )
                        refl
                  | inr (a, there) ↦
                      rw
                        (
                          answer_over,
                          u,
                          p,
                          o,
                          path,
                          g,
                          h,
                          f,
                          same_auction (to_lower address),
                          there,
                        )
                        refl
                ]
              ]
            ]
          ]
        ]
      ]
    ]
  ]

module _ ⦃c : Codec⦄ (f : Formats) (env : Env) (cfg : IndexerConfig) (registry : HandlerMap)
    (ch : Chain) (still : IsStill f env cfg registry ch)
    (trusted : IsTrusted env cfg registry) where
  -- Where the loop goes on from a block, the API answers every request over the indexer's database as
  -- over the index of the blocks above the base up to this block, whichever calls of the indexer failed
  -- and whatever the API's own services answer.
  pub run_rounds_answers :
      (api_env : Env) (chain : ℕ) (generated : Text) (r : Request) (t base : ℕ) (before : Database)
      (n : ℕ) (l : Loop) (w : World) (at : ℕ)
      → IsExact f env cfg registry ch still trusted base before l.cursor w.db
      → GoesOnAt at (run_rounds env cfg registry n l w)
      → answer_over api_env chain generated r t (run_rounds env cfg registry n l w).1.db
        ≡ answer_over api_env chain generated r t
            (index_blocks f cfg.chain_id ch (base + 1) (at - base) before)
  run_rounds_answers api_env chain generated r t base before n l w at p here =
      same_answers api_env chain generated r t (run_rounds env cfg registry n l w).1.db
        (index_blocks f cfg.chain_id ch (base + 1) (at - base) before)
        (ExactAt-tables f env cfg registry ch still trusted base before at
          (run_rounds env cfg registry n l w)
          (run_rounds-ExactAt f env cfg registry ch still trusted base before n l w p) here)

module _ ⦃c : Codec⦄ (f : Formats) (cfg : IndexerConfig) (chains : Chains) (before : Database)
    (rows : RowsUpTo cfg.chain_id 0 before)
    (fresh : (stored_cursor cfg.chain_id before).0 ≡ 0) where
  -- A state of the database is answered as the index of one chain, the same for every request.
  abbrev pub AnswersOf : Database → Type 0
  AnswersOf db =
      (ch : Chain) × chains.Possible ch
      × (from : ℕ) × (n : ℕ) × (from ≤ base f cfg chains before)
      × ((api_env : Env) (chain : ℕ) (generated : Text) (r : Request) (t : ℕ)
          → answer_over api_env chain generated r t db
            ≡ answer_over api_env chain generated r t
                (index_blocks f cfg.chain_id ch (from + 1) (n - from) before))

  IsIndex-AnswersOf :
      (n : ℕ) (db : Database)
      → IsIndex f cfg chains (base f cfg chains before) before rows n db
      → AnswersOf db
  IsIndex-AnswersOf n db (ch, possible, p) = (
    ch,
    possible,
    p.from,
    n,
    p.low,
    λ api_env chain generated r t.
        same_answers api_env chain generated r t db
          (index_blocks f cfg.chain_id ch (p.from + 1) (n - p.from) before) p.index,
  )

  -- Wherever a history of the indexer has come to that began on a database with no row of the chain
  -- above the block 0 and no cursor of it, there is one of the chains such that the API answers
  -- every request as over the index of blocks in a row of that chain: no request and no two
  -- requests see entries of different chains.
  pub History-AnswersOf : {p : Phase} {w : World} → History f cfg chains before p w → AnswersOf w.db
  History-AnswersOf {p = in_loop l} {w = w} h =
      IsIndex-AnswersOf l.cursor w.db (History-Holds f cfg chains before rows fresh h).0
  History-AnswersOf {p = no_process} {w = w} h =
      let (n, p) = History-Holds f cfg chains before rows fresh h in IsIndex-AnswersOf n w.db p.0
