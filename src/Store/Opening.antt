-- ===== src/Store/Opening.antt =====
-- `New` and `runMigrations` (internal/store/postgres/postgres.go): what they open and close, over the
-- answers of pgx and of golang-migrate.
use cca_go_indexer.Base.{◌≡◌, refl, inl, inr, Bool, true, false, if◌then◌else◌, Bool-cases}
use cca_go_indexer.Base.Effect.{Result, ok, err, M, pure, raise, Ends, ◌>>◌}

-- How far the migrations come: `iofs.New` or `migrate.NewWithSourceInstance` fails, or `Up` does, or
-- it has nothing to do, or does it.
pub data Migration : Type 0 where
  no_source no_migrator up_failed no_change up_done : Migration

-- The answers to `pgxpool.ParseConfig`, `pgxpool.NewWithConfig` and `pool.Ping`, and the migrations.
pub record Services : Type 0 where
  pub parses : Bool
  pub creates : Bool
  pub pings : Bool
  pub migration : Migration

-- What is open: the pool and the migrator.
pub record Resources : Type 0 where
  pub pool_open : Bool
  pub migrator_open : Bool

abbrev pub all_closed : Resources
all_closed = record { pool_open = false; migrator_open = false }

-- The errors, by what they are wrapped with.
pub data OpenError : Type 0 where
  parse_config new_with_config pool_ping : OpenError
  create_source create_migrator running_migrations : OpenError

abbrev pub Open : Type 0
Open = M Resources OpenError (Unit {0})

abbrev check : Bool → OpenError → Open
check b e = if b then pure tt else raise e

abbrev set_pool : Bool → Open
set_pool b r = (ok tt, record r { pool_open = b })

abbrev set_migrator : Bool → Open
set_migrator b r = (ok tt, record r { migrator_open = b })

-- `defer m.Close()`
abbrev then_close_migrator :
    Result OpenError (Unit {0}) × Resources → Result OpenError (Unit {0}) × Resources
then_close_migrator (a, r) = (a, record r { migrator_open = false })

-- `m.Up()`, whose `ErrNoChange` is none.
abbrev up : Migration → Open
up up_failed = raise running_migrations
up m = pure tt

-- `runMigrations`
unfoldable pub run_migrations : Migration → Open
run_migrations no_source = raise create_source
run_migrations no_migrator = raise create_migrator
run_migrations m = set_migrator true >> λ r. then_close_migrator (up m r)

-- `pool.Close()` where a step fails.
abbrev or_close_outcome :
    Result OpenError (Unit {0}) × Resources → Result OpenError (Unit {0}) × Resources
or_close_outcome (ok a, r) = (ok a, r)
or_close_outcome (err e, r) = (err e, record r { pool_open = false })

abbrev or_close : Open → Open
or_close m r = or_close_outcome (m r)

-- `New`
unfoldable pub new : Services → Open
unfolding run_migrations
new s = do
  check s.parses parse_config
  check s.creates new_with_config
  set_pool true
  or_close (check s.pings pool_ping)
  or_close (run_migrations s.migration)

-- `Up` has done its work, or there was none.
abbrev pub IsMigrated : Migration → Type 0
IsMigrated up_done = Unit {0}
IsMigrated no_change = Unit {0}
IsMigrated m = ⊥

-- Every step has succeeded, and the pool is what is open.
pub record IsOpened (s : Services) (r : Resources) : Type 0 where
  pub parses : s.parses ≡ true
  pub creates : s.creates ≡ true
  pub pings : s.pings ≡ true
  pub migrated : IsMigrated s.migration
  pub pool : r ≡ record all_closed { pool_open = true }

run_migrations-Ends :
    (P : Resources → Type 0) (m : Migration)
    → (IsMigrated m → P (record all_closed { pool_open = true }))
    → Ends
        (λ _ r. P r)
        (λ _ r. r ≡ all_closed)
        (or_close (run_migrations m) (record all_closed { pool_open = true }))
unfolding run_migrations
run_migrations-Ends P no_source h = refl
run_migrations-Ends P no_migrator h = refl
run_migrations-Ends P up_failed h = refl
run_migrations-Ends P no_change h = h tt
run_migrations-Ends P up_done h = h tt

new-Ends :
    (P : Resources → Type 0) (s : Services)
    → (s.parses ≡ true
        → s.creates ≡ true
        → s.pings ≡ true
        → IsMigrated s.migration
        → P (record all_closed { pool_open = true }))
    → Ends (λ _ r. P r) (λ _ r. r ≡ all_closed) (new s all_closed)
unfolding new
new-Ends P s h = elim (Bool-cases s.parses) [
  | inr p ↦ rw p refl
  | inl p ↦ elim (Bool-cases s.creates) [
    | inr q ↦ rw (p, q) refl
    | inl q ↦ elim (Bool-cases s.pings) [
      | inr g ↦ rw (p, q, g) refl
      | inl g ↦ rw (p, q, g) (run_migrations-Ends P s.migration (h p q g))
    ]
  ]
]

-- New succeeds only where the connection string is read, the pool is made and answers, and the
-- migrations are applied or need not be; then the pool is open. Where it fails, it leaves no pool open.
-- The migrator is closed in either case.
pub new-IsOpened :
    (s : Services) → Ends (λ _ r. IsOpened s r) (λ _ r. r ≡ all_closed) (new s all_closed)
new-IsOpened s =
    new-Ends (IsOpened s) s
      (λ p q g m. record { parses = p; creates = q; pings = g; migrated = m; pool = refl })
