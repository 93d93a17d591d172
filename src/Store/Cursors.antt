-- ===== src/Store/Cursors.antt =====
-- `cursorRepo` (internal/store/postgres/cursor.go) over the table `indexer_cursors`, whose primary
-- key is the chain.
use cca_go_indexer.Base.{
  ℕ, ◌≡◌, ◌≢◌, Bool, true, false, Option, none, some, arith, ◌==◌, find, upsert, find-upsert_self,
  find-upsert_other, ==_self, ap, Bool-cases, inl, inr, if◌then◌else◌,
}
use cca_go_indexer.Types.{Hash, zero_hash, Codec}
use cca_go_indexer.World.Calls.{Env, Action, exec, query}
use cca_go_indexer.World.Database.{Database, CursorRow}

-- `chain_id = $1`, the primary key.
abbrev pub of_chain : ℕ → CursorRow → Bool
of_chain chain r = r.chain_id == chain

module _ ⦃c : Codec⦄ where
  -- `Scan`, and `pgx.ErrNoRows`
  abbrev pub scan_cursor : Option CursorRow → ℕ × Hash
  scan_cursor none = (0, zero_hash)
  scan_cursor (some r) = (r.last_block, c.hex_to_hash r.last_block_hash)

  unfoldable pub stored_cursor : ℕ → Database → ℕ × Hash
  stored_cursor chain db = scan_cursor (find (of_chain chain) db.cursors)

  unfoldable pub upsert_cursor : ℕ → ℕ → Hash → Database → Database
  upsert_cursor chain n hash db = record db {
    cursors =
        upsert (of_chain chain)
          (record { chain_id = chain; last_block = n; last_block_hash = c.hash_hex hash })
          db.cursors;
  }

  -- `cursorRepo.Get` and `cursorRepo.Upsert`
  abbrev pub get : Env → ℕ → Action (ℕ × Hash)
  get env chain = query env (stored_cursor chain)

  abbrev pub save : Env → ℕ → ℕ → Hash → Action (Unit {0})
  save env chain n hash = exec env (upsert_cursor chain n hash)

  -- What was written last is read, and the cursors of other chains are left alone.
  pub stored_cursor-upsert_cursor :
      (chain n : ℕ) (hash : Hash) (db : Database)
      → stored_cursor chain (upsert_cursor chain n hash db) ≡ (n, hash)
  unfolding stored_cursor upsert_cursor
  stored_cursor-upsert_cursor chain n hash db = ground (
    arith,
    find-upsert_self (of_chain chain)
        (record { chain_id = chain; last_block = n; last_block_hash = c.hash_hex hash })
        (==_self chain) db.cursors,
    c.hex_to_hash_hex hash,
  )

  different :
      (other chain : ℕ)
      → other ≢ chain
      → (s : CursorRow) → of_chain chain s ≡ true
      → of_chain other s ≡ false
  different other chain h s e = ground arith

  pub stored_cursor-upsert_cursor_other :
      (other chain n : ℕ) (hash : Hash) (db : Database)
      → other ≢ chain
      → stored_cursor other (upsert_cursor chain n hash db) ≡ stored_cursor other db
  unfolding stored_cursor upsert_cursor
  stored_cursor-upsert_cursor_other other chain n hash db h = ap scan_cursor (
      find-upsert_other (of_chain other) (of_chain chain)
        (record { chain_id = chain; last_block = n; last_block_hash = c.hash_hex hash })
        (ground arith) (different other chain h) db.cursors)

  -- After `Upsert` a chain's cursor is the one that was written, if it is the chain that was written
  -- for, and the one of before, if it is another.
  pub stored_cursor-upsert_cursor_any :
      (other chain n : ℕ) (hash : Hash) (db : Database)
      → stored_cursor other (upsert_cursor chain n hash db)
        ≡ (if other == chain then (n, hash) else stored_cursor other db)
  stored_cursor-upsert_cursor_any other chain n hash db = elim (Bool-cases (other == chain)) [
    | inl e ↦
        let same : other ≡ chain = ground arith in
        rw (same, ==_self chain) (stored_cursor-upsert_cursor chain n hash db)
    | inr e ↦ rw e (stored_cursor-upsert_cursor_other other chain n hash db (ground arith))
  ]
