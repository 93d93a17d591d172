-- ===== src/Reorg/Search.antt =====
-- What the search of `handleReorg` finds (internal/indexer/reorg.go).
use cca_go_indexer.Base.{
  ℕ, zero, suc, ◌+◌, ◌<◌, ◌≤◌, ◌≡◌, refl, ◌≢◌, ◌⊎◌, inl, inr, some, arith, ◌==◌, Bool-cases,
  Option-cases,
}
use cca_go_indexer.Base.Effect.{Ends, Ends-weaken}
use cca_go_indexer.Reorg.{find_ancestor}
use cca_go_indexer.Store.Blocks.{block_hash}
use cca_go_indexer.Types.{BlockHeader, Codec}
use cca_go_indexer.World.Calls.{Env, World, tick, query, header_by_number}
use cca_go_indexer.World.Database.{Database}

module _ ⦃c : Codec⦄ (env : Env) (chain : ℕ) where
  -- The node has answered, at some time, with a header of the stored hash, or of another one.
  abbrev pub Agrees : Database → ℕ → Type 0
  Agrees db n =
      (t : ℕ) × (h : BlockHeader) × (env.header_at t n ≡ some h) × (block_hash chain n db ≡ h.hash)

  abbrev pub Differs : Database → ℕ → Type 0
  Differs db n =
      (t : ℕ) × (h : BlockHeader) × (env.header_at t n ≡ some h) × (block_hash chain n db ≢ h.hash)

  -- `a` is where a search from `b` of so many rounds may stop.
  pub record IsAncestor (rounds b a : ℕ) (db : Database) : Type 0 where
    pub at_most : a ≤ b
    pub within : b ≤ a + rounds
    pub below : 0 < rounds → 0 < b → a < b
    pub all_differ : (n : ℕ) → a < n → n < b → Differs db n
    pub stopped : (a ≡ 0) ⊎ ((b ≡ a + rounds) ⊎ Agrees db a)

  here-IsAncestor : (n : ℕ) (db : Database) → IsAncestor 0 n n db
  here-IsAncestor n db = record {
    at_most = omega arith;
    within = omega arith;
    below = λ h k. absurd (omega arith);
    all_differ = λ m h k. absurd (omega arith);
    stopped = inr (inl (omega arith));
  }

  genesis-IsAncestor : (rounds : ℕ) (db : Database) → IsAncestor rounds 0 0 db
  genesis-IsAncestor rounds db = record {
    at_most = omega arith;
    within = omega arith;
    below = λ h k. absurd (omega arith);
    all_differ = λ m h k. absurd (omega arith);
    stopped = inl refl;
  }

  found-IsAncestor :
      (rounds n : ℕ) (db : Database) → Agrees db n → IsAncestor (suc rounds) (suc n) n db
  found-IsAncestor rounds n db agrees = record {
    at_most = omega arith;
    within = omega arith;
    below = λ h k. omega arith;
    all_differ = λ m h k. absurd (omega arith);
    stopped = inr (inr agrees);
  }

  further :
      (rounds n a : ℕ) (db : Database)
      → Differs db n
      → IsAncestor rounds n a db
      → (m : ℕ) → a < m
      → m < suc n
      → Differs db m
  further rounds n a db differs ih m h k = elim (Bool-cases (m == n)) [
    | inl e ↦ let e' : m ≡ n = ground arith in rw e' differs
    | inr e ↦ ih.all_differ m h (ground arith)
  ]

  further-IsAncestor :
      (rounds n a : ℕ) (db : Database)
      → Differs db n
      → IsAncestor rounds n a db
      → IsAncestor (suc rounds) (suc n) a db
  further-IsAncestor rounds n a db differs ih = record {
    at_most = omega (arith, ih.at_most);
    within = omega (arith, ih.within);
    below = λ h k. omega (arith, ih.at_most);
    all_differ = further rounds n a db differs ih;
    stopped = elim (ih.stopped) [
      | inl e ↦ inl e
      | inr (inl e) ↦ inr (inl (omega arith))
      | inr (inr e) ↦ inr (inr e)
    ];
  }

  -- The search writes nothing; where it ends without an error it is at an ancestor.
  pub find_ancestor-Ends :
      (rounds b : ℕ) (w : World)
      → Ends
          (λ a w'. (w'.db ≡ w.db) × IsAncestor rounds b a w.db)
          (λ _ w'. w'.db ≡ w.db)
          (find_ancestor env chain rounds b w)
  unfolding find_ancestor query header_by_number
  find_ancestor-Ends zero b w = (refl, here-IsAncestor b w.db)
  find_ancestor-Ends (suc rounds) zero w = (refl, genesis-IsAncestor (suc rounds) w.db)
  find_ancestor-Ends (suc rounds) (suc n) w = elim (Bool-cases (env.statement_fails w.now)) [
    | inl e ↦ rw e refl
    | inr e ↦ rw e (elim (Option-cases (env.header_at (suc w.now) n)) [
      | inl g ↦ rw g refl
      | inr (h, g) ↦ rw g (elim (Bool-cases (block_hash chain n w.db == h.hash)) [
        | inl same ↦ rw same (refl, found-IsAncestor rounds n w.db (suc w.now, h, g, ground arith))
        | inr other ↦ rw other (
            Ends-weaken _ _ _ _ (find_ancestor env chain rounds n (tick (tick w)))
              (λ a w' ends.
                (ends.0, further-IsAncestor rounds n a w.db (suc w.now, h, g, ground arith) ends.1))
              (λ _ w' same. same) (find_ancestor-Ends rounds n (tick (tick w))))
      ])
    ])
  ]
