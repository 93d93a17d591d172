-- ===== src/Tests/Exact.antt =====
-- What the theorems on the index say in the small world: the auction's log stands in block 3.
use cca_go_indexer.Base.{
  ℕ, zero, suc, ◌+◌, ◌≡◌, ◌<◌, true, refl, ◌&&◌, ◌==◌, leb, inl, inr, List, [], ◌∷◌, sym, ◌∙◌,
  arith, All, Bool-cases, if◌then◌else◌,
}
use cca_go_indexer.Indexer.{IndexerConfig}
use cca_go_indexer.Indexer.Exactly.{IsExact}
use cca_go_indexer.Indexer.Index.{Chain, index_blocks, logs_from}
use cca_go_indexer.Indexer.Still.{IsStill}
use cca_go_indexer.Registry.{lookup_handler}
use cca_go_indexer.Registry.Single.{HasTopic}
use cca_go_indexer.Types.{Log}
use cca_go_indexer.World.Database.{empty_database}
use cca_go_indexer.Tests.Setup.{
  test_codec, test_formats, created, healthy, config, registry, healthy-IsTrusted, header,
}
use cca_go_indexer.Tests.Progress.{first-IsReady}

abbrev pub logs_of : ℕ → List Log
logs_of n = if n == 3 then created ∷ [] else []

abbrev pub chain : Chain
chain = record { header = header; block_logs = logs_of }

pub logs_of-HasTopic : (n : ℕ) → All (HasTopic 77) (logs_of n)
logs_of-HasTopic n = elim (Bool-cases (n == 3)) [ inl e ↦ rw e (refl, tt) | inr e ↦ rw e tt ]

none_after : (from count : ℕ) → 3 < from → logs_from chain from count ≡ []
unfolding logs_from
none_after from zero h = refl
none_after from (suc count) h = elim (Bool-cases (from == 3)) [
  | inl e ↦ ground arith
  | inr e ↦ rw e (none_after (from + 1) count (omega arith))
]

abbrev pub logs_between : ℕ → ℕ → List Log
logs_between from to = if leb from 3 && leb 3 to then created ∷ [] else []

pub logs_between-logs_from :
    (from to count : ℕ) → from + count ≡ to + 1 → logs_between from to ≡ logs_from chain from count
unfolding logs_from
logs_between-logs_from from to zero e = elim (Bool-cases (leb from 3)) [
  | inl low ↦ elim (Bool-cases (leb 3 to)) [
    | inl high ↦ ground arith
    | inr high ↦ rw (low, high) refl
  ]
  | inr low ↦ rw low refl
]
logs_between-logs_from from to (suc count) e = elim (Bool-cases (from == 3)) [
  | inl here ↦
      let at : from ≡ 3 = ground arith in
      let low : leb from 3 ≡ true = ground arith in
      let high : leb 3 to ≡ true = ground arith in
      rw (here, low, high, none_after (from + 1) count (omega arith)) refl
  | inr there ↦
      let moved : leb from 3 ≡ leb (from + 1) 3 = ground arith in
      rw (there, moved) (logs_between-logs_from (from + 1) to count (omega arith))
]

abbrev pub sized : ℕ → IndexerConfig
sized n = record config { block_batch_size = n }

pub sized-IsStill : (n : ℕ) → IsStill test_formats healthy (sized n) registry chain
unfolding healthy lookup_handler
sized-IsStill n = record {
  found = refl;
  watched = logs_of-HasTopic;
  headers = λ t n h e. ground arith;
  logs = λ t from to count ls e answered.
      let same : logs_between from to ≡ ls = ground arith in
      sym same ∙ logs_between-logs_from from to count e;
}

pub healthy-IsStill : IsStill test_formats healthy config registry chain
healthy-IsStill = sized-IsStill 4

pub first-IsExact :
    IsExact test_formats healthy config registry chain healthy-IsStill healthy-IsTrusted 1
      empty_database 1 empty_database
unfolding index_blocks
first-IsExact = record {
  index = (omega arith, refl);
  consistent = first-IsReady.consistent;
  current = first-IsReady.current;
}
