-- ===== src/Tests/Setup.antt =====
-- The small world of the tests: text forms, decoders, a node and a configuration.
use cca_go_indexer.Base.{
  ℕ, zero, suc, ◌+◌, ◌<◌, ◌≡◌, ◌==◌, refl, ap, true, false, ◌&&◌, some, List, [], ◌∷◌, arith, leb,
  length, replicate, All, All-map, contains, if◌then◌else◌, Bool-cases, inl, inr,
}
use cca_go_indexer.AuctionCreated.{AuctionParams, Formats, auction_created_handler}
use cca_go_indexer.AuctionCreated.Writes.{auction_created_handler-IsRowHandler}
use cca_go_indexer.BigInt.{pos}
use cca_go_indexer.Indexer.{IndexerConfig}
use cca_go_indexer.Indexer.Trusted.{IsTrusted}
use cca_go_indexer.Registry.{HandlerMap}
use cca_go_indexer.Registry.Dispatch.{LogsUpTo}
use cca_go_indexer.Text.{Text, codes, to_lower, lower}
use cca_go_indexer.Types.{Hash, BlockHeader, Codec, Log}
use cca_go_indexer.World.Calls.{Env, World, FilterQuery, committed}
use cca_go_indexer.World.Database.{empty_database}
use cca_go_indexer.World.Healthy.{IsHealthy}

first_or_zero : Text → Hash
first_or_zero [] = 0
first_or_zero (h ∷ _) = h

pub lower_zeros : (n : ℕ) → length (to_lower (replicate n b'0')) ≡ n
unfolding to_lower lower
lower_zeros zero = refl
lower_zeros (suc n) = ap suc (lower_zeros n)

-- A hash is written as one code, an address as so many zeros.
instance unfoldable pub test_codec : Codec
unfolding first_or_zero
test_codec = record {
  hash_hex = λ h. h ∷ [];
  hex_to_hash = first_or_zero;
  address_hex = λ a. replicate a b'0';
  hex_to_address = length;
  is_hex_address = λ s. true;
  bytes_to_address = λ h. h;
  hex_to_hash_hex = λ h. refl;
  hex_to_address_lower = lower_zeros;
}

abbrev pub test_params : AuctionParams
test_params = record {
  currency = 1;
  tokens_recipient = 2;
  funds_recipient = 3;
  start_block = 10;
  end_block = 20;
  claim_block = 25;
  tick_spacing = pos 5;
  validation_hook = 0;
  floor_price = pos 79;
  required_currency_raised = pos 0;
  auction_steps_data = 1 ∷ 2 ∷ [];
}

abbrev pub test_formats : Formats
test_formats = record {
  event_id = 77;
  unpack_event = λ bytes. some (pos 1000, bytes);
  unpack_params = λ bytes. some test_params;
  marshal_strings = λ texts. some (codes "[]");
  marshal_map = λ fields. some (codes "{}");
}

-- The log of an auction, and one of an event that nothing is registered for.
abbrev pub created : Log
created = record {
  address = 9;
  topics = 77 ∷ 4 ∷ 5 ∷ 6 ∷ [];
  payload = 171 ∷ [];
  block_number = 3;
  tx_hash = 501;
  block_hash = 103;
  index = 0;
}

abbrev pub foreign : Log
foreign = record created { topics = 78 ∷ []; index = 1 }

-- The numbers below `n`, from the highest on.
pub countdown : ℕ → List ℕ
countdown zero = []
countdown (suc n) = n ∷ countdown n

pub countdown-in_range : (n : ℕ) → All (λ i. i < n) (countdown n)
unfolding countdown
countdown-in_range zero = tt
countdown-in_range (suc n) = (
  omega arith,
  All-map (λ i. i < n) (λ i. i < suc n) (λ i h. omega arith) (countdown n) (countdown-in_range n),
)

pub countdown_complete : (n i : ℕ) → i < n → contains i (countdown n) ≡ true
unfolding countdown
countdown_complete zero i h = absurd (omega arith)
countdown_complete (suc n) i h = elim (Bool-cases (n == i)) [
  | inl e ↦ rw e refl
  | inr e ↦ rw e (countdown_complete n i (ground arith))
]

abbrev pub header : ℕ → BlockHeader
header n = record { hash = n + 100; parent_hash = n + 99 }

abbrev pub logs : FilterQuery → List Log
logs q = if leb q.from_block 3 && leb 3 q.to_block then created ∷ [] else []

-- Every call succeeds, the chain stands still, and concurrent requests end in the reverse order.
unfoldable pub healthy : Env
unfolding countdown
healthy = record {
  statement_fails = λ t. false;
  begin_fails = λ t. false;
  commit_answer = λ t. committed;
  block_number_at = λ t. some 12;
  header_at = λ t n. some (header n);
  logs_at = λ t q. some (logs q);
  completion_at = λ t n. countdown n;
  completion_IsOrder =
      λ t n. record { in_range = countdown-in_range n; complete = countdown_complete n };
  done_at = λ t. false;
}

pub healthy-IsHealthy : IsHealthy healthy 12 header logs
unfolding healthy
healthy-IsHealthy = record {
  statements = λ t. refl;
  begins = λ t. refl;
  commits = λ t. refl;
  running = λ t. refl;
  head_answers = λ t. refl;
  header_answers = λ t n. refl;
  log_answers = λ t q. refl;
}

abbrev pub config : IndexerConfig
config = record {
  chain_id = 1;
  start_block = 2;
  block_batch_size = 4;
  confirmations = 2;
  addresses = 9 ∷ [];
}

abbrev pub registry : HandlerMap
registry = (77, auction_created_handler test_formats healthy) ∷ []

pub logs-UpTo : (q : FilterQuery) → LogsUpTo q.to_block (logs q)
logs-UpTo q = elim (Bool-cases (leb q.from_block 3 && leb 3 q.to_block)) [
  | inl e ↦ rw e (ground arith, tt)
  | inr e ↦ rw e tt
]

pub healthy-IsTrusted : IsTrusted healthy config registry
unfolding healthy
healthy-IsTrusted = record {
  commits = λ t e. cc;
  logs_in_range = λ t q ls e. let same : logs q ≡ ls = ground arith in rw (← same) (logs-UpTo q);
  heads = λ t n e. ground arith;
  batch_size = omega arith;
  handlers = (auction_created_handler-IsRowHandler test_formats healthy, tt);
}

abbrev pub start : World
start = record { db = empty_database; now = 0 }
