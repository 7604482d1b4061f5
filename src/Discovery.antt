-- ===== src/Discovery.antt =====
-- crates/net/src/swarm_index.rs: what the swarm offers of a model, range by range. The queries of
-- crates/net/src/swarm.rs are a parameter; one that fails has no answer. `refresh_one` never fails.
pub mod Coverage
use intelnav.Base.{
  ℕ, String, Bool, true, false, not, ◌&&◌, Option, none, some, List, [], ◌∷◌, map, length,
  if◌then◌else◌,
}
use intelnav.Base.Table.{Eq, string_eq, contains}
use intelnav.Chain.Swarm.{ProviderRecord}

pub record ModelEnvelope : Type 0 where
  pub cid : String
  pub display_name : String
  pub arch : String
  pub block_count : ℕ
  pub total_bytes : ℕ
  pub quant : String

pub record RangeCoverage : Type 0 where
  pub start : ℕ
  pub end : ℕ
  pub providers : List ProviderRecord

pub record SwarmModel : Type 0 where
  pub cid : String
  pub envelope : Option ModelEnvelope
  pub ranges : List RangeCoverage

pub record Node : Type 0 where
  pub fetch_model_envelope : String → Option (Option ModelEnvelope)
  pub find_shard_providers : String → ℕ → ℕ → Option (List ProviderRecord)

abbrev pub has_no_provider : List ProviderRecord → Bool
has_no_provider [] = true
has_no_provider (p ∷ ps) = false

unfoldable pub insert_ids : List ProviderRecord → List String → List String
insert_ids [] ids = ids
insert_ids (p ∷ ps) ids = insert_ids ps (if contains p.peer_id ids then ids else p.peer_id ∷ ids)

unfoldable pub range_ids : List RangeCoverage → List String → List String
unfolding insert_ids
range_ids [] ids = ids
range_ids (r ∷ rs) ids = range_ids rs (insert_ids r.providers ids)

unfoldable pub unique_providers : SwarmModel → ℕ
unfolding range_ids
unique_providers m = length (range_ids m.ranges [])

abbrev pub empty_ranges : List RangeCoverage → List (ℕ × ℕ)
empty_ranges [] = []
empty_ranges (r ∷ rs) =
    if has_no_provider r.providers then (r.start, r.end) ∷ empty_ranges rs else empty_ranges rs

unfoldable pub gaps : SwarmModel → List (ℕ × ℕ)
gaps m = empty_ranges m.ranges

abbrev pub all_served : List RangeCoverage → Bool
all_served [] = true
all_served (r ∷ rs) = not (has_no_provider r.providers) && all_served rs

unfoldable pub fully_served : SwarmModel → Bool
fully_served m = elim m.ranges [ [] ↦ false | r ∷ rs ↦ all_served (r ∷ rs) ]

abbrev pub or_empty : Option (List ProviderRecord) → List ProviderRecord
or_empty none = []
or_empty (some ps) = ps

abbrev pub probe : Node → String → ℕ × ℕ → RangeCoverage
probe n cid (s, e) = record {
  start = s;
  end = e;
  providers = or_empty (n.find_shard_providers cid s e);
}

unfoldable pub refresh_one : Node → String → List (ℕ × ℕ) → SwarmModel
refresh_one n cid ranges = record {
  cid = cid;
  envelope = elim (n.fetch_model_envelope cid) [ none ↦ none | some e ↦ e ];
  ranges = map (probe n cid) ranges;
}

unfoldable pub refresh_many : Node → List (String × List (ℕ × ℕ)) → List SwarmModel
refresh_many n requests = map (λ (q : String × List (ℕ × ℕ)). refresh_one n q.0 q.1) requests
