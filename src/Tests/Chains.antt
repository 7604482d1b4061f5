-- ===== src/Tests/Chains.antt =====
-- Chains of crates/runtime/src/chain.rs and crates/app/src/chain_driver.rs at concrete inputs.
use intelnav.Base.{
  ℕ, ◌+◌, ◌<◌, String, ◌≡◌, refl, ◌≢◌, ◌↔◌, ◌⊎◌, true, false, none, some, List, [], ◌∷◌, map, arith,
  ◌==◌, if◌then◌else◌, length, get_elem?, All, Result, ok, err,
}
use intelnav.Base.Table.{contains}
use intelnav.Wire.{hello, session_ack}
use intelnav.Control.{slice_key_eq}
use intelnav.Discovery.{
  Node, SwarmModel, refresh_one, unique_providers, range_ids, insert_ids, fully_served, gaps,
}
use intelnav.Discovery.Coverage.{Dialable, offered, refresh_one-serves}
use intelnav.Chain.{
  ChainError, other, connect_refused, failed_index, ChainCfg, Chain, Peer, done, failed,
  is_increasing, validate, connect, open_links, open_link, dial, with_timeout, check_hello,
  check_ack,
}
use intelnav.Chain.Swarm.{
  max_candidates_per_hop, ChainTarget, ProviderRecord, ranked, dedup, candidates, add_hop, assemble,
  from_swarm, failover, cfg_of, connect_with_failover,
}
use intelnav.Chain.Ranges.{Tiles, connect-Tiles, connect-blames}
use intelnav.Chain.Picks.{start_of, Picks, from_swarm-Picks, from_swarm-refused}
use intelnav.Chain.Failover.{spares, failover-swaps, connect_with_failover-ends}

-- A peer that answers as it should, with the session's number for its place.
abbrev good : ℕ → String → Peer
good i addr = record {
  dialled = done tt;
  session_id = i;
  hello_sent = done tt;
  hello_back = done (some (hello 0 1 []));
  init_sent = done tt;
  init_back = done (some (session_ack i 0));
}

-- One that refuses connections.
abbrev bad : ℕ → String → Peer
bad i addr = record (good i addr) { dialled = failed }

abbrev cfg : ChainCfg
cfg = record {
  peers = "a:1" ∷ "b:1" ∷ [];
  splits = 6 ∷ 12 ∷ [];
  proto_ver = 1;
  model_cid = "qwen";
  max_seq = 2048;
}

abbrev chain : Chain
chain = record {
  cfg = cfg;
  links =
      record { addr = "a:1"; layers = record { start = 6; end = 12 }; session = 0; seq = 0 }
      ∷ record { addr = "b:1"; layers = record { start = 12; end = 24 }; session = 1; seq = 0 }
      ∷ [];
  front_end = 6;
}

chain_connects : connect cfg 24 good ≡ ok chain
unfolding connect validate is_increasing open_links open_link dial with_timeout check_hello
    check_ack
chain_connects = refl

connect-Tiles_example :
    (0 < chain.front_end)
    × Tiles chain.front_end chain.links 24
    × (length chain.links ≡ length cfg.peers)
connect-Tiles_example = connect-Tiles cfg 24 good chain chain_connects

cfg_valid : validate cfg 24 ≡ ok tt
unfolding validate is_increasing
cfg_valid = refl

cfg_refused : connect cfg 24 bad ≡ err (connect_refused 0)
unfolding connect validate is_increasing open_links open_link dial
cfg_refused = refl

connect-blames_example :
    (i : ℕ) × (failed_index (connect_refused 0) ≡ some i) × (i < length cfg.peers)
connect-blames_example = connect-blames cfg 24 bad (connect_refused 0) cfg_valid cfg_refused

abbrev swarm : ChainTarget
swarm = record {
  hops = "a:1" ∷ "b:1" ∷ [];
  starts = 6 ∷ 12 ∷ [];
  alternates = ("c:1" ∷ []) ∷ [] ∷ [];
}

failover-swaps_example :
    let (t', swapped) = failover swarm 0 in
    ((next : String) × (rest : List String) × (swapped ≡ true)
      × (get_elem? swarm.alternates 0 ≡ some (next ∷ rest))
      × (get_elem? t'.hops 1 ≡ (if 0 == 1 then some next else get_elem? swarm.hops 1))
      × (get_elem? t'.alternates 1 ≡ (if 0 == 1 then some rest else get_elem? swarm.alternates 1))
      × (t'.starts ≡ swarm.starts)
      × (length t'.hops ≡ length swarm.hops)
      × (length t'.alternates ≡ length t'.hops)
      × (spares t'.alternates + 1 ≡ spares swarm.alternates))
    ⊎ ((swapped ≡ false)
        × (t' ≡ swarm)
        × ((get_elem? swarm.alternates 0 ≡ none) ⊎ (get_elem? swarm.alternates 0 ≡ some [])))
failover-swaps_example = failover-swaps swarm 0 1 refl

connect_with_failover-ends_example :
    (r : Result ChainError Chain) × ((connect_with_failover "qwen" 24 (λ attempt. bad) swarm).0
      ≡ some r)
connect_with_failover-ends_example = connect_with_failover-ends "qwen" 24 (λ attempt. bad) swarm

abbrev provider : String → ℕ → ProviderRecord
provider addr minted = record { peer_id = addr; forward_addr = some addr; minted_at = minted }

abbrev first_range : ℕ × ℕ × List ProviderRecord
first_range = (6, 12, provider "c:1" 3 ∷ provider "a:1" 9 ∷ [])

abbrev second_range : ℕ × ℕ × List ProviderRecord
second_range = (12, 24, provider "b:1" 5 ∷ [])

swarm_assembled : from_swarm (first_range ∷ second_range ∷ []) ≡ ok swarm
unfolding from_swarm assemble candidates ranked dedup add_hop
swarm_assembled = refl

from_swarm-Picks_example :
    (swarm.starts ≡ map start_of (first_range ∷ second_range ∷ []))
    × Picks swarm.hops swarm.alternates (first_range ∷ second_range ∷ [])
    × All (λ (a : List String). length a < max_candidates_per_hop) swarm.alternates
    × ((validate (cfg_of "qwen" swarm) 24 ≡ ok tt)
        ↔ ((is_increasing (6 ∷ 12 ∷ []) ≡ true) × (0 < 6) × (12 < 24)))
from_swarm-Picks_example =
    from_swarm-Picks first_range (second_range ∷ []) swarm "qwen" 24 swarm_assembled

-- The first of the splits that the catalog has for models of 24 blocks.
abbrev front_range : ℕ × ℕ × List ProviderRecord
front_range = (0, 6, provider "a:1" 9 ∷ [])

abbrev from_front : ChainTarget
from_front = record { hops = "a:1" ∷ []; starts = 0 ∷ []; alternates = [] ∷ [] }

front_assembled : from_swarm (front_range ∷ []) ≡ ok from_front
unfolding from_swarm assemble candidates ranked dedup add_hop
front_assembled = refl

from_swarm-refused_example :
    connect_with_failover "qwen" 24 (λ attempt. good) from_front ≡ (some (err other), from_front)
from_swarm-refused_example =
    from_swarm-refused 6 (provider "a:1" 9 ∷ []) [] from_front "qwen" 24 (λ attempt. good)
      front_assembled

-- Two peers know the first range, one the second.
abbrev node : Node
node = record {
  fetch_model_envelope = λ cid. none;
  find_shard_providers = λ cid s e.
      if s == 6
      then some (provider "a:1" 9 ∷ provider "c:1" 4 ∷ [])
      else some (provider "b:1" 5 ∷ []);
}

abbrev found : SwarmModel
unfolding refresh_one
found = refresh_one node "qwen" ((6, 12) ∷ (12, 24) ∷ [])

found_providers : unique_providers found ≡ 3
unfolding unique_providers range_ids insert_ids contains refresh_one
found_providers = refl

addressed : (a : String) → some a ≢ none
addressed a e = absurd (ground (arith, e))

found-Dialable : All Dialable (refresh_one node "qwen" ((6, 12) ∷ (12, 24) ∷ [])).ranges
unfolding refresh_one
found-Dialable = ((addressed "a:1", (addressed "c:1", tt)), ((addressed "b:1", tt), tt))

refresh_one-serves_example :
    let m = refresh_one node "qwen" ((6, 12) ∷ (12, 24) ∷ []) in
    (((t : ChainTarget) × (from_swarm (offered m.ranges) ≡ ok t)
        × Picks t.hops t.alternates (offered m.ranges))
      ↔ (fully_served m ≡ true))
    × ((fully_served m ≡ true) ↔ ((m.ranges ≢ []) × (gaps m ≡ [])))
refresh_one-serves_example = refresh_one-serves node "qwen" ((6, 12) ∷ (12, 24) ∷ []) found-Dialable
