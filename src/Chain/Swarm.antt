-- ===== src/Chain/Swarm.antt =====
-- crates/app/src/chain_driver.rs: how a chain of peers is put together from what the swarm offers,
-- and mended when a peer fails.
use intelnav.Base.{
  ℕ, zero, suc, ◌+◌, String, Bool, true, false, Option, none, some, List, [], ◌∷◌, map, ltb, leb,
  if◌then◌else◌, length, get_elem?, set, take, drop, Result, ok, err, ◌>>=◌,
}
use intelnav.Base.Table.{string_eq}
use intelnav.Chain.{ChainError, other, failed_index, ChainCfg, Chain, Peer, connect}

abbrev pub max_candidates_per_hop : ℕ
max_candidates_per_hop = 3

abbrev pub max_failover_attempts : ℕ
max_failover_attempts = 4

pub record ChainTarget : Type 0 where
  pub hops : List String
  pub starts : List ℕ
  pub alternates : List (List String)

-- What is read of a provider's record: its id, its parsed address, if it has one, and its time.
pub record ProviderRecord : Type 0 where
  pub peer_id : String
  pub forward_addr : Option String
  pub minted_at : ℕ

unfoldable pub insert_fresh : ℕ × String → List (ℕ × String) → List (ℕ × String)
insert_fresh (m, a) [] = (m, a) ∷ []
insert_fresh (m, a) ((n, b) ∷ rest) =
    let later = insert_fresh (m, a) rest in
    if leb n m then (m, a) ∷ (n, b) ∷ rest else (n, b) ∷ later

-- Those with an address, the freshest first; stable, as `sort_by`.
unfoldable pub ranked : List ProviderRecord → List (ℕ × String)
unfolding insert_fresh
ranked [] = []
ranked (p ∷ ps) = elim p.forward_addr [
  | none ↦ ranked ps
  | some a ↦ insert_fresh (p.minted_at, a) (ranked ps)
]

-- `Vec::dedup`: of equal neighbours the first stays.
unfoldable pub dedup : List String → List String
dedup [] = []
dedup (a ∷ []) = a ∷ []
dedup (a ∷ b ∷ rest) =
    let more = dedup (b ∷ rest) in if string_eq.beq a b then a ∷ drop 1 more else a ∷ more

unfoldable pub candidates : List ProviderRecord → List String
unfolding ranked dedup
candidates ps = dedup (take max_candidates_per_hop (map (λ (x : ℕ × String). x.1) (ranked ps)))

unfoldable pub add_hop : ℕ → List String → ChainTarget → Result ChainError ChainTarget
add_hop start [] t = err other
add_hop start (primary ∷ rest) t = ok (record {
  hops = primary ∷ t.hops;
  starts = start ∷ t.starts;
  alternates = rest ∷ t.alternates;
})

unfoldable pub assemble : List (ℕ × ℕ × List ProviderRecord) → Result ChainError ChainTarget
assemble [] = ok (record { hops = []; starts = []; alternates = [] })
assemble ((start, end, providers) ∷ ranges) =
    let rest = assemble ranges in
    elim (candidates providers) [ [] ↦ err other | c ∷ cs ↦ rest >>= λ t. add_hop start (c ∷ cs) t ]

unfoldable pub from_swarm : List (ℕ × ℕ × List ProviderRecord) → Result ChainError ChainTarget
from_swarm [] = err other
from_swarm (r ∷ rs) = assemble (r ∷ rs)

-- The next alternate of hop `i` takes its place.
unfoldable pub failover : ChainTarget → ℕ → ChainTarget × Bool
failover t i = elim (get_elem? t.alternates i) [
  | none ↦ (t, false)
  | some alts ↦ elim alts [
    | [] ↦ (t, false)
    | next ∷ rest ↦
        if ltb i (length t.hops)
        then (record t { hops = set t.hops i next; alternates = set t.alternates i rest }, true)
        else (record t { alternates = set t.alternates i rest }, false)
  ]
]

abbrev pub cfg_of : String → ChainTarget → ChainCfg
cfg_of model t = record {
  peers = t.hops;
  splits = t.starts;
  proto_ver = 1;
  model_cid = model;
  max_seq = 2048;
}

-- `net` may answer each attempt differently. The outcome comes with the target as it is left.
unfoldable pub connect_attempts :
    ℕ
    → ℕ
    → String
    → ℕ
    → (ℕ → ℕ → String → Peer)
    → ChainTarget
    → Option (Result ChainError Chain) × ChainTarget
connect_attempts zero attempts model n_blocks net t = (none, t)
connect_attempts (suc fuel) attempts model n_blocks net t =
    let again = λ (t' : ChainTarget). connect_attempts fuel (attempts + 1) model n_blocks net t' in
    elim (connect (cfg_of model t) n_blocks (net attempts)) [
      | ok chain ↦ (some (ok chain), t)
      | err e ↦ elim (failed_index e) [
        | none ↦ (some (err e), t)
        | some i ↦
            let (t', swapped) = failover t i in
            let next = again t' in
            elim (ltb max_failover_attempts (attempts + 1)) [
              | true ↦ (some (err e), t)
              | false ↦ elim swapped [ true ↦ next | false ↦ (some (err e), t') ]
            ]
      ]
    ]

unfoldable pub connect_with_failover :
    String
    → ℕ
    → (ℕ → ℕ → String → Peer)
    → ChainTarget
    → Option (Result ChainError Chain) × ChainTarget
connect_with_failover model n_blocks net t =
    connect_attempts (max_failover_attempts + 1) 0 model n_blocks net t
