-- ===== src/Types.antt =====
-- crates/core/src/types.rs, tier.rs and ids.rs: the value types of the protocol. Identifiers of 32
-- bytes are numbers; a float is its bit pattern.
use intelnav.Base.{
  ℕ, ◌+◌, ◌-◌, ◌%◌, ◌^◌, ◌<◌, String, ◌≡◌, refl, ◌≢◌, ◌↔◌, Bool, true, false, Option, none, some,
  List, arith, ltb, if◌then◌else◌,
}

abbrev pub u16_mod : ℕ
u16_mod = 2 ^ 16

abbrev pub u32_mod : ℕ
u32_mod = 2 ^ 32

abbrev pub u64_mod : ℕ
u64_mod = 2 ^ 64

pub data Backend : Type 0 where
  llama_cpp vllm mlx_lm ollama unknown : Backend

pub data Quant : Type 0 where
  q4_k_m q5_k_m q8_0 fp16 bf16 : Quant

unfoldable pub as_str : Quant → String
as_str q4_k_m = "Q4_K_M"
as_str q5_k_m = "Q5_K_M"
as_str q8_0 = "Q8_0"
as_str fp16 = "fp16"
as_str bf16 = "bf16"

pub record LayerRange : Type 0 where
  pub start : ℕ
  pub end : ℕ

-- `u16`: the difference stops at zero, and the sum wraps in a release build.
unfoldable pub len : LayerRange → ℕ
len r = (r.end - r.start + 1) % u16_mod

unfoldable pub is_empty : LayerRange → Bool
is_empty r = ltb r.end r.start

pub data Role : Type 0 where
  volunteer cloud : Role

pub record ShardRoute : Type 0 where
  pub cid : String
  pub start : ℕ
  pub end : ℕ

pub record CapabilityV1 : Type 0 where
  pub peer_id : ℕ
  pub backend : Backend
  pub quants : List Quant
  pub vram_bytes : ℕ
  pub ram_bytes : ℕ
  pub tok_per_sec : ℕ
  pub max_seq : ℕ
  pub models : List String
  pub layers : List ShardRoute
  pub role : Role

pub data LatencyTier : Type 0 where
  lan continent wan : LatencyTier

-- Milliseconds.
unfoldable pub typical_rtt : LatencyTier → ℕ
typical_rtt lan = 5
typical_rtt continent = 80
typical_rtt wan = 150

unfoldable pub decode_budget : LatencyTier → Option ℕ
decode_budget lan = some 20
decode_budget continent = some 100
decode_budget wan = none

unfoldable pub classify : ℕ → LatencyTier
classify ms = if ltb ms 5 then lan else if ltb ms 80 then continent else wan

-- For a range whose end is a `u16`, the length counts the layers from the first to the last, both
-- included, but for two kinds of range: one that is empty has length one, and the range of all 65536
-- layers has length zero.
pub len-counts :
    (r : LayerRange)
    → r.end < u16_mod
    → (is_empty r ≡ true → len r ≡ 1)
      × (is_empty r ≡ false → r.end - r.start ≢ 65535 → r.start + len r ≡ r.end + 1)
      × (r.end - r.start ≡ 65535 → len r ≡ 0)
unfolding len is_empty
len-counts r h = (λ e. ground arith, λ full most. ground arith, λ e. ground arith)

-- The round trip that is called typical of a tier is not of that tier, but for the slowest.
typical_rtt-off_by_one : (t : LatencyTier) → (classify (typical_rtt t) ≡ t) ↔ (t ≡ wan)
unfolding classify typical_rtt
typical_rtt-off_by_one lan = (λ e. cc, λ e. cc)
typical_rtt-off_by_one continent = (λ e. cc, λ e. cc)
typical_rtt-off_by_one wan = (λ e. refl, λ e. refl)
