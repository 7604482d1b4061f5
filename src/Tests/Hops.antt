-- ===== src/Tests/Hops.antt =====
-- The hop loop of crates/runtime/src/chain.rs and the codec of crates/ggml/src/hidden.rs at concrete inputs.
use intelnav.Base.{
  ℕ, zero, suc, ◌^◌, ◌<◌, ◌≡◌, refl, inr, Bool, true, false, not, ◌&&◌, ◌||◌, none, some, List, [],
  ◌∷◌, arith, take,
}
use intelnav.Base.Table.{find}
use intelnav.Wire.{Msg, fp16, int8, Shape, decode}
use intelnav.Control.{SliceKey, SliceEntry, announcing, slice_key_eq}
use intelnav.Forward.{Engine}
use intelnav.Chain.{Link, done}
use intelnav.Chain.Hops.{Hop, step_links}
use intelnav.Chain.Serving.{Serving, Agrees, served}
use intelnav.Chain.Relay.{relay, step_links-relay}
use intelnav.Chain.Counting.{counted, CountsUpTo, step_links-counts}
use intelnav.Codec.{Floats}
use intelnav.Codec.RoundTrip.{Returns, decode_hidden-encode}

-- A model whose keys are the positions that it has seen, and that adds one to each byte.
abbrev engine : Engine
engine = record {
  Handle = List ℕ;
  Data = List ℕ;
  reset_cache = λ h. [];
  truncate_kv_to = λ h keep. (true, take keep h);
  forward_range = λ h x pos start end. (some (x.0, 7 ∷ x.1), h);
  decode_hidden = λ dtype shape bytes. some (shape, bytes);
  encode_hidden = λ x dtype. some x;
}

abbrev qwen : SliceKey
qwen = ("qwen", 12, 24)

abbrev entry : SliceEntry
entry = record {
  display_name = "Qwen";
  state = announcing;
  active_chains = 1;
  draining_since = none;
}

abbrev peer : Serving engine
peer = record {
  host = record {
    control = record { peer_id = "p"; started_at = 0; slices = (qwen, entry) ∷ [] };
    cache = (qwen, record { handle = 0 ∷ 1 ∷ []; local_offset = 12 }) ∷ [];
    shards = λ cid. none;
  };
  conn = record {
    session_id = some 1;
    index_pos = 2;
    last_seq = 2;
    active_slice = some qwen;
    guard_held = some (record { key = qwen; released = false });
    loaded = some qwen;
  };
  cid = "qwen";
  start = 12;
  end = 24;
  slice = record { handle = 0 ∷ 1 ∷ []; local_offset = 12 };
}

abbrev link : Link
link = record {
  addr = "10.0.0.1:7717";
  layers = record { start = 12; end = 24 };
  session = 1;
  seq = 2;
}

abbrev net : ℕ → Msg → Hop
net index req = served engine peer req

abbrev activations : Shape × List ℕ
activations = ((1, 1, 8), 5 ∷ [])

cached : find qwen peer.host.cache ≡ some peer.slice
unfolding find
cached = refl

step_links-relay_example :
    Agrees engine fp16 none
      ((step_links engine net fp16 decode none 0 (link ∷ []) activations).0)
      (relay engine fp16 none (peer ∷ []) activations)
step_links-relay_example =
    step_links-relay engine fp16 none net decode 0 (link ∷ []) (peer ∷ []) activations refl
      (λ req. refl, tt) ((refl, refl, refl, cached, inr (omega arith)), tt)

-- The first peer answers, the second does not.
abbrev half_net : ℕ → Msg → Hop
half_net zero req = served engine peer req
half_net (suc i) req = record { written = some (done tt); reply = done none }

step_links-counts_example :
    let (result, after) =
      step_links engine half_net fp16 decode none 0 (link ∷ link ∷ []) activations in
    (k : ℕ) × (after ≡ counted k (link ∷ link ∷ []))
    × CountsUpTo engine half_net fp16 decode none 0 result k 2
step_links-counts_example =
    step_links-counts engine half_net fp16 decode none 0 (link ∷ link ∷ []) activations

-- The two numbers nought and one.
abbrev bit : Bool → ℕ
bit true = 1
bit false = 0

abbrev of_bit : ℕ → Bool
of_bit zero = false
of_bit (suc k) = true

bit-lt : (m : ℕ) → 1 < m → (x : Bool) → bit x < m
bit-lt m h true = h
bit-lt m h false = omega arith

of_bit-bit : (x : Bool) → of_bit (bit x) ≡ x
of_bit-bit true = refl
of_bit-bit false = refl

abbrev bits : Floats
bits = record {
  F = Bool;
  zero_f = false;
  one_f = true;
  max_i8 = true;
  abs = λ x. x;
  max_f = λ x y. x || y;
  mul = λ x y. x && y;
  div = λ x y. x;
  gt = λ x y. x && not y;
  to_i8 = bit;
  of_i8 = of_bit;
  to_f16 = bit;
  to_bits = bit;
  of_f16 = of_bit;
  of_bits = of_bit;
  f16_bits = bit-lt (2 ^ 16) (omega arith);
  f32_bits = bit-lt (2 ^ 32) (omega arith);
  of_bits-to_bits = of_bit-bit;
}

abbrev values : List Bool
values = true ∷ false ∷ false ∷ false ∷ []

decode_hidden-encode_example : Returns bits int8 (1, 2, 2) values
decode_hidden-encode_example =
    decode_hidden-encode bits 1 2 2 values int8 refl (omega arith) (omega arith)
