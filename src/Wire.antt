-- ===== src/Wire.antt =====
-- crates/wire/src/lib.rs: the protocol's messages and their framing, and the read loops over a socket
-- in crates/runtime/src/chain.rs and crates/app/src/forward_server.rs. CBOR is a parameter.
pub mod Framing
use intelnav.Base.{
  ℕ, zero, suc, ◌+◌, ◌-◌, ◌*◌, ◌/◌, ◌%◌, ◌^◌, ◌≤◌, ◌<◌, min, max, String, ◌≡◌, refl, sym, ap, ◌∙◌,
  ◌≢◌, ◌↔◌, ◌⊎◌, inl, inr, Bool, true, false, not, ◌&&◌, ◌||◌, Option, none, some, List, [], ◌∷◌,
  ◌++◌, map, append_assoc, append-nil, arith, ltb, leb, ◌==◌, if◌then◌else◌, ltb→lt, lt→ltb, leb→le,
  le→leb, ==_iff, tests, Bool-cases, Option-cases, List-cases, length, get_elem?, set, take, drop,
  replicate, All, length-append, take-append-drop, length-take, length-drop, length-replicate,
  take-append, drop-append, take-all, take-append_add, take-take, last-split, length-set,
  length-map, Result, ok, err, ◌>>=◌, ◌>>◌, guard, or_fail, Result-cases,
}
use intelnav.Base.Bytes.{to_be32, of_be32}
use intelnav.Types.{Quant, LayerRange, CapabilityV1, u32_mod}

pub data WireError : Type 0 where
  encode_error decode_error : WireError
  frame_too_large : ℕ → ℕ → WireError
  truncated : ℕ → ℕ → WireError

abbrev pub max_frame_bytes : ℕ
max_frame_bytes = 16 * 1024 * 1024

pub data Phase : Type 0 where
  prefill decode : Phase

pub data Dtype : Type 0 where
  fp16 bf16 int8 : Dtype

-- [batch, seq, hidden]
abbrev pub Shape : Type 0
Shape = ℕ × ℕ × ℕ

pub data Msg : Type 0 where
  -- peer_id, proto_ver, supported_quants
  hello : ℕ → ℕ → List Quant → Msg
  -- session_id, client_x25519_pub, model_cid, layer_range, max_seq
  session_init : ℕ → ℕ → String → LayerRange → ℕ → Msg
  -- session_id, shard_x25519_pub
  session_ack : ℕ → ℕ → Msg
  -- session_id, ciphertext, nonce
  prompt : ℕ → List ℕ → ℕ → Msg
  -- session_id, seq, phase, dtype, shape, payload, kv_delta, kv_truncate_to
  forward_hidden : ℕ → ℕ → Phase → Dtype → Shape → List ℕ → Option (List ℕ) → Option ℕ → Msg
  -- session_id, seq, logits_top_k, sampled
  token : ℕ → ℕ → Option (List (ℕ × ℕ)) → ℕ → Msg
  -- session_id, last_seq, health
  heartbeat : ℕ → ℕ → ℕ → Msg
  -- session_id, reason
  abort_session : ℕ → String → Msg
  -- capability_v1, sig
  advertise : CapabilityV1 → List ℕ → Msg
  -- topic, payload, sig
  gossip : String → List ℕ → List ℕ → Msg

pub data ReadError : Type 0 where
  wire_error : WireError → ReadError
  truncated_at_eof : ℕ → ReadError

-- The CBOR library: a value that it writes reads back.
pub record Cbor : Type 0 where
  pub into_writer : Msg → Option (List ℕ)
  pub from_reader : List ℕ → Option Msg
  pub reads_back :
      (m : Msg) (bytes : List ℕ) → into_writer m ≡ some bytes → from_reader bytes ≡ some m

module _ (c : Cbor) where
  open c use {into_writer, from_reader}

  unfoldable pub encode : Msg → Result WireError (List ℕ)
  encode m = or_fail (into_writer m) encode_error

  unfoldable pub decode_msg : List ℕ → Result WireError Msg
  decode_msg bytes = or_fail (from_reader bytes) decode_error

  -- What is appended to `dst`.
  unfoldable pub encode_frame : List ℕ → Msg → Result WireError (List ℕ)
  unfolding encode
  encode_frame dst m = do
    payload ← encode m
    guard (leb (length payload) max_frame_bytes) (frame_too_large (length payload) max_frame_bytes)
    ok (dst ++ to_be32 (length payload % u32_mod) ++ payload)

  -- The body, once its length is known: the outcome and what stays in the buffer.
  unfoldable pub decode_body : ℕ → List ℕ → List ℕ → Result WireError (Option Msg) × List ℕ
  unfolding decode_msg
  decode_body len src body =
      if ltb max_frame_bytes len
      then (err (frame_too_large len max_frame_bytes), src)
      else if ltb (length src) (4 + len)
      then (ok none, src)
      else ((do m ← decode_msg (take len body); ok (some m)), drop len body)

  unfoldable pub decode_frame : List ℕ → Result WireError (Option Msg) × List ℕ
  unfolding decode_body
  decode_frame (a ∷ b ∷ c ∷ d ∷ body) = decode_body (of_be32 a b c d) (a ∷ b ∷ c ∷ d ∷ body) body
  decode_frame src = (ok none, src)

  abbrev settle :
      Result WireError (Option Msg) × List ℕ
      → List (List ℕ)
      → Result ReadError (Option Msg) × List ℕ × List (List ℕ)
      → Result ReadError (Option Msg) × List ℕ × List (List ℕ)
  settle (ok (some m), rest) chunks more = (ok (some m), rest, chunks)
  settle (ok none, rest) chunks more = more
  settle (err e, rest) chunks more = (err (wire_error e), rest, chunks)

  -- One message from a socket whose reads give the chunks in turn, and then the end of the stream.
  -- The rest of the buffer and of the chunks comes with the outcome. A read of no bytes is the end of
  -- the stream; an empty chunk is no read.
  unfoldable pub read_frame :
      List ℕ → List (List ℕ) → Result ReadError (Option Msg) × List ℕ × List (List ℕ)
  unfolding decode_frame
  read_frame buf [] = settle (decode_frame buf) [] (
      if ltb 0 (length buf)
      then (err (truncated_at_eof (length buf)), buf, [])
      else (ok none, buf, []))
  read_frame buf (chunk ∷ chunks) =
      let more = read_frame (buf ++ chunk) chunks in settle (decode_frame buf) (chunk ∷ chunks) more

  -- A loop that reads until the stream ends or fails: the messages, and the failure.
  unfoldable pub read_all : ℕ → List ℕ → List (List ℕ) → List Msg × Option ReadError
  unfolding read_frame
  read_all zero buf chunks = ([], none)
  read_all (suc fuel) buf chunks =
      let (outcome, buf', chunks') = read_frame buf chunks in
      let (ms, failure) = read_all fuel buf' chunks' in
      elim outcome [
        | ok found ↦ elim found [ none ↦ ([], none) | some m ↦ (m ∷ ms, failure) ]
        | err e ↦ ([], some e)
      ]
