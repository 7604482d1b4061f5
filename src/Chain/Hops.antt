-- ===== src/Chain/Hops.antt =====
-- The hop loop of `Chain::step_with_truncate` in crates/runtime/src/chain.rs: the activations go to each
-- peer in turn and come back behind its layers. The codec is the engine's; what a peer does with a
-- request is a parameter. Activations have rank three here. Telemetry is left out.
use intelnav.Base.{
  ℕ, ◌+◌, ◌%◌, Bool, true, false, ◌&&◌, Option, none, some, List, [], ◌∷◌, ◌==◌, if◌then◌else◌,
  Result, ok, err, ◌>>=◌, ◌>>◌, guard, or_fail,
}
use intelnav.Types.{u32_mod}
use intelnav.Wire.{Msg, forward_hidden, abort_session, Phase, Dtype, fp16, bf16, int8, Shape}
use intelnav.Forward.{Engine}
use intelnav.Control.{slice_key_eq}
use intelnav.Chain.{ChainError, dropped, aborted, other, Link, Waited, with_timeout}

-- What becomes of a request: whether it is written, which is not tried if it does not fit a frame, and
-- what is read then.
pub record Hop : Type 0 where
  pub written : Option (Waited (Unit {0}))
  pub reply : Waited (Option Msg)

unfoldable pub check_reply : ℕ → ℕ → Option Msg → Result ChainError (Dtype × Shape × List ℕ)
check_reply index session (some (forward_hidden sid seq phase dtype shape payload kv_delta keep)) =
    if sid == session then ok (dtype, shape, payload) else err (dropped index)
check_reply index session (some (abort_session sid reason)) = err (aborted index)
check_reply index session _ = err (dropped index)

abbrev pub is_wire_dtype : Dtype → Bool
is_wire_dtype fp16 = true
is_wire_dtype int8 = true
is_wire_dtype bf16 = false

module _ (n : Engine) (net : ℕ → Msg → Hop) (wire_dtype : Dtype) (phase : Phase)
    (keep : Option ℕ) where
  open n use {Data, decode_hidden, encode_hidden}

  -- One hop, with the number that its request has.
  unfoldable pub hop : ℕ → Link → Shape × Data → Result ChainError (Shape × Data)
  hop index link ((b, s, d), x) = do
    (shape, bytes) ←
        or_fail (encode_hidden ((b % u32_mod, s % u32_mod, d % u32_mod), x) wire_dtype) other
    let req = forward_hidden link.session (link.seq + 1) phase wire_dtype shape bytes none keep
    sent ← or_fail (net index req).written other
    with_timeout index sent
    reply ← with_timeout index (net index req).reply
    (dtype, out_shape, payload) ← check_reply index link.session reply
    guard (is_wire_dtype dtype) (dropped index)
    ((b', s', d'), y) ← or_fail (decode_hidden dtype out_shape payload) other
    guard (b' == b && s' == s) (dropped index)
    ok ((b', s', d'), y)

  -- The links from `index` on: the activations behind the last, and the links with the number of each
  -- request counted, that of a failed one too.
  unfoldable pub step_links :
      ℕ → List Link → Shape × Data → Result ChainError (Shape × Data) × List Link
  step_links index [] cur = (ok cur, [])
  step_links index (link ∷ links) cur =
      let counted = record link { seq = link.seq + 1 } in
      elim (hop index link cur) [
        | err e ↦ (err e, counted ∷ links)
        | ok next ↦
            let (result, rest) = step_links (index + 1) links next in (result, counted ∷ rest)
      ]
