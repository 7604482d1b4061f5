-- ===== src/Tests/Frames.antt =====
-- The types and the frames of the protocol, crates/core/src and crates/wire/src/lib.rs, at concrete
-- inputs. The codec here knows heartbeats only.
use intelnav.Base.{
  ℕ, ◌+◌, ◌-◌, ◌≡◌, refl, ◌≢◌, true, false, Option, none, some, List, [], ◌∷◌, ◌++◌, arith, ok,
}
use mathlib.Core.List.{flatten}
use intelnav.Base.Bytes.{to_be32}
use intelnav.Types.{LayerRange, len, is_empty, len-counts}
use intelnav.Wire.{
  Msg, hello, session_init, session_ack, abort_session, prompt, forward_hidden, token, heartbeat,
  advertise, gossip, Cbor, encode_frame, encode, decode_frame, read_frame,
}
use intelnav.Wire.Framing.{decode-encode, decode-prefix, read-chunks}

abbrev qwen_layers : LayerRange
qwen_layers = record { start = 12; end = 24 }

len-counts_example :
    (is_empty qwen_layers ≡ true → len qwen_layers ≡ 1)
    × (is_empty qwen_layers ≡ false → 24 - 12 ≢ 65535 → 12 + len qwen_layers ≡ 24 + 1)
    × (24 - 12 ≡ 65535 → len qwen_layers ≡ 0)
len-counts_example = len-counts qwen_layers (omega arith)

abbrev write : Msg → Option (List ℕ)
write (heartbeat sid seq health) = some (sid ∷ seq ∷ health ∷ [])
write _ = none

abbrev read : List ℕ → Option Msg
read (sid ∷ seq ∷ health ∷ []) = some (heartbeat sid seq health)
read _ = none

write-read : (m : Msg) (bytes : List ℕ) → write m ≡ some bytes → read bytes ≡ some m
write-read (heartbeat sid seq health) bytes e = ground arith
write-read (hello a b c) bytes e = absurd (ground arith)
write-read (session_init a b c d f) bytes e = absurd (ground arith)
write-read (session_ack a b) bytes e = absurd (ground arith)
write-read (prompt a b c) bytes e = absurd (ground arith)
write-read (forward_hidden a b c d f g j k) bytes e = absurd (ground arith)
write-read (token a b c d) bytes e = absurd (ground arith)
write-read (abort_session a b) bytes e = absurd (ground arith)
write-read (advertise a b) bytes e = absurd (ground arith)
write-read (gossip a b c) bytes e = absurd (ground arith)

abbrev beats : Cbor
beats = record { into_writer = write; from_reader = read; reads_back = write-read }

abbrev beat : Msg
beat = heartbeat 1 2 3

abbrev frame : List ℕ
frame = 0 ∷ 0 ∷ 0 ∷ 3 ∷ 1 ∷ 2 ∷ 3 ∷ []

frame_written : encode_frame beats [] beat ≡ ok frame
unfolding encode_frame encode to_be32
frame_written = refl

decode-encode_example : decode_frame beats (frame ++ 8 ∷ 9 ∷ []) ≡ (ok (some beat), 8 ∷ 9 ∷ [])
decode-encode_example = decode-encode beats beat frame (8 ∷ 9 ∷ []) frame_written

abbrev half : List ℕ
half = 0 ∷ 0 ∷ 0 ∷ 3 ∷ 1 ∷ []

abbrev tail : List ℕ
tail = 2 ∷ 3 ∷ []

tail_there : tail ≢ []
tail_there e = ground arith

decode-prefix_example : decode_frame beats half ≡ (ok none, half)
decode-prefix_example = decode-prefix beats beat frame half tail frame_written refl tail_there

abbrev pieces : List (List ℕ)
pieces = (0 ∷ 3 ∷ []) ∷ (1 ∷ 2 ∷ 3 ∷ 8 ∷ []) ∷ (9 ∷ []) ∷ []

pieces_whole : (0 ∷ 0 ∷ []) ++ flatten pieces ≡ frame ++ 8 ∷ 9 ∷ []
unfolding flatten
pieces_whole = refl

read-chunks_example :
    (buf' : List ℕ) × (chunks' : List (List ℕ)) × (read_frame beats (0 ∷ 0 ∷ []) pieces
      ≡ (ok (some beat), buf', chunks'))
    × (buf' ++ flatten chunks' ≡ 8 ∷ 9 ∷ [])
read-chunks_example =
    read-chunks beats beat frame (8 ∷ 9 ∷ []) (0 ∷ 0 ∷ []) pieces frame_written pieces_whole
