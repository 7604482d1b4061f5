-- ===== src/Wire/Framing.antt =====
-- Frames of crates/wire/src/lib.rs survive the socket, however its reads cut them.
use intelnav.Base.{
  ℕ, ◌+◌, ◌/◌, ◌%◌, ◌^◌, ◌≤◌, ◌<◌, ◌≡◌, refl, ap, ◌∙◌, ◌≢◌, ◌⊎◌, inl, inr, none, some, List, [],
  ◌∷◌, ◌++◌, append_assoc, arith, Option-cases, length, length-append, take-append, drop-append, ok,
}
use mathlib.Core.List.{flatten}
use intelnav.Base.Bytes.{to_be32, of_be32, of_be32-to_be32}
use intelnav.Types.{u32_mod}
use intelnav.Wire.{
  max_frame_bytes, Msg, Cbor, encode, decode_msg, encode_frame, decode_body, decode_frame,
  read_frame,
}

-- One text cut in two ways: the first piece ends inside the other's first piece, or behind it.
cut {ℓ} :
    {A : Type ℓ} (xs ys f rest : List A)
    → xs ++ ys ≡ f ++ rest
    → ((z : A) × (zs : List A) × (f ≡ xs ++ z ∷ zs) × (ys ≡ (z ∷ zs) ++ rest))
      ⊎ ((zs : List A) × (xs ≡ f ++ zs) × (zs ++ ys ≡ rest))
cut xs ys [] rest e = inr (xs, refl, e)
cut [] ys (z ∷ zs) rest e = inl (z, zs, refl, e)
cut (x ∷ xs) ys (y ∷ f) rest e = elim (cut xs ys f rest (ground arith)) [
  | inl (z, zs, p, q) ↦ inl (z, zs, ground arith, q)
  | inr (zs, p, q) ↦ inr (zs, ground arith, q)
]

module _ (c : Cbor) where
  open c use {into_writer, from_reader, reads_back}

  -- The bytes of a frame.
  frame-shape :
      (m : Msg) (dst f : List ℕ)
      → encode_frame c dst m ≡ ok f
      → (payload : List ℕ) × (f ≡ dst ++ to_be32 (length payload % u32_mod) ++ payload)
        × (length payload ≤ max_frame_bytes)
        × (decode_msg c payload ≡ ok m)
  unfolding encode_frame encode decode_msg
  frame-shape m dst f e = elim (Option-cases (into_writer m)) [
    | inl fails ↦ absurd (ground arith)
    | inr (payload, wrote) ↦
        (payload, ground arith, ground arith, ground (arith, reads_back m payload wrote))
  ]

  -- A whole body behind its length.
  body-whole :
      (m : Msg) (payload rest header : List ℕ)
      → length payload ≤ max_frame_bytes
      → length header ≡ 4
      → decode_msg c payload ≡ ok m
      → decode_body c (length payload) (header ++ payload ++ rest) (payload ++ rest)
        ≡ (ok (some m), rest)
  unfolding decode_body
  body-whole m payload rest header small four e = ground (
    arith,
    e,
    take-append payload rest,
    drop-append payload rest,
    length-append (header ++ payload) rest,
    length-append header payload,
  )

  header-len :
      (n : ℕ)
      → n ≤ max_frame_bytes
      → let k = n % u32_mod in
        of_be32 (k / 2 ^ 24 % 256) (k / 2 ^ 16 % 256) (k / 2 ^ 8 % 256) (k % 256) ≡ n
  header-len n small =
      let same : n % u32_mod ≡ n = omega arith in rw same (of_be32-to_be32 n (omega arith))

  -- A frame decodes to its message, whatever stands behind it in the buffer, and is taken off it.
  pub decode-encode :
      (m : Msg) (f rest : List ℕ)
      → encode_frame c [] m ≡ ok f
      → decode_frame c (f ++ rest) ≡ (ok (some m), rest)
  unfolding decode_frame to_be32
  decode-encode m f rest e =
      let (payload, shape, small, reads) = frame-shape m [] f e in
      rw shape (
        rw (header-len (length payload) small)
          (body-whole m payload rest (to_be32 (length payload % u32_mod)) small refl reads))

  short-body :
      (len : ℕ) (src body : List ℕ)
      → len ≤ max_frame_bytes
      → length src < 4 + len
      → decode_body c len src body ≡ (ok none, src)
  unfolding decode_body
  short-body len src body small short = ground arith

  long-enough :
      (m : Msg) (f xs : List ℕ) (z : ℕ) (zs : List ℕ)
      → encode_frame c [] m ≡ ok f
      → f ≡ xs ++ z ∷ zs
      → decode_frame c xs ≡ (ok none, xs)
  unfolding decode_frame to_be32
  long-enough m f [] z zs e split = refl
  long-enough m f (a ∷ []) z zs e split = refl
  long-enough m f (a ∷ b ∷ []) z zs e split = refl
  long-enough m f (a ∷ b ∷ d ∷ []) z zs e split = refl
  long-enough m f (a ∷ b ∷ d ∷ g ∷ body) z zs e split =
      let (payload, shape, small, reads) = frame-shape m [] f e in
      let n : ℕ = length payload in
      let whole : payload ≡ body ++ z ∷ zs = ground arith in
      let len : of_be32 a b d g ≡ n = rw (← header-len n small) (ground arith) in
      rw len (
        short-body n (a ∷ b ∷ d ∷ g ∷ body) body small
          (omega (arith, ap length whole, length-append body (z ∷ zs))))

  -- A buffer that holds only the beginning of a frame waits, and keeps it.
  pub decode-prefix :
      (m : Msg) (f xs ys : List ℕ)
      → encode_frame c [] m ≡ ok f
      → f ≡ xs ++ ys
      → ys ≢ []
      → decode_frame c xs ≡ (ok none, xs)
  decode-prefix m f xs [] e split h = absurd (h refl)
  decode-prefix m f xs (y ∷ ys) e split h = long-enough m f xs y ys e split

  settled :
      (m : Msg) (f rest buf zs : List ℕ) (chunks : List (List ℕ))
      → encode_frame c [] m ≡ ok f
      → buf ≡ f ++ zs
      → read_frame c buf chunks ≡ (ok (some m), zs, chunks)
  unfolding read_frame
  settled m f rest buf zs [] e whole = rw whole (rw (decode-encode m f zs e) refl)
  settled m f rest buf zs (chunk ∷ chunks) e whole = rw whole (rw (decode-encode m f zs e) refl)

  waits :
      (buf chunk : List ℕ) (chunks : List (List ℕ))
      → decode_frame c buf ≡ (ok none, buf)
      → read_frame c buf (chunk ∷ chunks) ≡ read_frame c (buf ++ chunk) chunks
  unfolding read_frame
  waits buf chunk chunks e = rw e refl

  -- However the reads cut a stream that begins with a frame, the reader delivers its message and
  -- leaves the rest of the stream.
  pub read-chunks :
      (m : Msg) (f rest buf : List ℕ) (chunks : List (List ℕ))
      → encode_frame c [] m ≡ ok f
      → buf ++ flatten chunks ≡ f ++ rest
      → (buf' : List ℕ) × (chunks' : List (List ℕ)) × (read_frame c buf chunks
          ≡ (ok (some m), buf', chunks'))
        × (buf' ++ flatten chunks' ≡ rest)
  unfolding flatten
  read-chunks m f rest buf [] e same = elim (cut buf [] f rest same) [
    | inl (z, zs, longer, none_left) ↦ absurd (ground arith)
    | inr (zs, whole, left) ↦ (zs, [], settled m f rest buf zs [] e whole, left)
  ]
  read-chunks m f rest buf (chunk ∷ chunks) e same =
      elim (cut buf (chunk ++ flatten chunks) f rest same) [
        | inl (z, zs, longer, more) ↦
            let (buf', chunks', found, left) =
              read-chunks m f rest (buf ++ chunk) chunks e
                (append_assoc buf chunk (flatten chunks) ∙ same) in
            (
              buf',
              chunks',
              waits buf chunk chunks (long-enough m f buf z zs e longer) ∙ found,
              left,
            )
        | inr (zs, whole, left) ↦
            (zs, chunk ∷ chunks, settled m f rest buf zs (chunk ∷ chunks) e whole, left)
      ]
