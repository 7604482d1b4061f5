-- ===== src/Codec/RoundTrip.antt =====
-- What `encode_hidden_with` of crates/ggml/src/hidden.rs writes, `decode_hidden` reads.
use intelnav.Base.{
  ℕ, zero, suc, ◌+◌, ◌*◌, ◌%◌, ◌^◌, ◌<◌, ◌≡◌, refl, ap, ◌∙◌, ◌⊎◌, inl, inr, Option, none, some,
  List, [], ◌∷◌, ◌++◌, map, arith, lt→ltb, ==_iff, length, take, drop, length-append, length-take,
  length-drop, take-append, drop-append, length-map, ok, err,
}
use mathlib.Core.Path.{subst}
use intelnav.Base.Bytes.{to_le, length-to_le, of_le-to_le}
use native.Mathlib.Nat.{suc-mul}
use intelnav.Types.{u64_mod}
use intelnav.Wire.{Dtype, fp16, bf16, int8, Shape}
use intelnav.Codec.{
  Floats, shape_n_elems, f16_bytes, f32_bytes, scale_of, row_scales, row_values, encode_int8_rows,
  encode_hidden_with, expected_bytes, f16_values, f32_values, rows_decoded, decode_hidden,
  bf16_unsupported,
}

module _ (f : Floats) where
  open f use {F, of_f16, to_f16, mul, div, one_f, of_i8, to_i8, of_bits, to_bits}

  f16_values-cons :
      (n : ℕ) (rest : List ℕ)
      → n < 2 ^ 16
      → f16_values f (to_le 2 n ++ rest) ≡ of_f16 n ∷ f16_values f rest
  unfolding f16_values to_le
  f16_values-cons n rest small = ap (λ k. of_f16 k ∷ f16_values f rest) (of_le-to_le 2 n small)

  f32_values-cons :
      (n : ℕ) (rest : List ℕ)
      → n < 2 ^ 32
      → f32_values f (to_le 4 n ++ rest) ≡ of_bits n ∷ f32_values f rest
  unfolding f32_values to_le
  f32_values-cons n rest small = ap (λ k. of_bits k ∷ f32_values f rest) (of_le-to_le 4 n small)

  f16_values-bytes : (xs : List F) → f16_values f (f16_bytes f xs) ≡ map (λ x. of_f16 (to_f16 x)) xs
  unfolding f16_values
  f16_values-bytes [] = refl
  f16_values-bytes (x ∷ xs) =
      f16_values-cons (to_f16 x) (f16_bytes f xs) (f.f16_bits x)
      ∙ ap (λ t. of_f16 (to_f16 x) ∷ t) (f16_values-bytes xs)

  f32_values-bytes : (xs : List F) → f32_values f (f32_bytes f xs) ≡ xs
  unfolding f32_values
  f32_values-bytes [] = refl
  f32_values-bytes (x ∷ xs) =
      f32_values-cons (to_bits x) (f32_bytes f xs) (f.f32_bits x)
      ∙ ap (λ t. of_bits (to_bits x) ∷ t) (f32_values-bytes xs)
      ∙ ap (λ y. y ∷ xs) (f.of_bits-to_bits x)

  length-f16_bytes : (xs : List F) → length (f16_bytes f xs) ≡ length xs * 2
  length-f16_bytes [] = omega arith
  length-f16_bytes (x ∷ xs) = omega (
    arith,
    length-append (to_le 2 (to_f16 x)) (f16_bytes f xs),
    length-to_le 2 (to_f16 x),
    length-f16_bytes xs,
  )

  length-f32_bytes : (xs : List F) → length (f32_bytes f xs) ≡ length xs * 4
  length-f32_bytes [] = omega arith
  length-f32_bytes (x ∷ xs) = omega (
    arith,
    length-append (to_le 4 (to_bits x)) (f32_bytes f xs),
    length-to_le 4 (to_bits x),
    length-f32_bytes xs,
  )

  -- The values that a row of `h` comes back as: quantised by the row's scale and scaled back.
  unfoldable pub rows_through : ℕ → ℕ → List F → List F
  rows_through zero h flat = []
  rows_through (suc rows) h flat =
      let s = scale_of f (take h flat) in
      map (λ x. mul (of_i8 (to_i8 (mul x (div one_f s)))) s) (take h flat)
      ++ rows_through rows h (drop h flat)

  length-row_scales : (rows h : ℕ) (flat : List F) → length (row_scales f rows h flat) ≡ rows
  unfolding row_scales
  length-row_scales zero h flat = refl
  length-row_scales (suc rows) h flat = ap suc (length-row_scales rows h (drop h flat))

  map-through :
      (s : F) (xs : List F)
      → map (λ q. mul (of_i8 q) s) (map (λ x. to_i8 (mul x (div one_f s))) xs)
        ≡ map (λ x. mul (of_i8 (to_i8 (mul x (div one_f s)))) s) xs
  map-through s [] = refl
  map-through s (x ∷ xs) =
      ap (λ t. mul (of_i8 (to_i8 (mul x (div one_f s)))) s ∷ t) (map-through s xs)

  rows-step :
      (s : F) (h : ℕ) (bytes : List ℕ) (scales : List F) (q more : List ℕ)
      → take h bytes ≡ q
      → drop h bytes ≡ more
      → rows_decoded f (s ∷ scales) h bytes
        ≡ map (λ k. mul (of_i8 k) s) q ++ rows_decoded f scales h more
  unfolding rows_decoded
  rows-step s h bytes scales q more e1 e2 = rw (e1, e2) refl

  rows_decoded-values :
      (rows h : ℕ) (flat : List F)
      → length flat ≡ rows * h
      → (rows_decoded f (row_scales f rows h flat) h (row_values f rows h flat)
          ≡ rows_through rows h flat)
        × (length (row_values f rows h flat) ≡ rows * h)
  unfolding row_scales row_values rows_decoded rows_through
  rows_decoded-values zero h flat size = (refl, omega arith)
  rows_decoded-values (suc rows) h flat size =
      let s = scale_of f (take h flat) in
      let q = map (λ x. to_i8 (mul x (div one_f s))) (take h flat) in
      let more = row_values f rows h (drop h flat) in
      let total : length flat ≡ h + rows * h = omega (arith, suc-mul rows h) in
      let row : length q ≡ h = length-map _ (take h flat) ∙ omega (arith, length-take h flat) in
      let (rest, len) =
        rows_decoded-values rows h (drop h flat) (omega (arith, length-drop h flat)) in
      let front : take h (q ++ more) ≡ q =
        subst (λ k. take k (q ++ more) ≡ q) row (take-append q more) in
      let back : drop h (q ++ more) ≡ more =
        subst (λ k. drop k (q ++ more) ≡ more) row (drop-append q more) in
      (
        rows-step s h (q ++ more) (row_scales f rows h (drop h flat)) q more front back
            ∙ ap (λ t. t ++ rows_decoded f (row_scales f rows h (drop h flat)) h more)
                (map-through s (take h flat))
            ∙ ap (λ t. map (λ x. mul (of_i8 (to_i8 (mul x (div one_f s)))) s) (take h flat) ++ t)
                rest,
        omega (arith, length-append q more, suc-mul rows h),
      )

  n_elems-fits :
      (b s h : ℕ) → b * s < u64_mod → b * s * h < u64_mod → shape_n_elems (b, s, h) ≡ ok (b * s * h)
  unfolding shape_n_elems
  n_elems-fits b s h fits1 fits2 = rw (lt→ltb _ _ fits1) (rw (lt→ltb _ _ fits2) refl)

  encode-at :
      (b s h : ℕ) (flat : List F) (dtype : Dtype)
      → shape_n_elems (b, s, h) ≡ ok (b * s * h)
      → length flat ≡ b * s * h
      → encode_hidden_with f flat (b, s, h) dtype ≡ elim dtype [
        | fp16 ↦ ok (f16_bytes f flat)
        | int8 ↦ ok (encode_int8_rows f flat (b * s) h)
        | bf16 ↦ err bf16_unsupported
      ]
  unfolding encode_hidden_with
  encode-at b s h flat dtype shape size = rw shape (rw ((==_iff _ _).1 size) refl)

  decode-at :
      (b s h : ℕ) (bytes : List ℕ) (dtype : Dtype)
      → shape_n_elems (b, s, h) ≡ ok (b * s * h)
      → length bytes ≡ expected_bytes f dtype (b * s) (b * s * h)
      → decode_hidden f dtype (b, s, h) bytes ≡ elim dtype [
        | fp16 ↦ ok ((b, s, h), f16_values f bytes)
        | int8 ↦ ok (
          (b, s, h),
          rows_decoded f
              (f32_values f (take (b * s * 4 % u64_mod) bytes))
              h
              (drop (b * s * 4 % u64_mod) bytes),
        )
        | bf16 ↦ err bf16_unsupported
      ]
  unfolding decode_hidden
  decode-at b s h bytes dtype shape size = rw shape (rw ((==_iff _ _).1 size) refl)

  -- The scales of a payload stand before its values.
  split-scales :
      (rows h n : ℕ) (flat : List F)
      → length flat ≡ rows * h
      → n ≡ rows * 4
      → (rows_decoded f
            (f32_values f (take n (encode_int8_rows f flat rows h)))
            h
            (drop n (encode_int8_rows f flat rows h))
          ≡ rows_through rows h flat)
        × (length (encode_int8_rows f flat rows h) ≡ rows * 4 + rows * h)
  unfolding encode_int8_rows
  split-scales rows h n flat size at =
      let scales = f32_bytes f (row_scales f rows h flat) in
      let values = row_values f rows h flat in
      let (back, count) = rows_decoded-values rows h flat size in
      let wide : length scales ≡ n =
        omega (arith, length-f32_bytes (row_scales f rows h flat), length-row_scales rows h flat) in
      let front : take n (scales ++ values) ≡ scales =
        subst (λ k. take k (scales ++ values) ≡ scales) wide (take-append scales values) in
      let rest : drop n (scales ++ values) ≡ values =
        subst (λ k. drop k (scales ++ values) ≡ values) wide (drop-append scales values) in
      (
        rw front (rw rest (rw (f32_values-bytes (row_scales f rows h flat)) back)),
        omega (arith, length-append scales values),
      )

  -- What activations of a shape come back as in a type of the wire.
  abbrev pub through : Shape → Dtype → List F → Option (List F)
  through shape fp16 flat = some (map (λ x. of_f16 (to_f16 x)) flat)
  through (b, s, h) int8 flat = some (rows_through (b * s) h flat)
  through shape bf16 flat = none

  abbrev pub Returns : Dtype → Shape → List F → Type 0
  Returns dtype shape flat =
      ((bytes : List ℕ) × (vals : List F) × (encode_hidden_with f flat shape dtype ≡ ok bytes)
        × (decode_hidden f dtype shape bytes ≡ ok (shape, vals))
        × (through shape dtype flat ≡ some vals))
      ⊎ ((encode_hidden_with f flat shape dtype ≡ err bf16_unsupported)
          × (through shape dtype flat ≡ none))

  -- Activations as many as their shape says, of fewer than 2^64 bytes, are encoded in half floats
  -- and in bytes; the payload has the size that decoding wants and comes back as the same shape with
  -- each value rounded to a half float, or quantised by its row's scale and scaled back. The third
  -- type is refused.
  pub decode_hidden-encode :
      (b s h : ℕ) (flat : List F) (dtype : Dtype)
      → length flat ≡ b * s * h
      → b * s * h * 2 < u64_mod
      → b * s * 4 + b * s * h < u64_mod
      → Returns dtype (b, s, h) flat
  decode_hidden-encode b s h flat fp16 size fits1 fits2 =
      let shape = n_elems-fits b s h (omega arith) (omega arith) in
      let bytes = f16_bytes f flat in
      inl (
        bytes,
        map (λ x. of_f16 (to_f16 x)) flat,
        encode-at b s h flat fp16 shape size,
        decode-at b s h bytes fp16 shape (omega (arith, length-f16_bytes flat))
            ∙ ap (λ v. ok ((b, s, h), v)) (f16_values-bytes flat),
        refl,
      )
  decode_hidden-encode b s h flat int8 size fits1 fits2 =
      let shape = n_elems-fits b s h (omega arith) (omega arith) in
      let bytes = encode_int8_rows f flat (b * s) h in
      let (back, count) = split-scales (b * s) h (b * s * 4 % u64_mod) flat size (omega arith) in
      inl (
        bytes,
        rows_through (b * s) h flat,
        encode-at b s h flat int8 shape size,
        decode-at b s h bytes int8 shape (omega arith) ∙ ap (λ v. ok ((b, s, h), v)) back,
        refl,
      )
  decode_hidden-encode b s h flat bf16 size fits1 fits2 =
      let shape = n_elems-fits b s h (omega arith) (omega arith) in
      inr (encode-at b s h flat bf16 shape size, refl)
