-- ===== src/Codec.antt =====
-- crates/ggml/src/hidden.rs: activations as the bytes of a message, `encode_hidden_with` and
-- `decode_hidden`. Floating point is a parameter; a byte of `i8` is a number below 256.
pub mod RoundTrip
use intelnav.Base.{
  ℕ, zero, suc, ◌+◌, ◌-◌, ◌*◌, ◌/◌, ◌%◌, ◌^◌, ◌≤◌, ◌<◌, min, max, String, ◌≡◌, refl, sym, ap, ◌∙◌,
  ◌≢◌, ◌↔◌, ◌⊎◌, inl, inr, Bool, true, false, not, ◌&&◌, ◌||◌, Option, none, some, List, [], ◌∷◌,
  ◌++◌, map, append_assoc, append-nil, arith, ltb, leb, ◌==◌, if◌then◌else◌, ltb→lt, lt→ltb, leb→le,
  le→leb, ==_iff, tests, Bool-cases, Option-cases, List-cases, length, get_elem?, set, take, drop,
  replicate, All, length-append, take-append-drop, length-take, length-drop, length-replicate,
  take-append, drop-append, take-all, take-append_add, take-take, last-split, length-set,
  length-map, Result, ok, err, ◌>>=◌, ◌>>◌, guard, or_fail, Result-cases, bind-ok, guard-ok, ok-inj,
}
use intelnav.Base.Bytes.{to_le, of_le, length-to_le, of_le-to_le}
use intelnav.Types.{u64_mod}
use intelnav.Wire.{Dtype, fp16, bf16, int8, Shape}

-- `f32` and `f16`: bit patterns are read back as they were written.
pub record Floats : Type 1 where
  pub F : Type 0
  pub zero_f : F
  pub one_f : F
  pub max_i8 : F
  pub abs : F → F
  pub max_f : F → F → F
  pub mul : F → F → F
  pub div : F → F → F
  pub gt : F → F → Bool
  -- `round().clamp(-127.0, 127.0) as i8`, and back
  pub to_i8 : F → ℕ
  pub of_i8 : ℕ → F
  pub to_f16 : F → ℕ
  pub to_bits : F → ℕ
  pub of_f16 : ℕ → F
  pub of_bits : ℕ → F
  pub f16_bits : (x : F) → to_f16 x < 2 ^ 16
  pub f32_bits : (x : F) → to_bits x < 2 ^ 32
  pub of_bits-to_bits : (x : F) → of_bits (to_bits x) ≡ x

pub data CodecError : Type 0 where
  shape_overflows length_mismatch size_mismatch bf16_unsupported : CodecError

unfoldable pub shape_n_elems : Shape → Result CodecError ℕ
shape_n_elems (b, s, h) =
    if ltb (b * s) u64_mod && ltb (b * s * h) u64_mod then ok (b * s * h) else err shape_overflows

module _ (f : Floats) where
  open f use {
    F, zero_f, one_f, max_i8, abs, max_f, mul, div, gt, to_i8, of_i8, to_f16, of_f16, to_bits,
    of_bits,
  }

  abbrev pub f16_bytes : List F → List ℕ
  f16_bytes [] = []
  f16_bytes (x ∷ xs) = to_le 2 (to_f16 x) ++ f16_bytes xs

  abbrev pub f32_bytes : List F → List ℕ
  f32_bytes [] = []
  f32_bytes (x ∷ xs) = to_le 4 (to_bits x) ++ f32_bytes xs

  abbrev absmax : List F → F → F
  absmax [] m = m
  absmax (x ∷ xs) m = absmax xs (max_f m (abs x))

  unfoldable pub scale_of : List F → F
  scale_of row = let m = absmax row zero_f in if gt m zero_f then div m max_i8 else one_f

  -- The scale of each row, and its values.
  unfoldable pub row_scales : ℕ → ℕ → List F → List F
  row_scales zero h flat = []
  row_scales (suc rows) h flat = scale_of (take h flat) ∷ row_scales rows h (drop h flat)

  unfoldable pub row_values : ℕ → ℕ → List F → List ℕ
  row_values zero h flat = []
  row_values (suc rows) h flat =
      map (λ x. to_i8 (mul x (div one_f (scale_of (take h flat))))) (take h flat)
      ++ row_values rows h (drop h flat)

  unfoldable pub encode_int8_rows : List F → ℕ → ℕ → List ℕ
  encode_int8_rows flat rows h = f32_bytes (row_scales rows h flat) ++ row_values rows h flat

  unfoldable pub encode_hidden_with : List F → Shape → Dtype → Result CodecError (List ℕ)
  encode_hidden_with flat (b, s, h) dtype = do
    n_elems ← shape_n_elems (b, s, h)
    guard (length flat == n_elems) length_mismatch
    elim dtype [
      | fp16 ↦ ok (f16_bytes flat)
      | int8 ↦ ok (encode_int8_rows flat (b * s) h)
      | bf16 ↦ err bf16_unsupported
    ]

  abbrev pub expected_bytes : Dtype → ℕ → ℕ → ℕ
  expected_bytes fp16 rows n_elems = n_elems * 2 % u64_mod
  expected_bytes bf16 rows n_elems = n_elems * 2 % u64_mod
  expected_bytes int8 rows n_elems = (rows * 4 + n_elems) % u64_mod

  unfoldable pub f16_values : List ℕ → List F
  f16_values (a ∷ b ∷ rest) = of_f16 (of_le (a ∷ b ∷ [])) ∷ f16_values rest
  f16_values _ = []

  unfoldable pub f32_values : List ℕ → List F
  f32_values (a ∷ b ∷ c ∷ d ∷ rest) = of_bits (of_le (a ∷ b ∷ c ∷ d ∷ [])) ∷ f32_values rest
  f32_values _ = []

  unfoldable pub rows_decoded : List F → ℕ → List ℕ → List F
  rows_decoded [] h bytes = []
  rows_decoded (s ∷ scales) h bytes =
      map (λ q. mul (of_i8 q) s) (take h bytes) ++ rows_decoded scales h (drop h bytes)

  unfoldable pub decode_hidden : Dtype → Shape → List ℕ → Result CodecError (Shape × List F)
  decode_hidden dtype (b, s, h) bytes = do
    n_elems ← shape_n_elems (b, s, h)
    guard (length bytes == expected_bytes dtype (b * s) n_elems) size_mismatch
    elim dtype [
      | fp16 ↦ ok ((b, s, h), f16_values bytes)
      | int8 ↦ ok (
        (b, s, h),
        rows_decoded (f32_values (take (b * s * 4 % u64_mod) bytes)) h
            (drop (b * s * 4 % u64_mod) bytes),
      )
      | bf16 ↦ err bf16_unsupported
    ]
