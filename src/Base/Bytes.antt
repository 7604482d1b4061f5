-- ===== src/Base/Bytes.antt =====
-- Fixed-width integers as bytes; a byte is a number below 256.
use intelnav.Base.{
  ℕ, zero, suc, ◌+◌, ◌*◌, ◌/◌, ◌%◌, ◌^◌, ◌<◌, ◌≡◌, refl, ap, ◌↔◌, Bool, true, false, ◌&&◌, Option,
  none, some, List, [], ◌∷◌, arith, ltb, leb, ◌==◌, if◌then◌else◌, length,
}
use native.Mathlib.Nat.{pow-suc}
use mathlib.Core.Path.{subst}

-- `k` bytes, the lowest first, as `to_le_bytes` and `from_le_bytes`.
unfoldable pub to_le : ℕ → ℕ → List ℕ
to_le zero n = []
to_le (suc k) n = n % 256 ∷ to_le k (n / 256)

unfoldable pub of_le : List ℕ → ℕ
of_le [] = 0
of_le (b ∷ bs) = b + 256 * of_le bs

pub length-to_le : (k n : ℕ) → length (to_le k n) ≡ k
unfolding to_le
length-to_le zero n = refl
length-to_le (suc k) n = ap suc (length-to_le k (n / 256))

pub of_le-to_le : (k n : ℕ) → n < 256 ^ k → of_le (to_le k n) ≡ n
unfolding to_le of_le
of_le-to_le zero n h = omega arith
of_le-to_le (suc k) n h =
    let bound : n < 256 * 256 ^ k = omega (arith, pow-suc 256 k) in
    omega (arith, of_le-to_le k (n / 256) (omega arith))

-- Four bytes, the highest first, as `put_u32` and `from_be_bytes`.
unfoldable pub to_be32 : ℕ → List ℕ
to_be32 n = n / 2 ^ 24 % 256 ∷ n / 2 ^ 16 % 256 ∷ n / 2 ^ 8 % 256 ∷ n % 256 ∷ []

unfoldable pub of_be32 : ℕ → ℕ → ℕ → ℕ → ℕ
of_be32 a b c d = a * 2 ^ 24 + b * 2 ^ 16 + c * 2 ^ 8 + d

pub of_be32-to_be32 :
    (n : ℕ)
    → n < 2 ^ 32
    → of_be32 (n / 2 ^ 24 % 256) (n / 2 ^ 16 % 256) (n / 2 ^ 8 % 256) (n % 256) ≡ n
unfolding of_be32
of_be32-to_be32 n h = omega arith

abbrev pub bytes_eq : List ℕ → List ℕ → Bool
bytes_eq [] [] = true
bytes_eq (x ∷ xs) (y ∷ ys) = x == y && bytes_eq xs ys
bytes_eq _ _ = false

-- For a lead byte: how many bytes follow, and the bounds of the first of them.
abbrev lead : ℕ → Option (ℕ × ℕ × ℕ)
lead b =
    if ltb b 128
    then some (0, 128, 191)
    else if ltb b 194
    then none
    else if ltb b 224
    then some (1, 128, 191)
    else if b == 224
    then some (2, 160, 191)
    else if b == 237
    then some (2, 128, 159)
    else if ltb b 240
    then some (2, 128, 191)
    else if b == 240
    then some (3, 144, 191)
    else if ltb b 244
    then some (3, 128, 191)
    else if b == 244
    then some (3, 128, 143)
    else none

-- What `str::from_utf8` accepts: no overlong form, no surrogate, nothing above U+10FFFF.
unfoldable utf8_from : List ℕ → ℕ → ℕ → ℕ → Bool
utf8_from [] n lo hi = n == 0
utf8_from (b ∷ bs) (suc n) lo hi = leb lo b && leb b hi && utf8_from bs n 128 191
utf8_from (b ∷ bs) zero lo hi = elim (lead b) [
  | none ↦ false
  | some (n, lo', hi') ↦ utf8_from bs n lo' hi'
]

unfoldable pub is_utf8 : List ℕ → Bool
unfolding utf8_from
is_utf8 bs = utf8_from bs 0 128 191

pub bytes_eq_iff : (xs ys : List ℕ) → (bytes_eq xs ys ≡ true) ↔ (xs ≡ ys)
bytes_eq_iff [] [] = ground arith
bytes_eq_iff [] (y ∷ ys) = ground arith
bytes_eq_iff (x ∷ xs) [] = ground arith
bytes_eq_iff (x ∷ xs) (y ∷ ys) = ground (arith, bytes_eq_iff xs ys)

lead-ascii : (c : ℕ) → c < 128 → lead c ≡ some (0, 128, 191)
lead-ascii c small = ground arith

-- A byte of ASCII stands for itself.
pub is_utf8-cons : (c : ℕ) (cs : List ℕ) → c < 128 → is_utf8 (c ∷ cs) ≡ is_utf8 cs
unfolding is_utf8 utf8_from
is_utf8-cons c cs small =
    subst
      (λ r. is_utf8 (c ∷ cs) ≡ elim r [ none ↦ false | some (n, lo, hi) ↦ utf8_from cs n lo hi ])
      (lead-ascii c small) refl
