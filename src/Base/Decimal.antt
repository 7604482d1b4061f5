-- ===== src/Base/Decimal.antt =====
-- Decimal numerals of a `u32`, as `to_string` writes them and `parse` reads them.
use intelnav.Base.{
  ℕ, zero, suc, ◌+◌, ◌-◌, ◌*◌, ◌/◌, ◌%◌, ◌^◌, ◌≤◌, ◌<◌, ◌≡◌, refl, sym, ◌∙◌, inl, inr, ◌&&◌, Option,
  none, some, List, [], ◌∷◌, ◌++◌, arith, ltb, leb, ◌==◌, if◌then◌else◌, ltb→lt, lt→ltb, Bool-cases,
  List-cases, All,
}
use native.Mathlib.Nat.{pow-suc}
use mathlib.Core.Path.{subst}

abbrev u32_bound : ℕ
u32_bound = 2 ^ 32

-- At most `fuel` digits; a `u32` has at most ten.
unfoldable digits : ℕ → ℕ → List ℕ
digits zero n = []
digits (suc fuel) n =
    let rest = digits fuel (n / 10) in (if ltb n 10 then [] else rest) ++ (48 + n % 10) ∷ []

unfoldable pub show_u32 : ℕ → List ℕ
unfolding digits
show_u32 n = digits 10 n

unfoldable pub parse_from : ℕ → List ℕ → Option ℕ
parse_from acc [] = some acc
parse_from acc (c ∷ cs) =
    let next = acc * 10 + (c - 48) in
    if leb 48 c && leb c 57 && ltb next u32_bound then parse_from next cs else none

-- A plus sign may stand in front.
unfoldable pub parse_u32 : List ℕ → Option ℕ
unfolding parse_from
parse_u32 [] = none
parse_u32 (c ∷ []) = parse_from 0 (c ∷ [])
parse_u32 (c ∷ d ∷ cs) = if c == 43 then parse_from 0 (d ∷ cs) else parse_from 0 (c ∷ d ∷ cs)

parse_from-snoc :
    (acc c m : ℕ) (xs : List ℕ)
    → parse_from acc xs ≡ some m
    → 48 ≤ c
    → c ≤ 57
    → m * 10 + (c - 48) < u32_bound
    → parse_from acc (xs ++ c ∷ []) ≡ some (m * 10 + (c - 48))
unfolding parse_from
parse_from-snoc acc c m [] e lo hi small = ground arith
parse_from-snoc acc c m (x ∷ xs) e lo hi small =
    ground (arith, parse_from-snoc (acc * 10 + (x - 48)) c m xs)

-- One digit goes last.
digits-step :
    (fuel n : ℕ)
    → digits (suc fuel) n ≡ (if ltb n 10 then [] else digits fuel (n / 10)) ++ (48 + n % 10) ∷ []
unfolding digits
digits-step fuel n = refl

parse_from-digit : (n : ℕ) → n < 10 → parse_from 0 ((48 + n % 10) ∷ []) ≡ some n
unfolding parse_from
parse_from-digit n one =
    let bound : n < u32_bound = omega arith in
    let same : 48 + n % 10 - 48 ≡ n = omega arith in ground arith

parse_from-digits :
    (fuel n : ℕ) → n < 10 ^ suc fuel → n < u32_bound → parse_from 0 (digits (suc fuel) n) ≡ some n
parse_from-digits zero n few small =
    let one : n < 10 = omega arith in rw (digits-step 0 n, lt→ltb n 10 one) (parse_from-digit n one)
parse_from-digits (suc fuel) n few small = elim (Bool-cases (ltb n 10)) [
  | inl one ↦ rw (digits-step (suc fuel) n, one) (parse_from-digit n (ltb→lt n 10 one))
  | inr more ↦
      let bound : n < 10 * 10 ^ suc fuel = omega (arith, pow-suc 10 (suc fuel)) in
      let front = parse_from-digits fuel (n / 10) (omega arith) (omega arith) in
      let same : n / 10 * 10 + (48 + n % 10 - 48) ≡ n = omega arith in
      let back =
        parse_from-snoc 0 (48 + n % 10) (n / 10) (digits (suc fuel) (n / 10)) front (omega arith)
          (omega arith) (omega arith) in
      rw (digits-step (suc fuel) n, more)
        (subst (λ k. parse_from 0 (digits (suc fuel) (n / 10) ++ (48 + n % 10) ∷ []) ≡ some k) same
          back)
]

pub All-append {ℓ κ} :
    {A : Type ℓ} (P : A → Type κ) (xs ys : List A) → All P xs → All P ys → All P (xs ++ ys)
All-append P [] ys hx hy = hy
All-append P (x ∷ xs) ys hx hy = (hx.0, All-append P xs ys hx.1 hy)

abbrev pub IsDigit : ℕ → Type 0
IsDigit c = (48 ≤ c) × (c ≤ 57)

digits-IsDigit : (fuel n : ℕ) → All IsDigit (digits fuel n)
unfolding digits
digits-IsDigit zero n = tt
digits-IsDigit (suc fuel) n = elim (Bool-cases (ltb n 10)) [
  | inl one ↦ rw one ((omega arith, omega arith), tt)
  | inr more ↦ rw more (
      All-append IsDigit (digits fuel (n / 10)) _ (digits-IsDigit fuel (n / 10))
        ((omega arith, omega arith), tt))
]

pub show_u32-IsDigit : (n : ℕ) → All IsDigit (show_u32 n)
unfolding show_u32
show_u32-IsDigit n = digits-IsDigit 10 n

digits-cons : (fuel n : ℕ) → (c : ℕ) × (cs : List ℕ) × (digits (suc fuel) n ≡ c ∷ cs)
digits-cons fuel n = elim (Bool-cases (ltb n 10)) [
  | inl one ↦ (48 + n % 10, [], rw (digits-step fuel n, one) refl)
  | inr more ↦ elim (List-cases (digits fuel (n / 10))) [
    | inl none_left ↦ (48 + n % 10, [], rw (digits-step fuel n, more, none_left) refl)
    | inr (c, cs, e) ↦ (c, cs ++ (48 + n % 10) ∷ [], rw (digits-step fuel n, more, e) refl)
  ]
]

parse_u32-digit : (c : ℕ) (cs : List ℕ) → IsDigit c → parse_u32 (c ∷ cs) ≡ parse_from 0 (c ∷ cs)
unfolding parse_u32
parse_u32-digit c [] h = refl
parse_u32-digit c (d ∷ cs) h = ground arith

-- What is written is read back.
pub parse_u32-show : (n : ℕ) → n < u32_bound → parse_u32 (show_u32 n) ≡ some n
unfolding show_u32
parse_u32-show n small =
    let (c, cs, e) = digits-cons 9 n in
    let all : All IsDigit (c ∷ cs) = subst (All IsDigit) e (digits-IsDigit 10 n) in
    let read = parse_from-digits 9 n (omega arith) small in
    rw e (parse_u32-digit c cs all.0 ∙ rw (sym e) read)
