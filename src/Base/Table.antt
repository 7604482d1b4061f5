-- ===== src/Base/Table.antt =====
-- Keyed maps as association lists: the first entry of a key counts, a new key goes last.
use intelnav.Base.{
  ℕ, String, ◌≡◌, refl, ◌↔◌, Bool, true, false, ◌&&◌, Option, none, some, List, [], ◌∷◌, arith,
  ◌==◌, if◌then◌else◌,
}
use mathlib.Core.Option
use text.Mathlib.Text.{◌==◌ as text_eq}
use text.Mathlib.TextEquality.{eq_iff}

pub record Eq {ℓ} (A : Type ℓ) : Type ℓ where
  pub beq : A → A → Bool
  pub beq_iff : (a b : A) → (beq a b ≡ true) ↔ (a ≡ b)

module _ {ℓ} {K : Type ℓ} ⦃e : Eq K⦄ where
  unfoldable pub contains : K → List K → Bool
  contains k [] = false
  contains k (j ∷ js) = if e.beq j k then true else contains k js

module _ {ℓ κ} {K : Type ℓ} {V : Type κ} ⦃e : Eq K⦄ where
  unfoldable pub find : K → List (K × V) → Option V
  find k [] = none
  find k ((j, v) ∷ m) = if e.beq j k then some v else find k m

  unfoldable pub put : K → V → List (K × V) → List (K × V)
  put k v [] = (k, v) ∷ []
  put k v ((j, w) ∷ m) = if e.beq j k then (j, v) ∷ m else (j, w) ∷ put k v m

  -- Every key has one entry.
  abbrev pub Unique : List (K × V) → Type κ
  Unique [] = Unit
  Unique ((j, v) ∷ m) = (find j m ≡ none) × Unique m

  pub find-put :
      (k j : K) (v : V) (m : List (K × V))
      → find j (put k v m) ≡ (if e.beq k j then some v else find j m)
  unfolding find put
  find-put k j v [] = refl
  find-put k j v ((i, w) ∷ m) =
      ground (arith, e.beq_iff k j, e.beq_iff i k, e.beq_iff i j, find-put k j v m)

  pub put-Unique : (k : K) (v : V) (m : List (K × V)) → Unique m → Unique (put k v m)
  unfolding find put
  put-Unique k v [] u = (refl, tt)
  put-Unique k v ((i, w) ∷ m) u =
      ground (arith, e.beq_iff k i, e.beq_iff i k, find-put k i v m, put-Unique k v m u.1)

module _ {ℓ κ} {K : Type ℓ} {V : Type κ} ⦃e : Eq K⦄ (f : V → V) where
  -- Every value changed in place.
  unfoldable pub map_values : List (K × V) → List (K × V)
  map_values [] = []
  map_values ((j, v) ∷ m) = (j, f v) ∷ map_values m

  pub find-map_values : (k : K) (m : List (K × V)) → find k (map_values m) ≡ Option.map f (find k m)
  unfolding find map_values
  find-map_values k [] = refl
  find-map_values k ((j, v) ∷ m) = ground (arith, find-map_values k m)

  pub map_values-Unique : (m : List (K × V)) → Unique m → Unique (map_values m)
  unfolding find map_values
  map_values-Unique [] u = tt
  map_values-Unique ((j, v) ∷ m) u = ground (arith, find-map_values j m, map_values-Unique m u.1)

instance abbrev pub string_eq : Eq String
string_eq = record { beq = text_eq; beq_iff = eq_iff }

abbrev pub pair_eq : ℕ × ℕ → ℕ × ℕ → Bool
pair_eq a b = a.0 == b.0 && a.1 == b.1

pub pair_eq_iff : (a b : ℕ × ℕ) → (pair_eq a b ≡ true) ↔ (a ≡ b)
pair_eq_iff (a, b) (c, d) = ground arith

instance abbrev pub range_eq : Eq (ℕ × ℕ)
range_eq = record { beq = pair_eq; beq_iff = pair_eq_iff }
