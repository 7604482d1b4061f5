-- ===== src/Store/Routing.antt =====
-- How `chunk_gguf` of crates/model-store/src/chunker.rs routes the tensors of a file into bundles.
use intelnav.Base.{
  ℕ, suc, ◌+◌, ◌≤◌, ◌<◌, ◌≡◌, refl, sym, ap, ◌∙◌, inl, inr, true, false, some, List, [], ◌∷◌, ◌++◌,
  append_assoc, arith, Bool-cases, length, get_elem?, All, length-append,
}
use mathlib.Core.Path.{subst}
use intelnav.Base.Decimal.{All-append}
use intelnav.Base.Table.{pair_eq, pair_eq_iff}
use intelnav.Gguf.Header.{TensorIndexEntry}
use intelnav.Store.Bundle.{classify_tensor}
use intelnav.Store.Chunker.{Groups, key_of, key_less, push_group, above, route}

-- Numbers in strictly rising order, from `lo` on and below `hi`.
abbrev pub Rising : ℕ → ℕ → List ℕ → Type 0
Rising lo hi [] = Unit
Rising lo hi (i ∷ is) = (lo ≤ i) × (i < hi) × Rising (suc i) hi is

Rising-snoc :
    (lo hi : ℕ) (is : List ℕ) → lo ≤ hi → Rising lo hi is → Rising lo (suc hi) (is ++ hi ∷ [])
Rising-snoc lo hi [] le h = (le, omega arith, tt)
Rising-snoc lo hi (i ∷ is) le (a, b, rest) =
    (a, omega arith, Rising-snoc (suc i) hi is (omega arith) rest)

Rising-grows : (lo hi : ℕ) (is : List ℕ) → Rising lo hi is → Rising lo (suc hi) is
Rising-grows lo hi [] h = tt
Rising-grows lo hi (i ∷ is) (a, b, rest) = (a, omega arith, Rising-grows (suc i) hi is rest)

abbrev pub total : Groups → ℕ
total [] = 0
total ((k, is) ∷ gs) = length is + total gs

-- The keys in strictly rising order.
abbrev pub Ordered : Groups → Type 0
Ordered [] = Unit
Ordered ((k, is) ∷ gs) = All (λ g. key_less k g.0 ≡ true) gs × Ordered gs

-- The tensor of an index belongs to a key.
abbrev pub BelongsTo : List TensorIndexEntry → ℕ × ℕ → ℕ → Type 0
BelongsTo ts k i =
    (t : TensorIndexEntry) × (get_elem? ts i ≡ some t) × (key_of (classify_tensor t.name) ≡ k)

-- Of the first `n` tensors, the indices of each group in rising order, each in the group of its kind.
abbrev pub Routed : List TensorIndexEntry → ℕ → (ℕ × ℕ) × List ℕ → Type 0
Routed ts n g = Rising 0 n g.1 × All (BelongsTo ts g.0) g.1

total-push_group : (k : ℕ × ℕ) (i : ℕ) (gs : Groups) → total (push_group k i gs) ≡ suc (total gs)
unfolding push_group
total-push_group k i [] = refl
total-push_group k i ((j, is) ∷ gs) =
    ground (arith, length-append is (i ∷ []), total-push_group k i gs)

key_less_trans : (a b c : ℕ × ℕ) → key_less a b ≡ true → key_less b c ≡ true → key_less a c ≡ true
key_less_trans (a, x) (b, y) (c, z) h g = ground arith

key_less_total : (a b : ℕ × ℕ) → pair_eq a b ≡ false → key_less a b ≡ false → key_less b a ≡ true
key_less_total (a, x) (b, y) h g = ground arith

All-below :
    (k j : ℕ × ℕ) (gs : Groups)
    → key_less k j ≡ true
    → All (λ g. key_less j g.0 ≡ true) gs
    → All (λ g. key_less k g.0 ≡ true) gs
All-below k j [] less h = tt
All-below k j ((l, is) ∷ gs) less h = (key_less_trans k j l less h.0, All-below k j gs less h.1)

All-push_group :
    (l k : ℕ × ℕ) (i : ℕ) (gs : Groups)
    → key_less l k ≡ true
    → All (λ g. key_less l g.0 ≡ true) gs
    → All (λ g. key_less l g.0 ≡ true) (push_group k i gs)
unfolding push_group
All-push_group l k i [] less h = (less, tt)
All-push_group l k i ((j, is) ∷ gs) less h = elim (Bool-cases (pair_eq k j)) [
  | inl same ↦ rw same h
  | inr other ↦ elim (Bool-cases (key_less k j)) [
    | inl before ↦ rw other (rw before (less, h))
    | inr after ↦ rw other (rw after (h.0, All-push_group l k i gs less h.1))
  ]
]

push_group-Ordered : (k : ℕ × ℕ) (i : ℕ) (gs : Groups) → Ordered gs → Ordered (push_group k i gs)
unfolding push_group
push_group-Ordered k i [] h = (tt, tt)
push_group-Ordered k i ((j, is) ∷ gs) h = elim (Bool-cases (pair_eq k j)) [
  | inl same ↦ rw same h
  | inr other ↦ elim (Bool-cases (key_less k j)) [
    | inl before ↦ rw other (rw before ((before, All-below k j gs before h.0), h))
    | inr after ↦
        let less = key_less_total k j other after in
        rw other (rw after (All-push_group j k i gs less h.0, push_group-Ordered k i gs h.1))
  ]
]

Routed-grows :
    (ts : List TensorIndexEntry) (n : ℕ) (gs : Groups)
    → All (Routed ts n) gs
    → All (Routed ts (suc n)) gs
Routed-grows ts n [] h = tt
Routed-grows ts n ((k, is) ∷ gs) h = ((Rising-grows 0 n is h.0.0, h.0.1), Routed-grows ts n gs h.1)

push_group-Routed :
    (ts : List TensorIndexEntry) (n : ℕ) (k : ℕ × ℕ) (gs : Groups)
    → BelongsTo ts k n
    → All (Routed ts n) gs
    → All (Routed ts (suc n)) (push_group k n gs)
unfolding push_group
push_group-Routed ts n k [] here h = (((omega arith, omega arith, tt), (here, tt)), tt)
push_group-Routed ts n k ((j, is) ∷ gs) here h = elim (Bool-cases (pair_eq k j)) [
  | inl same ↦
      let equal = (pair_eq_iff k j).0 same in
      rw same (
        (
          Rising-snoc 0 n is (omega arith) h.0.0,
          All-append (BelongsTo ts j) is (n ∷ []) h.0.1
              (subst (λ l. BelongsTo ts l n) equal here, tt),
        ),
        Routed-grows ts n gs h.1,
      )
  | inr other ↦ elim (Bool-cases (key_less k j)) [
    | inl before ↦ rw other (
        rw before
          (((omega arith, omega arith, tt), (here, tt)), Routed-grows ts n ((j, is) ∷ gs) h))
    | inr after ↦
        rw other
          (rw after ((Rising-grows 0 n is h.0.0, h.0.1), push_group-Routed ts n k gs here h.1))
  ]
]

abbrev pub Partition : List TensorIndexEntry → ℕ → Groups → Type 0
Partition ts n gs = Ordered gs × All (Routed ts n) gs × (total gs ≡ n)

get_elem-append :
    (pre ts : List TensorIndexEntry) (t : TensorIndexEntry)
    → get_elem? (pre ++ t ∷ ts) (length pre) ≡ some t
get_elem-append [] ts t = refl
get_elem-append (p ∷ pre) ts t = get_elem-append pre ts t

route_from :
    (pre ts : List TensorIndexEntry) (n : ℕ) (gs : Groups) (next_block : ℕ)
    → n ≡ length pre
    → Partition (pre ++ ts) n gs
    → Partition (pre ++ ts) (n + length ts) (route ts n gs next_block).0
unfolding route
route_from pre [] n gs next_block at h = subst (λ m. Partition (pre ++ []) m gs) (omega arith) h
route_from pre (t ∷ ts) n gs next_block at (ordered, routed, count) =
    let kind = classify_tensor t.name in
    let here : get_elem? (pre ++ t ∷ ts) n ≡ some t =
      ap (get_elem? (pre ++ t ∷ ts)) at ∙ get_elem-append pre ts t in
    let pushed : Partition (pre ++ t ∷ ts) (n + 1) (push_group (key_of kind) n gs) =
      subst (λ m. Partition (pre ++ t ∷ ts) m (push_group (key_of kind) n gs)) (omega arith)
        (
          push_group-Ordered (key_of kind) n gs ordered,
          push_group-Routed (pre ++ t ∷ ts) n (key_of kind) gs (t, here, refl) routed,
          total-push_group (key_of kind) n gs ∙ ap suc count,
        ) in
    let whole : pre ++ t ∷ [] ++ ts ≡ pre ++ t ∷ ts = append_assoc pre (t ∷ []) ts in
    let rest =
      route_from (pre ++ t ∷ []) ts (n + 1) (push_group (key_of kind) n gs) (above kind next_block)
        (omega (arith, at, length-append pre (t ∷ [])))
        (subst (λ xs. Partition xs (n + 1) (push_group (key_of kind) n gs)) (sym whole) pushed) in
    subst
      (λ m.
        Partition (pre ++ t ∷ ts) m
          (route ts (n + 1) (push_group (key_of kind) n gs) (above kind next_block)).0)
      (omega arith)
      (subst
        (λ xs.
          Partition xs (n + 1 + length ts)
            (route ts (n + 1) (push_group (key_of kind) n gs) (above kind next_block)).0)
        whole rest)

-- The bundles of a file partition its tensors: their keys rise strictly, the embedding before the
-- blocks in order, and these before the head; each bundle has the indices of tensors of its own
-- kind, in the order of the index and none twice; and together there are as many as tensors.
pub route-partitions : (ts : List TensorIndexEntry) → Partition ts (length ts) (route ts 0 [] 0).0
route-partitions ts =
    subst (λ m. Partition ts m (route ts 0 [] 0).0) {x = 0 + length ts} (omega arith)
      (route_from [] ts 0 [] 0 refl (tt, tt, refl))
