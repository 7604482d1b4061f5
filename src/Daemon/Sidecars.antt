-- ===== src/Daemon/Sidecars.antt =====
-- The set of left ranges (crates/app/src/contribute.rs), and what a scan of the sidecars lists.
use mathlib.Core.Path.{subst}
use intelnav.Base.{
  ℕ, String, ◌≡◌, refl, sym, inl, inr, Bool, true, false, not, ◌&&◌, Option, none, some, List, [],
  ◌∷◌, ◌++◌, arith, if◌then◌else◌, Bool-cases, Option-cases,
}
use intelnav.Base.Table.{
  Unique, put-Unique, contains, find, put, find-put, string_eq, range_eq, pair_eq, pair_eq_iff,
}
use intelnav.Control.{SliceKey, slice_key_eq, key_eq}
use text.Mathlib.TextEquality.{eq_iff}
use intelnav.Daemon.{
  KeptRanges, DisabledRanges, is_disabled, add, remove, ShardDir, Disk, retain_enabled, keep_some,
  scan_kept_ranges, disable, disable_all,
}

contains-append :
    (r : ℕ × ℕ) (xs ys : List (ℕ × ℕ))
    → contains r (xs ++ ys) ≡ (if contains r xs then true else contains r ys)
unfolding contains
contains-append r [] ys = refl
contains-append r (x ∷ xs) ys = ground (arith, contains-append r xs ys)

-- Adding a range disables that range and no other.
is_disabled-add :
    (d : DisabledRanges) (a b s e : ℕ)
    → is_disabled (add d a b) s e ≡ (if pair_eq (a, b) (s, e) then true else is_disabled d s e)
unfolding is_disabled add contains
is_disabled-add d a b s e =
    ground (arith, contains-append (s, e) d ((a, b) ∷ []), pair_eq_iff (a, b) (s, e))

-- Removing a range enables that range, however often it was listed, and no other.
is_disabled-remove :
    (d : DisabledRanges) (a b s e : ℕ)
    → is_disabled (remove d a b) s e ≡ (if pair_eq (a, b) (s, e) then false else is_disabled d s e)
unfolding is_disabled remove contains
is_disabled-remove [] a b s e = ground arith
is_disabled-remove ((x, y) ∷ d) a b s e = ground (arith, is_disabled-remove d a b s e)

pub contains-retain :
    (d : DisabledRanges) (rs : List (ℕ × ℕ)) (s e : ℕ)
    → contains (s, e) (retain_enabled d rs)
      ≡ (if is_disabled d s e then false else contains (s, e) rs)
unfolding contains retain_enabled is_disabled
contains-retain d [] s e = ground arith
contains-retain d ((x, y) ∷ rs) s e =
    ground (arith, contains-retain d rs s e, pair_eq_iff (x, y) (s, e))

-- Whether a slice stands in a list of sidecars.
unfoldable pub listed : SliceKey → List KeptRanges → Bool
listed key [] = false
listed key (k ∷ ks) =
    if string_eq.beq k.model_cid key.0 && contains (key.1, key.2) k.kept
    then true
    else listed key ks

-- The directory that a slice's cid names lists the slice, and has not disabled it.
abbrev pub offers : SliceKey → Option ShardDir → Bool
offers key none = false
offers key (some d) = elim d.sidecar [
  | none ↦ false
  | some k ↦
      string_eq.beq k.model_cid key.0
      && (contains (key.1, key.2) k.kept && not (is_disabled d.disabled key.1 key.2))
]

listed-keep_some :
    (key : SliceKey) (k : KeptRanges) (rs : List (ℕ × ℕ)) (out : List KeptRanges)
    → listed key (keep_some k rs out) ≡ (
        if string_eq.beq k.model_cid key.0 && contains (key.1, key.2) rs
        then true
        else listed key out)
unfolding listed contains
listed-keep_some key k [] out = ground arith
listed-keep_some key k (r ∷ rs) out = refl

-- A scan lists every slice that its directory offers.
pub scan-lists :
    (key : SliceKey) (disk : Disk)
    → offers key (find key.0 disk) ≡ true
    → listed key (scan_kept_ranges disk) ≡ true
unfolding scan_kept_ranges find listed
scan-lists key [] h = h
scan-lists key ((name, d) ∷ disk) h = elim (Option-cases d.sidecar) [
  | inl missing ↦ ground (arith, scan-lists key disk)
  | inr (k, found) ↦ ground (
    arith,
    scan-lists key disk,
    listed-keep_some key k (retain_enabled d.disabled k.kept) (scan_kept_ranges disk),
    contains-retain d.disabled k.kept key.1 key.2,
  )
]

abbrev pub Filed : String → Option KeptRanges → Type 0
Filed name none = Unit
Filed name (some k) = k.model_cid ≡ name

-- Each directory is named after the model of its sidecar.
abbrev pub IsFiled : Disk → Type 0
IsFiled [] = Unit
IsFiled ((name, d) ∷ disk) = Filed name d.sidecar × IsFiled disk

unlisted :
    (key : SliceKey) (disk : Disk)
    → IsFiled disk
    → find key.0 disk ≡ none
    → listed key (scan_kept_ranges disk) ≡ false
unfolding scan_kept_ranges find listed
unlisted key [] filed_ e = refl
unlisted key ((name, d) ∷ disk) filed_ e = elim (Option-cases d.sidecar) [
  | inl missing ↦ ground (arith, unlisted key disk)
  | inr (k, found) ↦ ground (
    arith,
    unlisted key disk,
    eq_iff k.model_cid key.0,
    eq_iff name key.0,
    listed-keep_some key k (retain_enabled d.disabled k.kept) (scan_kept_ranges disk),
  )
]

-- On a disk whose sidecars name their own directories, each named once, a scan lists exactly what the slice's own directory offers.
pub scan-lists_iff :
    (key : SliceKey) (disk : Disk)
    → IsFiled disk
    → Unique disk
    → listed key (scan_kept_ranges disk) ≡ offers key (find key.0 disk)
unfolding scan_kept_ranges find listed
scan-lists_iff key [] filed_ u = refl
scan-lists_iff key ((name, d) ∷ disk) filed_ u = elim (Option-cases d.sidecar) [
  | inl missing ↦ ground (arith, scan-lists_iff key disk, unlisted key disk, eq_iff name key.0)
  | inr (k, found) ↦ ground (
    arith,
    scan-lists_iff key disk,
    unlisted key disk,
    eq_iff k.model_cid key.0,
    eq_iff name key.0,
    listed-keep_some key k (retain_enabled d.disabled k.kept) (scan_kept_ranges disk),
    contains-retain d.disabled k.kept key.1 key.2,
  )
]

-- Recording one slice withdraws that slice's offer and no other.
offers-disable :
    (k key : SliceKey) (disk : Disk)
    → offers key (find key.0 (disable k disk))
      ≡ (if key_eq k key then false else offers key (find key.0 disk))
unfolding disable
offers-disable (cid, a, b) key disk = elim (Option-cases (find cid disk)) [
  | inl missing ↦ ground (arith, eq_iff cid key.0)
  | inr (d, found) ↦ ground (
    arith,
    eq_iff cid key.0,
    find-put cid key.0 (record d { disabled = add d.disabled a b }) disk,
    is_disabled-add d.disabled a b key.1 key.2,
  )
]

pub offers-disable_all :
    (ks : List SliceKey) (key : SliceKey) (disk : Disk)
    → offers key (find key.0 (disable_all ks disk))
      ≡ (if contains key ks then false else offers key (find key.0 disk))
unfolding disable_all contains
offers-disable_all [] key disk = refl
offers-disable_all (k ∷ ks) key disk =
    ground (arith, offers-disable_all ks key (disable k disk), offers-disable k key disk)

find-Filed :
    (name : String) (disk : Disk) (d : ShardDir)
    → IsFiled disk
    → find name disk ≡ some d
    → Filed name d.sidecar
unfolding find
find-Filed name [] d h e = cc
find-Filed name ((other, c) ∷ disk) d h e = elim (Bool-cases (string_eq.beq other name)) [
  | inl same ↦
      subst (λ n. Filed n d.sidecar) ((eq_iff other name).0 same)
        (subst (λ (x : ShardDir). Filed other x.sidecar) {x = c} {y = d} (ground arith) h.0)
  | inr differ ↦ find-Filed name disk d h.1 (ground arith)
]

put-IsFiled :
    (name : String) (d : ShardDir) (disk : Disk)
    → IsFiled disk
    → Filed name d.sidecar
    → IsFiled (put name d disk)
unfolding put
put-IsFiled name d [] h f = (f, tt)
put-IsFiled name d ((other, c) ∷ disk) h f = elim (Bool-cases (string_eq.beq other name)) [
  | inl same ↦ rw same (subst (λ n. Filed n d.sidecar) (sym ((eq_iff other name).0 same)) f, h.1)
  | inr differ ↦ rw differ (h.0, put-IsFiled name d disk h.1 f)
]

disable-keeps :
    (k : SliceKey) (disk : Disk)
    → IsFiled disk
    → Unique disk
    → IsFiled (disable k disk) × Unique (disable k disk)
unfolding disable
disable-keeps (cid, a, b) disk h u = elim (Option-cases (find cid disk)) [
  | inl missing ↦ rw (missing, disable) (h, u)
  | inr (d, found) ↦
      rw (found, disable)
        (
          put-IsFiled cid (record d { disabled = add d.disabled a b }) disk h
              (find-Filed cid disk d h found),
          put-Unique cid (record d { disabled = add d.disabled a b }) disk u,
        )
]

pub disable_all-keeps :
    (ks : List SliceKey) (disk : Disk)
    → IsFiled disk
    → Unique disk
    → IsFiled (disable_all ks disk) × Unique (disable_all ks disk)
unfolding disable_all
disable_all-keeps [] disk h u = (h, u)
disable_all-keeps (k ∷ ks) disk h u =
    let next = disable-keeps k disk h u in disable_all-keeps ks (disable k disk) next.0 next.1
