-- ===== src/Daemon/Announce.antt =====
-- The announce loop of crates/app/src/swarm_node.rs.
use intelnav.Base.{
  ℕ, String, ◌≡◌, refl, Bool, true, false, not, ◌&&◌, Option, none, some, List, [], ◌∷◌, ◌++◌,
  arith, if◌then◌else◌,
}
use intelnav.Base.Table.{Unique, contains, find, string_eq, range_eq}
use intelnav.Control.{
  SliceStatus, draining, stopped, SliceKey, SliceEntry, slice_key_eq, key_eq_iff, ControlState,
  is_status, is_idle, is_announcing, drain_idle,
}
use intelnav.Control.Entries.{entry_of, entry-upsert, entry-drain_idle, contains-drain_idle}
use text.Mathlib.TextEquality.{eq_iff}
use intelnav.Daemon.{
  KeptRanges, Disk, scan_kept_ranges, state_status, announce_range, announce_ranges, announce_all,
  announce_tick, persist_drained_slices, disable_all,
}
use intelnav.Daemon.Sidecars.{
  listed, offers, IsFiled, scan-lists_iff, offers-disable_all, disable_all-keeps,
}

-- The announce loop never takes a slice out of the announcing state.
range-keeps :
    (s : ControlState) (k j : SliceKey) (name : String)
    → is_announcing s j ≡ true
    → is_announcing (announce_range s k name).0 j ≡ true
unfolding announce_range is_announcing state_status
range-keeps s k j name h = ground (arith, entry-upsert s k j name, key_eq_iff k j)

ranges-keep :
    (s : ControlState) (cid name : String) (rs : List (ℕ × ℕ)) (j : SliceKey)
    → is_announcing s j ≡ true
    → is_announcing (announce_ranges s cid name rs).0 j ≡ true
unfolding announce_ranges
ranges-keep s cid name [] j h = h
ranges-keep s cid name ((a, b) ∷ rs) j h =
    ranges-keep (announce_range s (cid, a, b) name).0 cid name rs j
      (range-keeps s (cid, a, b) j name h)

all-keep :
    (s : ControlState) (ks : List KeptRanges) (j : SliceKey)
    → is_announcing s j ≡ true
    → is_announcing (announce_all s ks).0 j ≡ true
unfolding announce_all
all-keep s [] j h = h
all-keep s (k ∷ ks) j h =
    all-keep (announce_ranges s k.model_cid k.display_name k.kept).0 ks j
      (ranges-keep s k.model_cid k.display_name k.kept j h)

range-announces :
    (s : ControlState) (k : SliceKey) (name : String)
    → (announce_range s k name).1 ≡ true
    → is_announcing (announce_range s k name).0 k ≡ true
unfolding announce_range is_announcing state_status
range-announces s k name h = ground (arith, entry-upsert s k k name, key_eq_iff k k)

abbrev pub is_draining : Option SliceStatus → Bool
is_draining none = false
is_draining (some st) = is_status st draining

range-draining :
    (s : ControlState) (k j : SliceKey) (name : String)
    → (is_draining (state_status (announce_range s k name).0 j) ≡ is_draining (state_status s j))
      × ((announce_range s k name).1 ≡ not (is_draining (state_status s k)))
unfolding announce_range is_announcing state_status
range-draining s k j name = (ground (arith, entry-upsert s k j name, key_eq_iff k j), ground arith)

contains-append :
    (k : SliceKey) (xs ys : List SliceKey)
    → contains k (xs ++ ys) ≡ (if contains k xs then true else contains k ys)
unfolding contains
contains-append k [] ys = refl
contains-append k (x ∷ xs) ys = ground (arith, contains-append k xs ys)

-- A range of a list that is not draining is published, and announcing after; what is published is of
-- the list.
ranges-publish :
    (s : ControlState) (cid name : String) (rs : List (ℕ × ℕ)) (j : SliceKey)
    → (is_draining (state_status (announce_ranges s cid name rs).0 j)
        ≡ is_draining (state_status s j))
      × (contains j (announce_ranges s cid name rs).1 ≡ (
          string_eq.beq cid j.0
          && (contains (j.1, j.2) rs && not (is_draining (state_status s j)))))
unfolding announce_ranges announce_range contains state_status
ranges-publish s cid name [] j = ground arith
ranges-publish s cid name ((a, b) ∷ rs) j = ground (
  arith,
  ranges-publish (announce_range s (cid, a, b) name).0 cid name rs j,
  range-draining s (cid, a, b) j name,
  key_eq_iff (cid, a, b) j,
  eq_iff cid j.0,
)

ranges-announce :
    (s : ControlState) (cid name : String) (rs : List (ℕ × ℕ)) (j : SliceKey)
    → contains j (announce_ranges s cid name rs).1 ≡ true
    → is_announcing (announce_ranges s cid name rs).0 j ≡ true
unfolding announce_ranges contains
ranges-announce s cid name [] j h = cc
ranges-announce s cid name ((a, b) ∷ rs) j h = ground (
  arith,
  key_eq_iff (cid, a, b) j,
  range-announces s (cid, a, b) name,
  ranges-announce (announce_range s (cid, a, b) name).0 cid name rs j,
  ranges-keep (announce_range s (cid, a, b) name).0 cid name rs j,
)

all-announce :
    (s : ControlState) (ks : List KeptRanges) (j : SliceKey)
    → contains j (announce_all s ks).1 ≡ true
    → is_announcing (announce_all s ks).0 j ≡ true
unfolding announce_all contains
all-announce s [] j h = cc
all-announce s (k ∷ ks) j h =
    let s' = (announce_ranges s k.model_cid k.display_name k.kept).0 in
    ground (
      arith,
      contains-append j (announce_ranges s k.model_cid k.display_name k.kept).1
          (announce_all s' ks).1,
      ranges-announce s k.model_cid k.display_name k.kept j,
      all-announce s' ks j,
      all-keep s' ks j,
    )

-- What is published is what is listed, but for the draining slices.
all-publish :
    (s : ControlState) (ks : List KeptRanges) (j : SliceKey)
    → contains j (announce_all s ks).1 ≡ (listed j ks && not (is_draining (state_status s j)))
unfolding announce_all contains listed
all-publish s [] j = refl
all-publish s (k ∷ ks) j =
    let s' = (announce_ranges s k.model_cid k.display_name k.kept).0 in
    ground (
      arith,
      contains-append j (announce_ranges s k.model_cid k.display_name k.kept).1
          (announce_all s' ks).1,
      ranges-publish s k.model_cid k.display_name k.kept j,
      all-publish s' ks j,
    )

-- On a table with each slice once: `persist_drained_slices` withdraws the offer of a slice's directory
-- if that slice is draining with no chain attached, and of no other slice; such a slice is stopped
-- then, and the state of every other slice stays. A slice that was stopped before keeps its offer.
pub persist_drained_slices-withdraws :
    (s : ControlState) (disk : Disk) (j : SliceKey)
    → Unique s.slices
    → let (s', disk') = persist_drained_slices s disk in
      let idle : Bool = elim (entry_of s j) [ none ↦ false | some e ↦ is_idle e ] in
      (offers j (find j.0 disk') ≡ (offers j (find j.0 disk) && not idle))
      × (state_status s' j ≡ (if idle then some stopped else state_status s j))
unfolding persist_drained_slices state_status
persist_drained_slices-withdraws s disk j u = (
  ground (arith, offers-disable_all (drain_idle s).1 j disk, contains-drain_idle s j u),
  ground (arith, entry-drain_idle s j),
)

module _ (s : ControlState) (disk : Disk) (filed_ : IsFiled disk) (dirs : Unique disk)
    (u : Unique s.slices) (j : SliceKey) where
  -- On a disk whose sidecars name their own directories, with no two directories of one name and no
  -- two entries of one slice in the table: a tick of the announce loop publishes exactly the slices
  -- whose directory keeps them undisabled and whose state is not draining, and what is published is
  -- announcing after the tick.
  pub announce_exact :
      (contains j (announce_tick s disk).2
        ≡ (offers j (find j.0 disk) && not (is_draining (state_status s j))))
      × (contains j (announce_tick s disk).2 ≡ true
          → is_announcing (announce_tick s disk).0 j ≡ true)
  unfolding announce_tick persist_drained_slices state_status
  announce_exact = (
    ground (
      arith,
      all-publish s' ks j,
      scan-lists_iff j disk' Filed' dirs',
      offers-disable_all (drain_idle s).1 j disk,
      contains-drain_idle s j u,
      entry-drain_idle s j,
    ),
    all-announce s' ks j,
  )
    where
      s' : ControlState
      s' = (drain_idle s).0

      disk' : Disk
      disk' = disable_all (drain_idle s).1 disk

      ks : List KeptRanges
      ks = scan_kept_ranges disk'

      Filed' : IsFiled disk'
      Filed' = (disable_all-keeps (drain_idle s).1 disk filed_ dirs).0

      dirs' : Unique disk'
      dirs' = (disable_all-keeps (drain_idle s).1 disk filed_ dirs).1

  -- On a disk whose sidecars name their own directories, each named once, and with each slice once
  -- in the table: a stopped slice that its directory still offers is published by the next tick,
  -- and is announcing after it.
  pub stopped_comes_back :
      (e : SliceEntry)
      → entry_of s j ≡ some e
      → e.state ≡ stopped
      → offers j (find j.0 disk) ≡ true
      → (contains j (announce_tick s disk).2 ≡ true)
        × (is_announcing (announce_tick s disk).0 j ≡ true)
  unfolding state_status
  stopped_comes_back e found st kept = ground (arith, announce_exact)

  -- On a disk whose sidecars name their own directories, each named once, and with each slice once
  -- in the table: for a draining slice with no chain attached, the next tick withdraws the offer of
  -- its directory and does not publish it.
  idle_leave_persists :
      (e : SliceEntry)
      → entry_of s j ≡ some e
      → is_idle e ≡ true
      → (contains j (announce_tick s disk).2 ≡ false)
        × (offers j (find j.0 (announce_tick s disk).1) ≡ false)
  unfolding state_status announce_tick persist_drained_slices
  idle_leave_persists e found idle = (
    ground (arith, announce_exact),
    ground (arith, offers-disable_all (drain_idle s).1 j disk, contains-drain_idle s j u),
  )
