-- ===== src/Control/Entries.antt =====
-- What each method of crates/app/src/control.rs does to the entry of every slice.
use mathlib.Core.Option
use intelnav.Base.{
  ◌⊎◌, Bool-cases, ℕ, ◌≡◌, refl, false, Option, none, some, [], ◌∷◌, arith, if◌then◌else◌, ◌+◌, ◌-◌,
  min, String, Option-cases, inl, inr,
}
use intelnav.Base.Table.{find, put, contains, map_values, find-put, find-map_values, Unique}
use intelnav.Control.{
  announcing, draining, stopped, SliceKey, SliceEntry, Slices, ControlState, key_eq, key_eq_iff,
  slice_key_eq, is_status, is_idle, one_less, fresh_entry, u32_mod, upsert_announcing, begin_drain,
  accept_chain, release_chain, drain_entries, drain_idle, stop_entries, force_stop_all_draining,
}

abbrev pub entry_of : ControlState → SliceKey → Option SliceEntry
entry_of s k = find k s.slices

abbrev pub join_entry : String → Option SliceEntry → SliceEntry
join_entry name none = fresh_entry name
join_entry name (some e) = record e { state = announcing; display_name = name }

pub entry-upsert :
    (s : ControlState) (k j : SliceKey) (name : String)
    → entry_of (upsert_announcing s k name) j
      ≡ (if key_eq k j then some (join_entry name (entry_of s k)) else entry_of s j)
unfolding upsert_announcing
entry-upsert s k j name = elim (Option-cases (entry_of s k)) [
  | inl missing ↦ ground (arith, find-put k j (fresh_entry name) s.slices)
  | inr (e, found) ↦
      ground (arith, find-put k j (record e { state = announcing; display_name = name }) s.slices)
]

abbrev pub drain_entry : ℕ → SliceEntry → SliceEntry
drain_entry now e =
    if is_status e.state announcing
    then record e { state = draining; draining_since = some now }
    else e

pub entry-begin_drain :
    (s : ControlState) (k j : SliceKey) (now : ℕ)
    → entry_of (begin_drain s k now).0 j
      ≡ (if key_eq k j then Option.map (drain_entry now) (entry_of s k) else entry_of s j)
unfolding begin_drain
entry-begin_drain s k j now = elim (Option-cases (entry_of s k)) [
  | inl missing ↦ ground (arith, key_eq_iff k j)
  | inr (e, found) ↦ ground (
    arith,
    key_eq_iff k j,
    find-put k j (record e { state = draining; draining_since = some now }) s.slices,
  )
]

abbrev pub add_chain : SliceEntry → SliceEntry
add_chain e = record e { active_chains = min (e.active_chains + 1) (u32_mod - 1) }

-- A chain is admitted to an announcing slice only, and is counted there.
pub accept-cases :
    (s : ControlState) (k : SliceKey)
    → (accept_chain s k ≡ none)
      ⊎ ((e : SliceEntry) × (t : ControlState) × (entry_of s k ≡ some e)
          × (e.state ≡ announcing)
          × (accept_chain s k ≡ some (t, record { key = k; released = false }))
          × ((j : SliceKey)
              → entry_of t j ≡ (if key_eq k j then some (add_chain e) else entry_of s j)))
unfolding accept_chain
accept-cases s k = elim (Option-cases (entry_of s k)) [
  | inl missing ↦ inl (rw (missing, accept_chain))
  | inr (e, found) ↦ elim (Bool-cases (is_status e.state announcing)) [
    | inr closed ↦ inl (ground arith)
    | inl open_ ↦ inr (
      e,
      record s { slices = put k (add_chain e) s.slices },
      found,
      ground arith,
      ground arith,
      λ j. find-put k j (add_chain e) s.slices,
    )
  ]
]

pub entry-release :
    (s : ControlState) (k j : SliceKey)
    → entry_of (release_chain s k).0 j
      ≡ (if key_eq k j then Option.map one_less (entry_of s k) else entry_of s j)
unfolding release_chain
entry-release s k j = elim (Option-cases (entry_of s k)) [
  | inl missing ↦ ground (arith, key_eq_iff k j)
  | inr (e, found) ↦ ground (arith, find-put k j (one_less e) s.slices)
]

abbrev pub settle : SliceEntry → SliceEntry
settle e = if is_idle e then record e { state = stopped } else e

drain_entries-map : (m : Slices) → (drain_entries m).0 ≡ map_values settle m
unfolding drain_entries map_values
drain_entries-map [] = refl
drain_entries-map ((k, e) ∷ m) = ground (arith, drain_entries-map m)

pub entry-drain_idle :
    (s : ControlState) (j : SliceKey)
    → entry_of (drain_idle s).0 j ≡ Option.map settle (entry_of s j)
unfolding drain_idle
entry-drain_idle s j = rw (drain_entries-map s.slices) (find-map_values settle j s.slices)

abbrev pub force_entry : SliceEntry → SliceEntry
force_entry e =
    if is_status e.state draining then record e { state = stopped; active_chains = 0 } else e

stop_entries-map : (m : Slices) → (stop_entries m).0 ≡ map_values force_entry m
unfolding stop_entries map_values
stop_entries-map [] = refl
stop_entries-map ((k, e) ∷ m) = ground (arith, stop_entries-map m)

pub entry-force_stop :
    (s : ControlState) (j : SliceKey)
    → entry_of (force_stop_all_draining s).0 j ≡ Option.map force_entry (entry_of s j)
unfolding force_stop_all_draining
entry-force_stop s j = rw (stop_entries-map s.slices) (find-map_values force_entry j s.slices)

-- The keys that `drain_idle` reports are those of the idle draining slices.
contains-drain_entries :
    (j : SliceKey) (m : Slices)
    → Unique m
    → contains j (drain_entries m).1 ≡ elim (find j m) [ none ↦ false | some e ↦ is_idle e ]
unfolding drain_entries contains find
contains-drain_entries j [] u = refl
contains-drain_entries j ((k, e) ∷ m) u =
    ground (arith, key_eq_iff k j, contains-drain_entries j m u.1)

pub contains-drain_idle :
    (s : ControlState) (j : SliceKey)
    → Unique s.slices
    → contains j (drain_idle s).1 ≡ elim (entry_of s j) [ none ↦ false | some e ↦ is_idle e ]
unfolding drain_idle
contains-drain_idle s j u = contains-drain_entries j s.slices u
