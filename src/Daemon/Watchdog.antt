-- ===== src/Daemon/Watchdog.antt =====
-- The drain watchdog of crates/app/src/swarm_node.rs.
use mathlib.Core.Option
use intelnav.Base.{ℕ, ◌≡◌, refl, ◌≢◌, inl, inr, some, [], ◌∷◌, arith, List-cases}
use intelnav.Control.{
  draining, stopped, SliceKey, SliceEntry, slice_key_eq, Slices, ControlState, expired_draining,
  drain_idle, drain_entries, force_stop_all_draining, stop_entries,
}
use intelnav.Control.Entries.{entry_of, entry-force_stop}
use intelnav.Daemon.{Disk, disable_all, persist_drained_slices, grace, watchdog_tick}

-- A force-stop leaves nothing for the sweep to report.
sweep-after-force : (m : Slices) → drain_entries (stop_entries m).0 ≡ ((stop_entries m).0, [])
unfolding drain_entries stop_entries
sweep-after-force [] = refl
sweep-after-force ((k, e) ∷ m) = ground (arith, sweep-after-force m)

drain-after-force :
    (s : ControlState)
    → drain_idle (force_stop_all_draining s).0 ≡ ((force_stop_all_draining s).0, [])
unfolding drain_idle force_stop_all_draining
drain-after-force s = ground (arith, sweep-after-force s.slices)

-- If some drain has outlived its grace, the tick force-stops every draining slice, also one whose
-- grace has just begun; and it records none of them as left, for the sweep that follows finds no
-- draining slice. If none has, the tick changes nothing.
pub watchdog_forces_all :
    (s : ControlState) (disk : Disk) (now : ℕ)
    → (expired_draining s grace now ≡ [] → watchdog_tick s disk now ≡ (s, disk))
      × (expired_draining s grace now ≢ []
          → (watchdog_tick s disk now ≡ ((force_stop_all_draining s).0, disk))
            × ((j : SliceKey) (e : SliceEntry)
                → entry_of s j ≡ some e
                → e.state ≡ draining
                → Option.map (λ d. d.state) (entry_of (watchdog_tick s disk now).0 j)
                  ≡ some stopped))
unfolding watchdog_tick persist_drained_slices disable_all
watchdog_forces_all s disk now = elim (List-cases (expired_draining s grace now)) [
  | inl none_left ↦ (λ _. rw (none_left, watchdog_tick), λ some_left. absurd (some_left none_left))
  | inr (k, ks, late) ↦ (
    λ none_left. cc,
    λ _. (
      ground (arith, drain-after-force s),
      λ j e found st. ground (arith, drain-after-force s, entry-force_stop s j),
    ),
  )
]
