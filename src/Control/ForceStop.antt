-- ===== src/Control/ForceStop.antt =====
-- What the force-stop of crates/app/src/control.rs does to chains that are still attached.
use intelnav.Base.{
  ℕ, ◌<◌, String, ◌≡◌, inl, inr, Bool, true, false, ◌&&◌, Option, none, some, List, [], ◌∷◌, arith,
  ◌==◌,
}
use intelnav.Control.{
  SliceStatus, announcing, draining, stopped, SliceKey, SliceEntry, key_eq_iff, one_less,
  begin_drain, accept_chain, release_chain, is_status, guard_drop, force_stop_all_draining,
}
use intelnav.Control.Entries.{
  entry_of, entry-upsert, entry-begin_drain, accept-cases, entry-release, entry-drain_idle,
  entry-force_stop,
}
use intelnav.Control.Chains.{
  System, joins, leaves, connects, hangs_up, sweeps, forces, attached, detach, step, run,
}

-- A slice that counts one chain, in an announcing state.
abbrev pub one_chain : Option SliceEntry → Bool
one_chain none = false
one_chain (some e) = is_status e.state announcing && e.active_chains == 1

abbrev pub has_status : SliceStatus → Option SliceEntry → Bool
has_status st none = false
has_status st (some e) = is_status e.state st

abbrev fresh : Option SliceEntry → Bool
fresh none = false
fresh (some e) = is_status e.state announcing && e.active_chains == 0

module _ (w : System) (k : SliceKey) where
  forced-fresh :
      (name : String)
      → has_status draining (entry_of w.control k) ≡ true
      → let v = step (step w forces) (joins k name) in
        (fresh (entry_of v.control k) ≡ true) × (v.guards ≡ w.guards)
  unfolding step
  forced-fresh name d = ground (
    arith,
    entry-force_stop w.control k,
    key_eq_iff k k,
    entry-upsert (force_stop_all_draining w.control).0 k k name,
  )

  connects-one :
      fresh (entry_of w.control k) ≡ true
      → let v = step w (connects k) in
        (one_chain (entry_of v.control k) ≡ true) × (v.guards ≡ k ∷ w.guards)
  unfolding step accept_chain
  connects-one f = elim (accept-cases w.control k) [
    | inl refused ↦ absurd (ground arith)
    | inr (e, t, found, open_, taken, after) ↦ rw taken (ground (arith, after k, key_eq_iff k k))
  ]

  stale-strands :
      (gs : List SliceKey) (now : ℕ)
      → one_chain (entry_of w.control k) ≡ true
      → w.guards ≡ k ∷ gs
      → let v = step (step (step w (hangs_up k)) (leaves k now)) sweeps in
        (has_status stopped (entry_of v.control k) ≡ true) × (v.guards ≡ gs)
  unfolding step guard_drop one_less attached detach
  stale-strands gs now one held = rw held (
      ground (
        arith,
        key_eq_iff k k,
        entry-release w.control k k,
        entry-begin_drain (release_chain w.control k).0 k k now,
        entry-drain_idle (begin_drain (release_chain w.control k).0 k now).0 k,
      ))

-- For a draining slice with a chain attached: when a force-stop is followed by a join of the slice,
-- a new chain, the end of one of its chains, a leave and a sweep, the slice is stopped while as
-- many chains are attached to it as before the force-stop.
pub stale_guard_strands_chain :
    (w : System) (k : SliceKey) (name : String) (now : ℕ)
    → has_status draining (entry_of w.control k) ≡ true
    → 0 < attached k w.guards
    → let v =
        run w (forces ∷ joins k name ∷ connects k ∷ hangs_up k ∷ leaves k now ∷ sweeps ∷ []) in
      (has_status stopped (entry_of v.control k) ≡ true)
      × (attached k v.guards ≡ attached k w.guards)
unfolding run
stale_guard_strands_chain w k name now d held = ground (
  arith,
  forced-fresh w k name,
  connects-one (step (step w forces) (joins k name)) k,
  stale-strands (step (step (step w forces) (joins k name)) (connects k)) k w.guards now,
)
