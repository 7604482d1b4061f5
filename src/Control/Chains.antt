-- ===== src/Control/Chains.antt =====
-- The guards of crates/app/src/control.rs against the counters: who is attached, and who is counted.
-- A history is a list of events of the daemon: RPC calls, connections that come and go, the sweep of
-- the announce loop and the force-stop of the watchdog.
use mathlib.Core.Path.{subst}
use native.Mathlib.Nat.{add-zero}
use intelnav.Base.Table.{find}
use intelnav.Base.{
  ℕ, suc, ◌+◌, ◌-◌, ◌≤◌, ◌<◌, ◌≡◌, refl, false, Option, none, some, List, [], ◌∷◌, arith, String,
  ltb, Bool-cases, inl, inr, if◌then◌else◌, length,
}
use intelnav.Control.{
  stopped, SliceKey, SliceEntry, ControlState, ChainGuard, key_eq, key_eq_iff, one_less, u32_mod,
  new, upsert_announcing, begin_drain, accept_chain, guard_drop, drain_idle,
  force_stop_all_draining, is_status,
}
use intelnav.Control.Entries.{
  entry_of, entry-upsert, entry-begin_drain, accept-cases, entry-release, entry-drain_idle,
}

-- The control state, and the guards that live connections hold.
pub record System : Type 0 where
  pub control : ControlState
  pub guards : List SliceKey

pub data Event : Type 0 where
  joins : SliceKey → String → Event
  leaves : SliceKey → ℕ → Event
  connects hangs_up : SliceKey → Event
  sweeps forces : Event

unfoldable pub attached : SliceKey → List SliceKey → ℕ
attached k [] = 0
attached k (g ∷ gs) = if key_eq g k then suc (attached k gs) else attached k gs

unfoldable pub detach : SliceKey → List SliceKey → List SliceKey
detach k [] = []
detach k (g ∷ gs) = if key_eq g k then gs else g ∷ detach k gs

abbrev pub connected : System → Option (ControlState × ChainGuard) → System
connected w none = w
connected w (some (s, g)) = record { control = s; guards = g.key ∷ w.guards }

-- A connection that ends drops its guard, which takes one chain off its slice.
unfoldable pub step : System → Event → System
unfolding attached detach
step w (joins k name) = record w { control = upsert_announcing w.control k name }
step w (leaves k now) = record w { control = (begin_drain w.control k now).0 }
step w (connects k) = connected w (accept_chain w.control k)
step w (hangs_up k) =
    if ltb 0 (attached k w.guards)
    then record {
      control = guard_drop (record { key = k; released = false }) w.control;
      guards = detach k w.guards;
    }
    else w
step w sweeps = record w { control = (drain_idle w.control).0 }
step w forces = record w { control = (force_stop_all_draining w.control).0 }

unfoldable pub run : System → List Event → System
unfolding step
run w [] = w
run w (e ∷ es) = run (step w e) es

abbrev pub chains_of : Option SliceEntry → ℕ
chains_of none = 0
chains_of (some e) = e.active_chains

-- The counter of every slice.
abbrev pub counted : System → SliceKey → ℕ
counted w k = chains_of (entry_of w.control k)

attached-detach :
    (k j : SliceKey) (gs : List SliceKey)
    → attached j (detach k gs) ≡ (if key_eq k j then attached j gs - 1 else attached j gs)
unfolding attached detach
attached-detach k j [] = ground arith
attached-detach k j (g ∷ gs) =
    ground (arith, key_eq_iff k j, key_eq_iff g k, key_eq_iff g j, attached-detach k j gs)

attached-le : (k : SliceKey) (gs : List SliceKey) → attached k gs ≤ length gs
unfolding attached
attached-le k [] = omega arith
attached-le k (g ∷ gs) = ground (arith, attached-le k gs)

length-detach : (k : SliceKey) (gs : List SliceKey) → length (detach k gs) ≤ length gs
unfolding detach
length-detach k [] = omega arith
length-detach k (g ∷ gs) = ground (arith, length-detach k gs)

-- The chains that a stopped slice counts.
abbrev pub stopped_chains : Option SliceEntry → ℕ
stopped_chains none = 0
stopped_chains (some e) = if is_status e.state stopped then e.active_chains else 0

-- At most `n` guards, every slice's counter is the number of its guards, and a stopped slice has none.
pub record Accounts (n : ℕ) (w : System) : Type 0 where
  pub few : length w.guards ≤ n
  pub count : (k : SliceKey) → counted w k ≡ attached k w.guards
  pub quiet : (k : SliceKey) → stopped_chains (entry_of w.control k) ≡ 0

abbrev pub Forces : Event → Type 0
Forces forces = Unit
Forces _ = ⊥

abbrev pub NoForce : List Event → Type 0
NoForce [] = Unit
NoForce (e ∷ es) = (¬ Forces e) × NoForce es

joins-Accounts :
    (n : ℕ) (w : System) (k : SliceKey) (name : String)
    → Accounts n w
    → Accounts (suc n) (step w (joins k name))
unfolding step
joins-Accounts n w k name a = record {
  few = omega (arith, a.few);
  count = λ j. ground (arith, entry-upsert w.control k j name, key_eq_iff k j, a.count j);
  quiet =
      λ j. ground (arith, entry-upsert w.control k j name, key_eq_iff k j, a.quiet j, a.quiet k);
}

leaves-Accounts :
    (n : ℕ) (w : System) (k : SliceKey) (now : ℕ)
    → Accounts n w
    → Accounts (suc n) (step w (leaves k now))
unfolding step
leaves-Accounts n w k now a = record {
  few = omega (arith, a.few);
  count = λ j. ground (arith, entry-begin_drain w.control k j now, key_eq_iff k j, a.count j);
  quiet = λ j.
      ground (arith, entry-begin_drain w.control k j now, key_eq_iff k j, a.quiet j, a.quiet k);
}

sweeps-Accounts : (n : ℕ) (w : System) → Accounts n w → Accounts (suc n) (step w sweeps)
unfolding step
sweeps-Accounts n w a = record {
  few = omega (arith, a.few);
  count = λ j. ground (arith, entry-drain_idle w.control j, a.count j);
  quiet = λ j. ground (arith, entry-drain_idle w.control j, a.quiet j);
}

hangs_up-Accounts :
    (n : ℕ) (w : System) (k : SliceKey) → Accounts n w → Accounts (suc n) (step w (hangs_up k))
unfolding step guard_drop one_less
hangs_up-Accounts n w k a = elim (Bool-cases (ltb 0 (attached k w.guards))) [
  | inr none_left ↦
      rw none_left (record { few = omega (arith, a.few); count = a.count; quiet = a.quiet })
  | inl some_left ↦ rw some_left (record {
    few = omega (arith, a.few, length-detach k w.guards);
    count = λ j. ground (
      arith,
      entry-release w.control k j,
      key_eq_iff k j,
      a.count j,
      attached-detach k j w.guards,
    );
    quiet = λ j. ground (arith, entry-release w.control k j, key_eq_iff k j, a.quiet j, a.quiet k);
  })
]

connects-Accounts :
    (n : ℕ) (w : System) (k : SliceKey)
    → suc n < u32_mod
    → Accounts n w
    → Accounts (suc n) (step w (connects k))
unfolding step attached
connects-Accounts n w k small a = elim (accept-cases w.control k) [
  | inl refused ↦
      rw refused (record { few = omega (arith, a.few); count = a.count; quiet = a.quiet })
  | inr (e, t, found, open_, taken, after) ↦ rw taken (record {
    few = omega (arith, a.few);
    count = λ j.
        ground
          (arith, after j, key_eq_iff k j, a.count j, a.count k, a.few, attached-le k w.guards);
    quiet = λ j. ground (arith, after j, key_eq_iff k j, a.quiet j, a.quiet k);
  })
]

pub step-Accounts :
    (n : ℕ) (w : System) (e : Event)
    → suc n < u32_mod
    → ¬ Forces e
    → Accounts n w
    → Accounts (suc n) (step w e)
step-Accounts n w (joins k name) small calm a = joins-Accounts n w k name a
step-Accounts n w (leaves k now) small calm a = leaves-Accounts n w k now a
step-Accounts n w (connects k) small calm a = connects-Accounts n w k small a
step-Accounts n w (hangs_up k) small calm a = hangs_up-Accounts n w k a
step-Accounts n w sweeps small calm a = sweeps-Accounts n w a
step-Accounts n w forces small calm a = absurd (calm tt)

run-Accounts :
    (n : ℕ) (w : System) (es : List Event)
    → n + length es < u32_mod
    → NoForce es
    → Accounts n w
    → Accounts (n + length es) (run w es)
unfolding run
run-Accounts n w [] small calm a = rw add-zero a
run-Accounts n w (e ∷ es) small calm a =
    subst (λ m. Accounts m (run (step w e) es)) (omega arith)
      (run-Accounts (suc n) (step w e) es (omega arith) calm.1
        (step-Accounts n w e (omega arith) calm.0 a))

abbrev pub boot : String → ℕ → System
boot id now = record { control = new id now; guards = [] }

boot-Accounts : (id : String) (now : ℕ) → Accounts 0 (boot id now)
unfolding new attached find
boot-Accounts id now = record { few = omega arith; count = λ k. refl; quiet = λ k. refl }

-- In every history of fewer than 2^32 events without a force-stop, the counter of each slice is the
-- number of chains attached to it, and a stopped slice has no chain attached.
pub counters_exact :
    (id : String) (now : ℕ) (es : List Event) (k : SliceKey)
    → length es < u32_mod
    → NoForce es
    → (counted (run (boot id now) es) k ≡ attached k (run (boot id now) es).guards)
      × ((e : SliceEntry)
          → entry_of (run (boot id now) es).control k ≡ some e
          → e.state ≡ stopped
          → attached k (run (boot id now) es).guards ≡ 0)
counters_exact id now es k small calm =
    (a.count k, λ e found st. ground (arith, a.quiet k, a.count k))
  where
    a : Accounts (0 + length es) (run (boot id now) es)
    a = run-Accounts 0 (boot id now) es (omega arith) calm (boot-Accounts id now)
