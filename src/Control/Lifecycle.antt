-- ===== src/Control/Lifecycle.antt =====
-- The states that a slice of crates/app/src/control.rs goes through.
use mathlib.Core.Option
use intelnav.Base.{
  ℕ, ◌≡◌, Bool, true, false, Option, none, some, List, [], ◌∷◌, arith, String, inl, inr,
}
use intelnav.Control.{
  SliceStatus, announcing, draining, stopped, SliceKey, ControlState, ChainGuard, is_status,
  key_eq_iff, one_less, upsert_announcing, begin_drain, accept_chain, release_chain, drain_idle,
  force_stop_all_draining, is_announcing,
}
use intelnav.Control.Entries.{
  entry_of, entry-upsert, entry-begin_drain, accept-cases, entry-release, entry-drain_idle,
  entry-force_stop,
}

-- The methods that change the state.
pub data Method : Type 0 where
  upserts : SliceKey → String → Method
  drains : SliceKey → ℕ → Method
  accepts releases : SliceKey → Method
  sweeps forces : Method

abbrev admitted : ControlState → Option (ControlState × ChainGuard) → ControlState
admitted s none = s
admitted s (some (t, g)) = t

unfoldable pub step : ControlState → Method → ControlState
step s (upserts k name) = upsert_announcing s k name
step s (drains k now) = (begin_drain s k now).0
step s (accepts k) = admitted s (accept_chain s k)
step s (releases k) = (release_chain s k).0
step s sweeps = (drain_idle s).0
step s forces = (force_stop_all_draining s).0

unfoldable pub run : ControlState → List Method → ControlState
unfolding step
run s [] = s
run s (m ∷ ms) = run (step s m) ms

abbrev pub status_of : ControlState → SliceKey → Option SliceStatus
status_of s k = Option.map (λ e. e.state) (entry_of s k)

-- The moves of one slice. A stopped slice comes back by a join only, and none is ever forgotten.
abbrev pub allowed : Option SliceStatus → Option SliceStatus → Bool
allowed none none = true
allowed none (some announcing) = true
allowed none (some _) = false
allowed (some _) none = false
allowed (some announcing) (some stopped) = false
allowed (some stopped) (some draining) = false
allowed (some _) (some _) = true

allowed-accept :
    (s : ControlState) (k j : SliceKey)
    → allowed (status_of s j) (status_of (admitted s (accept_chain s k)) j) ≡ true
allowed-accept s k j = elim (accept-cases s k) [
  | inl refused ↦ rw refused (ground arith)
  | inr (e, t, found, open_, taken, after) ↦ rw taken (ground (arith, after j, key_eq_iff k j))
]

-- Whatever method runs, every slice keeps its status or makes one of the allowed moves: none to
-- announcing, announcing to draining, draining to stopped, and from draining or stopped back to
-- announcing.
pub step-allowed :
    (s : ControlState) (m : Method) (j : SliceKey)
    → allowed (status_of s j) (status_of (step s m) j) ≡ true
unfolding step one_less
step-allowed s (upserts k name) j = ground (arith, entry-upsert s k j name, key_eq_iff k j)
step-allowed s (drains k now) j = ground (arith, entry-begin_drain s k j now, key_eq_iff k j)
step-allowed s (accepts k) j = allowed-accept s k j
step-allowed s (releases k) j = ground (arith, entry-release s k j, key_eq_iff k j)
step-allowed s sweeps j = ground (arith, entry-drain_idle s j)
step-allowed s forces j = ground (arith, entry-force_stop s j)

-- A method that is no join of `k`.
abbrev pub Joins : SliceKey → Method → Type 0
Joins k (upserts j name) = j ≡ k
Joins k _ = ⊥

abbrev pub NoJoin : SliceKey → List Method → Type 0
NoJoin k [] = Unit
NoJoin k (m ∷ ms) = (¬ Joins k m) × NoJoin k ms

is_announcing-status :
    (s : ControlState) (k : SliceKey)
    → is_announcing s k ≡ elim (status_of s k) [ none ↦ false | some t ↦ is_status t announcing ]
unfolding is_announcing
is_announcing-status s k = ground arith

closed-step :
    (s : ControlState) (m : Method) (k : SliceKey)
    → ¬ Joins k m
    → is_announcing s k ≡ false
    → is_announcing (step s m) k ≡ false
unfolding is_announcing step one_less
closed-step s (upserts j name) k other c = ground (arith, entry-upsert s j k name, key_eq_iff j k)
closed-step s (drains j now) k other c = ground (arith, entry-begin_drain s j k now, key_eq_iff j k)
closed-step s (accepts j) k other c = elim (accept-cases s j) [
  | inl refused ↦ rw refused c
  | inr (e, t, found, open_, taken, after) ↦ rw taken (ground (arith, after k, key_eq_iff j k))
]
closed-step s (releases j) k other c = ground (arith, entry-release s j k, key_eq_iff j k)
closed-step s sweeps k other c = ground (arith, entry-drain_idle s k)
closed-step s forces k other c = ground (arith, entry-force_stop s k)

closed-run :
    (s : ControlState) (ms : List Method) (k : SliceKey)
    → NoJoin k ms
    → is_announcing s k ≡ false
    → is_announcing (run s ms) k ≡ false
unfolding run
closed-run s [] k quiet c = c
closed-run s (m ∷ ms) k quiet c = closed-run (step s m) ms k quiet.1 (closed-step s m k quiet.0 c)

accept-refuses :
    (s : ControlState) (k : SliceKey) → is_announcing s k ≡ false → accept_chain s k ≡ none
unfolding is_announcing accept_chain
accept-refuses s k c = ground arith

leaves-announcing :
    (s : ControlState) (k : SliceKey) (now : ℕ) → is_announcing (begin_drain s k now).0 k ≡ false
unfolding is_announcing
leaves-announcing s k now = ground (arith, entry-begin_drain s k k now, key_eq_iff k k)

-- After a leave, and through any later calls but a join of that slice, no chain is admitted.
pub leave_admits_none :
    (s : ControlState) (k : SliceKey) (now : ℕ) (ms : List Method)
    → NoJoin k ms
    → accept_chain (run (begin_drain s k now).0 ms) k ≡ none
leave_admits_none s k now ms quiet = accept-refuses _ k (closed-run _ ms k quiet left)
  where
    left : is_announcing (begin_drain s k now).0 k ≡ false
    left = leaves-announcing s k now
