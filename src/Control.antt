-- ===== src/Control.antt =====
-- crates/app/src/control.rs: the slices that the daemon hosts, the guards of the chains that pass
-- through them, and the control RPC. The mutex makes each method one step; a time (milliseconds)
-- that a method reads from a clock is an argument. The map's key order is not modelled.
pub mod Entries
pub mod Lifecycle
pub mod Chains
pub mod Drain
pub mod ForceStop
use intelnav.Base.{
  ℕ, suc, ◌+◌, ◌-◌, ◌/◌, ◌%◌, ◌^◌, min, String, ◌≡◌, ◌↔◌, Bool, true, false, ◌&&◌, Option, none,
  some, List, [], ◌∷◌, arith, leb, ◌==◌, if◌then◌else◌, length,
}
use intelnav.Base.Table.{Eq, find, put}
use text.Mathlib.Text.{◌==◌ as str_eq}
use text.Mathlib.TextEquality.{eq_iff}

pub data SliceStatus : Type 0 where
  announcing draining stopped : SliceStatus

-- (cid, start, end)
abbrev pub SliceKey : Type 0
SliceKey = String × ℕ × ℕ

abbrev pub key_eq : SliceKey → SliceKey → Bool
key_eq a b = str_eq a.0 b.0 && (a.1 == b.1 && a.2 == b.2)

pub key_eq_iff : (a b : SliceKey) → (key_eq a b ≡ true) ↔ (a ≡ b)
key_eq_iff (c, s, t) (c', s', t') = ground (arith, eq_iff c c')

instance abbrev pub slice_key_eq : Eq SliceKey
slice_key_eq = record { beq = key_eq; beq_iff = key_eq_iff }

pub record SliceEntry : Type 0 where
  pub display_name : String
  pub state : SliceStatus
  pub active_chains : ℕ
  pub draining_since : Option ℕ

abbrev pub Slices : Type 0
Slices = List (SliceKey × SliceEntry)

pub record ControlState : Type 0 where
  pub peer_id : String
  pub started_at : ℕ
  pub slices : Slices

pub record ChainGuard : Type 0 where
  pub key : SliceKey
  pub released : Bool

pub record StatusReply : Type 0 where
  pub peer_id : String
  pub uptime_seconds : ℕ
  pub total_active_chains : ℕ
  pub hosted_slices : ℕ

pub record HostedSlice : Type 0 where
  pub cid : String
  pub display_name : String
  pub start : ℕ
  pub end : ℕ
  pub state : SliceStatus
  pub active_chains : ℕ

abbrev pub u32_mod : ℕ
u32_mod = 2 ^ 32

abbrev pub is_status : SliceStatus → SliceStatus → Bool
is_status announcing announcing = true
is_status draining draining = true
is_status stopped stopped = true
is_status _ _ = false

unfoldable pub new : String → ℕ → ControlState
new peer_id now = record { peer_id = peer_id; started_at = now; slices = [] }

-- The sum of `u32`s wraps in a release build.
unfoldable pub total_active : Slices → ℕ
total_active [] = 0
total_active ((k, e) ∷ m) = (e.active_chains + total_active m) % u32_mod

unfoldable pub snapshot_status : ControlState → ℕ → StatusReply
unfolding total_active
snapshot_status s now = record {
  peer_id = s.peer_id;
  uptime_seconds = (now - s.started_at) / 1000;
  total_active_chains = total_active s.slices;
  hosted_slices = length s.slices % u32_mod;
}

unfoldable pub hosted : Slices → List HostedSlice
hosted [] = []
hosted (((cid, start, end), e) ∷ m) =
    record {
      cid = cid;
      display_name = e.display_name;
      start = start;
      end = end;
      state = e.state;
      active_chains = e.active_chains;
    }
    ∷ hosted m

unfoldable pub snapshot_hosted : ControlState → List HostedSlice
unfolding hosted
snapshot_hosted s = hosted s.slices

abbrev pub fresh_entry : String → SliceEntry
fresh_entry name = record {
  display_name = name;
  state = announcing;
  active_chains = 0;
  draining_since = none;
}

-- `entry(key).and_modify(..).or_insert(..)`
unfoldable pub upsert_announcing : ControlState → SliceKey → String → ControlState
upsert_announcing s key name = record s {
  slices = elim (find key s.slices) [
    | none ↦ put key (fresh_entry name) s.slices
    | some e ↦ put key (record e { state = announcing; display_name = name }) s.slices
  ];
}

unfoldable pub begin_drain : ControlState → SliceKey → ℕ → ControlState × Bool
begin_drain s key now = elim (find key s.slices) [
  | none ↦ (s, false)
  | some e ↦
      if is_status e.state announcing
      then (
        record s {
          slices = put key (record e { state = draining; draining_since = some now }) s.slices;
        },
        true,
      )
      else (s, false)
]

-- Draining for at least `grace`. `Instant::elapsed` stops at zero.
unfoldable pub has_expired : ℕ → ℕ → SliceEntry → Bool
has_expired grace now e = elim e.draining_since [
  | none ↦ false
  | some since ↦ is_status e.state draining && leb grace (now - since)
]

unfoldable pub expired_keys : ℕ → ℕ → Slices → List SliceKey
unfolding has_expired
expired_keys grace now [] = []
expired_keys grace now ((k, e) ∷ m) =
    let rest = expired_keys grace now m in if has_expired grace now e then k ∷ rest else rest

unfoldable pub expired_draining : ControlState → ℕ → ℕ → List SliceKey
unfolding expired_keys
expired_draining s grace now = expired_keys grace now s.slices

unfoldable pub is_announcing : ControlState → SliceKey → Bool
is_announcing s key = elim (find key s.slices) [
  | none ↦ false
  | some e ↦ is_status e.state announcing
]

unfoldable pub accept_chain : ControlState → SliceKey → Option (ControlState × ChainGuard)
accept_chain s key = elim (find key s.slices) [
  | none ↦ none
  | some e ↦
      if is_status e.state announcing
      then some (
        record s {
          slices =
              put key (record e { active_chains = min (e.active_chains + 1) (u32_mod - 1) })
                s.slices;
        },
        record { key = key; released = false },
      )
      else none
]

-- The entry after one chain less: a draining slice with no chain left stops.
unfoldable pub one_less : SliceEntry → SliceEntry
one_less e =
    let n = e.active_chains - 1 in
    record e {
      active_chains = n;
      state = if is_status e.state draining && n == 0 then stopped else e.state;
    }

unfoldable pub release_chain : ControlState → SliceKey → ControlState × Option SliceStatus
unfolding one_less
release_chain s key = elim (find key s.slices) [
  | none ↦ (s, none)
  | some e ↦ (record s { slices = put key (one_less e) s.slices }, some (one_less e).state)
]

-- `Drop` of a guard; the detached task that it spawns is this step.
unfoldable pub guard_drop : ChainGuard → ControlState → ControlState
unfolding release_chain
guard_drop g s = if g.released then s else (release_chain s g.key).0

-- The explicit release marks the guard, so the drop that follows does nothing more.
unfoldable pub guard_release : ChainGuard → ControlState → ControlState × Option SliceStatus
unfolding release_chain guard_drop
guard_release g s =
    let (s', status) = release_chain s g.key in
    (guard_drop (record g { released = true }) s', status)

abbrev pub is_idle : SliceEntry → Bool
is_idle e = is_status e.state draining && e.active_chains == 0

unfoldable pub drain_entries : Slices → Slices × List SliceKey
drain_entries [] = ([], [])
drain_entries ((k, e) ∷ m) =
    let (rest, flipped) = drain_entries m in
    if is_idle e
    then ((k, record e { state = stopped }) ∷ rest, k ∷ flipped)
    else ((k, e) ∷ rest, flipped)

unfoldable pub drain_idle : ControlState → ControlState × List SliceKey
unfolding drain_entries
drain_idle s =
    let (slices, flipped) = drain_entries s.slices in (record s { slices = slices }, flipped)

unfoldable pub stop_entries : Slices → Slices × List SliceKey
stop_entries [] = ([], [])
stop_entries ((k, e) ∷ m) =
    let (rest, flipped) = stop_entries m in
    if is_status e.state draining
    then ((k, record e { state = stopped; active_chains = 0 }) ∷ rest, k ∷ flipped)
    else ((k, e) ∷ rest, flipped)

unfoldable pub force_stop_all_draining : ControlState → ControlState × List SliceKey
unfolding stop_entries
force_stop_all_draining s =
    let (slices, flipped) = stop_entries s.slices in (record s { slices = slices }, flipped)

pub data Request : Type 0 where
  status list_hosted : Request
  join leave : String → ℕ → ℕ → Request

pub data Response : Type 0 where
  status_reply : StatusReply → Response
  hosted_reply : List HostedSlice → Response
  joined leaving not_announcing : Response

unfoldable pub dispatch : ControlState → ℕ → Request → ControlState × Response
unfolding snapshot_status snapshot_hosted upsert_announcing begin_drain
dispatch s now status = (s, status_reply (snapshot_status s now))
dispatch s now list_hosted = (s, hosted_reply (snapshot_hosted s))
dispatch s now (join cid start end) = (upsert_announcing s (cid, start, end) "", joined)
dispatch s now (leave cid start end) =
    let (s', done) = begin_drain s (cid, start, end) now in
    if done then (s', leaving) else (s, not_announcing)
