-- ===== src/Daemon.antt =====
-- crates/app/src/swarm_node.rs and the sidecars of crates/app/src/contribute.rs: what the daemon's
-- announce loop and drain watchdog do with the control state and the shard directories. A write to
-- an existing directory succeeds; publishing to the DHT is the list of keys that are announced.
pub mod Sidecars
pub mod Watchdog
pub mod Announce
use intelnav.Base.{
  ℕ, zero, suc, ◌+◌, ◌-◌, ◌*◌, ◌/◌, ◌%◌, ◌^◌, ◌≤◌, ◌<◌, min, max, String, ◌≡◌, refl, sym, ap, ◌∙◌,
  ◌≢◌, ◌↔◌, ◌⊎◌, inl, inr, Bool, true, false, not, ◌&&◌, ◌||◌, Option, none, some, List, [], ◌∷◌,
  ◌++◌, map, append_assoc, append-nil, arith, ltb, leb, ◌==◌, if◌then◌else◌, ltb→lt, lt→ltb, leb→le,
  le→leb, ==_iff, tests, Bool-cases, Option-cases, length, get_elem?, set, take, drop, replicate,
  All, length-append, take-append-drop, length-take, length-drop, length-replicate, take-append,
  drop-append, take-all, length-set, length-map, Result, ok, err, ◌>>=◌, ◌>>◌, guard, or_fail,
  Result-cases,
}
use intelnav.Base.Table.{contains, find, put, string_eq, range_eq}
use intelnav.Control.{
  SliceStatus, announcing, draining, stopped, SliceKey, slice_key_eq, ControlState,
  upsert_announcing, expired_draining, is_announcing, drain_idle, force_stop_all_draining,
}

pub record KeptRanges : Type 0 where
  pub model_cid : String
  pub display_name : String
  pub block_count : ℕ
  pub gguf_path : String
  pub kept : List (ℕ × ℕ)

-- disabled_ranges.json; a missing or malformed file is the empty list.
abbrev pub DisabledRanges : Type 0
DisabledRanges = List (ℕ × ℕ)

unfoldable pub is_disabled : DisabledRanges → ℕ → ℕ → Bool
is_disabled d start end = contains (start, end) d

unfoldable pub add : DisabledRanges → ℕ → ℕ → DisabledRanges
unfolding is_disabled
add d start end = if is_disabled d start end then d else d ++ (start, end) ∷ []

unfoldable pub remove : DisabledRanges → ℕ → ℕ → DisabledRanges
remove [] start end = []
remove ((s, e) ∷ d) start end =
    let rest = remove d start end in if s == start && e == end then rest else (s, e) ∷ rest

-- One directory under `.shards`. A missing or malformed kept_ranges.json is `none`.
pub record ShardDir : Type 0 where
  pub sidecar : Option KeptRanges
  pub disabled : DisabledRanges

-- Directories by name, which is the model's cid.
abbrev pub Disk : Type 0
Disk = List (String × ShardDir)

unfoldable pub retain_enabled : DisabledRanges → List (ℕ × ℕ) → List (ℕ × ℕ)
unfolding is_disabled
retain_enabled d [] = []
retain_enabled d ((s, e) ∷ rs) =
    let rest = retain_enabled d rs in if is_disabled d s e then rest else (s, e) ∷ rest

-- A model with no range left is not listed.
abbrev pub keep_some : KeptRanges → List (ℕ × ℕ) → List KeptRanges → List KeptRanges
keep_some k [] out = out
keep_some k (r ∷ rs) out = record k { kept = r ∷ rs } ∷ out

unfoldable pub scan_kept_ranges : Disk → List KeptRanges
unfolding retain_enabled
scan_kept_ranges [] = []
scan_kept_ranges ((name, d) ∷ rest) =
    let out = scan_kept_ranges rest in
    elim d.sidecar [ none ↦ out | some k ↦ keep_some k (retain_enabled d.disabled k.kept) out ]

-- `disabled.add(..)` and `save` in the slice's directory.
unfoldable pub disable : SliceKey → Disk → Disk
unfolding add
disable (cid, start, end) disk = elim (find cid disk) [
  | none ↦ disk
  | some d ↦ put cid (record d { disabled = add d.disabled start end }) disk
]

unfoldable pub disable_all : List SliceKey → Disk → Disk
unfolding disable
disable_all [] disk = disk
disable_all (k ∷ ks) disk = disable_all ks (disable k disk)

unfoldable pub persist_drained_slices : ControlState → Disk → ControlState × Disk
unfolding disable_all
persist_drained_slices s disk =
    let (s', stopped_keys) = drain_idle s in (s', disable_all stopped_keys disk)

-- Whether the slice has no state or is stopped: then a sidecar registers it anew.
abbrev pub unregistered : Option SliceStatus → Bool
unregistered none = true
unregistered (some stopped) = true
unregistered (some _) = false

unfoldable pub state_status : ControlState → SliceKey → Option SliceStatus
state_status s key = elim (find key s.slices) [ none ↦ none | some e ↦ some e.state ]

-- The body of the announce loop for one range: the state, and whether the range is published.
unfoldable pub announce_range : ControlState → SliceKey → String → ControlState × Bool
unfolding state_status
announce_range s key name =
    if is_announcing s key
    then (s, true)
    else if unregistered (state_status s key)
    then (upsert_announcing s key name, true)
    else (s, false)

unfoldable pub announce_ranges :
    ControlState → String → String → List (ℕ × ℕ) → ControlState × List SliceKey
unfolding announce_range
announce_ranges s cid name [] = (s, [])
announce_ranges s cid name ((start, end) ∷ rs) =
    let (s', done) = announce_range s (cid, start, end) name in
    let (t, published) = announce_ranges s' cid name rs in
    (t, (if done then (cid, start, end) ∷ published else published))

unfoldable pub announce_all : ControlState → List KeptRanges → ControlState × List SliceKey
unfolding announce_ranges
announce_all s [] = (s, [])
announce_all s (k ∷ ks) =
    let (s', here) = announce_ranges s k.model_cid k.display_name k.kept in
    let (t, published) = announce_all s' ks in (t, here ++ published)

-- One tick of the announce loop.
unfoldable pub announce_tick : ControlState → Disk → ControlState × Disk × List SliceKey
unfolding persist_drained_slices scan_kept_ranges announce_all
announce_tick s disk =
    let (s', disk') = persist_drained_slices s disk in
    let (t, published) = announce_all s' (scan_kept_ranges disk') in (t, disk', published)

abbrev pub grace : ℕ
grace = 5 * 60 * 1000

-- One tick of the drain watchdog.
unfoldable pub watchdog_tick : ControlState → Disk → ℕ → ControlState × Disk
unfolding persist_drained_slices
watchdog_tick s disk now = elim (expired_draining s grace now) [
  | [] ↦ (s, disk)
  | k ∷ ks ↦ persist_drained_slices (force_stop_all_draining s).0 disk
]
