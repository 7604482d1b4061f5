-- ===== src/Tests/Sidecars.antt =====
-- The daemon's sidecars and loops, crates/app/src/contribute.rs and swarm_node.rs, at concrete inputs.
use intelnav.Base.{◌≡◌, refl, ◌≢◌, Bool, true, false, not, ◌&&◌, none, some, [], ◌∷◌, if◌then◌else◌}
use mathlib.Core.Option
use intelnav.Base.Table.{find, contains, Unique, string_eq, range_eq}
use intelnav.Control.{
  SliceStatus, announcing, draining, stopped, SliceKey, SliceEntry, ControlState, slice_key_eq,
  is_announcing, is_idle, expired_draining, force_stop_all_draining,
}
use intelnav.Control.Entries.{entry_of}
use intelnav.Daemon.{
  persist_drained_slices, state_status, is_disabled, ShardDir, Disk, scan_kept_ranges,
  announce_tick, watchdog_tick, grace, state_status,
}
use intelnav.Daemon.Sidecars.{listed, offers, IsFiled, scan-lists_iff}
use intelnav.Daemon.Watchdog.{watchdog_forces_all}
use intelnav.Daemon.Announce.{
  is_draining, announce_exact, stopped_comes_back, persist_drained_slices-withdraws,
}

abbrev qwen : SliceKey
qwen = ("qwen", 0, 12)

abbrev dir : ShardDir
dir = record {
  sidecar = some (record {
    model_cid = "qwen";
    display_name = "Qwen";
    block_count = 24;
    gguf_path = "";
    kept = (0, 12) ∷ (12, 24) ∷ [];
  });
  disabled = (12, 24) ∷ [];
}

abbrev disk : Disk
disk = ("qwen", dir) ∷ []

abbrev host : SliceStatus → ControlState
host status = record {
  peer_id = "p";
  started_at = 0;
  slices =
      (
        qwen,
        record {
          display_name = "Qwen";
          state = status;
          active_chains = 0;
          draining_since = some 5;
        },
      )
      ∷ [];
}

disk-IsFiled : IsFiled disk
disk-IsFiled = (refl, tt)

disk-Unique : Unique disk
unfolding find
disk-Unique = (refl, tt)

host-Unique : (status : SliceStatus) → Unique (host status).slices
unfolding find
host-Unique status = (refl, tt)

scan-lists_iff_example : listed qwen (scan_kept_ranges disk) ≡ offers qwen (find qwen.0 disk)
scan-lists_iff_example = scan-lists_iff qwen disk disk-IsFiled disk-Unique

watchdog_forces_all_example :
    (expired_draining (host draining) grace 900000 ≡ []
      → watchdog_tick (host draining) disk 900000 ≡ (host draining, disk))
    × (expired_draining (host draining) grace 900000 ≢ []
        → (watchdog_tick (host draining) disk 900000
            ≡ ((force_stop_all_draining (host draining)).0, disk))
          × ((j : SliceKey) (e : SliceEntry)
              → entry_of (host draining) j ≡ some e
              → e.state ≡ draining
              → Option.map (λ d. d.state) (entry_of (watchdog_tick (host draining) disk 900000).0 j)
                ≡ some stopped))
watchdog_forces_all_example = watchdog_forces_all (host draining) disk 900000

announce_exact_example :
    (contains qwen (announce_tick (host announcing) disk).2
      ≡ (offers qwen (find qwen.0 disk) && not (is_draining (state_status (host announcing) qwen))))
    × (contains qwen (announce_tick (host announcing) disk).2 ≡ true
        → is_announcing (announce_tick (host announcing) disk).0 qwen ≡ true)
announce_exact_example =
    announce_exact (host announcing) disk disk-IsFiled disk-Unique (host-Unique announcing) qwen

abbrev entry : SliceStatus → SliceEntry
entry status = record {
  display_name = "Qwen";
  state = status;
  active_chains = 0;
  draining_since = some 5;
}

entry_there : (status : SliceStatus) → entry_of (host status) qwen ≡ some (entry status)
unfolding find
entry_there status = refl

qwen_offered : offers qwen (find qwen.0 disk) ≡ true
unfolding find is_disabled contains
qwen_offered = refl

stopped_comes_back_example :
    (contains qwen (announce_tick (host stopped) disk).2 ≡ true)
    × (is_announcing (announce_tick (host stopped) disk).0 qwen ≡ true)
stopped_comes_back_example =
    stopped_comes_back (host stopped) disk disk-IsFiled disk-Unique (host-Unique stopped) qwen
      (entry stopped) (entry_there stopped) refl qwen_offered

persist_drained_slices-withdraws_example :
    let (s', disk') = persist_drained_slices (host draining) disk in
    let idle : Bool = elim (entry_of (host draining) qwen) [ none ↦ false | some e ↦ is_idle e ] in
    (offers qwen (find qwen.0 disk') ≡ (offers qwen (find qwen.0 disk) && not idle))
    × (state_status s' qwen ≡ (if idle then some stopped else state_status (host draining) qwen))
persist_drained_slices-withdraws_example =
    persist_drained_slices-withdraws (host draining) disk qwen (host-Unique draining)
