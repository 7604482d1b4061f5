-- ===== src/Tests/Slices.antt =====
-- The control state of crates/app/src/control.rs at concrete inputs.
use intelnav.Base.{◌<◌, ◌≡◌, refl, true, none, some, List, [], ◌∷◌, arith}
use intelnav.Base.Table.{find}
use intelnav.Control.{
  announcing, draining, stopped, SliceKey, SliceEntry, ControlState, begin_drain, accept_chain,
}
use intelnav.Control.Entries.{entry_of}
use intelnav.Control.Lifecycle.{
  Method, upserts, drains, releases, sweeps as sweep_call, step as call, run as call_all, status_of,
  allowed, step-allowed, leave_admits_none,
}
use intelnav.Control.Chains.{
  System, Event, joins, leaves, connects, hangs_up, sweeps, forces, boot, attached, counted, run,
  counters_exact,
}
use intelnav.Control.Drain.{drop_all, leave_ends_stopped}
use intelnav.Control.ForceStop.{has_status, stale_guard_strands_chain}

abbrev qwen : SliceKey
qwen = ("qwen", 0, 12)

abbrev busy_entry : SliceEntry
busy_entry = record {
  display_name = "Qwen";
  state = announcing;
  active_chains = 2;
  draining_since = none;
}

abbrev busy : ControlState
busy = record { peer_id = "p"; started_at = 0; slices = (qwen, busy_entry) ∷ [] }

abbrev one_call : Method
one_call = drains qwen 7

step-allowed_example : allowed (status_of busy qwen) (status_of (call busy one_call) qwen) ≡ true
step-allowed_example = step-allowed busy one_call qwen

abbrev later_calls : List Method
later_calls = releases qwen ∷ sweep_call ∷ upserts ("other", 0, 4) "Other" ∷ []

not_same : ¬ (("other", 0, 4) ≡ qwen)
not_same e = ground arith

leave_admits_none_example :
    accept_chain (call_all (begin_drain busy qwen 7).0 later_calls) qwen ≡ none
leave_admits_none_example =
    leave_admits_none busy qwen 7 later_calls ((λ x. x), ((λ x. x), (not_same, tt)))

abbrev history : List Event
history =
    joins qwen "Qwen"
    ∷ connects qwen
    ∷ connects qwen
    ∷ leaves qwen 7
    ∷ hangs_up qwen
    ∷ hangs_up qwen
    ∷ []

counters_exact_example :
    (counted (run (boot "p" 0) history) qwen ≡ attached qwen (run (boot "p" 0) history).guards)
    × ((e : SliceEntry)
        → entry_of (run (boot "p" 0) history).control qwen ≡ some e
        → e.state ≡ stopped
        → attached qwen (run (boot "p" 0) history).guards ≡ 0)
counters_exact_example =
    counters_exact "p" 0 history qwen (omega arith)
      ((λ x. x), ((λ x. x), ((λ x. x), ((λ x. x), ((λ x. x), ((λ x. x), tt))))))

busy_there : entry_of busy qwen ≡ some busy_entry
unfolding find
busy_there = refl

leave_ends_stopped_example :
    entry_of (drop_all qwen 2 (begin_drain busy qwen 7).0) qwen
    ≡ some (record busy_entry { state = stopped; active_chains = 0; draining_since = some 7 })
leave_ends_stopped_example = leave_ends_stopped busy qwen 7 1 busy_entry busy_there refl refl

-- A draining slice with two chains attached.
abbrev drained_busy : System
drained_busy = record {
  control = record busy { slices = (qwen, record busy_entry { state = draining }) ∷ [] };
  guards = qwen ∷ qwen ∷ [];
}

drained_status : has_status draining (entry_of drained_busy.control qwen) ≡ true
unfolding find
drained_status = refl

drained_attached : 0 < attached qwen drained_busy.guards
unfolding attached
drained_attached = omega arith

stale_guard_strands_chain_example :
    let v =
      run drained_busy (
        forces ∷ joins qwen "Qwen" ∷ connects qwen ∷ hangs_up qwen ∷ leaves qwen 9 ∷ sweeps ∷ []) in
    (has_status stopped (entry_of v.control qwen) ≡ true)
    × (attached qwen v.guards ≡ attached qwen drained_busy.guards)
stale_guard_strands_chain_example =
    stale_guard_strands_chain drained_busy qwen "Qwen" 9 drained_status drained_attached
