-- ===== src/Control/Drain.antt =====
-- How a drain of crates/app/src/control.rs ends.
use intelnav.Base.{ℕ, zero, suc, ◌≡◌, refl, false, some, arith}
use intelnav.Control.{
  announcing, draining, stopped, SliceKey, SliceEntry, ControlState, key_eq_iff, one_less,
  begin_drain, guard_drop,
}
use intelnav.Control.Entries.{entry_of, entry-begin_drain, entry-release}

-- The last `n` chains of a slice drop their guards, one after another.
unfoldable pub drop_all : SliceKey → ℕ → ControlState → ControlState
drop_all k zero s = s
drop_all k (suc n) s = drop_all k n (guard_drop (record { key = k; released = false }) s)

drop_all-stops :
    (k : SliceKey) (n : ℕ) (s : ControlState) (e : SliceEntry)
    → entry_of s k ≡ some e
    → e.state ≡ draining
    → e.active_chains ≡ suc n
    → entry_of (drop_all k (suc n) s) k ≡ some (record e { state = stopped; active_chains = 0 })
unfolding drop_all guard_drop one_less
drop_all-stops k zero s e found st full = ground (arith, entry-release s k k, key_eq_iff k k)
drop_all-stops k (suc n) s e found st full =
    drop_all-stops k n _ (record e { active_chains = suc n })
      (ground (arith, entry-release s k k, key_eq_iff k k)) st refl

-- A leave of an announcing slice with chains attached ends: when exactly those chains have dropped
-- their guards, the slice is stopped with no chain counted.
pub leave_ends_stopped :
    (s : ControlState) (k : SliceKey) (now n : ℕ) (e : SliceEntry)
    → entry_of s k ≡ some e
    → e.state ≡ announcing
    → e.active_chains ≡ suc n
    → entry_of (drop_all k (suc n) (begin_drain s k now).0) k
      ≡ some (record e { state = stopped; active_chains = 0; draining_since = some now })
leave_ends_stopped s k now n e found st full =
    drop_all-stops k n _ (record e { state = draining; draining_since = some now })
      (ground (arith, entry-begin_drain s k k now, key_eq_iff k k)) refl full
