-- ===== src/Forward/Guards.antt =====
-- The guards of connections, crates/app/src/control.rs and forward_server.rs, as histories of the
-- slice table.
use intelnav.Base.{
  ◌≡◌, refl, ap, ◌∙◌, true, false, Option, none, some, List, [], ◌∷◌, ◌++◌, arith, ltb, All,
}
use intelnav.Base.Table.{range_eq}
use intelnav.Control.{
  ControlState, SliceKey, slice_key_eq, key_eq_iff, ChainGuard, accept_chain, guard_drop,
}
use intelnav.Control.Chains.{System, Event, connects, hangs_up, attached, detach, step, run}
use intelnav.Forward.{Engine, drop_guard}

-- Events of connections only.
abbrev pub IsChainEvent : Event → Type 0
IsChainEvent (connects k) = Unit
IsChainEvent (hangs_up k) = Unit
IsChainEvent _ = ⊥

pub All-append :
    (es fs : List Event) → All IsChainEvent es → All IsChainEvent fs → All IsChainEvent (es ++ fs)
All-append [] fs a b = b
All-append (e ∷ es) fs a b = (a.0, All-append es fs a.1 b)

pub run-append : (w : System) (es fs : List Event) → run w (es ++ fs) ≡ run (run w es) fs
unfolding run
run-append w [] fs = refl
run-append w (e ∷ es) fs = run-append (step w e) es fs

-- The guards of the system, with the connection's own in front.
abbrev pub with_own : Option ChainGuard → List SliceKey → List SliceKey
with_own none gs = gs
with_own (some g) gs = g.key ∷ gs

abbrev pub IsLive : Option ChainGuard → Type 0
IsLive none = Unit
IsLive (some g) = g.released ≡ false

abbrev pub sys : ControlState → Option ChainGuard → List SliceKey → System
sys s g gs = record { control = s; guards = with_own g gs }

connects-system :
    (s t : ControlState) (k : SliceKey) (g : ChainGuard) (gs : List SliceKey)
    → accept_chain s k ≡ some (t, g)
    → step (record { control = s; guards = gs }) (connects k)
      ≡ record { control = t; guards = g.key ∷ gs }
unfolding step
connects-system s t k g gs e = rw e refl

detach-second : (k j : SliceKey) (gs : List SliceKey) → detach j (k ∷ j ∷ gs) ≡ k ∷ gs
unfolding detach
detach-second k j gs = ground (arith, key_eq_iff k j, key_eq_iff j j)

detach-first : (j : SliceKey) (gs : List SliceKey) → detach j (j ∷ gs) ≡ gs
unfolding detach
detach-first j gs = ground (arith, key_eq_iff j j)

attached-second : (k j : SliceKey) (gs : List SliceKey) → ltb 0 (attached j (k ∷ j ∷ gs)) ≡ true
unfolding attached
attached-second k j gs = ground (arith, key_eq_iff j j)

attached-first : (j : SliceKey) (gs : List SliceKey) → ltb 0 (attached j (j ∷ gs)) ≡ true
unfolding attached
attached-first j gs = ground (arith, key_eq_iff j j)

hangs_up-second :
    (s : ControlState) (k : SliceKey) (g : ChainGuard) (gs : List SliceKey)
    → g.released ≡ false
    → step (record { control = s; guards = k ∷ g.key ∷ gs }) (hangs_up g.key)
      ≡ record { control = guard_drop g s; guards = k ∷ gs }
unfolding step guard_drop
hangs_up-second s k g gs live =
    rw (attached-second k g.key gs) (rw (detach-second k g.key gs) (rw live refl))

hangs_up-first :
    (s : ControlState) (g : ChainGuard) (gs : List SliceKey)
    → g.released ≡ false
    → step (record { control = s; guards = g.key ∷ gs }) (hangs_up g.key)
      ≡ record { control = guard_drop g s; guards = gs }
unfolding step guard_drop
hangs_up-first s g gs live =
    rw (attached-first g.key gs) (rw (detach-first g.key gs) (rw live refl))

-- A history of chain events leads from one slice table and guard to another.
abbrev pub Leads :
    List SliceKey → ControlState → Option ChainGuard → ControlState → Option ChainGuard → Type 0
Leads gs s g t g' =
    (es : List Event) × All IsChainEvent es × (run (sys s g gs) es ≡ sys t g' gs) × IsLive g'

pub switches :
    (gs : List SliceKey) (s t : ControlState) (k : SliceKey) (old : Option ChainGuard)
    (g : ChainGuard)
    → accept_chain s k ≡ some (t, g)
    → g.released ≡ false
    → IsLive old
    → (n : Engine) → Leads gs s old (drop_guard n old t) (some g)
unfolding run
switches gs s t k none g e fresh live n =
    (connects k ∷ [], (tt, tt), connects-system s t k g gs e, fresh)
switches gs s t k (some o) g e fresh live n = (
  connects k ∷ hangs_up o.key ∷ [],
  (tt, (tt, tt)),
  ap (λ w. step w (hangs_up o.key)) (connects-system s t k g (o.key ∷ gs) e)
      ∙ hangs_up-second t g.key o gs live,
  fresh,
)

pub closes :
    (gs : List SliceKey) (s : ControlState) (old : Option ChainGuard) (n : Engine)
    → IsLive old
    → Leads gs s old (drop_guard n old s) none
unfolding run
closes gs s none n live = ([], tt, refl, tt)
closes gs s (some o) n live = (hangs_up o.key ∷ [], (tt, tt), hangs_up-first s o gs live, tt)
