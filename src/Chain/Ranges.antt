-- ===== src/Chain/Ranges.antt =====
-- The layers of a chain that crates/runtime/src/chain.rs has opened, and the peer that is blamed when
-- it cannot be opened.
use intelnav.Base.{
  ℕ, suc, ◌+◌, ◌<◌, String, ◌≡◌, refl, sym, ap, inl, inr, true, Option, none, some, List, [], ◌∷◌,
  arith, List-cases, length, Result, ok, err, ◌>>=◌, Result-cases, bind-ok, ok-inj,
}
use mathlib.Core.Path.{subst}
use intelnav.Types.{LayerRange}
use intelnav.Wire.{
  Msg, hello, session_init, session_ack, abort_session, prompt, forward_hidden, token, heartbeat,
  advertise, gossip,
}
use intelnav.Chain.{
  ChainError, failed_index, ChainCfg, Link, Chain, Peer, Waited, done, failed, late, with_timeout,
  dial, check_hello, check_ack, open_link, is_increasing, head_or, last_or, validate, open_links,
  connect,
}

-- Links whose half-open ranges, none of them empty, lie end to end between two layers.
abbrev pub Tiles : ℕ → List Link → ℕ → Type 0
Tiles from [] to = from ≡ to
Tiles from (l ∷ ls) to = (l.layers.start ≡ from) × (from < l.layers.end) × Tiles l.layers.end ls to

open_link-layers :
    (cfg : ChainCfg) (index : ℕ) (addr : String) (layers : LayerRange) (p : Peer) {l : Link}
    → open_link cfg index addr layers p ≡ ok l
    → l.layers ≡ layers
unfolding open_link
open_link-layers cfg index addr layers p e =
    let (u1, e1, r1) = bind-ok (dial index p.dialled) _ e in
    let (u2, e2, r2) = bind-ok (with_timeout index p.hello_sent) _ r1 in
    let (h, e3, r3) = bind-ok (with_timeout index p.hello_back) _ r2 in
    let (u3, e4, r4) = bind-ok (check_hello index cfg.proto_ver h) _ r3 in
    let (u4, e5, r5) = bind-ok (with_timeout index p.init_sent) _ r4 in
    let (a, e6, r6) = bind-ok (with_timeout index p.init_back) _ r5 in
    let (u5, e7, r7) = bind-ok (check_ack index p.session_id a) _ r6 in
    ap (λ (x : Link). x.layers) (sym (ok-inj r7))

first-Tiles :
    (l : Link) (ls : List Link) (s t n : ℕ)
    → l.layers ≡ record { start = s; end = t }
    → s < t
    → Tiles t ls n
    → Tiles s (l ∷ ls) n
first-Tiles l ls s t n e h tiles =
    let at : t ≡ l.layers.end = ap (λ (r : LayerRange). r.end) (sym e) in
    (
      ap (λ (r : LayerRange). r.start) e,
      subst (λ k. s < k) at h,
      subst (λ k. Tiles k ls n) at tiles,
    )

all_links :
    (addr : String) (addrs : List String) (s n : ℕ) (xs ys : List Link)
    → xs ≡ ys
    → Tiles s xs n
    → length xs ≡ length (addr ∷ addrs)
    → Tiles s ys n × (length ys ≡ length (addr ∷ addrs))
all_links addr addrs s n xs ys e tiles len =
    (subst (λ ls. Tiles s ls n) e tiles, subst (λ ls. length ls ≡ length (addr ∷ addrs)) e len)

open_links-tile :
    (cfg : ChainCfg) (n_blocks : ℕ) (net : ℕ → String → Peer) (index : ℕ) (addrs : List String)
    (s : ℕ) (splits : List ℕ) (links : List Link)
    → length addrs ≡ length (s ∷ splits)
    → is_increasing (s ∷ splits) ≡ true
    → last_or 0 (s ∷ splits) < n_blocks
    → open_links cfg n_blocks net index addrs (s ∷ splits) ≡ ok links
    → Tiles s links n_blocks × (length links ≡ length addrs)
unfolding open_links is_increasing
open_links-tile cfg n_blocks net index [] s splits links len up below e = absurd (ground arith)
open_links-tile cfg n_blocks net index (addr ∷ []) s [] links len up below e =
    let (l, e1, r1) = bind-ok (open_link cfg index addr _ (net index addr)) _ e in
    let layers = open_link-layers cfg index addr _ (net index addr) e1 in
    all_links addr [] s n_blocks _ links (ok-inj r1)
      (first-Tiles l [] s n_blocks n_blocks layers below refl) refl
open_links-tile cfg n_blocks net index (addr ∷ b ∷ addrs) s [] links len up below e =
    absurd (ground arith)
open_links-tile cfg n_blocks net index (addr ∷ addrs) s (t ∷ splits) links len up below e =
    let (l, e1, r1) = bind-ok (open_link cfg index addr _ (net index addr)) _ e in
    let (ls, e2, r2) = bind-ok (open_links cfg n_blocks net (index + 1) addrs (t ∷ splits)) _ r1 in
    let layers = open_link-layers cfg index addr _ (net index addr) e1 in
    let (tiles, n) =
      open_links-tile cfg n_blocks net (index + 1) addrs t splits ls (ground arith) (ground arith)
        below e2 in
    all_links addr addrs s n_blocks _ links (ok-inj r2)
      (first-Tiles l ls s t n_blocks layers (ground arith) tiles) (ap suc n)

-- Every failure names this peer.
abbrev pub Blames : {A : Type 0} → ℕ → Result ChainError A → Type 0
Blames i r = (e : ChainError) → r ≡ err e → failed_index e ≡ some i

then-Blames :
    {A B : Type 0} (i : ℕ) (m : Result ChainError A) (f : A → Result ChainError B)
    → Blames i m
    → ((a : A) → Blames i (f a))
    → Blames i (m >>= f)
then-Blames i (ok a) f first rest e h = rest a e h
then-Blames i (err x) f first rest e h = first e (ground arith)

pub with_timeout-Blames : {A : Type 0} (i : ℕ) (w : Waited A) → Blames i (with_timeout i w)
unfolding with_timeout failed_index
with_timeout-Blames i (done a) e h = absurd (ground arith)
with_timeout-Blames i failed e h = ground arith
with_timeout-Blames i late e h = ground arith

dial-Blames : (i : ℕ) (w : Waited (Unit {0})) → Blames i (dial i w)
unfolding dial failed_index
dial-Blames i (done a) e h = absurd (ground arith)
dial-Blames i failed e h = ground arith
dial-Blames i late e h = ground arith

check_hello-Blames : (i ver : ℕ) (m : Option Msg) → Blames i (check_hello i ver m)
unfolding check_hello failed_index
check_hello-Blames i ver none e h = ground arith
check_hello-Blames i ver (some (hello p v q)) e h = ground arith
check_hello-Blames i ver (some (session_init a b c d f)) e h = ground arith
check_hello-Blames i ver (some (session_ack a b)) e h = ground arith
check_hello-Blames i ver (some (prompt a b c)) e h = ground arith
check_hello-Blames i ver (some (forward_hidden a b c d f g j k)) e h = ground arith
check_hello-Blames i ver (some (token a b c d)) e h = ground arith
check_hello-Blames i ver (some (heartbeat a b c)) e h = ground arith
check_hello-Blames i ver (some (abort_session a b)) e h = ground arith
check_hello-Blames i ver (some (advertise a b)) e h = ground arith
check_hello-Blames i ver (some (gossip a b c)) e h = ground arith

check_ack-Blames : (i session : ℕ) (m : Option Msg) → Blames i (check_ack i session m)
unfolding check_ack failed_index
check_ack-Blames i session none e h = ground arith
check_ack-Blames i session (some (hello a b c)) e h = ground arith
check_ack-Blames i session (some (session_init a b c d f)) e h = ground arith
check_ack-Blames i session (some (session_ack a b)) e h = ground arith
check_ack-Blames i session (some (prompt a b c)) e h = ground arith
check_ack-Blames i session (some (forward_hidden a b c d f g j k)) e h = ground arith
check_ack-Blames i session (some (token a b c d)) e h = ground arith
check_ack-Blames i session (some (heartbeat a b c)) e h = ground arith
check_ack-Blames i session (some (abort_session a b)) e h = ground arith
check_ack-Blames i session (some (advertise a b)) e h = ground arith
check_ack-Blames i session (some (gossip a b c)) e h = ground arith

open_link-Blames :
    (cfg : ChainCfg) (i : ℕ) (addr : String) (layers : LayerRange) (p : Peer)
    → Blames i (open_link cfg i addr layers p)
unfolding open_link
open_link-Blames cfg i addr layers p =
    then-Blames i (dial i p.dialled) _ (dial-Blames i p.dialled) (λ u.
      then-Blames i (with_timeout i p.hello_sent) _ (with_timeout-Blames i p.hello_sent) (λ v.
        then-Blames i (with_timeout i p.hello_back) _ (with_timeout-Blames i p.hello_back) (λ h.
          then-Blames i (check_hello i cfg.proto_ver h) _ (check_hello-Blames i cfg.proto_ver h)
            (λ w.
              then-Blames i (with_timeout i p.init_sent) _ (with_timeout-Blames i p.init_sent) (λ x.
                then-Blames i (with_timeout i p.init_back) _ (with_timeout-Blames i p.init_back)
                  (λ a.
                    then-Blames i (check_ack i p.session_id a) _ (check_ack-Blames i p.session_id a)
                      (λ y e h. absurd (ground arith))))))))

open_links-blame :
    (cfg : ChainCfg) (n_blocks : ℕ) (net : ℕ → String → Peer) (index : ℕ) (addrs : List String)
    (splits : List ℕ) (e : ChainError)
    → open_links cfg n_blocks net index addrs splits ≡ err e
    → (i : ℕ) × (failed_index e ≡ some i) × (i < index + length addrs)
unfolding open_links
open_links-blame cfg n_blocks net index [] splits e h = absurd (ground arith)
open_links-blame cfg n_blocks net index (addr ∷ addrs) [] e h = absurd (ground arith)
open_links-blame cfg n_blocks net index (addr ∷ addrs) (s ∷ splits) e h =
    let layers : LayerRange = record { start = s; end = head_or n_blocks splits } in
    elim (Result-cases (open_link cfg index addr layers (net index addr))) [
      | inl (l, e1) ↦ elim (Result-cases (open_links cfg n_blocks net (index + 1) addrs splits)) [
        | inl (ls, e2) ↦ absurd (ground arith)
        | inr (x, e2) ↦
            let same : x ≡ e = ground arith in
            let (i, named, below) =
              open_links-blame cfg n_blocks net (index + 1) addrs splits x e2 in
            (i, subst (λ y. failed_index y ≡ some i) same named, omega arith)
      ]
      | inr (x, e1) ↦
          let same : x ≡ e = ground arith in
          let named = open_link-Blames cfg index addr layers (net index addr) x e1 in
          (index, subst (λ y. failed_index y ≡ some index) same named, omega arith)
    ]

valid_splits :
    (cfg : ChainCfg) (n_blocks : ℕ) {u : Unit {0}}
    → validate cfg n_blocks ≡ ok u
    → (s : ℕ) × (splits : List ℕ) × (cfg.splits ≡ s ∷ splits)
      × (0 < s)
      × (length cfg.peers ≡ length (s ∷ splits))
      × (is_increasing (s ∷ splits) ≡ true)
      × (last_or 0 (s ∷ splits) < n_blocks)
unfolding validate
valid_splits cfg n_blocks e = elim (List-cases cfg.splits) [
  | inl none_there ↦ absurd (ground arith)
  | inr (s, splits, shape) ↦
      (s, splits, shape, ground arith, ground arith, ground arith, ground arith)
]

-- A chain that connects shares out all layers: the driver has those below the first split, at least
-- one, and the peers' half-open ranges, none of them empty, lie end to end from there to the last
-- layer, one range for each configured peer.
pub connect-Tiles :
    (cfg : ChainCfg) (n_blocks : ℕ) (net : ℕ → String → Peer) (chain : Chain)
    → connect cfg n_blocks net ≡ ok chain
    → (0 < chain.front_end)
      × Tiles chain.front_end chain.links n_blocks
      × (length chain.links ≡ length cfg.peers)
unfolding connect validate
connect-Tiles cfg n_blocks net chain e =
    let (u, valid, r1) = bind-ok (validate cfg n_blocks) _ e in
    let (links, opened, r2) = bind-ok (open_links cfg n_blocks net 0 cfg.peers cfg.splits) _ r1 in
    let (s, splits, shape, positive, lengths, up, below) = valid_splits cfg n_blocks valid in
    let read = subst (λ xs. open_links cfg n_blocks net 0 cfg.peers xs ≡ ok links) shape opened in
    let (tiles, len) =
      open_links-tile cfg n_blocks net 0 cfg.peers s splits links lengths up below read in
    let front : head_or 0 cfg.splits ≡ s = ap (head_or 0) shape in
    subst
      (λ (x : Chain).
        (0 < x.front_end)
        × Tiles x.front_end x.links n_blocks
        × (length x.links ≡ length cfg.peers))
      (ok-inj r2) (rw front positive, rw front tiles, len)

-- When a valid configuration cannot be connected, the error names one of its peers.
pub connect-blames :
    (cfg : ChainCfg) (n_blocks : ℕ) (net : ℕ → String → Peer) (e : ChainError)
    → validate cfg n_blocks ≡ ok tt
    → connect cfg n_blocks net ≡ err e
    → (i : ℕ) × (failed_index e ≡ some i) × (i < length cfg.peers)
unfolding connect
connect-blames cfg n_blocks net e valid h =
    elim (Result-cases (open_links cfg n_blocks net 0 cfg.peers cfg.splits)) [
      | inl (ls, e2) ↦ absurd (ground arith)
      | inr (x, e2) ↦
          let same : x ≡ e = ground arith in
          let (i, named, below) = open_links-blame cfg n_blocks net 0 cfg.peers cfg.splits x e2 in
          (i, subst (λ y. failed_index y ≡ some i) same named, omega arith)
    ]
