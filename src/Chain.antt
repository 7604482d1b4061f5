-- ===== src/Chain.antt =====
-- crates/runtime/src/chain.rs, `Chain::connect`: how a chain of peers is opened. The network is a
-- parameter: what each peer does with a connection. An address is a text, and the messages of a
-- handshake are taken to fit a frame.
pub mod Swarm
pub mod Ranges
pub mod Hops
pub mod Serving
pub mod Relay
pub mod Counting
pub mod Picks
pub mod Failover
use intelnav.Base.{
  ℕ, zero, suc, ◌+◌, ◌-◌, ◌*◌, ◌/◌, ◌%◌, ◌^◌, ◌≤◌, ◌<◌, min, max, String, ◌≡◌, refl, sym, ap, ◌∙◌,
  ◌≢◌, ◌↔◌, ◌⊎◌, inl, inr, Bool, true, false, not, ◌&&◌, ◌||◌, Option, none, some, List, [], ◌∷◌,
  ◌++◌, map, append_assoc, append-nil, arith, ltb, leb, ◌==◌, if◌then◌else◌, ltb→lt, lt→ltb, leb→le,
  le→leb, ==_iff, tests, Bool-cases, Option-cases, List-cases, length, get_elem?, set, take, drop,
  replicate, All, length-append, take-append-drop, length-take, length-drop, length-replicate,
  take-append, drop-append, take-all, take-append_add, take-take, last-split, length-set,
  length-map, Result, ok, err, ◌>>=◌, ◌>>◌, guard, or_fail, Result-cases, bind-ok, guard-ok, ok-inj,
}
use intelnav.Base.Table.{Eq, string_eq}
use intelnav.Types.{LayerRange, q4_k_m, fp16}
use intelnav.Wire.{Msg, hello, session_init, session_ack, abort_session}

pub data ChainError : Type 0 where
  connect_refused timed_out dropped handshake aborted : ℕ → ChainError
  other : ChainError

-- The error names the peer's place in the chain.
unfoldable pub failed_index : ChainError → Option ℕ
failed_index (connect_refused i) = some i
failed_index (timed_out i) = some i
failed_index (dropped i) = some i
failed_index (handshake i) = some i
failed_index (aborted i) = some i
failed_index other = none

pub record ChainCfg : Type 0 where
  pub peers : List String
  pub splits : List ℕ
  pub proto_ver : ℕ
  pub model_cid : String
  pub max_seq : ℕ

pub record Link : Type 0 where
  pub addr : String
  pub layers : LayerRange
  pub session : ℕ
  pub seq : ℕ

pub record Chain : Type 0 where
  pub cfg : ChainCfg
  pub links : List Link
  pub front_end : ℕ

-- How a wait under a timeout ends.
pub data Waited {ℓ} (A : Type ℓ) : Type ℓ where
  done : A → Waited A
  failed late : Waited A

-- What a peer does with one attempt at a session, whose id is drawn at random.
pub record Peer : Type 0 where
  pub dialled : Waited (Unit {0})
  pub session_id : ℕ
  pub hello_sent : Waited (Unit {0})
  pub hello_back : Waited (Option Msg)
  pub init_sent : Waited (Unit {0})
  pub init_back : Waited (Option Msg)

-- `write_with_timeout`, once the message fits a frame, and `read_with_timeout`.
unfoldable pub with_timeout {ℓ} : {A : Type ℓ} → ℕ → Waited A → Result ChainError A
with_timeout index (done a) = ok a
with_timeout index failed = err (dropped index)
with_timeout index late = err (timed_out index)

unfoldable pub dial : ℕ → Waited (Unit {0}) → Result ChainError (Unit {0})
dial index (done u) = ok tt
dial index failed = err (connect_refused index)
dial index late = err (timed_out index)

unfoldable pub check_hello : ℕ → ℕ → Option Msg → Result ChainError (Unit {0})
check_hello index ver (some (hello peer_id proto_ver quants)) =
    guard (proto_ver == ver) (handshake index)
check_hello index ver _ = err (handshake index)

unfoldable pub check_ack : ℕ → ℕ → Option Msg → Result ChainError (Unit {0})
check_ack index session (some (session_ack sid pub_key)) = guard (sid == session) (handshake index)
check_ack index session (some (abort_session sid reason)) = err (aborted index)
check_ack index session _ = err (handshake index)

-- The session with one peer.
unfoldable pub open_link : ChainCfg → ℕ → String → LayerRange → Peer → Result ChainError Link
unfolding dial with_timeout check_hello check_ack
open_link cfg index addr layers p = do
  dial index p.dialled
  with_timeout index p.hello_sent
  h ← with_timeout index p.hello_back
  check_hello index cfg.proto_ver h
  with_timeout index p.init_sent
  a ← with_timeout index p.init_back
  check_ack index p.session_id a
  ok (record { addr = addr; layers = layers; session = p.session_id; seq = 0 })

unfoldable pub is_increasing : List ℕ → Bool
is_increasing [] = true
is_increasing (a ∷ []) = true
is_increasing (a ∷ b ∷ rest) = ltb a b && is_increasing (b ∷ rest)

abbrev pub head_or : ℕ → List ℕ → ℕ
head_or d [] = d
head_or d (x ∷ xs) = x

abbrev pub last_or : ℕ → List ℕ → ℕ
last_or d [] = d
last_or d (x ∷ xs) = last_or x xs

-- The checks of `connect` on the configuration.
unfoldable pub validate : ChainCfg → ℕ → Result ChainError (Unit {0})
unfolding is_increasing
validate cfg n_blocks = do
  guard (ltb 0 (length cfg.peers)) other
  guard (length cfg.peers == length cfg.splits) other
  guard (is_increasing cfg.splits) other
  guard (ltb 0 (head_or 0 cfg.splits)) other
  guard (ltb (last_or 0 cfg.splits) n_blocks) other

-- Peer by peer, from `index`; the last range goes on to `n_blocks`.
unfoldable pub open_links :
    ChainCfg → ℕ → (ℕ → String → Peer) → ℕ → List String → List ℕ → Result ChainError (List Link)
unfolding open_link
open_links cfg n_blocks net index (addr ∷ addrs) (start ∷ splits) = do
  link ←
      open_link cfg index addr (record { start = start; end = head_or n_blocks splits })
        (net index addr)
  links ← open_links cfg n_blocks net (index + 1) addrs splits
  ok (link ∷ links)
open_links cfg n_blocks net index _ _ = ok []

unfoldable pub connect : ChainCfg → ℕ → (ℕ → String → Peer) → Result ChainError Chain
unfolding validate open_links
connect cfg n_blocks net = do
  validate cfg n_blocks
  links ← open_links cfg n_blocks net 0 cfg.peers cfg.splits
  ok (record { cfg = cfg; links = links; front_end = head_or 0 cfg.splits })
