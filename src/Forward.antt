-- ===== src/Forward.antt =====
-- crates/app/src/forward_server.rs: a peer's side of a chain session. libllama and the codec of
-- activations are parameters; models once loaded are shared by the connections through the cache, so
-- a connection keeps the key of its slice. A write that fails ends the connection, as a read that
-- finds no message does.
pub mod Session
pub mod Sharing
pub mod Guards
pub mod Balance
use intelnav.Base.{
  ℕ, zero, suc, ◌+◌, ◌-◌, ◌*◌, ◌/◌, ◌%◌, ◌^◌, ◌≤◌, ◌<◌, min, max, String, ◌≡◌, refl, sym, ap, ◌∙◌,
  ◌≢◌, ◌↔◌, ◌⊎◌, inl, inr, Bool, true, false, not, ◌&&◌, ◌||◌, Option, none, some, List, [], ◌∷◌,
  ◌++◌, map, append_assoc, append-nil, arith, ltb, leb, ◌==◌, if◌then◌else◌, ltb→lt, lt→ltb, leb→le,
  le→leb, ==_iff, tests, Bool-cases, Option-cases, List-cases, length, get_elem?, set, take, drop,
  replicate, All, length-append, take-append-drop, length-take, length-drop, length-replicate,
  take-append, drop-append, take-all, take-append_add, take-take, last-split, length-set,
  length-map, Result, ok, err, ◌>>=◌, ◌>>◌, guard, or_fail, Result-cases, bind-ok, guard-ok, ok-inj,
}
use intelnav.Base.Table.{find, put, contains, range_eq}
use intelnav.Types.{LayerRange, q4_k_m, fp16, u64_mod}
use intelnav.Wire.{
  Msg, hello, session_init, session_ack, abort_session, prompt, forward_hidden, token, heartbeat,
  advertise, gossip, Dtype, Shape, Phase, decode,
}
use intelnav.Control.{ControlState, SliceKey, slice_key_eq, ChainGuard, accept_chain, guard_drop}

pub record Engine : Type 1 where
  pub Handle : Type 0
  pub Data : Type 0
  pub reset_cache : Handle → Handle
  -- whether it was done, and the handle afterwards
  pub truncate_kv_to : Handle → ℕ → Bool × Handle
  pub forward_range : Handle → Shape × Data → ℕ → ℕ → ℕ → Option (Shape × Data) × Handle
  pub decode_hidden : Dtype → Shape → List ℕ → Option (Shape × Data)
  pub encode_hidden : Shape × Data → Dtype → Option (Shape × List ℕ)

pub data SessionError : Type 0 where
  before_init mismatch not_loaded no_slice driver_only unreadable disabled_on_disk not_kept
        load_failed stitch_failed kv_failed bad_hidden forward_failed encode_failed :
      SessionError
  out_of_order : ℕ → ℕ → SessionError

-- What a message leads to.
pub data Verdict : Type 0 where
  go_on hang_up : Verdict
  fails : SessionError → Verdict

pub record Conn : Type 0 where
  pub session_id : Option ℕ
  pub index_pos : ℕ
  pub last_seq : ℕ
  pub active_slice : Option SliceKey
  pub guard_held : Option ChainGuard
  pub loaded : Option SliceKey

abbrev pub new_conn : Conn
new_conn = record {
  session_id = none;
  index_pos = 0;
  last_seq = 0;
  active_slice = none;
  guard_held = none;
  loaded = none;
}

module _ (n : Engine) where
  open n use {
    Handle, Data, reset_cache, truncate_kv_to, forward_range, decode_hidden, encode_hidden,
  }

  pub record LoadedSlice : Type 0 where
    pub handle : Handle
    pub local_offset : ℕ

  -- What the directory of a model holds: its sidecars, whether the full file that they name is there,
  -- and what loading that file, or the stitched one of a range, gives.
  pub record Shard : Type 0 where
    pub kept : List (ℕ × ℕ)
    pub disabled : List (ℕ × ℕ)
    pub gguf_exists : Bool
    pub full : Option Handle
    pub stitched : ℕ × ℕ → Option Handle

  pub record Host : Type 0 where
    pub control : ControlState
    pub cache : List (SliceKey × LoadedSlice)
    pub shards : String → Option Shard

  unfoldable pub resolve : Shard → ℕ → ℕ → Result SessionError LoadedSlice
  resolve d start end =
      if d.gguf_exists
      then (do h ← or_fail d.full load_failed; ok (record { handle = h; local_offset = 0 }))
      else (do
        h ← or_fail (d.stitched (start, end)) stitch_failed
        ok (record { handle = h; local_offset = start }))

  -- The cache is looked at first; a model that is loaded stays in it.
  unfoldable pub prepare_slice : Host → SliceKey → Result SessionError (LoadedSlice × Host)
  prepare_slice h (cid, start, end) = elim (find (cid, start, end) h.cache) [
    | some s ↦ ok (s, h)
    | none ↦ do
      d ← or_fail (h.shards cid) unreadable
      guard (not (contains (start, end) d.disabled)) disabled_on_disk
      guard (contains (start, end) d.kept) not_kept
      s ← resolve d start end
      ok (s, record h { cache = put (cid, start, end) s h.cache })
  ]

  -- A guard that goes away takes its chain off the slice.
  abbrev pub drop_guard : Option ChainGuard → ControlState → ControlState
  drop_guard none s = s
  drop_guard (some g) s = guard_drop g s

  -- The outcome of a message: the reply, if there is one, and whether the loop goes on.
  abbrev pub Outcome : Type 0
  Outcome = (Host × Conn) × Option Msg × Verdict

  unfoldable pub open_session : Host → Conn → ℕ → SliceKey → Outcome
  open_session h c sid key = elim (accept_chain h.control key) [
    | none ↦ ((h, c), some (abort_session sid "not announcing"), hang_up)
    | some (control, g) ↦
        let h1 = record h { control = drop_guard c.guard_held control } in
        let c1 = record c { guard_held = some g; active_slice = some key } in
        elim (prepare_slice h1 key) [
          | err e ↦ ((h1, c1), some (abort_session sid "load slice failed"), fails e)
          | ok (slice, h2) ↦ (
            (
              record h2 {
                cache = put key (record slice { handle = reset_cache slice.handle }) h2.cache;
              },
              record c1 { loaded = some key; session_id = some sid; index_pos = 0; last_seq = 0 },
            ),
            some (session_ack sid 0),
            go_on,
          )
        ]
  ]

  -- Whether it went well, the model, and the position to go on from.
  abbrev truncated_to : Option ℕ → ℕ → Handle → Bool × Handle × ℕ
  truncated_to none pos handle = (true, handle, pos)
  truncated_to (some keep) pos handle =
      let (fine, h) = truncate_kv_to handle keep in (fine, h, if fine then keep else pos)

  abbrev sub_usize : ℕ → ℕ → ℕ
  sub_usize a b = (a + u64_mod - b) % u64_mod

  -- The layers `start` to `end` of the model on one message: the reply's activations, the model with
  -- its new keys, and the position behind them. What has happened to the model stays when a later
  -- step fails.
  unfoldable pub run_layers :
      LoadedSlice
      → ℕ
      → ℕ
      → ℕ
      → Dtype
      → Shape
      → List ℕ
      → Option ℕ
      → Result SessionError (Shape × List ℕ) × Handle × ℕ
  run_layers slice start end index_pos dtype shape payload keep =
      let (fine, h, pos) = truncated_to keep index_pos slice.handle in
      elim fine [
        | false ↦ (err kv_failed, h, pos)
        | true ↦ elim (decode_hidden dtype shape payload) [
          | none ↦ (err bad_hidden, h, pos)
          | some ((b, s, d), x) ↦
              let (out, h') =
                forward_range h ((b, s, d), x) pos (sub_usize start slice.local_offset)
                  (sub_usize end slice.local_offset) in
              elim out [
                | none ↦ (err forward_failed, h', pos)
                | some o ↦ (or_fail (encode_hidden o dtype) encode_failed, h', pos + s)
              ]
        ]
      ]

  -- The checks that come before the layers run; what they find.
  unfoldable pub check_forward : Host → Conn → ℕ → ℕ → Result SessionError (SliceKey × LoadedSlice)
  check_forward h c sid seq = do
    cur ← or_fail c.session_id before_init
    guard (cur == sid) mismatch
    guard (not (leb seq c.last_seq && ltb 0 c.last_seq)) (out_of_order c.last_seq seq)
    key ← or_fail c.loaded not_loaded
    slice ← or_fail (find key h.cache) not_loaded
    active ← or_fail c.active_slice no_slice
    ok (active, slice)

  unfoldable pub forward : Host → Conn → ℕ → ℕ → Dtype → Shape → List ℕ → Option ℕ → Outcome
  forward h c sid seq dtype shape payload keep = elim (check_forward h c sid seq) [
    | err e ↦ ((h, c), none, fails e)
    | ok ((cid, start, end), slice) ↦
        let (result, handle', pos) =
          run_layers slice start end c.index_pos dtype shape payload keep in
        let h1 = record h {
          cache = put (cid, start, end) (record slice { handle = handle' }) h.cache;
        } in
        let c1 = record c { last_seq = seq; index_pos = pos } in
        elim result [
          | err e ↦ ((h1, c1), none, fails e)
          | ok (out_shape, bytes) ↦ (
            (h1, c1),
            some (forward_hidden sid seq decode dtype out_shape bytes none none),
            go_on,
          )
        ]
  ]

  unfoldable pub handle_msg : Host → Conn → Msg → Outcome
  handle_msg h c (hello peer_id proto_ver quants) =
      ((h, c), some (hello 0 proto_ver (q4_k_m ∷ fp16 ∷ [])), go_on)
  handle_msg h c (session_init sid pub_key cid layers max_seq) =
      open_session h c sid (cid, layers.start, layers.end)
  handle_msg h c (forward_hidden sid seq phase dtype shape payload kv_delta keep) =
      forward h c sid seq dtype shape payload keep
  handle_msg h c (abort_session sid reason) = ((h, c), none, hang_up)
  handle_msg h c (heartbeat sid seq health) = ((h, c), none, go_on)
  handle_msg h c (advertise capability sig) = ((h, c), none, go_on)
  handle_msg h c (gossip topic payload sig) = ((h, c), none, go_on)
  handle_msg h c (prompt sid text nonce) = ((h, c), none, fails driver_only)
  handle_msg h c (token sid seq logits sampled) = ((h, c), none, fails driver_only)
  handle_msg h c (session_ack sid pub_key) = ((h, c), none, fails driver_only)

  -- The end of the function drops the guard.
  abbrev pub close_conn : Host → Conn → Host
  close_conn h c = record h { control = drop_guard c.guard_held h.control }

  -- The loop over the messages that come, until the stream ends: the host afterwards, and the replies.
  unfoldable pub handle_connection : Host → Conn → List Msg → Host × List Msg
  handle_connection h c [] = (close_conn h c, [])
  handle_connection h c (m ∷ ms) =
      let ((h', c'), reply, verdict) = handle_msg h c m in
      let (last, replies) = handle_connection h' c' ms in
      let said : List Msg = elim reply [ none ↦ [] | some r ↦ r ∷ [] ] in
      elim verdict [
        | go_on ↦ (last, said ++ replies)
        | hang_up ↦ (close_conn h' c', said)
        | fails e ↦ (close_conn h' c', said)
      ]
