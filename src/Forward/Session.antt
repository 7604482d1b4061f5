-- ===== src/Forward/Session.antt =====
-- The state of a session of crates/app/src/forward_server.rs: what an open session rests on, and the
-- order of its messages.
use intelnav.Base.{
  ℕ, ◌<◌, String, ◌≡◌, refl, sym, ap, ◌∙◌, ◌⊎◌, inl, inr, true, false, not, ◌&&◌, Option, none,
  some, List, arith, ltb, leb, ◌==◌, ==_iff, ok, err, guard, or_fail, Result-cases, bind-ok,
  guard-ok,
}
use mathlib.Core.Path.{subst}
use intelnav.Base.Table.{find, put, find-put}
use intelnav.Wire.{
  Msg, hello, session_init, session_ack, abort_session, prompt, forward_hidden, token, heartbeat,
  advertise, gossip, Dtype, Shape, Phase, decode,
}
use intelnav.Control.{ControlState, SliceKey, key_eq_iff, slice_key_eq, ChainGuard, accept_chain}
use intelnav.Control.Entries.{accept-cases}
use intelnav.Forward.{
  Engine, SessionError, before_init, mismatch, not_loaded, no_slice, out_of_order, go_on, fails,
  Conn, LoadedSlice, Host, prepare_slice, drop_guard, Outcome, open_session, run_layers,
  check_forward, forward, handle_msg,
}

key-inj : (a b : SliceKey) → some a ≡ some b → a ≡ b
key-inj a b e = ap (λ (o : Option SliceKey). elim o as (λ x. SliceKey) [ none ↦ a | some k ↦ k ]) e

module _ (n : Engine) where
  abbrev pub Ready : Host n → Conn → ℕ → SliceKey → Type 0
  Ready h c sid key =
      (c.session_id ≡ some sid)
      × (c.loaded ≡ some key)
      × (c.active_slice ≡ some key)
      × ((g : ChainGuard) × (c.guard_held ≡ some g) × (g.key ≡ key))
      × ((slice : LoadedSlice n) × (find key h.cache ≡ some slice))

  -- No session, or one whose chain is counted and whose model is in the cache, all of one slice.
  abbrev pub IsWellFormed : Host n → Conn → Type 0
  IsWellFormed h c = (c.session_id ≡ none) ⊎ ((sid : ℕ) × (key : SliceKey) × Ready h c sid key)

  abbrev pub After : Outcome n → Type 0
  After o = o.2 ≡ go_on → IsWellFormed (o.0.0) (o.0.1)

  -- The host once a chain has been admitted in place of the connection's earlier one.
  abbrev pub admitted_to : Host n → Conn → ControlState → Host n
  admitted_to h c t = record h { control = drop_guard n c.guard_held t }

  pub open_session-opens :
      (h h' : Host n) (c : Conn) (sid : ℕ) (key : SliceKey) (t : ControlState) (g : ChainGuard)
      (slice : LoadedSlice n)
      → accept_chain h.control key ≡ some (t, g)
      → prepare_slice n (admitted_to h c t) key ≡ ok (slice, h')
      → open_session n h c sid key ≡ (
        (
          record h' {
            cache = put key (record slice { handle = n.reset_cache slice.handle }) h'.cache;
          },
          record c {
            guard_held = some g;
            active_slice = some key;
            loaded = some key;
            session_id = some sid;
            index_pos = 0;
            last_seq = 0;
          },
        ),
        some (session_ack sid 0),
        go_on,
      )
  unfolding open_session
  open_session-opens h h' c sid key t g slice e1 e2 = rw (e1, open_session) (rw e2 refl)

  pub put-found :
      (key : SliceKey) (slice : LoadedSlice n) (m : List (SliceKey × LoadedSlice n))
      → find key (put key slice m) ≡ some slice
  put-found key slice m = ground (arith, find-put key key slice m, key_eq_iff key key)

  put-found_at :
      (a b : SliceKey) (slice : LoadedSlice n) (m : List (SliceKey × LoadedSlice n))
      → a ≡ b
      → find b (put a slice m) ≡ some slice
  put-found_at a b slice m e =
      subst (λ k. find k (put a slice m) ≡ some slice) e (put-found a slice m)

  no_go :
      (h : Host n) (c : Conn) (sid : ℕ) (key : SliceKey)
      → accept_chain h.control key ≡ none
      → (open_session n h c sid key).2 ≡ go_on
      → ⊥
  unfolding open_session
  no_go h c sid key refused e = ground (arith, refused)

  no_model :
      (h : Host n) (c : Conn) (sid : ℕ) (key : SliceKey) (t : ControlState) (g : ChainGuard)
      (x : SessionError)
      → accept_chain h.control key ≡ some (t, g)
      → prepare_slice n (admitted_to h c t) key ≡ err x
      → (open_session n h c sid key).2 ≡ go_on
      → ⊥
  unfolding open_session
  no_model h c sid key t g x admitted fails_to e = ground (arith, admitted, fails_to)

  open_session-IsWellFormed :
      (h : Host n) (c : Conn) (sid : ℕ) (key : SliceKey) → After (open_session n h c sid key)
  open_session-IsWellFormed h c sid key e = elim (accept-cases h.control key) [
    | inl refused ↦ absurd (no_go h c sid key refused e)
    | inr (entry, t, found, announces, admitted, entries) ↦
        let g : ChainGuard = record { key = key; released = false } in
        elim (Result-cases (prepare_slice n (admitted_to h c t) key)) [
          | inr (x, fails_to) ↦ absurd (no_model h c sid key t g x admitted fails_to e)
          | inl ((slice, h'), prepared) ↦
              let opens = open_session-opens h h' c sid key t g slice admitted prepared in
              let reset : LoadedSlice n = record slice { handle = n.reset_cache slice.handle } in
              subst (λ (o : Outcome n). IsWellFormed (o.0.0) (o.0.1)) (sym opens)
                (inr (
                  sid,
                  key,
                  (refl, refl, refl, (g, refl, refl), (reset, put-found key reset h'.cache)),
                ))
        ]
  ]

  -- An open session finds its model.
  pub check-ready :
      (h : Host n) (c : Conn) (sid seq : ℕ) (key : SliceKey) (slice : LoadedSlice n)
      → c.session_id ≡ some sid
      → c.loaded ≡ some key
      → c.active_slice ≡ some key
      → find key h.cache ≡ some slice
      → (c.last_seq ≡ 0) ⊎ (c.last_seq < seq)
      → check_forward n h c sid seq ≡ ok (key, slice)
  unfolding check_forward
  check-ready h c sid seq key slice e1 e2 e3 e4 (inl first) =
      ground (arith, e1, e2, e3, e4, first, ==_iff sid sid)
  check-ready h c sid seq key slice e1 e2 e3 e4 (inr later) =
      ground (arith, e1, e2, e3, e4, later, ==_iff sid sid)

  check-found :
      (h : Host n) (c : Conn) (sid seq : ℕ) (key : SliceKey) (slice : LoadedSlice n)
      → check_forward n h c sid seq ≡ ok (key, slice)
      → (c.session_id ≡ some sid)
        × ((c.last_seq ≡ 0) ⊎ (c.last_seq < seq))
        × (c.active_slice ≡ some key)
  unfolding check_forward
  check-found h c sid seq key slice e =
      let (cur, e1, r1) = bind-ok (or_fail c.session_id before_init) _ e in
      let (u, e2, r2) = bind-ok (guard (cur == sid) mismatch) _ r1 in
      let ordered = not (leb seq c.last_seq && ltb 0 c.last_seq) in
      let (v, e3, r3) = bind-ok (guard ordered (out_of_order c.last_seq seq)) _ r2 in
      let (k, e4, r4) = bind-ok (or_fail c.loaded not_loaded) _ r3 in
      let (x, e5, r5) = bind-ok (or_fail (find k h.cache) not_loaded) _ r4 in
      let (active, e6, r6) = bind-ok (or_fail c.active_slice no_slice) _ r5 in
      let same : cur ≡ sid = (==_iff cur sid).0 (guard-ok (cur == sid) mismatch e2) in
      let order : ordered ≡ true = guard-ok ordered (out_of_order c.last_seq seq) e3 in
      (ground arith, ground arith, ground arith)

  -- What is left behind a message that goes through.
  pub forward-replies :
      (h : Host n) (c : Conn) (sid seq : ℕ) (dtype : Dtype) (shape : Shape) (payload : List ℕ)
      (keep : Option ℕ) (cid : String) (start end : ℕ) (slice : LoadedSlice n)
      → check_forward n h c sid seq ≡ ok ((cid, start, end), slice)
      → let o = forward n h c sid seq dtype shape payload keep in
        let (result, handle, pos) =
          run_layers n slice start end c.index_pos dtype shape payload keep in
        (o.0 ≡ (
          record h { cache = put (cid, start, end) (record slice { handle = handle }) h.cache },
          record c { last_seq = seq; index_pos = pos },
        ))
        × (o.2 ≡ go_on
            → (out : Shape) × (bytes : List ℕ) × (o.1
                ≡ some (forward_hidden sid seq decode dtype out bytes none none)))
  unfolding forward
  forward-replies h c sid seq dtype shape payload keep cid start end slice e =
      elim (Result-cases ((run_layers n slice start end c.index_pos dtype shape payload keep).0)) [
        | inr (x, e1) ↦ rw (e, forward) (rw e1 (refl, λ go. absurd (ground arith)))
        | inl ((out, bytes), e1) ↦ rw (e, forward) (rw e1 (refl, λ go. (out, bytes, refl)))
      ]

  pub forward-fails :
      (h : Host n) (c : Conn) (sid seq : ℕ) (dtype : Dtype) (shape : Shape) (payload : List ℕ)
      (keep : Option ℕ) (x : SessionError)
      → check_forward n h c sid seq ≡ err x
      → (forward n h c sid seq dtype shape payload keep).2 ≡ fails x
  unfolding forward
  forward-fails h c sid seq dtype shape payload keep x e = rw (e, forward) refl

  forward-IsWellFormed :
      (h : Host n) (c : Conn) (sid seq : ℕ) (dtype : Dtype) (shape : Shape) (payload : List ℕ)
      (keep : Option ℕ)
      → IsWellFormed h c
      → After (forward n h c sid seq dtype shape payload keep)
  forward-IsWellFormed h c sid seq dtype shape payload keep w go =
      elim (Result-cases (check_forward n h c sid seq)) [
        | inr (x, e1) ↦
            absurd (ground (arith, forward-fails h c sid seq dtype shape payload keep x e1))
        | inl (((cid, start, end), slice), e1) ↦
            let (after, replies) =
              forward-replies h c sid seq dtype shape payload keep cid start end slice e1 in
            let (open_, order, active) = check-found h c sid seq (cid, start, end) slice e1 in
            subst (λ (x : Host n × Conn). IsWellFormed (x.0) (x.1)) (sym after)
              (elim w [
                | inl closed ↦ absurd (ground arith)
                | inr (sid', key, (e2, e3, e4, g, cached)) ↦
                    let same : key ≡ (cid, start, end) =
                      key-inj key (cid, start, end) (sym e4 ∙ active) in
                    let (result, handle, pos) =
                      run_layers n slice start end c.index_pos dtype shape payload keep in
                    let run : LoadedSlice n = record slice { handle = handle } in
                    inr (
                      sid',
                      key,
                      (
                        e2,
                        e3,
                        e4,
                        g,
                        (run, put-found_at (cid, start, end) key run h.cache (sym same)),
                      ),
                    )
              ])
      ]

  -- A message that lets the session go on keeps it well-formed: either no session is open, or the
  -- session's slice is the one whose chain its guard counts and whose model is in the cache.
  pub handle_msg-IsWellFormed :
      (h : Host n) (c : Conn) (m : Msg) → IsWellFormed h c → After (handle_msg n h c m)
  unfolding handle_msg
  handle_msg-IsWellFormed h c (hello peer_id ver quants) w go = w
  handle_msg-IsWellFormed h c (session_init sid pub_key cid layers max_seq) w go =
      open_session-IsWellFormed h c sid (cid, layers.start, layers.end) go
  handle_msg-IsWellFormed h c (forward_hidden sid seq phase dtype shape payload kv keep) w go =
      forward-IsWellFormed h c sid seq dtype shape payload keep w go
  handle_msg-IsWellFormed h c (abort_session sid reason) w go = absurd (ground arith)
  handle_msg-IsWellFormed h c (heartbeat sid seq health) w go = w
  handle_msg-IsWellFormed h c (advertise capability sig) w go = w
  handle_msg-IsWellFormed h c (gossip topic payload sig) w go = w
  handle_msg-IsWellFormed h c (prompt sid text nonce) w go = absurd (ground arith)
  handle_msg-IsWellFormed h c (token sid seq logits sampled) w go = absurd (ground arith)
  handle_msg-IsWellFormed h c (session_ack sid pub_key) w go = absurd (ground arith)

  -- A request for activations that the session answers is one for the open session, with a sequence
  -- number above the last one, unless that is still zero. The answer carries the same session and
  -- number, and the number is the session's last from then on.
  pub forward-ordered :
      (h : Host n) (c : Conn) (sid seq : ℕ) (phase : Phase) (dtype : Dtype) (shape : Shape)
      (payload : List ℕ) (kv : Option (List ℕ)) (keep : Option ℕ)
      → (handle_msg n h c (forward_hidden sid seq phase dtype shape payload kv keep)).2 ≡ go_on
      → let o = handle_msg n h c (forward_hidden sid seq phase dtype shape payload kv keep) in
        (c.session_id ≡ some sid)
        × ((c.last_seq ≡ 0) ⊎ (c.last_seq < seq))
        × (o.0.1.last_seq ≡ seq)
        × ((out : Shape) × (bytes : List ℕ) × (o.1
              ≡ some (forward_hidden sid seq decode dtype out bytes none none)))
  unfolding handle_msg
  forward-ordered h c sid seq phase dtype shape payload kv keep go =
      elim (Result-cases (check_forward n h c sid seq)) [
        | inr (x, e1) ↦
            absurd (ground (arith, forward-fails h c sid seq dtype shape payload keep x e1))
        | inl (((cid, start, end), slice), e1) ↦
            let (after, replies) =
              forward-replies h c sid seq dtype shape payload keep cid start end slice e1 in
            let (open_, order, active) = check-found h c sid seq (cid, start, end) slice e1 in
            (open_, order, ap (λ (x : Host n × Conn). x.1.last_seq) after, replies go)
      ]
