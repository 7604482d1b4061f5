-- ===== src/Forward/Balance.antt =====
-- What a connection of crates/app/src/forward_server.rs leaves behind in the slice table of
-- crates/app/src/control.rs.
use intelnav.Base.{
  ℕ, String, ◌≡◌, refl, sym, ap, ◌∙◌, ◌⊎◌, inl, inr, false, Option, none, some, List, [], ◌∷◌, ◌++◌,
  arith, Bool-cases, Option-cases, All, ok, err, Result-cases, ok-inj,
}
use mathlib.Core.Path.{subst}
use intelnav.Base.Table.{find, put, contains, range_eq}
use intelnav.Wire.{
  Msg, hello, session_init, session_ack, abort_session, prompt, forward_hidden, token, heartbeat,
  advertise, gossip, Dtype, Shape,
}
use intelnav.Control.{ControlState, SliceKey, slice_key_eq, ChainGuard, accept_chain}
use intelnav.Control.Chains.{Event, run}
use intelnav.Control.Entries.{accept-cases}
use intelnav.Forward.{
  Engine, SessionError, Verdict, go_on, hang_up, fails, Conn, new_conn, LoadedSlice, Host,
  prepare_slice, resolve, drop_guard, Outcome, open_session, check_forward, forward, handle_msg,
  handle_connection,
}
use intelnav.Forward.Session.{admitted_to, open_session-opens, forward-replies}
use intelnav.Forward.Guards.{
  IsChainEvent, All-append, run-append, IsLive, sys, Leads, switches, closes,
}

Verdict-cases : (v : Verdict) → (v ≡ go_on) ⊎ ((v ≡ hang_up) ⊎ ((x : SessionError) × (v ≡ fails x)))
Verdict-cases go_on = inl refl
Verdict-cases hang_up = inr (inl refl)
Verdict-cases (fails x) = inr (inr (x, refl))

module _ (n : Engine) where
  loads-control :
      (h h' : Host n) (cid : String) (start end : ℕ) (slice : LoadedSlice n)
      → find (cid, start, end) h.cache ≡ none
      → prepare_slice n h (cid, start, end) ≡ ok (slice, h')
      → h'.control ≡ h.control
  unfolding prepare_slice
  loads-control h h' cid start end slice missing e = elim (Option-cases (h.shards cid)) [
    | inl unread ↦ absurd (ground arith)
    | inr (d, read) ↦ elim (Bool-cases (contains (start, end) d.disabled)) [
      | inl off ↦ absurd (ground arith)
      | inr on ↦ elim (Bool-cases (contains (start, end) d.kept)) [
        | inr gone ↦ absurd (ground arith)
        | inl there ↦ elim (Result-cases (resolve n d start end)) [
          | inr (x, fails_to) ↦ absurd (ground arith)
          | inl (s, loaded) ↦
              let whole : prepare_slice n h (cid, start, end)
                  ≡ ok (s, record h { cache = put (cid, start, end) s h.cache }) =
                rw (missing, prepare_slice) (rw read (rw on (rw there (rw loaded refl)))) in
              ap (λ (x : LoadedSlice n × Host n). x.1.control) (ok-inj (sym e ∙ whole))
        ]
      ]
    ]
  ]

  prepare-control :
      (h h' : Host n) (cid : String) (start end : ℕ) (slice : LoadedSlice n)
      → prepare_slice n h (cid, start, end) ≡ ok (slice, h')
      → h'.control ≡ h.control
  unfolding prepare_slice
  prepare-control h h' cid start end slice e =
      elim (Option-cases (find (cid, start, end) h.cache)) [
        | inr (s, there) ↦
            let whole : prepare_slice n h (cid, start, end) ≡ ok (s, h) =
              rw (there, prepare_slice) refl in
            ap (λ (x : LoadedSlice n × Host n). x.1.control) (ok-inj (sym e ∙ whole))
        | inl missing ↦ loads-control h h' cid start end slice missing e
      ]

  abbrev pub LeadsTo : List SliceKey → Host n → Conn → Host n × Conn → Type 0
  LeadsTo gs h c o = Leads gs h.control c.guard_held o.0.control o.1.guard_held

  stays : (gs : List SliceKey) (h : Host n) (c : Conn) → IsLive c.guard_held → LeadsTo gs h c (h, c)
  unfolding run
  stays gs h c live = ([], tt, refl, live)

  open_session-refuses :
      (h : Host n) (c : Conn) (sid : ℕ) (key : SliceKey)
      → accept_chain h.control key ≡ none
      → (open_session n h c sid key).0 ≡ (h, c)
  unfolding open_session
  open_session-refuses h c sid key e = rw (e, open_session) refl

  open_session-unloaded :
      (h : Host n) (c : Conn) (sid : ℕ) (key : SliceKey) (t : ControlState) (g : ChainGuard)
      (x : SessionError)
      → accept_chain h.control key ≡ some (t, g)
      → prepare_slice n (admitted_to n h c t) key ≡ err x
      → (open_session n h c sid key).0
        ≡ (admitted_to n h c t, record c { guard_held = some g; active_slice = some key })
  unfolding open_session
  open_session-unloaded h c sid key t g x e1 e2 = rw (e1, open_session) (rw e2 refl)

  open_session-leads :
      (gs : List SliceKey) (h : Host n) (c : Conn) (sid : ℕ) (cid : String) (start end : ℕ)
      → IsLive c.guard_held
      → LeadsTo gs h c ((open_session n h c sid (cid, start, end)).0)
  open_session-leads gs h c sid cid start end live =
      let key : SliceKey = (cid, start, end) in
      elim (accept-cases h.control key) [
        | inl refused ↦
            subst (LeadsTo gs h c) (sym (open_session-refuses h c sid key refused))
              (stays gs h c live)
        | inr (entry, t, found, announces, admitted, entries) ↦
            let g : ChainGuard = record { key = key; released = false } in
            let moved = switches gs h.control t key c.guard_held g admitted refl live n in
            elim (Result-cases (prepare_slice n (admitted_to n h c t) key)) [
              | inr (x, unloaded) ↦
                  subst (LeadsTo gs h c)
                    (sym (open_session-unloaded h c sid key t g x admitted unloaded)) moved
              | inl ((slice, h'), prepared) ↦
                  let same =
                    prepare-control (admitted_to n h c t) h' cid start end slice prepared in
                  subst (LeadsTo gs h c)
                    (ap (λ (o : Outcome n). o.0)
                      (sym (open_session-opens n h h' c sid key t g slice admitted prepared)))
                    (subst (λ s. Leads gs h.control c.guard_held s (some g)) (sym same) moved)
            ]
      ]

  forward-stops :
      (h : Host n) (c : Conn) (sid seq : ℕ) (dtype : Dtype) (shape : Shape) (payload : List ℕ)
      (keep : Option ℕ) (x : SessionError)
      → check_forward n h c sid seq ≡ err x
      → (forward n h c sid seq dtype shape payload keep).0 ≡ (h, c)
  unfolding forward
  forward-stops h c sid seq dtype shape payload keep x e = rw (e, forward) refl

  forward-leads :
      (gs : List SliceKey) (h : Host n) (c : Conn) (sid seq : ℕ) (dtype : Dtype) (shape : Shape)
      (payload : List ℕ) (keep : Option ℕ)
      → IsLive c.guard_held
      → LeadsTo gs h c ((forward n h c sid seq dtype shape payload keep).0)
  unfolding forward
  forward-leads gs h c sid seq dtype shape payload keep live =
      elim (Result-cases (check_forward n h c sid seq)) [
        | inr (x, e) ↦
            subst (LeadsTo gs h c) (sym (forward-stops h c sid seq dtype shape payload keep x e))
              (stays gs h c live)
        | inl (((cid, start, end), slice), e) ↦
            subst (LeadsTo gs h c)
              (sym
                ((forward-replies n h c sid seq dtype shape payload keep cid start end slice e).0))
              (stays gs h c live)
      ]

  handle_msg-leads :
      (gs : List SliceKey) (h : Host n) (c : Conn) (m : Msg)
      → IsLive c.guard_held
      → LeadsTo gs h c ((handle_msg n h c m).0)
  unfolding handle_msg
  handle_msg-leads gs h c (hello peer_id ver quants) live = stays gs h c live
  handle_msg-leads gs h c (session_init sid pub_key cid layers max_seq) live =
      open_session-leads gs h c sid cid layers.start layers.end live
  handle_msg-leads gs h c (forward_hidden sid seq phase dtype shape payload kv keep) live =
      forward-leads gs h c sid seq dtype shape payload keep live
  handle_msg-leads gs h c (abort_session sid reason) live = stays gs h c live
  handle_msg-leads gs h c (heartbeat sid seq health) live = stays gs h c live
  handle_msg-leads gs h c (advertise capability sig) live = stays gs h c live
  handle_msg-leads gs h c (gossip topic payload sig) live = stays gs h c live
  handle_msg-leads gs h c (prompt sid text nonce) live = stays gs h c live
  handle_msg-leads gs h c (token sid seq logits sampled) live = stays gs h c live
  handle_msg-leads gs h c (session_ack sid pub_key) live = stays gs h c live

  -- One history behind another.
  chained :
      (gs : List SliceKey) (s t u : ControlState) (g g' g'' : Option ChainGuard)
      → Leads gs s g t g'
      → Leads gs t g' u g''
      → Leads gs s g u g''
  chained gs s t u g g' g'' (es, all1, e1, live1) (fs, all2, e2, live2) = (
    es ++ fs,
    All-append es fs all1 all2,
    run-append (sys s g gs) es fs ∙ ap (λ w. run w fs) e1 ∙ e2,
    live2,
  )

  connection-Leads :
      (gs : List SliceKey) (h : Host n) (c : Conn) (ms : List Msg)
      → IsLive c.guard_held
      → Leads gs h.control c.guard_held (handle_connection n h c ms).0.control none
  unfolding handle_connection
  connection-Leads gs h c [] live = closes gs h.control c.guard_held n live
  connection-Leads gs h c (m ∷ ms) live =
      let o = handle_msg n h c m in
      let here = handle_msg-leads gs h c m live in
      let ended = closes gs o.0.0.control o.0.1.guard_held n here.3 in
      let later = connection-Leads gs (o.0.0) (o.0.1) ms here.3 in
      let own = c.guard_held in
      let mid = o.0.1.guard_held in
      elim (Verdict-cases o.2) [
        | inl e ↦
            rw (e, handle_connection)
              (chained gs h.control (o.0.0.control)
                ((handle_connection n (o.0.0) (o.0.1) ms).0.control) own mid none here later)
        | inr (inl e) ↦
            rw (e, handle_connection)
              (chained gs h.control (o.0.0.control) (drop_guard n mid (o.0.0.control)) own mid none
                here ended)
        | inr (inr (x, e)) ↦
            rw (e, handle_connection)
              (chained gs h.control (o.0.0.control) (drop_guard n mid (o.0.0.control)) own mid none
                here ended)
      ]

  -- Whatever messages come on a new connection, its effect on the slice table is that of a history of
  -- chains that connect and hang up, at the end of which no guard is left but those that others held
  -- before.
  pub handle_connection-balances :
      (h : Host n) (ms : List Msg) (others : List SliceKey)
      → (es : List Event) × All IsChainEvent es
        × (run (record { control = h.control; guards = others }) es
            ≡ record { control = (handle_connection n h new_conn ms).0.control; guards = others })
  handle_connection-balances h ms others =
      let (es, only, led, live) = connection-Leads others h new_conn ms tt in (es, only, led)
