-- ===== src/Forward/Sharing.antt =====
-- Two sessions on one slice of crates/app/src/forward_server.rs share its model, and the keys that
-- the model has cached.
use intelnav.Base.{ℕ, ◌<◌, String, ◌≡◌, refl, sym, inr, some, ok}
use intelnav.Base.Table.{find, put}
use intelnav.Types.{LayerRange}
use intelnav.Wire.{session_init, session_ack}
use intelnav.Control.{ControlState, SliceKey, slice_key_eq, ChainGuard, accept_chain}
use intelnav.Forward.{
  Engine, go_on, Conn, LoadedSlice, Host, prepare_slice, Outcome, check_forward, handle_msg,
}
use intelnav.Forward.Session.{admitted_to, open_session-opens, put-found, check-ready}
use mathlib.Core.Path.{subst}

module _ (n : Engine) where
  in_cache :
      (h : Host n) (cid : String) (start end : ℕ) (slice : LoadedSlice n)
      → find (cid, start, end) h.cache ≡ some slice
      → prepare_slice n h (cid, start, end) ≡ ok (slice, h)
  unfolding prepare_slice
  in_cache h cid start end slice e = rw (e, prepare_slice) refl

  -- When one connection has a session on a slice whose model is in the cache, and a second
  -- connection asks for a session on the same slice and is admitted there, the second one is
  -- acknowledged; the first one's next message, with a sequence number above its last, still passes
  -- every check, but the model that it finds has been reset.
  pub session_resets_other :
      (h : Host n) (a b : Conn) (sid_a sid_b pub_key max_seq seq : ℕ) (cid : String)
      (layers : LayerRange) (t : ControlState) (g : ChainGuard) (slice : LoadedSlice n)
      → a.session_id ≡ some sid_a
      → a.loaded ≡ some (cid, layers.start, layers.end)
      → a.active_slice ≡ some (cid, layers.start, layers.end)
      → find (cid, layers.start, layers.end) h.cache ≡ some slice
      → a.last_seq < seq
      → accept_chain h.control (cid, layers.start, layers.end) ≡ some (t, g)
      → let o = handle_msg n h b (session_init sid_b pub_key cid layers max_seq) in
        (o.2 ≡ go_on)
        × (o.1 ≡ some (session_ack sid_b 0))
        × (check_forward n (o.0.0) a sid_a seq
            ≡ ok (
              (cid, layers.start, layers.end),
              record slice { handle = n.reset_cache slice.handle },
            ))
  unfolding handle_msg
  session_resets_other h a b sid_a sid_b pub_key max_seq seq cid layers t g slice e1 e2 e3 e4 later
        admitted =
      let key : SliceKey = (cid, layers.start, layers.end) in
      let prepared = in_cache (admitted_to n h b t) cid layers.start layers.end slice e4 in
      let opens =
        open_session-opens n h (admitted_to n h b t) b sid_b key t g slice admitted prepared in
      let h1 = admitted_to n h b t in
      let reset : LoadedSlice n = record slice { handle = n.reset_cache slice.handle } in
      subst
        (λ (o : Outcome n).
          (o.2 ≡ go_on)
          × (o.1 ≡ some (session_ack sid_b 0))
          × (check_forward n (o.0.0) a sid_a seq ≡ ok (key, reset)))
        (sym opens)
        (
          refl,
          refl,
          check-ready n (record h1 { cache = put key reset h1.cache }) a sid_a seq key reset e1 e2
              e3 (put-found n key reset h.cache) (inr later),
        )
