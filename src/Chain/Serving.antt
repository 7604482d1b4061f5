-- ===== src/Chain/Serving.antt =====
-- One hop of crates/runtime/src/chain.rs with a server of crates/app/src/forward_server.rs behind the link.
use intelnav.Base.{
  ℕ, ◌+◌, ◌%◌, ◌<◌, String, ◌≡◌, refl, sym, ap, ◌∙◌, ◌⊎◌, inl, inr, true, false, ◌&&◌, Option, none,
  some, List, [], ◌∷◌, ◌==◌, if◌then◌else◌, ==_iff, Bool-cases, Option-cases, Result, ok, err,
  ◌>>=◌, ◌>>◌, guard, or_fail, Result-cases,
}
use mathlib.Core.Path.{subst}
use intelnav.Types.{u32_mod}
use intelnav.Wire.{Msg, forward_hidden, Phase, decode, Dtype, Shape}
use intelnav.Forward.{
  Engine, SessionError, Conn, Host, LoadedSlice, run_layers, handle_msg, forward, check_forward,
}
use intelnav.Forward.Session.{check-ready}
use intelnav.Control.{slice_key_eq}
use intelnav.Base.Table.{find}
use intelnav.Chain.{ChainError, dropped, other, Link, done, with_timeout}
use intelnav.Chain.Hops.{Hop, check_reply, is_wire_dtype, hop}

module _ (n : Engine) where
  open n use {Data, decode_hidden, encode_hidden}

  -- A peer with a session open, and the model that it serves.
  pub record Serving : Type 0 where
    pub host : Host n
    pub conn : Conn
    pub cid : String
    pub start : ℕ
    pub end : ℕ
    pub slice : LoadedSlice n

  -- The link's session is the one that the peer has open, and its numbers go on.
  abbrev pub Ready : Link → Serving → Type 0
  Ready link p =
      (p.conn.session_id ≡ some link.session)
      × (p.conn.loaded ≡ some (p.cid, p.start, p.end))
      × (p.conn.active_slice ≡ some (p.cid, p.start, p.end))
      × (find (p.cid, p.start, p.end) p.host.cache ≡ some p.slice)
      × ((p.conn.last_seq ≡ 0) ⊎ (p.conn.last_seq < link.seq + 1))

  abbrev pub AllReady : List Link → List Serving → Type 0
  AllReady [] [] = Unit
  AllReady (l ∷ ls) (p ∷ ps) = Ready l p × AllReady ls ps
  AllReady _ _ = true ≡ false

  -- What a request to a peer's server comes to, on a network that carries it.
  abbrev pub served : Serving → Msg → Hop
  served p req = record {
    written = some (done tt);
    reply = done ((handle_msg n p.host p.conn req).1);
  }

  -- The peers from `index` on answer on the network.
  abbrev pub Answers : (ℕ → Msg → Hop) → ℕ → List Serving → Type 0
  Answers net index [] = Unit
  Answers net index (p ∷ ps) =
      ((req : Msg) → net index req ≡ served p req) × Answers net (index + 1) ps

  module _ (dtype : Dtype) (keep : Option ℕ) where
    -- The batch and the sequence keep their sizes.
    abbrev same_rows : Shape × Data → Shape × Data → Option (Shape × Data)
    same_rows ((b, s, d), x) ((b', s', d'), y) =
        if b' == b && s' == s then some ((b', s', d'), y) else none

    -- A peer's layers on activations that go there and back in the wire's type.
    unfoldable pub layers_of : Serving → Shape × Data → Option (Shape × Data)
    layers_of p ((b, s, d), x) =
        elim (encode_hidden ((b % u32_mod, s % u32_mod, d % u32_mod), x) dtype) [
          | none ↦ none
          | some (shape, bytes) ↦
              elim ((run_layers n p.slice p.start p.end p.conn.index_pos dtype shape bytes
                keep).0) [
                  | err e ↦ none
                  | ok (out, back) ↦ elim (decode_hidden dtype out back) [
                    | none ↦ none
                    | some y ↦ same_rows ((b, s, d), x) y
                  ]
                ]
        ]

    reply-sent :
        (p : Serving) (sid seq : ℕ) (phase : Phase) (shape out : Shape) (bytes back : List ℕ)
        → check_forward n p.host p.conn sid seq ≡ ok ((p.cid, p.start, p.end), p.slice)
        → (run_layers n p.slice p.start p.end p.conn.index_pos dtype shape bytes keep).0
          ≡ ok (out, back)
        → (handle_msg n p.host p.conn (forward_hidden sid seq phase dtype shape bytes none keep)).1
          ≡ some (forward_hidden sid seq decode dtype out back none none)
    unfolding handle_msg forward
    reply-sent p sid seq phase shape out bytes back e1 e2 = rw (e1, forward) (rw e2 refl)

    reply-withheld :
        (p : Serving) (sid seq : ℕ) (phase : Phase) (shape : Shape) (bytes : List ℕ)
        (x : SessionError)
        → check_forward n p.host p.conn sid seq ≡ ok ((p.cid, p.start, p.end), p.slice)
        → (run_layers n p.slice p.start p.end p.conn.index_pos dtype shape bytes keep).0 ≡ err x
        → (handle_msg n p.host p.conn (forward_hidden sid seq phase dtype shape bytes none keep)).1
          ≡ none
    unfolding handle_msg forward
    reply-withheld p sid seq phase shape bytes x e1 e2 = rw (e1, forward) (rw e2 refl)

    -- A result of `layers_of`, as the driver sees it.
    abbrev pub Agrees : Result ChainError (Shape × Data) → Option (Shape × Data) → Type 0
    Agrees (ok y) (some z) = y ≡ z
    Agrees (err e) none = Unit
    Agrees _ _ = true ≡ false

    agree_ok :
        (r : Result ChainError (Shape × Data)) (o : Option (Shape × Data)) (y : Shape × Data)
        → r ≡ ok y
        → o ≡ some y
        → Agrees r o
    agree_ok r o y e1 e2 =
        subst (λ a. Agrees a o) (sym e1) (subst (λ a. Agrees (ok y) a) (sym e2) refl)

    agree_err :
        (r : Result ChainError (Shape × Data)) (o : Option (Shape × Data)) (x : ChainError)
        → r ≡ err x
        → o ≡ none
        → Agrees r o
    agree_err r o x e1 e2 =
        subst (λ a. Agrees a o) (sym e1) (subst (λ a. Agrees (err x) a) (sym e2) tt)

    module _ (net : ℕ → Msg → Hop) (phase : Phase) (index : ℕ) (link : Link) (p : Serving)
        (b s d : ℕ) (x : Data) where
      abbrev on_wire : Option (Shape × List ℕ)
      on_wire = encode_hidden ((b % u32_mod, s % u32_mod, d % u32_mod), x) dtype

      abbrev request : Shape → List ℕ → Msg
      request shape bytes =
          forward_hidden link.session (link.seq + 1) phase dtype shape bytes none keep

      hop-unsent : on_wire ≡ none → hop n net dtype phase keep index link ((b, s, d), x) ≡ err other
      unfolding hop
      hop-unsent e = rw e refl

      hop-silent :
          (shape : Shape) (bytes : List ℕ)
          → on_wire ≡ some (shape, bytes)
          → net index (request shape bytes) ≡ record { written = some (done tt); reply = done none }
          → hop n net dtype phase keep index link ((b, s, d), x) ≡ err (dropped index)
      unfolding hop check_reply with_timeout
      hop-silent shape bytes e1 e2 = rw e1 (rw e2 refl)

      hop-answered :
          (shape out : Shape) (bytes back : List ℕ)
          → on_wire ≡ some (shape, bytes)
          → net index (request shape bytes) ≡ record {
            written = some (done tt);
            reply =
                done (
                  some
                    (forward_hidden link.session (link.seq + 1) decode dtype out back none none));
          }
          → is_wire_dtype dtype ≡ true
          → hop n net dtype phase keep index link ((b, s, d), x) ≡ (
              or_fail (decode_hidden dtype out back) other >>= λ y.
              (guard (y.0.0 == b && y.0.1 == s) (dropped index) >> ok y))
      unfolding hop check_reply with_timeout
      hop-answered shape out bytes back e1 e2 wire =
          let same : (link.session == link.session) ≡ true = (==_iff _ _).1 refl in
          rw e1 (rw e2 (rw same (rw wire refl)))

      layers-unsent : on_wire ≡ none → layers_of p ((b, s, d), x) ≡ none
      unfolding layers_of
      layers-unsent e = rw (e, layers_of) refl

      layers-failed :
          (shape : Shape) (bytes : List ℕ) (e : SessionError)
          → on_wire ≡ some (shape, bytes)
          → (run_layers n p.slice p.start p.end p.conn.index_pos dtype shape bytes keep).0 ≡ err e
          → layers_of p ((b, s, d), x) ≡ none
      unfolding layers_of
      layers-failed shape bytes e e1 e2 = rw (e1, layers_of) (rw e2 refl)

      layers-ran :
          (shape out : Shape) (bytes back : List ℕ) (r : Option (Shape × Data))
          → on_wire ≡ some (shape, bytes)
          → (run_layers n p.slice p.start p.end p.conn.index_pos dtype shape bytes keep).0
            ≡ ok (out, back)
          → decode_hidden dtype out back ≡ r
          → layers_of p ((b, s, d), x)
            ≡ elim r [ none ↦ none | some y ↦ same_rows ((b, s, d), x) y ]
      unfolding layers_of
      layers-ran shape out bytes back r e1 e2 e3 = rw (e1, layers_of) (rw e2 (rw e3 refl))

      pub hop-layers_of :
          is_wire_dtype dtype ≡ true
          → ((req : Msg) → net index req ≡ served p req)
          → Ready link p
          → Agrees
              (hop n net dtype phase keep index link ((b, s, d), x))
              (layers_of p ((b, s, d), x))
      hop-layers_of wire answers (open_, loaded, active, cached, order) =
          let checks =
            check-ready n p.host p.conn link.session (link.seq + 1) (p.cid, p.start, p.end) p.slice
              open_ loaded active cached order in
          elim (Option-cases on_wire) [
            | inl bad ↦ agree_err _ _ other (hop-unsent bad) (layers-unsent bad)
            | inr ((shape, bytes), sent) ↦
                elim (Result-cases (
                  (run_layers n p.slice p.start p.end p.conn.index_pos dtype shape bytes keep).0)) [
                    | inr (e, failed_) ↦
                        let silent =
                          reply-withheld p link.session (link.seq + 1) phase shape bytes e checks
                            failed_ in
                        agree_err _ _ (dropped index)
                          (hop-silent shape bytes sent (
                            answers (request shape bytes)
                            ∙ ap (λ m. record { written = some (done tt); reply = done m }) silent))
                          (layers-failed shape bytes e sent failed_)
                    | inl ((out, back), ran) ↦
                        let reply =
                          reply-sent p link.session (link.seq + 1) phase shape out bytes back checks
                            ran in
                        let answered =
                          hop-answered shape out bytes back sent
                            (answers (request shape bytes)
                              ∙ ap (λ m. record { written = some (done tt); reply = done m }) reply)
                            wire in
                        elim (Option-cases (decode_hidden dtype out back)) [
                          | inl bad ↦
                              agree_err _ _ other (answered ∙ rw bad refl)
                                (layers-ran shape out bytes back none sent ran bad)
                          | inr (((b', s', d'), y), good) ↦ elim (Bool-cases (b' == b && s' == s)) [
                            | inl same ↦
                                agree_ok _ _ ((b', s', d'), y) (answered ∙ rw good (rw same refl))
                                  (layers-ran shape out bytes back _ sent ran good ∙ rw same refl)
                            | inr differs ↦
                                agree_err _ _ (dropped index) (answered ∙ rw good (rw differs refl))
                                  (layers-ran shape out bytes back _ sent ran good
                                    ∙ rw differs refl)
                          ]
                        ]
                  ]
          ]
