-- ===== src/Chain/Counting.antt =====
-- The numbers of the requests that the hop loop of crates/runtime/src/chain.rs sends.
use intelnav.Base.{
  ℕ, zero, suc, ◌+◌, ◌<◌, ◌≡◌, refl, sym, ap, ◌∙◌, ◌⊎◌, inl, inr, Bool, true, false, ◌&&◌, Option,
  none, some, List, [], ◌∷◌, arith, ◌==◌, length, Result, ok, err, ◌>>=◌, guard, or_fail,
  Result-cases,
}
use mathlib.Core.Path.{subst}
use intelnav.Wire.{
  Msg, hello, session_init, session_ack, prompt, forward_hidden, token, heartbeat, abort_session,
  advertise, gossip, Phase, Dtype, Shape,
}
use intelnav.Chain.Ranges.{with_timeout-Blames}
use intelnav.Forward.{Engine}
use intelnav.Chain.{ChainError, Link, failed_index, with_timeout, dropped, other, Waited}
use intelnav.Chain.Hops.{Hop, check_reply, is_wire_dtype, hop, step_links}

-- The first `k` links have sent one request more, the others none; nothing else of a link changes.
abbrev pub counted : ℕ → List Link → List Link
counted zero links = links
counted (suc k) [] = []
counted (suc k) (l ∷ ls) = record l { seq = l.seq + 1 } ∷ counted k ls

-- A failure is the codec's or the framing's, or names this peer.
abbrev Faults : {A : Type 0} → ℕ → Result ChainError A → Type 0
Faults i r = (e : ChainError) → r ≡ err e → (e ≡ other) ⊎ (failed_index e ≡ some i)

then-Faults :
    {A B : Type 0} (i : ℕ) (m : Result ChainError A) (f : A → Result ChainError B)
    → Faults i m
    → ((a : A) → Faults i (f a))
    → Faults i (m >>= f)
then-Faults i (ok a) f first rest e h = rest a e h
then-Faults i (err x) f first rest e h = first e (ground arith)

ok-Faults : {A : Type 0} (i : ℕ) (a : A) → Faults i (ok a)
ok-Faults i a e h = absurd (ground arith)

codec-Faults : {A : Type 0} (i : ℕ) (o : Option A) → Faults i (or_fail o other)
codec-Faults i none e h = inl (ground arith)
codec-Faults i (some a) e h = absurd (ground arith)

guard-Faults : (i : ℕ) (t : Bool) → Faults i (guard t (dropped i))
unfolding failed_index
guard-Faults i true e h = absurd (ground arith)
guard-Faults i false e h = inr (ground arith)

with_timeout-Faults : {A : Type 0} (i : ℕ) (w : Waited A) → Faults i (with_timeout i w)
with_timeout-Faults i w e h = inr (with_timeout-Blames i w e h)

check_reply-Faults : (i session : ℕ) (m : Option Msg) → Faults i (check_reply i session m)
unfolding check_reply failed_index
check_reply-Faults i session none e h = inr (ground arith)
check_reply-Faults i session (some (hello a b c)) e h = inr (ground arith)
check_reply-Faults i session (some (session_init a b c d f)) e h = inr (ground arith)
check_reply-Faults i session (some (session_ack a b)) e h = inr (ground arith)
check_reply-Faults i session (some (prompt a b c)) e h = inr (ground arith)
check_reply-Faults i session (some (forward_hidden a b c d f g j k)) e h = inr (ground arith)
check_reply-Faults i session (some (token a b c d)) e h = inr (ground arith)
check_reply-Faults i session (some (heartbeat a b c)) e h = inr (ground arith)
check_reply-Faults i session (some (abort_session a b)) e h = inr (ground arith)
check_reply-Faults i session (some (advertise a b)) e h = inr (ground arith)
check_reply-Faults i session (some (gossip a b c)) e h = inr (ground arith)

module _ (n : Engine) (net : ℕ → Msg → Hop) (dtype : Dtype) (phase : Phase) (keep : Option ℕ) where
  -- How many links have counted a request: all in a step that goes through; in one that fails, those
  -- up to the peer that the error names, if it names one.
  abbrev pub CountsUpTo : ℕ → Result ChainError (Shape × n.Data) → ℕ → ℕ → Type 0
  CountsUpTo index (ok y) k total = k ≡ total
  CountsUpTo index (err e) k total =
      (j : ℕ) × (k ≡ suc j) × (j < total) × ((e ≡ other) ⊎ (failed_index e ≡ some (index + j)))

  hop-Faults : (i : ℕ) (l : Link) (x : Shape × n.Data) → Faults i (hop n net dtype phase keep i l x)
  unfolding hop
  hop-Faults i l ((b, s, d), x) =
      then-Faults i (or_fail (n.encode_hidden _ dtype) other) _
        (codec-Faults i (n.encode_hidden _ dtype))
        (λ p.
          let req = forward_hidden l.session (l.seq + 1) phase dtype p.0 p.1 none keep in
          then-Faults i (or_fail (net i req).written other) _ (codec-Faults i (net i req).written)
            (λ sent. then-Faults i (with_timeout i sent) _ (with_timeout-Faults i sent) (λ u.
              then-Faults i (with_timeout i (net i req).reply) _
                (with_timeout-Faults i (net i req).reply)
                (λ m.
                  then-Faults i (check_reply i l.session m) _ (check_reply-Faults i l.session m)
                    (λ r.
                      then-Faults i (guard (is_wire_dtype r.0) (dropped i)) _
                        (guard-Faults i (is_wire_dtype r.0))
                        (λ v.
                          then-Faults i (or_fail (n.decode_hidden r.0 r.1 r.2) other) _
                            (codec-Faults i (n.decode_hidden r.0 r.1 r.2))
                            (λ y.
                              then-Faults i (guard (y.0.0 == b && y.0.1 == s) (dropped i)) _
                                (guard-Faults i (y.0.0 == b && y.0.1 == s))
                                (λ w. ok-Faults i y))))))))

  counts-on :
      (index : ℕ) (l : Link) (ls : List Link) (x y : Shape × n.Data)
      → hop n net dtype phase keep index l x ≡ ok y
      → step_links n net dtype phase keep index (l ∷ ls) x ≡ (
        (step_links n net dtype phase keep (index + 1) ls y).0,
        record l { seq = l.seq + 1 } ∷ (step_links n net dtype phase keep (index + 1) ls y).1,
      )
  unfolding step_links
  counts-on index l ls x y e = rw (e, step_links) refl

  counts-stop :
      (index : ℕ) (l : Link) (ls : List Link) (x : Shape × n.Data) (e : ChainError)
      → hop n net dtype phase keep index l x ≡ err e
      → step_links n net dtype phase keep index (l ∷ ls) x
        ≡ (err e, record l { seq = l.seq + 1 } ∷ ls)
  unfolding step_links
  counts-stop index l ls x e e1 = rw (e1, step_links) refl

  CountsUpTo-suc :
      (index : ℕ) (r : Result ChainError (Shape × n.Data)) (k total : ℕ)
      → CountsUpTo (index + 1) r k total
      → CountsUpTo index r (suc k) (suc total)
  CountsUpTo-suc index (ok y) k total h = ap suc h
  CountsUpTo-suc index (err e) k total (j, at, below, inl codec) =
      (suc j, ap suc at, omega arith, inl codec)
  CountsUpTo-suc index (err e) k total (j, at, below, inr named) =
      (suc j, ap suc at, omega arith, inr (named ∙ ap some (omega arith)))

  first_fault :
      (index : ℕ) (e : ChainError)
      → (e ≡ other) ⊎ (failed_index e ≡ some index)
      → (e ≡ other) ⊎ (failed_index e ≡ some (index + 0))
  first_fault index e (inl codec) = inl codec
  first_fault index e (inr named) = inr (named ∙ ap some (omega arith))

  -- A step of the chain, whatever the peers do, adds one to the numbers of the first links and to no
  -- other: of all of them when it goes through; when it fails at a peer that the error names, of those
  -- up to that peer; when the codec or the framing fails, of at least one. Sessions, addresses and layers stay.
  pub step_links-counts :
      (index : ℕ) (links : List Link) (x : Shape × n.Data)
      → let (result, after) = step_links n net dtype phase keep index links x in
        (k : ℕ) × (after ≡ counted k links) × CountsUpTo index result k (length links)
  unfolding step_links
  step_links-counts index [] x = (0, refl, refl)
  step_links-counts index (l ∷ ls) x = elim (Result-cases (hop n net dtype phase keep index l x)) [
    | inr (e, e1) ↦
        subst (λ r. (k : ℕ) × (r.1 ≡ counted k (l ∷ ls)) × CountsUpTo index r.0 k (suc (length ls)))
          (sym (counts-stop index l ls x e e1))
          (1, refl, (0, refl, omega arith, first_fault index e (hop-Faults index l x e e1)))
    | inl (y, e1) ↦
        let (k, after, upto) = step_links-counts (index + 1) ls y in
        subst (λ r. (k : ℕ) × (r.1 ≡ counted k (l ∷ ls)) × CountsUpTo index r.0 k (suc (length ls)))
          (sym (counts-on index l ls x y e1))
          (
            suc k,
            ap (λ t. record l { seq = l.seq + 1 } ∷ t) after,
            CountsUpTo-suc index _ k (length ls) upto,
          )
  ]
