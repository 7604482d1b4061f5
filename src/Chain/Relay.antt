-- ===== src/Chain/Relay.antt =====
-- The driver of crates/runtime/src/chain.rs with the servers of crates/app/src/forward_server.rs behind
-- its links: a step of the chain is the peers' layers one behind another.
use intelnav.Base.{
  ℕ, ◌+◌, ◌≡◌, refl, sym, ap, ◌⊎◌, inl, inr, true, Option, none, some, List, [], ◌∷◌, arith, Result,
  ok, err,
}
use mathlib.Core.Path.{subst}
use intelnav.Wire.{Msg, Phase, Dtype, Shape}
use intelnav.Forward.{Engine}
use intelnav.Control.{slice_key_eq}
use intelnav.Chain.{ChainError, Link}
use intelnav.Chain.Hops.{Hop, is_wire_dtype, hop, step_links}
use intelnav.Chain.Serving.{Serving, Answers, AllReady, layers_of, Agrees, hop-layers_of}

module _ (n : Engine) (dtype : Dtype) (keep : Option ℕ) where
  open n use {Data}

  unfoldable pub relay : List (Serving n) → Shape × Data → Option (Shape × Data)
  relay [] x = some x
  relay (p ∷ ps) x = elim (layers_of n dtype keep p x) [ none ↦ none | some y ↦ relay ps y ]

  agree :
      {r r' : Result ChainError (Shape × Data)} {o o' : Option (Shape × Data)}
      → r ≡ r'
      → o ≡ o'
      → Agrees n dtype keep r' o'
      → Agrees n dtype keep r o
  agree {r = r} {o' = o'} er eo h =
      subst (λ a. Agrees n dtype keep r a) (sym eo)
        (subst (λ a. Agrees n dtype keep a o') (sym er) h)

  step-on :
      (net : ℕ → Msg → Hop) (phase : Phase) (index : ℕ) (l : Link) (ls : List Link)
      (x y : Shape × Data)
      → hop n net dtype phase keep index l x ≡ ok y
      → (step_links n net dtype phase keep index (l ∷ ls) x).0
        ≡ (step_links n net dtype phase keep (index + 1) ls y).0
  unfolding step_links
  step-on net phase index l ls x y e = rw (e, step_links) refl

  step-stops :
      (net : ℕ → Msg → Hop) (phase : Phase) (index : ℕ) (l : Link) (ls : List Link)
      (x : Shape × Data) (e : ChainError)
      → hop n net dtype phase keep index l x ≡ err e
      → (step_links n net dtype phase keep index (l ∷ ls) x).0 ≡ err e
  unfolding step_links
  step-stops net phase index l ls x e e1 = rw (e1, step_links) refl

  relay-on :
      (p : Serving n) (ps : List (Serving n)) (x y : Shape × Data)
      → layers_of n dtype keep p x ≡ some y
      → relay (p ∷ ps) x ≡ relay ps y
  unfolding relay
  relay-on p ps x y e = rw (e, relay) refl

  relay-stops :
      (p : Serving n) (ps : List (Serving n)) (x : Shape × Data)
      → layers_of n dtype keep p x ≡ none
      → relay (p ∷ ps) x ≡ none
  unfolding relay
  relay-stops p ps x e = rw (e, relay) refl

  Agrees-cases :
      (r : Result ChainError (Shape × Data)) (o : Option (Shape × Data))
      → Agrees n dtype keep r o
      → ((y : Shape × Data) × (r ≡ ok y) × (o ≡ some y))
        ⊎ ((e : ChainError) × (r ≡ err e) × (o ≡ none))
  Agrees-cases (ok y) (some z) h = inl (y, refl, ap some (sym h))
  Agrees-cases (err e) none h = inr (e, refl, refl)
  Agrees-cases (ok y) none h = absurd (ground (arith, h))
  Agrees-cases (err e) (some z) h = absurd (ground (arith, h))

  -- With sessions open on all of its peers, a wire type that the codec has, and a network that
  -- carries every message, a step of the chain gives exactly what the peers' layers give one behind
  -- another on activations that go there and back in the wire's type, and an error where that fails.
  pub step_links-relay :
      (net : ℕ → Msg → Hop) (phase : Phase) (index : ℕ) (links : List Link) (ps : List (Serving n))
      (x : Shape × Data)
      → is_wire_dtype dtype ≡ true
      → Answers n net index ps
      → AllReady n links ps
      → Agrees n dtype keep ((step_links n net dtype phase keep index links x).0) (relay ps x)
  unfolding step_links relay
  step_links-relay net phase index [] [] x wire answers ready = refl
  step_links-relay net phase index [] (p ∷ ps) x wire answers ready = absurd (ground (arith, ready))
  step_links-relay net phase index (l ∷ ls) [] x wire answers ready = absurd (ground (arith, ready))
  step_links-relay net phase index (l ∷ ls) (p ∷ ps) ((b, s, d), x) wire answers ready =
      elim (Agrees-cases _ _
        (hop-layers_of n dtype keep net phase index l p b s d x wire answers.0 ready.0)) [
          | inl (y, e1, e2) ↦
              agree (step-on net phase index l ls ((b, s, d), x) y e1)
                (relay-on p ps ((b, s, d), x) y e2)
                (step_links-relay net phase (index + 1) ls ps y wire answers.1 ready.1)
          | inr (e, e1, e2) ↦
              agree (step-stops net phase index l ls ((b, s, d), x) e e1)
                (relay-stops p ps ((b, s, d), x) e2) tt
        ]
