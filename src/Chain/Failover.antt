-- ===== src/Chain/Failover.antt =====
-- The failover of crates/app/src/chain_driver.rs: what a swap changes, and when the attempts end.
use intelnav.Base.{
  ℕ, zero, suc, ◌+◌, ◌<◌, String, ◌≡◌, refl, sym, ap, ◌∙◌, inl, inr, ◌⊎◌, none, if◌then◌else◌, ◌==◌,
  true, false, Option, some, List, [], ◌∷◌, arith, ltb, lt→ltb, Bool-cases, Option-cases,
  List-cases, length, get_elem?, set, length-set, Result, ok, err, Result-cases,
}
use intelnav.Chain.{ChainError, failed_index, Chain, Peer, connect}
use intelnav.Chain.Swarm.{
  max_failover_attempts, ChainTarget, failover, cfg_of, connect_attempts, connect_with_failover,
}

-- The alternates that are left over all hops.
abbrev pub spares : List (List String) → ℕ
spares [] = 0
spares (a ∷ more) = length a + spares more

spares-set :
    (lists : List (List String)) (i : ℕ) (next : String) (rest : List String)
    → get_elem? lists i ≡ some (next ∷ rest)
    → spares (set lists i rest) + 1 ≡ spares lists
spares-set [] i next rest e = absurd (ground arith)
spares-set (a ∷ more) zero next rest e = ground arith
spares-set (a ∷ more) (suc i) next rest e =
    ground (arith, spares-set more i next rest (ground arith))

elem-bound :
    (lists : List (List String)) (i : ℕ) (found : List String)
    → get_elem? lists i ≡ some found
    → i < length lists
elem-bound [] i found e = absurd (ground arith)
elem-bound (a ∷ more) zero found e = ground arith
elem-bound (a ∷ more) (suc i) found e = ground (arith, elem-bound more i found (ground arith))

elem-set :
    {A : Type 0} (l : List A) (i j : ℕ) (a : A)
    → i < length l
    → get_elem? (set l i a) j ≡ (if i == j then some a else get_elem? l j)
elem-set [] i j a h = absurd (omega arith)
elem-set (x ∷ l) zero zero a h = ground arith
elem-set (x ∷ l) zero (suc j) a h = ground arith
elem-set (x ∷ l) (suc i) zero a h = ground arith
elem-set (x ∷ l) (suc i) (suc j) a h = ground (arith, elem-set l i j a)

-- For a target with a list of alternates for each hop: where hop `i` has an alternate, failover puts
-- the first in the place of the hop and takes it off the list; every other hop, its alternates and
-- the splits stay, and one alternate less is left over all hops. Otherwise nothing is swapped and the
-- target is as it was.
pub failover-swaps :
    (t : ChainTarget) (i j : ℕ)
    → length t.alternates ≡ length t.hops
    → let (t', swapped) = failover t i in
      ((next : String) × (rest : List String) × (swapped ≡ true)
        × (get_elem? t.alternates i ≡ some (next ∷ rest))
        × (get_elem? t'.hops j ≡ (if i == j then some next else get_elem? t.hops j))
        × (get_elem? t'.alternates j ≡ (if i == j then some rest else get_elem? t.alternates j))
        × (t'.starts ≡ t.starts)
        × (length t'.hops ≡ length t.hops)
        × (length t'.alternates ≡ length t'.hops)
        × (spares t'.alternates + 1 ≡ spares t.alternates))
      ⊎ ((swapped ≡ false)
          × (t' ≡ t)
          × ((get_elem? t.alternates i ≡ none) ⊎ (get_elem? t.alternates i ≡ some [])))
unfolding failover
failover-swaps t i j same = elim (Option-cases (get_elem? t.alternates i)) [
  | inl gone ↦ inr (rw (gone, failover) refl, rw (gone, failover) refl, inl gone)
  | inr (alts, there) ↦ elim (List-cases alts) [
    | inl empty ↦
        let found : get_elem? t.alternates i ≡ some [] = there ∙ ap some empty in
        inr (rw (found, failover) refl, rw (found, failover) refl, inr found)
    | inr (next, rest, shape) ↦
        let found : get_elem? t.alternates i ≡ some (next ∷ rest) = there ∙ ap some shape in
        let listed : i < length t.alternates = elem-bound t.alternates i alts there in
        let here : i < length t.hops = omega arith in
        let after : failover t i
            ≡ (record t { hops = set t.hops i next; alternates = set t.alternates i rest }, true) =
          rw (found, failover) (rw (lt→ltb i (length t.hops) here) refl) in
        inl (
          next,
          rest,
          ap (λ r. r.1) after,
          found,
          ap (λ r. get_elem? r.0.hops j) after ∙ elem-set t.hops i j next here,
          ap (λ r. get_elem? r.0.alternates j) after ∙ elem-set t.alternates i j rest listed,
          ap (λ r. r.0.starts) after,
          ap (λ r. length r.0.hops) after ∙ length-set t.hops i next,
          ap (λ r. length r.0.alternates) after
              ∙ length-set t.alternates i rest
              ∙ same
              ∙ sym (ap (λ r. length r.0.hops) after ∙ length-set t.hops i next),
          ap (λ r. spares r.0.alternates + 1) after ∙ spares-set t.alternates i next rest found,
        )
  ]
]

abbrev Total : Option (Result ChainError Chain) × ChainTarget → Type 0
Total o = (r : Result ChainError Chain) × (o.0 ≡ some r)

retry :
    (fuel attempts : ℕ) (model : String) (n_blocks : ℕ) (net : ℕ → ℕ → String → Peer)
    (t : ChainTarget) (x : ChainError) (i : ℕ)
    → connect (cfg_of model t) n_blocks (net attempts) ≡ err x
    → failed_index x ≡ some i
    → ltb max_failover_attempts (attempts + 1) ≡ false
    → (failover t i).1 ≡ true
    → connect_attempts (suc fuel) attempts model n_blocks net t
      ≡ connect_attempts fuel (attempts + 1) model n_blocks net ((failover t i).0)
unfolding connect_attempts
retry fuel attempts model n_blocks net t x i e named go_on swapped =
    rw (e, connect_attempts) (rw named (rw go_on (rw swapped refl)))

attempts-end :
    (fuel attempts : ℕ) (model : String) (n_blocks : ℕ) (net : ℕ → ℕ → String → Peer)
    (t : ChainTarget)
    → max_failover_attempts < fuel + attempts
    → 0 < fuel
    → Total (connect_attempts fuel attempts model n_blocks net t)
unfolding connect_attempts
attempts-end zero attempts model n_blocks net t enough some_left = absurd (ground arith)
attempts-end (suc fuel) attempts model n_blocks net t enough some_left =
    elim (Result-cases (connect (cfg_of model t) n_blocks (net attempts))) [
      | inl (chain, e) ↦ (ok chain, ground arith)
      | inr (x, e) ↦ elim (Option-cases (failed_index x)) [
        | inl unnamed ↦ (err x, ground arith)
        | inr (i, named) ↦ elim (Bool-cases (ltb max_failover_attempts (attempts + 1))) [
          | inl enough_tried ↦ (err x, ground arith)
          | inr go_on ↦ elim (Bool-cases ((failover t i).1)) [
            | inl swapped ↦
                let (r, total) =
                  attempts-end fuel (attempts + 1) model n_blocks net ((failover t i).0)
                    (ground arith) (ground arith) in
                (
                  r,
                  ap (λ o. o.0) (retry fuel attempts model n_blocks net t x i e named go_on swapped)
                      ∙ total,
                )
            | inr none_left ↦ (err x, ground arith)
          ]
        ]
      ]
    ]

-- Failover ends: whatever the peers do at each attempt, the loop comes to an outcome, a chain or an
-- error, within its bound of five attempts.
pub connect_with_failover-ends :
    (model : String) (n_blocks : ℕ) (net : ℕ → ℕ → String → Peer) (t : ChainTarget)
    → (r : Result ChainError Chain) × ((connect_with_failover model n_blocks net t).0 ≡ some r)
unfolding connect_with_failover
connect_with_failover-ends model n_blocks net t =
    attempts-end (max_failover_attempts + 1) 0 model n_blocks net t (omega arith) (omega arith)
