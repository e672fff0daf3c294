-- ===== src/Consensus/Agreement.antt =====
-- The elected leader is the least candidate, so views with the same candidates elect the same one.
use mathlib.Core.Path.{subst}
use suprime.Base.{
  ◌≡◌, ◌↔◌, ◌⊎◌, inl, inr, refl, sym, true, false, none, some, List, [], ◌∷◌, arith, Option-cases,
}
use suprime.Base.Key.{Eq, Order, ◌≺◌, ==_refl}
use suprime.Base.Lists.{In}
use suprime.Consensus.{elect_leader, LeaderView, is_leader, update}

module _ {K : Type 0} ⦃o : Order K⦄ where
  abbrev pub Candidate : K → List K → K → Type 0
  Candidate self_id alive k = (k ≡ self_id) ⊎ In k alive

  elect_leader-cons :
      (self_id p : K) (alive : List K)
      → ((p ≺ elect_leader self_id alive) ≡ true) × (elect_leader self_id (p ∷ alive) ≡ p)
        ⊎ ((p ≺ elect_leader self_id alive) ≡ false)
          × (elect_leader self_id (p ∷ alive) ≡ elect_leader self_id alive)
  unfolding elect_leader
  elect_leader-cons self_id p alive = ground arith

  Candidate-cons :
      (self_id p k : K) (alive : List K)
      → Candidate self_id alive k
      → Candidate self_id (p ∷ alive) k
  Candidate-cons self_id p k alive (inl own) = inl own
  Candidate-cons self_id p k alive (inr there) = inr (inr there)

  elect_leader-Candidate :
      (self_id : K) (alive : List K) → Candidate self_id alive (elect_leader self_id alive)
  elect_leader-Candidate self_id [] = inl (unfold elect_leader in refl)
  elect_leader-Candidate self_id (p ∷ alive) = elim (elect_leader-cons self_id p alive) [
    | inl (_, is) ↦ inr (inl (sym is))
    | inr (_, is) ↦ subst (Candidate self_id (p ∷ alive)) (sym is) (
        Candidate-cons self_id p (elect_leader self_id alive) alive
          (elect_leader-Candidate self_id alive))
  ]

  not_below : (a b c : K) → (a ≺ b) ≡ true → (c ≺ b) ≡ false → (c ≺ a) ≡ false
  not_below a b c h k = ground (arith, o.less_trans c a b)

  elect_leader_least :
      (self_id : K) (alive : List K) (k : K)
      → Candidate self_id alive k
      → (k ≺ elect_leader self_id alive) ≡ false
  elect_leader_least self_id [] k h = unfold elect_leader in ground (arith, o.less_irrefl k)
  elect_leader_least self_id (p ∷ alive) k h = elim (elect_leader-cons self_id p alive) [
    | inl (wins, is) ↦ rw is (elim h [
      | inl own ↦
          not_below p (elect_leader self_id alive) k wins
            (elect_leader_least self_id alive k (inl own))
      | inr (inl here) ↦ subst (λ x. (x ≺ p) ≡ false) here (o.less_irrefl p)
      | inr (inr there) ↦
          not_below p (elect_leader self_id alive) k wins
            (elect_leader_least self_id alive k (inr there))
    ])
    | inr (loses, is) ↦ rw is (elim h [
      | inl own ↦ elect_leader_least self_id alive k (inl own)
      | inr (inl here) ↦ subst (λ x. (x ≺ elect_leader self_id alive) ≡ false) here loses
      | inr (inr there) ↦ elect_leader_least self_id alive k (inr there)
    ])
  ]

  -- The leader is a candidate, and no candidate is below it.
  pub elect_leader_lem :
      (self_id : K) (alive : List K)
      → Candidate self_id alive (elect_leader self_id alive)
        × ((k : K) → Candidate self_id alive k → (k ≺ elect_leader self_id alive) ≡ false)
  elect_leader_lem self_id alive =
      (elect_leader-Candidate self_id alive, elect_leader_least self_id alive)

  -- Two nodes whose candidates, each counting itself, are the same ids elect one leader.
  pub elect_leader_agree :
      (a b : K) (xs ys : List K)
      → ((k : K) → Candidate a xs k ↔ Candidate b ys k)
      → elect_leader a xs ≡ elect_leader b ys
  elect_leader_agree a b xs ys same =
      o.less_total (elect_leader a xs) (elect_leader b ys)
        (elect_leader_least b ys (elect_leader a xs)
          ((same (elect_leader a xs)).0 (elect_leader-Candidate a xs)))
        (elect_leader_least a xs (elect_leader b ys)
          ((same (elect_leader b ys)).1 (elect_leader-Candidate b ys)))

module _ {K : Type 0} ⦃e : Eq K⦄ ⦃o : Order K⦄ where
  -- After an update the view holds the elected leader; a change is reported exactly when the view
  -- held another or none, and a second update with the same members reports nothing.
  pub leader-update :
      (alive : List K) (v : LeaderView K)
      → ((update alive v).0.leader ≡ some (elect_leader v.self_id alive))
        × (((update alive v).1 ≡ none) ↔ (v.leader ≡ some (elect_leader v.self_id alive)))
        × ((update alive (update alive v).0).1 ≡ none)
  unfolding update
  leader-update alive v =
      let new = elect_leader v.self_id alive in
      elim (Option-cases v.leader) [
        | inl new_view ↦
            (ground (arith, ==_refl new), ground (arith, ==_refl new), ground (arith, ==_refl new))
        | inr (j, at) ↦ (
          ground (arith, e.beq_iff j new),
          ground (arith, e.beq_iff j new),
          ground (arith, e.beq_iff j new, ==_refl new),
        )
      ]

  self_id-update : (alive : List K) (v : LeaderView K) → (update alive v).0.self_id ≡ v.self_id
  unfolding update
  self_id-update alive v = ground arith

  elected_self :
      (self_id : K) (alive : List K)
      → ((k : K) → In k alive → (k ≺ self_id) ≡ false)
      → elect_leader self_id alive ≡ self_id
  elected_self self_id alive least = elim (elect_leader-Candidate self_id alive) [
    | inl own ↦ own
    | inr there ↦
        o.less_total (elect_leader self_id alive) self_id (least (elect_leader self_id alive) there)
          (elect_leader_least self_id alive self_id (inl refl))
  ]

  -- After an update a node believes that it leads exactly when no live peer has a smaller id.
  pub is_leader-update :
      (alive : List K) (v : LeaderView K)
      → (is_leader (update alive v).0 ≡ true) ↔ ((k : K) → In k alive → (k ≺ v.self_id) ≡ false)
  unfolding is_leader
  is_leader-update alive v =
      let new = elect_leader v.self_id alive in
      let at = (leader-update alive v).0 in
      let own = self_id-update alive v in
      (
        λ leads k there.
            subst (λ x. (k ≺ x) ≡ false) ((e.beq_iff new v.self_id).0 (ground (arith, at, own)))
              (elect_leader_least v.self_id alive k (inr there)),
        λ least.
            ground (arith, at, own, e.beq_iff new v.self_id, elected_self v.self_id alive least),
      )
