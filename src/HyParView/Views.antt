-- ===== src/HyParView/Views.antt =====
-- The two views stay within their sizes, apart from each other, and without the node itself.
use suprime.Base.{
  ◌+◌, ◌-◌, ◌≤◌, ◌<◌, ◌≡◌, refl, true, false, Option, none, some, List, [], ◌∷◌, ◌++◌, arith,
  Bool-cases, inl, inr,
}
use suprime.Base.Key.{Eq, ◌==◌}
use suprime.Base.Lists.{length}
use suprime.Base.Sets.{member, add, discard, intersect, member-add, member-discard}
use suprime.HyParView.{Config, HyParView, choose, make_room, add_passive}

module _ {A : Type 0} where
  length-snoc : (xs : List A) (x : A) → length (xs ++ x ∷ []) ≡ length xs + 1
  length-snoc [] x = refl
  length-snoc (y ∷ xs) x = ground (arith, length-snoc xs x)

module _ {K : Type 0} ⦃k : Eq K⦄ where
  pub length-add : (x : K) (s : List K) → length (add x s) ≤ length s + 1
  unfolding add
  length-add x s = ground (arith, length-snoc s x)

  pub length-discard : (x : K) (s : List K) → length (discard x s) ≤ length s
  unfolding discard
  length-discard x [] = ground arith
  length-discard x (y ∷ s) = ground (arith, length-discard x s)

  pub length-discard-member :
      (x : K) (s : List K) → member x s ≡ true → length (discard x s) < length s
  unfolding discard member
  length-discard-member x [] h = cc
  length-discard-member x (y ∷ s) h = ground (arith, length-discard x s, length-discard-member x s)

  pub length-intersect : (s t : List K) → length (intersect s t) ≤ length s
  unfolding intersect
  length-intersect [] t = ground arith
  length-intersect (x ∷ s) t = ground (arith, length-intersect s t)

module _ {K A R : Type 0} ⦃k : Eq K⦄ where
  -- `random.choice` of a list is one of its elements.
  abbrev pub IsChoice : Config K A R → Type 0
  IsChoice c = (r : R) (x : K) (xs : List K) → member (c.choice r x xs).0 (x ∷ xs) ≡ true

  pub record HasViews (c : Config K A R) (active passive : List K) : Type 0 where
    pub active_le : length active ≤ c.active_size
    pub passive_le : length passive ≤ c.passive_size
    pub no_self : (member c.id active ≡ false) × (member c.id passive ≡ false)
    pub apart : (x : K) → member x active ≡ true → member x passive ≡ false

  -- Room for one more in the passive view: one peer less, and none that was not there.
  room-passive :
      (c : Config K A R) (v : HyParView K A R) (xs : List K)
      → IsChoice c
      → v.passive ≡ xs
      → length (make_room (choose c v.rng xs) v).passive ≤ length xs - 1
  room-passive c v [] h is = ground (arith, is)
  room-passive c v (x ∷ xs) h is =
      ground (arith, is, h v.rng x xs, length-discard-member (c.choice v.rng x xs).0 (x ∷ xs))

  room-member :
      (c : Config K A R) (v : HyParView K A R) (o : Option (K × R)) (x : K)
      → member x v.passive ≡ false
      → member x (make_room o v).passive ≡ false
  room-member c v none x h = h
  room-member c v (some (y, r)) x h = ground (arith, h, member-discard y x v.passive)

  room-active : (v : HyParView K A R) (o : Option (K × R)) → (make_room o v).active ≡ v.active
  room-active v none = refl
  room-active v (some (y, r)) = refl

  pub active-add_passive :
      (c : Config K A R) (n : K) (v : HyParView K A R) → (add_passive c n v).active ≡ v.active
  unfolding add_passive
  active-add_passive c n v = ground (arith, room-active v (choose c v.rng v.passive))

  pub member-add_passive :
      (c : Config K A R) (n x : K) (v : HyParView K A R)
      → (n == x) ≡ false
      → member x v.passive ≡ false
      → member x (add_passive c n v).passive ≡ false
  unfolding add_passive
  member-add_passive c n x v other out =
      let room = make_room (choose c v.rng v.passive) v in
      ground (
        arith,
        room-member c v (choose c v.rng v.passive) x out,
        member-add n x room.passive,
        member-add n x v.passive,
      )

  length-add_passive :
      (c : Config K A R) (n : K) (v : HyParView K A R)
      → IsChoice c
      → 0 < c.passive_size
      → length v.passive ≤ c.passive_size
      → length (add_passive c n v).passive ≤ c.passive_size
  unfolding add_passive
  length-add_passive c n v h pos le =
      let room = make_room (choose c v.rng v.passive) v in
      ground (
        arith,
        room-passive c v v.passive h refl,
        length-add n room.passive,
        length-add n v.passive,
      )

  -- A peer that is added to the passive view is not active, and not the node itself.
  pub add_passive-HasViews :
      (c : Config K A R) (n : K) (v : HyParView K A R)
      → IsChoice c
      → 0 < c.passive_size
      → HasViews c v.active v.passive
      → HasViews c (add_passive c n v).active (add_passive c n v).passive
  add_passive-HasViews c n v h pos views = rw (active-add_passive c n v) (record {
    active_le = views.active_le;
    passive_le = length-add_passive c n v h pos views.passive_le;
    no_self = (
      views.no_self.0,
      elim (Bool-cases (n == c.id)) [
        | inl own ↦ unfold add_passive in ground (arith, own, views.no_self.1)
        | inr other ↦ member-add_passive c n c.id v other views.no_self.1
      ],
    );
    apart = λ x at. elim (Bool-cases (n == x)) [
      | inl same ↦ unfold add_passive in ground (arith, same, at, views.apart x at, k.beq_iff n x)
      | inr other ↦ member-add_passive c n x v other (views.apart x at)
    ];
  })
