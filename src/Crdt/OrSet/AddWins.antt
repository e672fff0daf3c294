-- ===== src/Crdt/OrSet/AddWins.antt =====
-- Adding and removing: an add that a remover has not seen wins, as long as tags stay fresh.
use mathlib.Core.Path.{subst}
use suprime.Base.{ℕ, ◌+◌, ◌≤◌, ◌≡◌, refl, true, false, ◌||◌, arith, Bool-cases, inl, inr}
use suprime.Base.Key.{Eq, ◌==◌, pair_eq, nat_eq, ==_refl}
use suprime.Base.Dict.{Distinct, get, get-put, put-Distinct}
use suprime.Base.Sets.{member, add, member-union, member-add}
use suprime.Crdt.OrSet.{OrSet, Tag, or_none, tags_of, contains, merge, add_element, remove}
use suprime.Crdt.OrSet.Merge.{contains_of_Live, Live-contains, tags-merge, removed-merge}

module _ {K E : Type 0} ⦃k : Eq K⦄ ⦃e : Eq E⦄ where
  -- No tombstone carries a tag that the node has yet to mint.
  abbrev pub IsFresh : K → ℕ → OrSet K E → Type 0
  IsFresh node counter s = (n : ℕ) → member (node, n) s.removed ≡ true → n ≤ counter

  -- The tag that the next add mints.
  abbrev pub next_tag : OrSet K E → Tag K
  next_tag s = (s.node_id, s.counter + 1)

  tags-add :
      (x : E) (s : OrSet K E) (t : Tag K)
      → member t (tags_of x (add_element x s)) ≡ (next_tag s == t || member t (tags_of x s))
  unfolding add_element tags_of
  tags-add x s t = ground (
    arith,
    get-put x x (add (next_tag s) (or_none (get x s.adds))) s.adds,
    member-add (next_tag s) t (or_none (get x s.adds)),
    ==_refl x,
  )

  add-Distinct : (x : E) (s : OrSet K E) → Distinct s.adds → Distinct (add_element x s).adds
  unfolding add_element
  add-Distinct x s h = put-Distinct x (add (next_tag s) (tags_of x s)) s.adds h

  removed-add : (x : E) (s : OrSet K E) → (add_element x s).removed ≡ s.removed
  unfolding add_element
  removed-add x s = refl

  remove_lem :
      (x : E) (s : OrSet K E) (t : Tag K)
      → (tags_of x (remove x s) ≡ tags_of x s)
        × (member t (remove x s).removed ≡ (member t s.removed || member t (tags_of x s)))
  unfolding remove tags_of
  remove_lem x s t = (refl, member-union t s.removed (or_none (get x s.adds)))

  not_removed :
      (node : K) (counter : ℕ) (s : OrSet K E)
      → IsFresh node counter s
      → member (node, counter + 1) s.removed ≡ false
  not_removed node counter s fresh = elim (Bool-cases (member (node, counter + 1) s.removed)) [
    | inl there ↦ absurd (omega (arith, fresh (counter + 1) there))
    | inr out ↦ out
  ]

  -- An add shows at once, where no tombstone carries a tag that the node has yet to mint.
  pub contains-add_element :
      (x : E) (s : OrSet K E) → IsFresh s.node_id s.counter s → contains x (add_element x s) ≡ true
  contains-add_element x s fresh = contains_of_Live x (add_element x s) (next_tag s) (
    ground (arith, tags-add x s (next_tag s), ==_refl (next_tag s)),
    ground (arith, removed-add x s, not_removed s.node_id s.counter s fresh),
  )

  -- A removal hides the element at once.
  pub contains-remove : (x : E) (s : OrSet K E) → contains x (remove x s) ≡ false
  contains-remove x s = elim (Bool-cases (contains x (remove x s))) [
    | inr out ↦ out
    | inl there ↦
        let (t, l) = Live-contains x (remove x s) there in
        absurd (ground (arith, l.0, l.1, remove_lem x s t))
  ]

  -- A replica that removes an element and one that adds it anew, before either hears of the other,
  -- merge in either direction to a set that holds it, where both list distinct elements and no
  -- tombstone carries a tag that the adding node has yet to mint.
  pub add_wins :
      (x : E) (a b : OrSet K E)
      → Distinct a.adds
      → Distinct b.adds
      → IsFresh b.node_id b.counter b
      → IsFresh b.node_id b.counter (remove x a)
      → (contains x (merge (remove x a) (add_element x b)).0 ≡ true)
        × (contains x (merge (add_element x b) (remove x a)).0 ≡ true)
  add_wins x a b ha hb fb fa =
      let t = next_tag b in
      let out = not_removed b.node_id b.counter b fb in
      let out' = not_removed b.node_id b.counter (remove x a) fa in
      (
        contains_of_Live x (merge (remove x a) (add_element x b)).0 t (
          ground (
            arith,
            tags-merge (remove x a) (add_element x b) x t (add-Distinct x b hb),
            tags-add x b t,
            ==_refl t,
          ),
          ground
              (arith, removed-merge (remove x a) (add_element x b) t, removed-add x b, out, out'),
        ),
        contains_of_Live x (merge (add_element x b) (remove x a)).0 t (
          ground (
            arith,
            tags-merge (add_element x b) (remove x a) x t (unfold remove in ha),
            tags-add x b t,
            ==_refl t,
          ),
          ground
              (arith, removed-merge (add_element x b) (remove x a) t, removed-add x b, out, out'),
        ),
      )

  -- If the next tag that a node mints was removed before, and the element has no live tag, an add
  -- leaves the element absent.
  pub add_element_lost :
      (x : E) (s : OrSet K E)
      → contains x s ≡ false
      → member (next_tag s) s.removed ≡ true
      → contains x (add_element x s) ≡ false
  add_element_lost x s out gone = elim (Bool-cases (contains x (add_element x s))) [
    | inr absent ↦ absent
    | inl there ↦
        let (t, l) = Live-contains x (add_element x s) there in
        elim (Bool-cases (next_tag s == t)) [
          | inl same ↦ absurd (
              ground (
                arith,
                l.1,
                removed-add x s,
                subst (λ u. member u s.removed ≡ true) ((pair_eq.beq_iff (next_tag s) t).0 same)
                    gone,
              ))
          | inr other ↦
              absurd
                (ground (arith, l.0, l.1, removed-add x s, tags-add x s t, contains_of_Live x s t))
        ]
  ]
