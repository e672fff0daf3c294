-- ===== src/Crdt/OrSet/Merge.antt =====
-- `ORSet.merge` joins tags and tombstones; which elements are there depends on no order.
use suprime.Base.{
  sym, ◌∙◌, ◌≡◌, ◌↔◌, refl, Bool, true, false, ◌||◌, not, List, [], ◌∷◌, arith, if◌then◌else◌,
}
use suprime.Base.Key.{Eq, pair_eq, nat_eq}
use suprime.Base.Dict.{Dict, Distinct, get, put, get-put, put-Distinct}
use suprime.Base.Sets.{member, union, subset, member-union, subset_sound, not_subset}
use suprime.Crdt.OrSet.{OrSet, Tag, or_none, is_some, tags_of, contains, merge_adds, merge}

some_of_member :
    {K : Type 0} ⦃k : Eq K⦄ (tags : List (Tag K)) (t : Tag K)
    → member t tags ≡ true
    → is_some tags ≡ true
unfolding member
some_of_member [] t h = cc
some_of_member (x ∷ tags) t h = refl

Bool-ext : (a b : Bool) → (a ≡ true → b ≡ true) → (b ≡ true → a ≡ true) → a ≡ b
Bool-ext true b f g = sym (f refl)
Bool-ext false true f g = g refl
Bool-ext false false f g = refl

module _ {K E : Type 0} ⦃k : Eq K⦄ ⦃e : Eq E⦄ where
  -- `tag` was added for the element and not removed.
  abbrev pub Live : E → OrSet K E → Tag K → Type 0
  Live x s tag = (member tag (tags_of x s) ≡ true) × (member tag s.removed ≡ false)

  -- Two sets with the same tags of each element and the same tombstones.
  pub record SameSet (a b : OrSet K E) : Type 0 where
    pub tags : (x : E) (t : Tag K) → member t (tags_of x a) ≡ member t (tags_of x b)
    pub removed : (t : Tag K) → member t a.removed ≡ member t b.removed

  tags-merge_adds :
      (s : Dict E (List (Tag K)) × Bool) (other : Dict E (List (Tag K))) (x : E) (t : Tag K)
      → Distinct other
      → member t (or_none (get x (merge_adds s other).0))
        ≡ (member t (or_none (get x s.0)) || member t (or_none (get x other)))
  unfolding merge_adds get member
  tags-merge_adds s [] x t h = ground arith
  tags-merge_adds (adds, changed) ((y, tags) ∷ other) x t h =
      let cur = or_none (get y adds) in
      let new : Dict E (List (Tag K)) × Bool =
        if not (subset tags cur)
        then (put y (union cur tags) adds, true)
        else (put y cur adds, changed) in
      ground (
        arith,
        tags-merge_adds new other x t h.1,
        get-put y x (union cur tags) adds,
        get-put y x cur adds,
        member-union t cur tags,
        subset_sound tags cur t,
        e.beq_iff y x,
      )

  pub tags-merge :
      (a b : OrSet K E) (x : E) (t : Tag K)
      → Distinct b.adds
      → member t (tags_of x (merge a b).0) ≡ (member t (tags_of x a) || member t (tags_of x b))
  unfolding merge tags_of
  tags-merge a b x t h = ground (arith, tags-merge_adds (a.adds, false) b.adds x t h)

  pub removed-merge :
      (a b : OrSet K E) (t : Tag K)
      → member t (merge a b).0.removed ≡ (member t a.removed || member t b.removed)
  unfolding merge
  removed-merge a b t =
      ground (arith, member-union t a.removed b.removed, subset_sound b.removed a.removed t)

  merge_adds-Distinct :
      (s : Dict E (List (Tag K)) × Bool) (other : Dict E (List (Tag K)))
      → Distinct s.0
      → Distinct (merge_adds s other).0
  unfolding merge_adds
  merge_adds-Distinct s [] h = h
  merge_adds-Distinct (adds, changed) ((y, tags) ∷ other) h =
      let cur = or_none (get y adds) in
      let new : Dict E (List (Tag K)) × Bool =
        if not (subset tags cur)
        then (put y (union cur tags) adds, true)
        else (put y cur adds, changed) in
      merge_adds-Distinct new other
        (ground (arith, put-Distinct y (union cur tags) adds h, put-Distinct y cur adds h))

  pub merge-Distinct : (a b : OrSet K E) → Distinct a.adds → Distinct (merge a b).0.adds
  unfolding merge
  merge-Distinct a b h = ground (arith, merge_adds-Distinct (a.adds, false) b.adds h)

  pub Live-contains : (x : E) (s : OrSet K E) → contains x s ≡ true → (t : Tag K) × Live x s t
  unfolding contains
  Live-contains x s h =
      let (t, tagged, there) = not_subset (tags_of x s) s.removed (ground arith) in
      (t, (tagged, there))

  pub contains_of_Live : (x : E) (s : OrSet K E) (t : Tag K) → Live x s t → contains x s ≡ true
  unfolding contains
  contains_of_Live x s t h =
      ground (arith, subset_sound (tags_of x s) s.removed t, some_of_member (tags_of x s) t)

  -- An element is there exactly when it has a tag that is not removed.
  pub contains_iff : (x : E) (s : OrSet K E) → (contains x s ≡ true) ↔ ((t : Tag K) × Live x s t)
  contains_iff x s = (Live-contains x s, λ l. contains_of_Live x s l.0 l.1)

  -- Which elements are there is read off the tags and the tombstones.
  pub contains-cong : (a b : OrSet K E) (x : E) → SameSet a b → contains x a ≡ contains x b
  contains-cong a b x same =
      Bool-ext (contains x a) (contains x b)
        (λ h.
          let (t, l) = Live-contains x a h in
          contains_of_Live x b t (sym (same.tags x t) ∙ l.0, sym (same.removed t) ∙ l.1))
        (λ h.
          let (t, l) = Live-contains x b h in
          contains_of_Live x a t (same.tags x t ∙ l.0, same.removed t ∙ l.1))

  -- Up to the tags of each element and the tombstones, the merge of sets with distinct elements is
  -- commutative, associative and idempotent.
  pub merge_view_laws :
      (a b c : OrSet K E)
      → Distinct a.adds
      → Distinct b.adds
      → Distinct c.adds
      → SameSet (merge a b).0 (merge b a).0
        × SameSet (merge (merge a b).0 c).0 (merge a (merge b c).0).0
        × SameSet (merge a a).0 a
  merge_view_laws a b c ha hb hc = (
    record {
      tags = λ x t. ground (arith, tags-merge a b x t hb, tags-merge b a x t ha);
      removed = λ t. ground (arith, removed-merge a b t, removed-merge b a t);
    },
    record {
      tags = λ x t. ground (
        arith,
        tags-merge (merge a b).0 c x t hc,
        tags-merge a b x t hb,
        tags-merge a (merge b c).0 x t (merge-Distinct b c hb),
        tags-merge b c x t hc,
      );
      removed = λ t. ground (
        arith,
        removed-merge (merge a b).0 c t,
        removed-merge a b t,
        removed-merge a (merge b c).0 t,
        removed-merge b c t,
      );
    },
    record {
      tags = λ x t. ground (arith, tags-merge a a x t ha);
      removed = λ t. ground (arith, removed-merge a a t);
    },
  )
