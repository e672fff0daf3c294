-- ===== src/Node/Cache.antt =====
-- The cache of seen messages and what it holds once an id is remembered.
use Prim.Native.String.{String}
use suprime.Base.{
  ◌+◌, ◌≤◌, ◌<◌, ◌≡◌, refl, sym, ◌∙◌, inl, inr, arith, Bool-cases, false, List, [], ◌∷◌, ◌++◌, ltb,
}
use suprime.Base.Key.{string_eq, string_order, nat_eq}
use suprime.Base.Lists.{length}
use suprime.Base.Sets.{member, add}
use suprime.Node.{SwarmNode, remember}
use suprime.Base.Sets.{member-add, member-discard, member-append}
use suprime.Node.{discard_oldest}

-- No id twice.
abbrev pub Unique : List String → Type 0
Unique [] = Unit
Unique (x ∷ xs) = (member x xs ≡ false) × Unique xs

pub Unique-snoc :
    (id : String) (xs : List String) → member id xs ≡ false → Unique xs → Unique (xs ++ id ∷ [])
unfolding member
Unique-snoc id [] out u = (refl, tt)
Unique-snoc id (x ∷ xs) out u = (
  ground (
    arith,
    member-append x xs (id ∷ []),
    u.0,
    out,
    string_eq.beq_iff x id,
    string_eq.beq_iff id x,
  ),
  Unique-snoc id xs (ground (arith, out)) u.1,
)

pub length-snoc : (id : String) (xs : List String) → length (xs ++ id ∷ []) ≡ length xs + 1
length-snoc id [] = refl
length-snoc id (x ∷ xs) = ground (arith, length-snoc id xs)

module _ {A X C P N H : Type 0} where
  -- The set holds the ids of the queue, which has none twice and is within its cap.
  pub record IsSeen (s : SwarmNode A X C P N H) : Type 0 where
    pub same : (id : String) → member id s.seen_messages ≡ member id s.seen_order
    pub unique : Unique s.seen_order
    pub bounded : length s.seen_order ≤ s.seen_cap

  pub discard_oldest-IsSeen :
      (order : List String) (s : SwarmNode A X C P N H)
      → ((id : String) → member id s.seen_messages ≡ member id order)
      → Unique order
      → length order ≤ s.seen_cap + 1
      → 0 < length order
      → IsSeen (discard_oldest s order)
  unfolding discard_oldest member
  discard_oldest-IsSeen [] s same unique bound some_there = absurd (omega (arith, some_there))
  discard_oldest-IsSeen (oldest ∷ order) s same unique bound some_there = record {
    same = λ id. ground (
      arith,
      member-discard oldest id s.seen_messages,
      same id,
      unique.0,
      string_eq.beq_iff oldest id,
    );
    unique = unique.1;
    bounded = omega (arith, bound);
  }

  pub remember-IsSeen :
      (id : String) (s : SwarmNode A X C P N H)
      → member id s.seen_messages ≡ false
      → IsSeen s
      → IsSeen (remember id s)
  unfolding remember member
  remember-IsSeen id s out h =
      let order = s.seen_order ++ id ∷ [] in
      let s' : SwarmNode A X C P N H = record s {
        seen_messages = add id s.seen_messages;
        seen_order = order;
      } in
      let same : (j : String) → member j (add id s.seen_messages) ≡ member j order = λ j. ground (
        arith,
        member-add id j s.seen_messages,
        member-append j s.seen_order (id ∷ []),
        h.same j,
      ) in
      let unique = Unique-snoc id s.seen_order (sym (h.same id) ∙ out) h.unique in
      let long = length-snoc id s.seen_order in
      elim (Bool-cases (ltb s.seen_cap (length order))) [
        | inl full ↦ rw full (
            discard_oldest-IsSeen order s' same unique (omega (arith, long, h.bounded))
              (omega (arith, long)))
        | inr fits ↦
            rw fits (record { same = same; unique = unique; bounded = ground (arith, fits) })
      ]
