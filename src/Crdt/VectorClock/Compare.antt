-- ===== src/Crdt/VectorClock/Compare.antt =====
-- `VectorClock.compare` decides the causal order of clocks, and `merge` is its least upper bound.
use suprime.Base.{
  sym, ℕ, ◌≡◌, refl, ◌⊎◌, inl, inr, Bool, true, false, Option, none, some, [], ◌∷◌, arith,
  Bool-cases,
}
use suprime.Base.Key.{Eq, ◌==◌, ==_refl, ◌==◌}
use suprime.Base.Lists.{In}
use suprime.Base.Dict.{Dict, has, keys}
use suprime.Crdt.VectorClock.Scan.{
  Less, NotAbove, Relates, Flags, Scanned, scan_mine-Scanned, scan_other-Scanned, count_absent,
}
use suprime.Base.Dict.Count.{count}
use suprime.Crdt.VectorClock.{
  increment, count-increment, VectorClock, Verdict, before, after, equal, concurrent, scan_mine,
  scan_other, verdict, compare, compare_rest, increment, count-increment,
}

-- The answer with the clocks swapped.
abbrev pub flip : Verdict → Verdict
flip before = after
flip after = before
flip equal = equal
flip concurrent = concurrent

module _ {K : Type 0} ⦃e : Eq K⦄ where
  In-keys : (k : K) (c : Dict K ℕ) → has k c ≡ true → In k (keys c)
  unfolding has keys
  In-keys k [] h = cc
  In-keys k ((j, v) ∷ c) h = elim (Bool-cases (j == k)) [
    | inl same ↦ inl ((e.beq_iff j k).0 same)
    | inr other ↦ inr (In-keys k c (ground arith))
  ]

  -- A key that neither loop has seen counts 0 on both sides.
  seen_or_zero :
      (k : K) (c d : Dict K ℕ)
      → (In k (keys c) ⊎ In k (keys d)) ⊎ ((count k c ≡ 0) × (count k d ≡ 0))
  seen_or_zero k c d = elim (Bool-cases (has k c)) [
    | inl p ↦ inl (inl (In-keys k c p))
    | inr p ↦ elim (Bool-cases (has k d)) [
      | inl r ↦ inl (inr (In-keys k d r))
      | inr r ↦ inr (count_absent k c p, count_absent k d r)
    ]
  ]

  Flags-start : (c d : Dict K ℕ) → Flags c d (λ _. ⊥) false false
  Flags-start c d = record {
    is_less = λ p. cc;
    is_greater = λ p. cc;
    apart = λ p q. cc;
    not_less = λ p k n. absurd n;
    not_greater = λ p k n. absurd n;
  }

  Flags-verdict :
      (c d : Dict K ℕ) (l g : Bool)
      → Flags c d (λ k. In k (keys c) ⊎ In k (keys d)) l g
      → Relates (verdict (some (l, g))) c d
  Flags-verdict c d true true f = absurd (f.apart refl refl)
  Flags-verdict c d true false f = (
    λ k. elim (seen_or_zero k c d) [ inl s ↦ f.not_greater refl k s | inr z ↦ omega arith ],
    f.is_less refl,
  )
  Flags-verdict c d false true f = (
    λ k. elim (seen_or_zero k c d) [ inl s ↦ f.not_less refl k s | inr z ↦ omega arith ],
    f.is_greater refl,
  )
  Flags-verdict c d false false f = λ k. elim (seen_or_zero k c d) [
    | inl s ↦ omega (arith, f.not_less refl k s, f.not_greater refl k s)
    | inr z ↦ omega arith
  ]

  Scanned-verdict :
      (c d : Dict K ℕ) (o : Option (Bool × Bool))
      → Scanned c d (λ k. In k (keys c) ⊎ In k (keys d)) o
      → Relates (verdict o) c d
  Scanned-verdict c d none h = h
  Scanned-verdict c d (some (l, g)) f = Flags-verdict c d l g f

  rest-Relates :
      (c d : Dict K ℕ) (o : Option (Bool × Bool))
      → Scanned c d (λ k. ⊥ ⊎ In k (keys c)) o
      → Relates (compare_rest c d o) c d
  unfolding compare_rest
  rest-Relates c d none h = h
  rest-Relates c d (some (l, g)) f = Scanned-verdict c d (scan_other c d (keys d) l g) (
      scan_other-Scanned c d (λ k. In k (keys c)) (keys d) l g (λ k p. In-keys k c p)
        (record {
          is_less = f.is_less;
          is_greater = f.is_greater;
          apart = f.apart;
          not_less = λ p k s. f.not_less p k (inr s);
          not_greater = λ p k s. f.not_greater p k (inr s);
        }))

  -- The answer of `compare` is what the counters of all nodes say: `before` when no counter of the
  -- first clock is larger and one is smaller, `after` the other way round, `equal` when all agree,
  -- `concurrent` when one is smaller and one is larger.
  pub compare-Relates : (a b : VectorClock K) → Relates (compare a b) a.clock b.clock
  unfolding compare
  compare-Relates a b =
      rest-Relates a.clock b.clock (scan_mine a.clock b.clock (keys a.clock) false false) (
        scan_mine-Scanned a.clock b.clock (λ _. ⊥) (keys a.clock) false false
          (Flags-start a.clock b.clock))

  Less-not : (c d : Dict K ℕ) → Less c d → NotAbove d c → ⊥
  Less-not c d (k, h) n = absurd (omega (arith, n k))

  Less-not_equal : (c d : Dict K ℕ) → Less c d → ((k : K) → count k c ≡ count k d) → ⊥
  Less-not_equal c d (k, h) n = absurd (omega (arith, n k))

  -- At most one answer fits two clocks.
  pub Relates-unique : (v w : Verdict) (c d : Dict K ℕ) → Relates v c d → Relates w c d → v ≡ w
  Relates-unique before before c d p r = refl
  Relates-unique before after c d p r = absurd (Less-not c d p.1 r.0)
  Relates-unique before equal c d p r = absurd (Less-not_equal c d p.1 r)
  Relates-unique before concurrent c d p r = absurd (Less-not d c r.1 p.0)
  Relates-unique after before c d p r = absurd (Less-not c d r.1 p.0)
  Relates-unique after after c d p r = refl
  Relates-unique after equal c d p r = absurd (Less-not_equal d c p.1 (λ k. sym (r k)))
  Relates-unique after concurrent c d p r = absurd (Less-not c d r.0 p.0)
  Relates-unique equal before c d p r = absurd (Less-not_equal c d r.1 p)
  Relates-unique equal after c d p r = absurd (Less-not_equal d c r.1 (λ k. sym (p k)))
  Relates-unique equal equal c d p r = refl
  Relates-unique equal concurrent c d p r = absurd (Less-not_equal c d r.0 p)
  Relates-unique concurrent before c d p r = absurd (Less-not d c p.1 r.0)
  Relates-unique concurrent after c d p r = absurd (Less-not c d p.0 r.0)
  Relates-unique concurrent equal c d p r = absurd (Less-not_equal c d p.0 r)
  Relates-unique concurrent concurrent c d p r = refl

  Relates-flip : (v : Verdict) (c d : Dict K ℕ) → Relates v c d → Relates (flip v) d c
  Relates-flip before c d h = h
  Relates-flip after c d h = h
  Relates-flip equal c d h = λ k. sym (h k)
  Relates-flip concurrent c d h = (h.1, h.0)

  -- Swapping the clocks swaps `before` and `after`, and nothing else.
  pub compare-flip : (a b : VectorClock K) → compare b a ≡ flip (compare a b)
  compare-flip a b =
      Relates-unique (compare b a) (flip (compare a b)) b.clock a.clock (compare-Relates b a)
        (Relates-flip (compare a b) a.clock b.clock (compare-Relates a b))

  -- A local event moves a node's clock strictly forward.
  pub compare-increment : (k : K) (a : VectorClock K) → compare a (increment k a) ≡ before
  compare-increment k a =
      Relates-unique (compare a (increment k a)) before a.clock (increment k a).clock
        (compare-Relates a (increment k a))
        (
          λ j. ground (arith, count-increment k j a),
          (k, ground (arith, count-increment k k a, ==_refl k)),
        )
