-- ===== src/Crdt/VectorClock/Scan.antt =====
-- The two loops of `VectorClock.compare`: what their flags say of the keys seen so far.
use mathlib.Core.Path.{subst}
use suprime.Base.{
  ℕ, ◌≤◌, ◌<◌, ◌≡◌, refl, ◌⊎◌, inl, inr, Bool, true, false, Option, none, some, List, [], ◌∷◌,
  arith, ltb, Bool-cases, tests, if◌then◌else◌,
}
use suprime.Base.Key.{Eq}
use suprime.Base.Lists.{In}
use suprime.Base.Dict.{Dict, has, has-get}
use suprime.Base.Dict.Count.{count}
use suprime.Crdt.VectorClock.{Verdict, before, after, equal, concurrent, scan_mine, scan_other}

module _ {K : Type 0} ⦃e : Eq K⦄ where
  -- At some node `c` counts less than `d`.
  abbrev pub Less : Dict K ℕ → Dict K ℕ → Type 0
  Less c d = (k : K) × (count k c < count k d)

  abbrev pub NotAbove : Dict K ℕ → Dict K ℕ → Type 0
  NotAbove c d = (k : K) → count k c ≤ count k d

  -- What each answer says of the counters, over all nodes.
  abbrev pub Relates : Verdict → Dict K ℕ → Dict K ℕ → Type 0
  Relates before c d = NotAbove c d × Less c d
  Relates after c d = NotAbove d c × Less d c
  Relates equal c d = (k : K) → count k c ≡ count k d
  Relates concurrent c d = Less c d × Less d c

  -- What the flags say after the keys `seen`.
  pub record Flags (c d : Dict K ℕ) (Seen : K → Type 0) (less greater : Bool) : Type 0 where
    pub is_less : less ≡ true → Less c d
    pub is_greater : greater ≡ true → Less d c
    pub apart : less ≡ true → greater ≡ true → ⊥
    pub not_less : less ≡ false → (k : K) → Seen k → count k d ≤ count k c
    pub not_greater : greater ≡ false → (k : K) → Seen k → count k c ≤ count k d

  abbrev pub Scanned : Dict K ℕ → Dict K ℕ → (K → Type 0) → Option (Bool × Bool) → Type 0
  Scanned c d Seen none = Less c d × Less d c
  Scanned c d Seen (some (l, g)) = Flags c d Seen l g

  Scanned-weaken :
      (c d : Dict K ℕ) {S T : K → Type 0} (o : Option (Bool × Bool))
      → ((k : K) → S k → T k)
      → Scanned c d T o
      → Scanned c d S o
  Scanned-weaken c d none sub h = h
  Scanned-weaken c d (some (l, g)) sub h = record {
    is_less = h.is_less;
    is_greater = h.is_greater;
    apart = h.apart;
    not_less = λ p k s. h.not_less p k (sub k s);
    not_greater = λ p k s. h.not_greater p k (sub k s);
  }

  branch-Scanned :
      (c d : Dict K ℕ) (S : K → Type 0) (flag : Bool) (rest : Option (Bool × Bool))
      → (flag ≡ true → Less c d × Less d c)
      → (flag ≡ false → Scanned c d S rest)
      → Scanned c d S (if flag then none else rest)
  branch-Scanned c d S true rest both go = both refl
  branch-Scanned c d S false rest both go = go refl

  -- The flags after one more key.
  abbrev Also : (K → Type 0) → K → K → Type 0
  Also Seen k j = Seen j ⊎ (k ≡ j)

  Also-up :
      (c d : Dict K ℕ) (Seen : K → Type 0) (k : K)
      → count k c ≤ count k d
      → ((j : K) → Seen j → count j c ≤ count j d)
      → (j : K) → Also Seen k j
      → count j c ≤ count j d
  Also-up c d Seen k h f j (inl s) = f j s
  Also-up c d Seen k h f j (inr same) = subst (λ i. count i c ≤ count i d) same h

  Flags-less :
      (c d : Dict K ℕ) (Seen : K → Type 0) (k : K) {l g : Bool}
      → Flags c d Seen l g
      → count k c < count k d
      → g ≡ false
      → Flags c d (Also Seen k) true g
  Flags-less c d Seen k f h n = record {
    is_less = λ _. (k, h);
    is_greater = f.is_greater;
    apart = λ p q. cc;
    not_less = λ p. cc;
    not_greater = λ p. Also-up c d Seen k (omega arith) (f.not_greater p);
  }

  Flags-greater :
      (c d : Dict K ℕ) (Seen : K → Type 0) (k : K) {l g : Bool}
      → Flags c d Seen l g
      → count k d < count k c
      → l ≡ false
      → Flags c d (Also Seen k) l true
  Flags-greater c d Seen k f h n = record {
    is_less = f.is_less;
    is_greater = λ _. (k, h);
    apart = λ p q. cc;
    not_less = λ p. Also-up d c Seen k (omega arith) (f.not_less p);
    not_greater = λ p. cc;
  }

  Flags-same :
      (c d : Dict K ℕ) (Seen : K → Type 0) (k : K) {l g : Bool}
      → Flags c d Seen l g
      → count k c ≡ count k d
      → Flags c d (Also Seen k) l g
  Flags-same c d Seen k f h = record {
    is_less = f.is_less;
    is_greater = f.is_greater;
    apart = f.apart;
    not_less = λ p. Also-up d c Seen k (omega arith) (f.not_less p);
    not_greater = λ p. Also-up c d Seen k (omega arith) (f.not_greater p);
  }

  regroup :
      (Seen : K → Type 0) (k : K) (ks : List K) (j : K)
      → Seen j ⊎ In j (k ∷ ks)
      → Also Seen k j ⊎ In j ks
  regroup Seen k ks j (inl s) = inl (inl s)
  regroup Seen k ks j (inr (inl same)) = inl (inr same)
  regroup Seen k ks j (inr (inr there)) = inr there

  ungroup : (Seen : K → Type 0) (j : K) → Seen j ⊎ In j [] → Seen j
  ungroup Seen j (inl s) = s
  ungroup Seen j (inr n) = absurd n

  -- One turn of either loop, at a key where the clocks count `a` and `b`.
  turn-Scanned :
      (c d : Dict K ℕ) (Seen S : K → Type 0) (k : K) (a b : ℕ)
      (rest : Bool → Bool → Option (Bool × Bool)) (l g : Bool)
      → count k c ≡ a
      → count k d ≡ b
      → ((l g : Bool) → Flags c d (Also Seen k) l g → Scanned c d S (rest l g))
      → Flags c d Seen l g
      → Scanned c d S (
          if ltb a b
          then (if g then none else rest true g)
          else if ltb b a
          then (if l then none else rest l true)
          else rest l g)
  turn-Scanned c d Seen S k a b rest l g ea eb more f = elim (Bool-cases (ltb a b)) [
    | inl lt ↦
        let h : count k c < count k d = omega (tests, lt) in
        rw lt (
          branch-Scanned c d S g (rest true g) (λ p. ((k, h), f.is_greater p))
            (λ n. more true g (Flags-less c d Seen k f h n)))
    | inr ge ↦ rw ge (elim (Bool-cases (ltb b a)) [
      | inl gt ↦
          let h : count k d < count k c = omega (tests, gt) in
          rw gt (
            branch-Scanned c d S l (rest l true) (λ p. (f.is_less p, (k, h)))
              (λ n. more l true (Flags-greater c d Seen k f h n)))
      | inr le ↦ rw le (more l g (Flags-same c d Seen k f (ground arith)))
    ])
  ]

  pub scan_mine-Scanned :
      (c d : Dict K ℕ) (Seen : K → Type 0) (ks : List K) (l g : Bool)
      → Flags c d Seen l g
      → Scanned c d (λ k. Seen k ⊎ In k ks) (scan_mine c d ks l g)
  unfolding scan_mine
  scan_mine-Scanned c d Seen [] l g f = Scanned-weaken c d (some (l, g)) (ungroup Seen) f
  scan_mine-Scanned c d Seen (k ∷ ks) l g f =
      turn-Scanned c d Seen (λ j. Seen j ⊎ In j (k ∷ ks)) k (count k c) (count k d)
        (scan_mine c d ks) l g refl refl
        (λ l g h.
          Scanned-weaken c d (scan_mine c d ks l g) (regroup Seen k ks)
            (scan_mine-Scanned c d (Also Seen k) ks l g h))
        f

  Flags-seen :
      (c d : Dict K ℕ) (Seen : K → Type 0) (k : K) {l g : Bool}
      → Flags c d Seen l g
      → Seen k
      → Flags c d (Also Seen k) l g
  Flags-seen c d Seen k f s = record {
    is_less = f.is_less;
    is_greater = f.is_greater;
    apart = f.apart;
    not_less = λ p. Also-up d c Seen k (f.not_less p k s) (f.not_less p);
    not_greater = λ p. Also-up c d Seen k (f.not_greater p k s) (f.not_greater p);
  }

  pub count_absent : (k : K) (c : Dict K ℕ) → has k c ≡ false → count k c ≡ 0
  unfolding count
  count_absent k c h = ground (arith, has-get k c)

  pub scan_other-Scanned :
      (c d : Dict K ℕ) (Seen : K → Type 0) (ks : List K) (l g : Bool)
      → ((k : K) → has k c ≡ true → Seen k)
      → Flags c d Seen l g
      → Scanned c d (λ k. Seen k ⊎ In k ks) (scan_other c d ks l g)
  unfolding scan_other
  scan_other-Scanned c d Seen [] l g old f = Scanned-weaken c d (some (l, g)) (ungroup Seen) f
  scan_other-Scanned c d Seen (k ∷ ks) l g old f =
      let more = λ (l g : Bool) (h : Flags c d (Also Seen k) l g).
        Scanned-weaken c d (scan_other c d ks l g) (regroup Seen k ks)
          (scan_other-Scanned c d (Also Seen k) ks l g (λ j p. inl (old j p)) h) in
      elim (Bool-cases (has k c)) [
        | inl mine ↦ rw mine (more l g (Flags-seen c d Seen k f (old k mine)))
        | inr new ↦ rw new (
            turn-Scanned c d Seen (λ j. Seen j ⊎ In j (k ∷ ks)) k 0 (count k d) (scan_other c d ks)
              l g (count_absent k c new) refl more f)
      ]
