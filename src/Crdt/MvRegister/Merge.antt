-- ===== src/Crdt/MvRegister/Merge.antt =====
-- What `MVRegister.merge` keeps: writes that no other write follows, and one for each write that
-- was there.
use mathlib.Core.Path.{subst}
use suprime.Base.{◌≡◌, ◌≢◌, ◌⊎◌, inl, inr, refl, sym, ap, ◌∙◌, true, List, [], ◌∷◌, ◌++◌, arith}
use suprime.Base.Key.{Eq, nat_eq, ==_refl}
use suprime.Base.Lists.{In, In-append, In-append_left, In-append_right}
use suprime.Base.Dict.{Distinct}
use suprime.Base.Dict.Count.{count, or_zero}
use suprime.Crdt.VectorClock.{before, after}
use suprime.Crdt.VectorClock.Scan.{Relates}
use suprime.Crdt.VectorClock.Compare.{compare-Relates, Relates-unique, compare-flip, flip}
use suprime.Crdt.MvRegister.{Write, MvRegister, is_duplicate, same_dict, turn, maxima, merge}
use suprime.Crdt.MvRegister.Clocks.{all_found_same, all_found_self}
use suprime.Crdt.MvRegister.Turn.{order, IsNew, survivors, turn-cases, In-survivors, survivors-In}

module _ {K V : Type 0} ⦃k : Eq K⦄ ⦃v : Eq V⦄ where
  abbrev pub HasClock : Write K V → Type 0
  HasClock w = Distinct w.1.clock

  -- `q` repeats `p`, or causally follows it.
  abbrev pub Follows : Write K V → Write K V → Type 0
  Follows p q = (is_duplicate p q ≡ true) ⊎ (order p q ≡ before)

  duplicate_same :
      (p q : Write K V)
      → HasClock p
      → HasClock q
      → is_duplicate p q ≡ true
      → (j : K) → count j q.1.clock ≡ count j p.1.clock
  unfolding is_duplicate same_dict count
  duplicate_same p q hp hq h j =
      ap or_zero (all_found_same p.1.clock q.1.clock j hp hq (ground arith) (ground arith))

  duplicate_self : (w : Write K V) → HasClock w → is_duplicate w w ≡ true
  unfolding is_duplicate same_dict
  duplicate_self w h = ground (arith, ==_refl w.0, all_found_self w.1.clock h)

  before-Relates : (p q : Write K V) → order p q ≡ before → Relates before p.1.clock q.1.clock
  before-Relates p q h = subst (λ x. Relates x p.1.clock q.1.clock) h (compare-Relates p.1 q.1)

  Relates-before : (p q : Write K V) → Relates before p.1.clock q.1.clock → order p q ≡ before
  Relates-before p q h =
      Relates-unique (order p q) before p.1.clock q.1.clock (compare-Relates p.1 q.1) h

  -- What follows a write that is followed comes before the follower too.
  Follows-up :
      (p q w : Write K V)
      → HasClock p
      → HasClock q
      → Follows p q
      → order w q ≡ after
      → order p w ≡ before
  Follows-up p q w hp hq f a =
      let qw : Relates before q.1.clock w.1.clock =
        subst (λ x. Relates x w.1.clock q.1.clock) a (compare-Relates w.1 q.1) in
      Relates-before p w (elim f [
        | inl same ↦ (
          λ j. omega (arith, qw.0 j, duplicate_same p q hp hq same j),
          (qw.1.0, omega (arith, qw.1.1, duplicate_same p q hp hq same qw.1.0)),
        )
        | inr below ↦
            let pq = before-Relates p q below in
            (λ j. omega (arith, qw.0 j, pq.0 j), (qw.1.0, omega (arith, qw.1.1, pq.0 qw.1.0)))
      ])

  not_before_self : (w : Write K V) → order w w ≢ before
  not_before_self w h = let r = before-Relates w w h in absurd (omega (arith, r.1.1))

  flipped : (w p : Write K V) → order w p ≢ after → order p w ≢ before
  flipped w p h b = h (compare-flip p.1 w.1 ∙ ap flip b)

  abbrev pub Incomparable : List (Write K V) → Type 0
  Incomparable ws = (p q : Write K V) → In p ws → In q ws → order p q ≢ before

  abbrev pub Covered : Write K V → List (Write K V) → Type 0
  Covered p ws = (q : Write K V) × In q ws × Follows p q

  abbrev pub AllClocks : List (Write K V) → Type 0
  AllClocks ws = (p : Write K V) → In p ws → HasClock p

  -- The kept writes after a turn that keeps `w`.
  In-kept :
      (w q : Write K V) (kept : List (Write K V))
      → In q (survivors w kept ++ w ∷ [])
      → (In q kept × (order w q ≢ after)) ⊎ (w ≡ q)
  In-kept w q kept h = elim (In-append q (survivors w kept) (w ∷ []) h) [
    | inl i ↦ inl (In-survivors w q kept i)
    | inr (inl same) ↦ inr same
    | inr (inr n) ↦ absurd n
  ]

  turn-In : (kept : List (Write K V)) (w q : Write K V) → In q (turn kept w) → In q kept ⊎ (w ≡ q)
  turn-In kept w q h = elim (turn-cases kept w) [
    | inl (is, old) ↦ inl (subst (In q) is h)
    | inr (is, new) ↦ elim (In-kept w q kept (subst (In q) is h)) [
      | inl (i, fine) ↦ inl i
      | inr same ↦ inr same
    ]
  ]

  kept-Incomparable :
      (kept : List (Write K V)) (w : Write K V)
      → Incomparable kept
      → ((q : Write K V) → In q kept → IsNew w q)
      → Incomparable (survivors w kept ++ w ∷ [])
  kept-Incomparable kept w inc new p q ip iq = elim (In-kept w p kept ip) [
    | inl (jp, np) ↦ elim (In-kept w q kept iq) [
      | inl (jq, nq) ↦ inc p q jp jq
      | inr wq ↦ subst (λ x. order p x ≢ before) wq (flipped w p np)
    ]
    | inr wp ↦ elim (In-kept w q kept iq) [
      | inl (jq, nq) ↦ subst (λ x. order x q ≢ before) wp (new q jq).1
      | inr wq ↦
          subst (λ x. order x q ≢ before) wp
            (subst (λ x. order w x ≢ before) wq (not_before_self w))
    ]
  ]

  turn-Incomparable :
      (kept : List (Write K V)) (w : Write K V) → Incomparable kept → Incomparable (turn kept w)
  turn-Incomparable kept w inc = elim (turn-cases kept w) [
    | inl (is, old) ↦ subst Incomparable (sym is) inc
    | inr (is, new) ↦ subst Incomparable (sym is) (kept-Incomparable kept w inc new)
  ]

  turn-Covered :
      (kept : List (Write K V)) (w p : Write K V)
      → AllClocks kept
      → HasClock p
      → Covered p kept ⊎ (w ≡ p)
      → Covered p (turn kept w)
  turn-Covered kept w p clocks hp h = elim (turn-cases kept w) [
    | inl (is, (q, iq, how)) ↦
        subst (Covered p) (sym is)
          (elim h [ inl covered ↦ covered | inr same ↦ (q, iq, subst (λ x. Follows x q) same how) ])
    | inr (is, new) ↦
        let own = In-append_right w (survivors w kept) (w ∷ []) (inl refl) in
        subst (Covered p) (sym is) (elim h [
          | inr same ↦ (
            w,
            own,
            subst (λ x. Follows x w) same (inl (duplicate_self w (subst HasClock (sym same) hp))),
          )
          | inl (q, iq, f) ↦ elim (survivors-In w q kept iq) [
            | inl gone ↦ (w, own, inr (Follows-up p q w hp (clocks q iq) f gone))
            | inr stays ↦ (q, In-append_left q (survivors w kept) (w ∷ []) stays, f)
          ]
        ])
  ]

  turn-AllClocks :
      (kept : List (Write K V)) (w : Write K V)
      → AllClocks kept
      → HasClock w
      → AllClocks (turn kept w)
  turn-AllClocks kept w clocks hw q i = elim (turn-In kept w q i) [
    | inl old ↦ clocks q old
    | inr same ↦ subst HasClock same hw
  ]

  maxima-Incomparable :
      (kept ws : List (Write K V)) → Incomparable kept → Incomparable (maxima kept ws)
  unfolding maxima
  maxima-Incomparable kept [] h = h
  maxima-Incomparable kept (w ∷ ws) h =
      maxima-Incomparable (turn kept w) ws (turn-Incomparable kept w h)

  maxima-Covered :
      (kept ws : List (Write K V)) (p : Write K V)
      → AllClocks kept
      → AllClocks ws
      → HasClock p
      → Covered p kept ⊎ In p ws
      → Covered p (maxima kept ws)
  unfolding maxima
  maxima-Covered kept [] p hk hw hp (inl c) = c
  maxima-Covered kept [] p hk hw hp (inr n) = absurd n
  maxima-Covered kept (w ∷ ws) p hk hw hp h =
      maxima-Covered (turn kept w) ws p (turn-AllClocks kept w hk (hw w (inl refl)))
        (λ q i. hw q (inr i)) hp
        (elim h [
          | inl c ↦ inl (turn-Covered kept w p hk hp (inl c))
          | inr (inl here) ↦ inl (turn-Covered kept w p hk hp (inr here))
          | inr (inr there) ↦ inr there
        ])

  maxima-In :
      (kept ws : List (Write K V)) (q : Write K V) → In q (maxima kept ws) → In q kept ⊎ In q ws
  unfolding maxima
  maxima-In kept [] q h = inl h
  maxima-In kept (w ∷ ws) q h = elim (maxima-In (turn kept w) ws q h) [
    | inr later ↦ inr (inr later)
    | inl now ↦ elim (turn-In kept w q now) [ inl old ↦ inl old | inr same ↦ inr (inl same) ]
  ]

  -- Where no clock names a node twice, a merge of two registers keeps only writes of the two
  -- sides; none of them causally precedes another; and every write of the two sides is repeated or
  -- followed by one that is kept.
  pub merge_maxima :
      (a b : MvRegister K V)
      → AllClocks a.versions
      → AllClocks b.versions
      → ((q : Write K V) → In q (merge a b).0.versions → In q a.versions ⊎ In q b.versions)
        × Incomparable (merge a b).0.versions
        × ((p : Write K V) → In p a.versions ⊎ In p b.versions → Covered p (merge a b).0.versions)
  unfolding merge
  merge_maxima a b ha hb = (
    λ q i. elim (maxima-In [] (a.versions ++ b.versions) q i) [
      | inl n ↦ absurd n
      | inr j ↦ In-append q a.versions b.versions j
    ],
    maxima-Incomparable [] (a.versions ++ b.versions) (λ p q n. absurd n),
    λ p h.
        maxima-Covered [] (a.versions ++ b.versions) p (λ q n. absurd n)
          (λ q i. elim (In-append q a.versions b.versions i) [ inl l ↦ ha q l | inr r ↦ hb q r ])
          (elim h [ inl l ↦ ha p l | inr r ↦ hb p r ])
          (inr (elim h [
            | inl l ↦ In-append_left p a.versions b.versions l
            | inr r ↦ In-append_right p a.versions b.versions r
          ])),
  )

  -- A merge into a register that holds a write reports a change, a merge with its own copy
  -- included.
  pub merge_changed : (a b : MvRegister K V) → a.versions ≢ [] → (merge a b).1 ≡ true
  unfolding merge
  merge_changed a b h = ground arith
