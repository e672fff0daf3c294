-- ===== src/Crdt/MvRegister/Turn.antt =====
-- One turn of `MVRegister.merge`: either the write is dropped, and something kept already covers
-- it, or it is kept and what it follows is dropped.
use mathlib.Core.Path.{subst}
use suprime.Base.{
  ℕ, suc, ◌<◌, ◌≤◌, ◌≡◌, ◌≢◌, ◌⊎◌, inl, inr, refl, sym, true, false, none, some, List, [], ◌∷◌,
  ◌++◌, arith, Option-cases,
}
use suprime.Base.Key.{Eq, nat_eq}
use suprime.Base.Lists.{In}
use suprime.Base.Sets.{member}
use suprime.Crdt.VectorClock
use suprime.Crdt.VectorClock.{Verdict, before, after, equal, concurrent}
use suprime.Crdt.MvRegister.{Write, without, is_duplicate, scan, turn, kept_after}

low-cons :
    (i : ℕ) (rm : List ℕ)
    → ((j : ℕ) → i ≤ j → member j rm ≡ false)
    → (j : ℕ) → suc i ≤ j
    → member j (i ∷ rm) ≡ false
unfolding member
low-cons i rm low j h = ground (arith, low j)

after-or_not : (v : Verdict) → (v ≡ after) ⊎ (v ≢ after)
after-or_not after = inl refl
after-or_not before = inr (λ e. cc)
after-or_not equal = inr (λ e. cc)
after-or_not concurrent = inr (λ e. cc)

module _ {K V : Type 0} ⦃k : Eq K⦄ ⦃v : Eq V⦄ where
  abbrev pub order : Write K V → Write K V → Verdict
  order w q = VectorClock.compare w.1 q.1

  -- What a kept write leaves of those before it.
  abbrev pub survivors : Write K V → List (Write K V) → List (Write K V)
  survivors w [] = []
  survivors w (q ∷ kept) =
      let rest = survivors w kept in elim (order w q) [ after ↦ rest | _ ↦ q ∷ rest ]

  scan_low :
      (w : Write K V) (i : ℕ) (kept : List (Write K V)) (rm rm' : List ℕ) (j : ℕ)
      → j < i
      → scan w i kept rm ≡ some rm'
      → member j rm' ≡ member j rm
  unfolding scan member
  scan_low w i [] rm rm' j h e = ground arith
  scan_low w i (q ∷ kept) rm rm' j h e =
      ground (arith, scan_low w (suc i) kept rm rm' j, scan_low w (suc i) kept (i ∷ rm) rm' j)

  scan-without :
      (w : Write K V) (i : ℕ) (kept : List (Write K V)) (rm rm' : List ℕ)
      → ((j : ℕ) → i ≤ j → member j rm ≡ false)
      → scan w i kept rm ≡ some rm'
      → without rm' i kept ≡ survivors w kept
  unfolding scan without member
  scan-without w i [] rm rm' low e = refl
  scan-without w i (q ∷ kept) rm rm' low e = ground (
    arith,
    scan-without w (suc i) kept rm rm' (λ j h. low j (omega arith)),
    scan-without w (suc i) kept (i ∷ rm) rm' (low-cons i rm low),
    scan_low w (suc i) kept rm rm' i,
    scan_low w (suc i) kept (i ∷ rm) rm' i,
    low i,
  )

  order-cases :
      (w p : Write K V) (i : ℕ) (kept : List (Write K V)) (rm rm' : List ℕ)
      → scan w i (p ∷ kept) rm ≡ some rm'
      → (scan w (suc i) kept rm ≡ some rm') ⊎ (scan w (suc i) kept (i ∷ rm) ≡ some rm')
  unfolding scan
  order-cases w p i kept rm rm' e = ground arith

  -- Nothing kept makes the write redundant.
  abbrev pub IsNew : Write K V → Write K V → Type 0
  IsNew w q = (is_duplicate w q ≡ false) × (order w q ≢ before)

  scan-IsNew :
      (w : Write K V) (i : ℕ) (kept : List (Write K V)) (rm rm' : List ℕ) (q : Write K V)
      → scan w i kept rm ≡ some rm'
      → In q kept
      → IsNew w q
  unfolding scan
  scan-IsNew w i (p ∷ kept) rm rm' q e (inr there) = elim (order-cases w p i kept rm rm' e) [
    | inl e' ↦ scan-IsNew w (suc i) kept rm rm' q e' there
    | inr e' ↦ scan-IsNew w (suc i) kept (i ∷ rm) rm' q e' there
  ]
  scan-IsNew w i (p ∷ kept) rm rm' q e (inl here) =
      subst (IsNew w) here (ground arith, λ b. ground arith)
  scan-IsNew w i [] rm rm' q e h = absurd h

  old-cases :
      (w p : Write K V) (i : ℕ) (kept : List (Write K V)) (rm : List ℕ)
      → scan w i (p ∷ kept) rm ≡ none
      → ((is_duplicate w p ≡ true) ⊎ (order w p ≡ before))
        ⊎ (scan w (suc i) kept rm ≡ none)
        ⊎ (scan w (suc i) kept (i ∷ rm) ≡ none)
  unfolding scan
  old-cases w p i kept rm e = ground arith

  scan_old :
      (w : Write K V) (i : ℕ) (kept : List (Write K V)) (rm : List ℕ)
      → scan w i kept rm ≡ none
      → (q : Write K V) × In q kept × ((is_duplicate w q ≡ true) ⊎ (order w q ≡ before))
  unfolding scan
  scan_old w i [] rm e = absurd (ground arith)
  scan_old w i (p ∷ kept) rm e = elim (old-cases w p i kept rm e) [
    | inl here ↦ (p, inl refl, here)
    | inr (inl e') ↦ let (q, there, how) = scan_old w (suc i) kept rm e' in (q, inr there, how)
    | inr (inr e') ↦
        let (q, there, how) = scan_old w (suc i) kept (i ∷ rm) e' in (q, inr there, how)
  ]

  -- A turn either drops the write, which a kept one repeats or follows, or appends it to the kept
  -- ones that it does not follow.
  pub turn-cases :
      (kept : List (Write K V)) (w : Write K V)
      → (turn kept w ≡ kept)
          × ((q : Write K V) × In q kept × ((is_duplicate w q ≡ true) ⊎ (order w q ≡ before)))
        ⊎ (turn kept w ≡ survivors w kept ++ w ∷ []) × ((q : Write K V) → In q kept → IsNew w q)
  unfolding turn
  turn-cases kept w = elim (Option-cases (scan w 0 kept [])) [
    | inl old ↦ inl (rw (old, kept_after) refl, scan_old w 0 kept [] old)
    | inr (rm, new) ↦ inr (
      ground (arith, scan-without w 0 kept [] rm (λ j h. unfold member in refl)),
      λ q. scan-IsNew w 0 kept [] rm q new,
    )
  ]

  survivors-after :
      (w p : Write K V) (kept : List (Write K V))
      → order w p ≡ after
      → survivors w (p ∷ kept) ≡ survivors w kept
  survivors-after w p kept h = ground arith

  survivors-cons :
      (w p : Write K V) (kept : List (Write K V))
      → order w p ≢ after
      → survivors w (p ∷ kept) ≡ p ∷ survivors w kept
  survivors-cons w p kept h = ground arith

  pub In-survivors :
      (w q : Write K V) (kept : List (Write K V))
      → In q (survivors w kept)
      → In q kept × (order w q ≢ after)
  In-survivors w q [] h = elim h [ ]
  In-survivors w q (p ∷ kept) h = elim (after-or_not (order w p)) [
    | inl yes_after ↦
        let (there, fine) =
          In-survivors w q kept (subst (In q) (survivors-after w p kept yes_after) h) in
        (inr there, fine)
    | inr not_after ↦ elim (subst (In q) (survivors-cons w p kept not_after) h) [
      | inl here ↦ (inl here, subst (λ x. order w x ≢ after) here not_after)
      | inr there ↦ let (i, fine) = In-survivors w q kept there in (inr i, fine)
    ]
  ]

  pub survivors-In :
      (w q : Write K V) (kept : List (Write K V))
      → In q kept
      → (order w q ≡ after) ⊎ In q (survivors w kept)
  survivors-In w q [] h = elim h [ ]
  survivors-In w q (p ∷ kept) (inl here) = elim (after-or_not (order w p)) [
    | inl yes_after ↦ inl (subst (λ x. order w x ≡ after) here yes_after)
    | inr not_after ↦ inr (subst (In q) (sym (survivors-cons w p kept not_after)) (inl here))
  ]
  survivors-In w q (p ∷ kept) (inr there) = elim (survivors-In w q kept there) [
    | inl gone ↦ inl gone
    | inr stays ↦ elim (after-or_not (order w p)) [
      | inl yes_after ↦ inr (subst (In q) (sym (survivors-after w p kept yes_after)) stays)
      | inr not_after ↦ inr (subst (In q) (sym (survivors-cons w p kept not_after)) (inr stays))
    ]
  ]
