-- ===== src/Tasks/Winner.antt =====
-- The winner is the claim that is earliest, ties broken by node id, whatever the order in which the
-- claims are listed.
use mathlib.Core.Path.{subst}
use Prim.Native.String.{String}
use suprime.Base.{
  ℕ, ◌≡◌, refl, sym, ap, ◌⊎◌, ◌↔◌, inl, inr, true, false, some, [], ◌∷◌, arith, Bool-cases,
}
use suprime.Base.Key.{string_order, str_less_irrefl, str_less_trans, str_less_total}
use suprime.Base.Lists.{In}
use suprime.Base.Dict.{Dict}
use suprime.Base.Result.{ok}
use suprime.Tasks.{TaskBoard}
use suprime.Tasks.Claims.{earlier, earliest, winner_of, claims, winner}

earlier_irrefl : (p : String × ℕ) → earlier p p ≡ false
earlier_irrefl p = ground (arith, str_less_irrefl p.0)

earlier_trans : (p q r : String × ℕ) → earlier p q ≡ true → earlier q r ≡ true → earlier p r ≡ true
earlier_trans p q r h k = ground (arith, h, k, str_less_trans p.0 q.0 r.0)

earlier_total : (p q : String × ℕ) → earlier p q ≡ false → earlier q p ≡ false → p ≡ q
earlier_total p q h k = ground (arith, h, k, str_less_total p.0 q.0)

earliest-cons :
    (best q : String × ℕ) (cs : Dict String ℕ)
    → (earlier q best ≡ true) × (earliest best (q ∷ cs) ≡ earliest q cs)
      ⊎ (earlier q best ≡ false) × (earliest best (q ∷ cs) ≡ earliest best cs)
unfolding earliest
earliest-cons best q cs = elim (Bool-cases (earlier q best)) [
  | inl wins ↦ inl (wins, rw wins refl)
  | inr loses ↦ inr (loses, rw loses refl)
]

abbrev SeenFirst : String × ℕ → Dict String ℕ → String × ℕ → Type 0
SeenFirst best cs p =
    ((p ≡ best) ⊎ In p cs)
    × (earlier best p ≡ false)
    × ((q : String × ℕ) → In q cs → earlier q p ≡ false)

won :
    (best q p : String × ℕ) (cs : Dict String ℕ)
    → earlier q best ≡ true
    → SeenFirst q cs p
    → SeenFirst best (q ∷ cs) p
won best q p cs wins (from, own, all) = (
  elim from [ inl is ↦ inr (inl (sym is)) | inr there ↦ inr (inr there) ],
  elim (Bool-cases (earlier best p)) [
    | inl less ↦ cc (earlier_trans q best p wins less, own)
    | inr more ↦ more
  ],
  λ r h. elim h [ inl here ↦ subst (λ x. earlier x p ≡ false) here own | inr there ↦ all r there ],
)

lost :
    (best q p : String × ℕ) (cs : Dict String ℕ)
    → earlier q best ≡ false
    → SeenFirst best cs p
    → SeenFirst best (q ∷ cs) p
lost best q p cs loses (from, own, all) =
    let last : earlier q p ≡ false = elim (Bool-cases (earlier q p)) [
      | inr more ↦ more
      | inl less ↦ elim (Bool-cases (earlier p best)) [
        | inl before ↦ cc (earlier_trans q p best less before, loses)
        | inr level ↦ subst (λ x. earlier q x ≡ false) (earlier_total best p own level) loses
      ]
    ] in
    (
      elim from [ inl is ↦ inl is | inr there ↦ inr (inr there) ],
      own,
      λ r h. elim h [
        | inl here ↦ subst (λ x. earlier x p ≡ false) here last
        | inr there ↦ all r there
      ],
    )

-- The best is one of those seen, and none of them is before it.
earliest_lem : (best : String × ℕ) (cs : Dict String ℕ) → SeenFirst best cs (earliest best cs)
earliest_lem best [] = unfold earliest in (inl refl, earlier_irrefl best, λ p h. absurd h)
earliest_lem best (q ∷ cs) = elim (earliest-cons best q cs) [
  | inl (wins, is) ↦
      subst (SeenFirst best (q ∷ cs)) (sym is)
        (won best q (earliest q cs) cs wins (earliest_lem q cs))
  | inr (loses, is) ↦
      subst (SeenFirst best (q ∷ cs)) (sym is)
        (lost best q (earliest best cs) cs loses (earliest_lem best cs))
]

-- A claim that is earliest among the claims.
abbrev pub IsEarliest : String × ℕ → Dict String ℕ → Type 0
IsEarliest p cs = In p cs × ((q : String × ℕ) → In q cs → earlier q p ≡ false)

earliest_of_all : (p : String × ℕ) (cs : Dict String ℕ) → IsEarliest (earliest p cs) (p ∷ cs)
earliest_of_all p cs =
    let (from, own, all) = earliest_lem p cs in
    (
      elim from [ inl is ↦ inl (sym is) | inr there ↦ inr there ],
      λ q h. elim h [
        | inl here ↦ subst (λ x. earlier x (earliest p cs) ≡ false) here own
        | inr there ↦ all q there
      ],
    )

same_earliest :
    (p q : String × ℕ) (cs ds : Dict String ℕ)
    → ((r : String × ℕ) → In r cs ↔ In r ds)
    → IsEarliest p cs
    → IsEarliest q ds
    → p ≡ q
same_earliest p q cs ds same hp hq =
    earlier_total p q (hq.1 p ((same p).0 hp.0)) (hp.1 q ((same q).1 hq.0))

pub winner_of_same :
    (cs ds : Dict String ℕ) → ((r : String × ℕ) → In r cs ↔ In r ds) → winner_of cs ≡ winner_of ds
winner_of_same [] [] same = refl
winner_of_same [] (q ∷ ds) same = absurd ((same q).1 (inl refl))
winner_of_same (p ∷ cs) [] same = absurd ((same p).0 (inl refl))
winner_of_same (p ∷ cs) (q ∷ ds) same =
    ap (λ (r : String × ℕ). some r.0)
      (same_earliest (earliest p cs) (earliest q ds) (p ∷ cs) (q ∷ ds) same (earliest_of_all p cs)
        (earliest_of_all q ds))

module _ {X C D : Type 0} where
  -- Two boards that list the same claims on a task, in whatever order, name the same winner.
  pub winner_agree :
      (task_id : String) (a : TaskBoard X C) (b : TaskBoard X D) (cs ds : Dict String ℕ)
      → claims task_id a ≡ ok cs
      → claims task_id b ≡ ok ds
      → ((r : String × ℕ) → In r cs ↔ In r ds)
      → winner task_id a ≡ winner task_id b
  unfolding winner
  winner_agree task_id a b cs ds ha hb same = rw (ha, hb) (ap ok (winner_of_same cs ds same))
