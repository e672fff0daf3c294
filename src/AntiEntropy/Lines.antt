-- ===== src/AntiEntropy/Lines.antt =====
-- The lines that `bucket_hashes` collects in a bucket are those of its keys.
use mathlib.Core.Path.{subst}
use Prim.Native.String.{String}
use suprime.Base.{
  ℕ, ◌≡◌, refl, sym, ap, ◌∙◌, ◌⊎◌, inl, inr, true, false, some, List, [], ◌∷◌, ◌++◌, arith,
  Bool-cases,
}
use suprime.Base.Key.{◌==◌, nat_eq, string_eq, string_order}
use suprime.Base.Lists.{In, In-append, In-append_left, In-append_right}
use suprime.Base.Dict.{Dict, get, put, get-put}
use suprime.Store.Entries.{Entry}
use suprime.Store.Wire.{to_dict, digest_of}
use suprime.AntiEntropy.{Hashing, or_empty, bucket_of, line_of, collect}

module _ {T : Type 0} where
  abbrev pub Lines : Dict ℕ (List T) → ℕ → T → Type 0
  Lines buckets b t = In t (or_empty (get b buckets))

  get-put_other :
      (j b : ℕ) (x : List T) (d : Dict ℕ (List T)) → (j == b) ≡ false → get b (put j x d) ≡ get b d
  get-put_other j b x d other = ground (arith, get-put j b x d)

  get-put_same :
      (j b : ℕ) (x : List T) (d : Dict ℕ (List T)) → (j == b) ≡ true → get b (put j x d) ≡ some x
  get-put_same j b x d same = ground (arith, get-put j b x d)

  Lines-put :
      (buckets : Dict ℕ (List T)) (j b : ℕ) (x t : T)
      → Lines (put j (or_empty (get j buckets) ++ x ∷ []) buckets) b t
      → Lines buckets b t ⊎ ((j ≡ b) × (x ≡ t))
  Lines-put buckets j b x t there =
      let new = or_empty (get j buckets) ++ x ∷ [] in
      elim (Bool-cases (j == b)) [
        | inr other ↦
            inl (subst (λ o. In t (or_empty o)) (get-put_other j b new buckets other) there)
        | inl same ↦
            let is = (nat_eq.beq_iff j b).0 same in
            let old = subst (λ o. In t (or_empty o)) (get-put_same j b new buckets same) there in
            elim (In-append t (or_empty (get j buckets)) (x ∷ []) old) [
              | inl mine ↦ inl (subst (λ i. In t (or_empty (get i buckets))) is mine)
              | inr (inl here) ↦ inr (is, here)
              | inr (inr no_more) ↦ absurd no_more
            ]
      ]

  put-Lines :
      (buckets : Dict ℕ (List T)) (j b : ℕ) (x t : T)
      → Lines buckets b t ⊎ ((j ≡ b) × (x ≡ t))
      → Lines (put j (or_empty (get j buckets) ++ x ∷ []) buckets) b t
  put-Lines buckets j b x t there =
      let new = or_empty (get j buckets) ++ x ∷ [] in
      elim (Bool-cases (j == b)) [
        | inr other ↦ elim there [
          | inl old ↦ subst (λ o. In t (or_empty o)) (sym (get-put_other j b new buckets other)) old
          | inr (is, here) ↦ ground (arith, nat_eq.beq_iff j b)
        ]
        | inl same ↦
            let is = (nat_eq.beq_iff j b).0 same in
            subst (λ o. In t (or_empty o)) (sym (get-put_same j b new buckets same))
              (elim there [
                | inl old ↦
                    In-append_left t (or_empty (get j buckets)) (x ∷ [])
                      (subst (λ i. In t (or_empty (get i buckets))) (sym is) old)
                | inr (_, here) ↦ In-append_right t (or_empty (get j buckets)) (x ∷ []) (inl here)
              ])
      ]

module _ {V F : Type 0} (h : Hashing F) where
  -- The lines of a bucket are those of its keys.
  abbrev pub HasLine : Dict String (Entry String V) → ℕ → ℕ → String → Type 0
  HasLine d n b t =
      (p : String × Entry String V) × In p d
      × (bucket_of h p.0 n ≡ b)
      × (line_of h p.0 (to_dict p.1) ≡ t)

  HasLine-cons :
      (k : String) (a : Entry String V) (d : Dict String (Entry String V)) (n b : ℕ) (t : String)
      → HasLine d n b t
      → HasLine ((k, a) ∷ d) n b t
  HasLine-cons k a d n b t (p, there, at, is) = (p, inr there, at, is)

  pub Lines-collect :
      (d : Dict String (Entry String V)) (n b : ℕ) (t : String) (buckets : Dict ℕ (List String))
      → Lines (collect h (digest_of d) n buckets) b t
      → Lines buckets b t ⊎ HasLine d n b t
  unfolding collect digest_of
  Lines-collect [] n b t buckets there = inl there
  Lines-collect ((k, a) ∷ d) n b t buckets there =
      let j = bucket_of h k n in
      let x = line_of h k (to_dict a) in
      elim (Lines-collect d n b t (put j (or_empty (get j buckets) ++ x ∷ []) buckets) there) [
        | inr later ↦ inr (HasLine-cons k a d n b t later)
        | inl before ↦ elim (Lines-put buckets j b x t before) [
          | inl old ↦ inl old
          | inr (at, is) ↦ inr ((k, a), inl refl, at, is)
        ]
      ]

  pub collect-Lines :
      (d : Dict String (Entry String V)) (n b : ℕ) (t : String) (buckets : Dict ℕ (List String))
      → Lines buckets b t ⊎ HasLine d n b t
      → Lines (collect h (digest_of d) n buckets) b t
  unfolding collect digest_of
  collect-Lines [] n b t buckets (inl old) = old
  collect-Lines [] n b t buckets (inr (p, there, at, is)) = absurd there
  collect-Lines ((k, a) ∷ d) n b t buckets there =
      let j = bucket_of h k n in
      let x = line_of h k (to_dict a) in
      collect-Lines d n b t (put j (or_empty (get j buckets) ++ x ∷ []) buckets) (elim there [
        | inl old ↦ inl (put-Lines buckets j b x t (inl old))
        | inr (p, inr later, at, is) ↦ inr (p, later, at, is)
        | inr (p, inl here, at, is) ↦ inl (
            put-Lines buckets j b x t (
              inr (
                ap (λ q. bucket_of h q.0 n) here ∙ at,
                ap (λ q. line_of h q.0 (to_dict q.1)) here ∙ is,
              )))
      ])
