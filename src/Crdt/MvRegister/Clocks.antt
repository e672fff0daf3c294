-- ===== src/Crdt/MvRegister/Clocks.antt =====
-- `==` of the clocks' dictionaries in `MVRegister.merge`: the same counters, in any order.
use suprime.Base.{ℕ, ◌+◌, ◌≡◌, refl, true, Option, none, some, [], ◌∷◌, arith}
use suprime.Base.Key.{Eq, nat_eq, ==_refl}
use suprime.Base.Lists.{length}
use suprime.Base.Dict.{Dict, Distinct, get, del, del_absent, get-del, del-Distinct}
use suprime.Crdt.MvRegister.{all_found, is_count}

found_at : (o : Option ℕ) (n : ℕ) → is_count o n ≡ true → o ≡ some n
found_at none n h = cc
found_at (some m) n h = ground arith

module _ {K : Type 0} ⦃k : Eq K⦄ where
  all_found-del :
      (c d : Dict K ℕ) (j : K)
      → get j c ≡ none
      → all_found c d ≡ true
      → all_found c (del j d) ≡ true
  unfolding all_found get
  all_found-del [] d j h p = refl
  all_found-del ((i, n) ∷ c) d j h p =
      ground (arith, all_found-del c d j, get-del j i d, k.beq_iff i j, k.beq_iff j i)

  length-del :
      (j : K) (d : Dict K ℕ) (n : ℕ)
      → Distinct d
      → get j d ≡ some n
      → length (del j d) + 1 ≡ length d
  unfolding get del
  length-del j [] n h p = cc
  length-del j ((i, m) ∷ d) n h p = ground (arith, length-del j d n, del_absent j d, k.beq_iff i j)

  all_found-cons :
      (c d : Dict K ℕ) (j : K) (n : ℕ)
      → get j c ≡ none
      → all_found c d ≡ true
      → all_found c ((j, n) ∷ d) ≡ true
  unfolding all_found get
  all_found-cons [] d j n h p = refl
  all_found-cons ((i, m) ∷ c) d j n h p =
      ground (arith, all_found-cons c d j n, k.beq_iff i j, k.beq_iff j i)

  pub all_found_self : (c : Dict K ℕ) → Distinct c → all_found c c ≡ true
  unfolding all_found get
  all_found_self [] h = refl
  all_found_self ((i, n) ∷ c) h =
      ground (arith, all_found-cons c c i n h.0 (all_found_self c h.1), ==_refl i)

  -- A dictionary found whole in another of its length is that other, up to order.
  pub all_found_same :
      (c d : Dict K ℕ) (j : K)
      → Distinct c
      → Distinct d
      → length c ≡ length d
      → all_found c d ≡ true
      → get j d ≡ get j c
  unfolding all_found get
  all_found_same [] [] j hc hd len p = refl
  all_found_same [] (x ∷ d) j hc hd len p = absurd (omega arith)
  all_found_same ((i, n) ∷ c) d j hc hd len p =
      let gi : get i d ≡ some n = found_at (get i d) n (ground arith) in
      let rest =
        all_found_same c (del i d) j hc.1 (del-Distinct i d hd)
          (omega (arith, length-del i d n hd gi)) (all_found-del c d i hc.0 (ground arith)) in
      ground (arith, rest, gi, get-del i j d, k.beq_iff i j)
