-- ===== src/Base/Dict/Count.antt =====
-- Dictionaries of counters: `d.get(k, 0)` and `sum(d.values())`.
use suprime.Base.Tests.{if◌then◌else◌}
use Prim.Native.Nat.{ℕ, ◌+◌, ◌≤◌}
use mathlib.Core.Path.{◌≡◌, refl}
use mathlib.Core.Option.{Option, none, some}
use mathlib.Core.List.{List, [], ◌∷◌}
use native.Mathlib.Omega.{arith}
use suprime.Base.Key.{Eq, ◌==◌, ==_refl}
use suprime.Base.Dict.{
  Dict, Distinct, get, put, del, values, get-put, get-del, del_absent, del-Distinct,
}

abbrev pub or_zero : Option ℕ → ℕ
or_zero none = 0
or_zero (some n) = n

unfoldable pub sum : List ℕ → ℕ
sum [] = 0
sum (n ∷ ns) = n + sum ns

unfoldable pub total {ℓ} : {K : Type ℓ} → Dict K ℕ → ℕ
unfolding sum values
total d = sum (values d)

module _ {ℓ} {K : Type ℓ} ⦃e : Eq K⦄ where
  unfoldable pub count : K → Dict K ℕ → ℕ
  unfolding get
  count k d = or_zero (get k d)

  pub count-put :
      (k j : K) (n : ℕ) (d : Dict K ℕ) → count j (put k n d) ≡ (if k == j then n else count j d)
  unfolding count
  count-put k j n d = ground (arith, get-put k j n d)

  count-del : (k j : K) (d : Dict K ℕ) → count j (del k d) ≡ (if k == j then 0 else count j d)
  unfolding count
  count-del k j d = ground (arith, get-del k j d)

  pub total-put : (k : K) (n : ℕ) (d : Dict K ℕ) → total (put k n d) + count k d ≡ total d + n
  unfolding total count put
  total-put k n [] = omega arith
  total-put k n ((j, w) ∷ d) = ground (arith, total-put k n d)

  total-del : (k : K) (d : Dict K ℕ) → Distinct d → total d ≡ count k d + total (del k d)
  unfolding total count del
  total-del k [] h = refl
  total-del k ((j, w) ∷ d) h = ground (arith, total-del k d, e.beq_iff j k, del_absent k d)

  -- A sum grows with its counters.
  pub total_mono :
      (c d : Dict K ℕ)
      → Distinct c
      → Distinct d
      → ((k : K) → count k c ≤ count k d)
      → total c ≤ total d
  unfolding total count
  total_mono [] d hc hd le = omega arith
  total_mono ((k, v) ∷ c) d hc hd le =
      let rest : total c ≤ total (del k d) =
        total_mono c (del k d) hc.1 (del-Distinct k d hd)
          (λ j. ground (arith, le j, count-del k j d, e.beq_iff k j)) in
      ground (arith, rest, total-del k d hd, le k, ==_refl k)

  -- Counters that agree have one sum, whatever their order and their zeros.
  pub total-cong :
      (c d : Dict K ℕ)
      → Distinct c
      → Distinct d
      → ((k : K) → count k c ≡ count k d)
      → total c ≡ total d
  total-cong c d hc hd same = omega (
    arith,
    total_mono c d hc hd (λ k. omega (arith, same k)),
    total_mono d c hd hc (λ k. omega (arith, same k)),
  )
