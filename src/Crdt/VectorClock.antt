-- ===== src/Crdt/VectorClock.antt =====
-- suprime/crdt.py `VectorClock`: per-node counters and the causal comparison.
pub mod Scan
pub mod Compare
pub mod Merge
use suprime.Base.{
  ℕ, ◌+◌, ◌≤◌, ◌<◌, ◌≡◌, refl, Bool, true, false, ◌&&◌, ◌||◌, not, Option, none, some, List, [],
  ◌∷◌, arith, ltb, if◌then◌else◌, max,
}
use suprime.Base.Key.{Eq, ◌==◌}
use suprime.Base.Dict.Count.{count, count-put}
use suprime.Base.Dict.{Dict, Distinct, get, put, has, keys, get-put, put-Distinct}

pub record VectorClock (K : Type 0) : Type 0 where
  pub clock : Dict K ℕ

-- The strings that `compare` answers.
pub data Verdict : Type 0 where
  before after equal concurrent : Verdict

-- The answer from the two flags.
abbrev pub verdict : Option (Bool × Bool) → Verdict
verdict none = concurrent
verdict (some (less, greater)) = if less then before else if greater then after else equal

module _ {K : Type 0} ⦃e : Eq K⦄ where
  unfoldable pub increment : K → VectorClock K → VectorClock K
  unfolding count put
  increment k c = record { clock = put k (count k c.clock + 1) c.clock }

  -- `for k, v in other.clock.items(): merged[k] = v if v > cur else cur`
  unfoldable pub raise_all : Dict K ℕ → Dict K ℕ → Dict K ℕ
  unfolding count put
  raise_all merged [] = merged
  raise_all merged ((k, v) ∷ other) =
      let cur = count k merged in raise_all (put k (if ltb cur v then v else cur) merged) other

  unfoldable pub merge : VectorClock K → VectorClock K → VectorClock K
  unfolding raise_all
  merge c other = record { clock = raise_all c.clock other.clock }

  -- The first loop of `compare`, over the keys of `self.clock`; `none` is its early return.
  unfoldable pub scan_mine : Dict K ℕ → Dict K ℕ → List K → Bool → Bool → Option (Bool × Bool)
  unfolding count
  scan_mine mine other [] less greater = some (less, greater)
  scan_mine mine other (k ∷ ks) less greater =
      let a = count k mine in
      let b = count k other in
      let on_less = scan_mine mine other ks true greater in
      let on_greater = scan_mine mine other ks less true in
      let on_same = scan_mine mine other ks less greater in
      if ltb a b
      then (if greater then none else on_less)
      else if ltb b a
      then (if less then none else on_greater)
      else on_same

  -- The second loop, over the keys of `other.clock` that `self.clock` lacks.
  unfoldable pub scan_other : Dict K ℕ → Dict K ℕ → List K → Bool → Bool → Option (Bool × Bool)
  unfolding count has
  scan_other mine other [] less greater = some (less, greater)
  scan_other mine other (k ∷ ks) less greater =
      let b = count k other in
      let on_less = scan_other mine other ks true greater in
      let on_greater = scan_other mine other ks less true in
      let on_same = scan_other mine other ks less greater in
      if has k mine
      then on_same
      else if ltb 0 b
      then (if greater then none else on_less)
      else if ltb b 0
      then (if less then none else on_greater)
      else on_same

  -- `compare` after its first loop.
  unfoldable pub compare_rest : Dict K ℕ → Dict K ℕ → Option (Bool × Bool) → Verdict
  unfolding scan_other keys
  compare_rest mine other none = concurrent
  compare_rest mine other (some (less, greater)) =
      verdict (scan_other mine other (keys other) less greater)

  unfoldable pub compare : VectorClock K → VectorClock K → Verdict
  unfolding scan_mine compare_rest keys
  compare c other =
      compare_rest c.clock other.clock (scan_mine c.clock other.clock (keys c.clock) false false)

  pub count-increment :
      (k j : K) (c : VectorClock K)
      → count j (increment k c).clock ≡ count j c.clock + (if k == j then 1 else 0)
  unfolding increment
  count-increment k j c = ground (arith, count-put k j (count k c.clock + 1) c.clock, e.beq_iff k j)

  count-raise_all :
      (d other : Dict K ℕ) (j : K)
      → Distinct other
      → count j (raise_all d other) ≡ max (count j d) (count j other)
  unfolding raise_all count get
  count-raise_all d [] j h = omega arith
  count-raise_all d ((k, v) ∷ other) j h =
      let cur = count k d in
      let top = if ltb cur v then v else cur in
      ground (arith, count-raise_all (put k top d) other j h.1, count-put k j top d, e.beq_iff k j)

  -- Clocks merge to the larger counter of each node.
  pub count-merge :
      (c other : VectorClock K) (j : K)
      → Distinct other.clock
      → count j (merge c other).clock ≡ max (count j c.clock) (count j other.clock)
  unfolding merge
  count-merge c other j h = count-raise_all c.clock other.clock j h

  raise_all-Distinct : (d other : Dict K ℕ) → Distinct d → Distinct (raise_all d other)
  unfolding raise_all
  raise_all-Distinct d [] h = h
  raise_all-Distinct d ((k, v) ∷ other) h =
      let top = if ltb (count k d) v then v else count k d in
      raise_all-Distinct (put k top d) other (put-Distinct k top d h)

  pub merge-Distinct : (c other : VectorClock K) → Distinct c.clock → Distinct (merge c other).clock
  unfolding merge
  merge-Distinct c other h = raise_all-Distinct c.clock other.clock h
