-- ===== src/Version.antt =====
-- suprime/store.py `Version` and its comparison, which suprime/crdt.py repeats for `_LWWEntry`: a
-- timestamp, in whole microseconds here, and the writer's id as the tie-breaker.
pub mod Newest
pub mod Streams
use suprime.Base.{ℕ, ◌≡◌, Bool, true, false, arith, ltb, nat_beq, if◌then◌else◌}
use suprime.Base.Key.{Order, ◌≺◌}

pub record Version (K : Type 0) : Type 0 where
  pub ts : ℕ
  pub origin : K

module _ {K : Type 0} ⦃o : Order K⦄ where
  -- `__gt__`: `(self.ts, self.origin) > (other.ts, other.origin)`
  unfoldable pub gt : Version K → Version K → Bool
  gt v w = if nat_beq v.ts w.ts then w.origin ≺ v.origin else ltb w.ts v.ts

  pub gt_irrefl : (v : Version K) → gt v v ≡ false
  unfolding gt
  gt_irrefl v = ground (arith, o.less_irrefl v.origin)

  pub gt_trans : (u v w : Version K) → gt u v ≡ true → gt v w ≡ true → gt u w ≡ true
  unfolding gt
  gt_trans u v w p q = ground (arith, o.less_trans w.origin v.origin u.origin)

  pub gt_total : (v w : Version K) → gt v w ≡ false → gt w v ≡ false → v ≡ w
  unfolding gt
  gt_total v w p q = ground (arith, o.less_total v.origin w.origin)

  -- Both ways of not being newer chain.
  pub gt_chain : (u v w : Version K) → gt u v ≡ false → gt v w ≡ false → gt u w ≡ false
  gt_chain u v w p q = grind (arith, gt_total, gt_trans, gt_irrefl)
