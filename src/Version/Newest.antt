-- ===== src/Version/Newest.antt =====
-- Keeping the newest version: what a last-writer-wins merge leaves at a key, and after a stream of
-- entries.
use suprime.Base.{◌≡◌, refl, Bool, true, Option, none, some, arith}
use suprime.Base.Key.{Order}
use suprime.Base.Dict.Merge.{pick}
use suprime.Version.{Version, gt, gt_irrefl, gt_trans, gt_total, gt_chain}

module _ {K E : Type 0} ⦃o : Order K⦄ (version : E → Version K) where
  -- `cur is None or entry.version > cur.version`
  unfoldable pub newer : Option E → E → Bool
  newer none e = true
  newer (some c) e = gt (version e) (version c)

  -- Two entries with one version are one entry: what a fresh version for each write gives.
  abbrev pub IsVersioned : E → E → Type 0
  IsVersioned a b = version a ≡ version b → a ≡ b

  abbrev pub newest : Option E → Option E → Option E
  newest = pick newer

  pub newest_idem : (a : Option E) → newest a a ≡ a
  unfolding pick newer
  newest_idem none = refl
  newest_idem (some a) = ground arith

  pub newest_assoc : (a b c : Option E) → newest (newest a b) c ≡ newest a (newest b c)
  unfolding pick newer
  newest_assoc a b none = refl
  newest_assoc a none (some c) = refl
  newest_assoc none (some b) (some c) = ground arith
  newest_assoc (some a) (some b) (some c) = ground (
    arith,
    gt_trans (version c) (version b) (version a),
    gt_chain (version c) (version b) (version a),
  )

  pub newest_comm :
      (a b : E) → IsVersioned a b → newest (some a) (some b) ≡ newest (some b) (some a)
  unfolding pick newer
  newest_comm a b h = ground (
    arith,
    gt_total (version a) (version b),
    gt_trans (version a) (version b) (version a),
    gt_irrefl (version a),
    h,
  )

  -- On a tie the left entry stays.
  pub newest_tie : (a b : E) → version a ≡ version b → newest (some a) (some b) ≡ some a
  unfolding pick newer
  newest_tie a b h = ground (arith, gt_irrefl (version a), h)
