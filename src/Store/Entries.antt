-- ===== src/Store/Entries.antt =====
-- suprime/store.py `Entry`, and the reads and sweeps over a dictionary of entries.
use suprime.Base.{
  ℕ, ◌+◌, Bool, false, ◌&&◌, not, Option, none, some, List, [], ◌∷◌, leb, if◌then◌else◌,
}
use suprime.Base.Key.{Eq}
use suprime.Base.Dict.{Dict, del}
use suprime.Version.{Version}

pub record Entry (K V : Type 0) : Type 0 where
  pub value : Option V
  pub version : Version K
  pub deleted : Bool

abbrev pub version_of : {K V : Type 0} → Entry K V → Version K
version_of a = a.version

module _ {K V : Type 0} where
  -- `items` and `keys` list what is not deleted, `tombstones` counts what is.
  unfoldable pub live_items : Dict K (Entry K V) → List (K × Option V)
  live_items [] = []
  live_items ((k, a) ∷ d) =
      let rest = live_items d in if a.deleted then rest else (k, a.value) ∷ rest

  unfoldable pub count_deleted : Dict K (Entry K V) → ℕ
  count_deleted [] = 0
  count_deleted ((k, a) ∷ d) = (if a.deleted then 1 else 0) + count_deleted d

  -- `e.deleted and (now - e.version.ts) >= min_age`, for a `min_age` that is not negative
  unfoldable pub is_stale : ℕ → ℕ → Entry K V → Bool
  is_stale now min_age a = a.deleted && leb (a.version.ts + min_age) now

  unfoldable pub stale_keys : ℕ → ℕ → Dict K (Entry K V) → List K
  unfolding is_stale
  stale_keys now min_age [] = []
  stale_keys now min_age ((k, a) ∷ d) =
      let rest = stale_keys now min_age d in if is_stale now min_age a then k ∷ rest else rest

  abbrev pub value_or : Option V → Option (Entry K V) → Option V
  value_or default none = default
  value_or default (some a) = if a.deleted then default else a.value

  abbrev pub is_live : Option (Entry K V) → Bool
  is_live none = false
  is_live (some a) = not a.deleted

module _ {K V : Type 0} ⦃e : Eq K⦄ where
  unfoldable pub delete_all : List K → Dict K (Entry K V) → Dict K (Entry K V)
  unfolding del
  delete_all [] d = d
  delete_all (k ∷ ks) d = delete_all ks (del k d)
