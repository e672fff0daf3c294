-- ===== src/Crdt/OrSet.antt =====
-- suprime/crdt.py `ORSet`. A tag, in the source the string `{node_id}:{counter}`, is the pair of its
-- parts: the digits of a counter hold no colon, so the string determines them.
pub mod Merge
pub mod AddWins
use suprime.Base.{
  ℕ, ◌+◌, Bool, true, false, ◌&&◌, ◌||◌, not, Option, none, some, List, [], ◌∷◌, ◌++◌, map,
  if◌then◌else◌,
}
use suprime.Base.Key.{Eq, ◌==◌, pair_eq, nat_eq, Blank}
use suprime.Base.Dict.{Dict, get, put}
use suprime.Base.Sets.{member, add, union, subset}

abbrev pub Tag : Type 0 → Type 0
Tag K = K × ℕ

pub record OrSet (K E : Type 0) : Type 0 where
  pub node_id : K
  pub counter : ℕ
  pub adds : Dict E (List (Tag K))
  pub removed : List (Tag K)

unfoldable pub init : {K E : Type 0} → K → OrSet K E
init node_id = record { node_id = node_id; counter = 0; adds = []; removed = [] }

-- `d.get(element, set())`
abbrev pub or_none : {K : Type 0} → Option (List (Tag K)) → List (Tag K)
or_none none = []
or_none (some tags) = tags

abbrev pub is_some : {K : Type 0} → List (Tag K) → Bool
is_some [] = false
is_some (t ∷ tags) = true

-- What is sent: an object with the element and its tags for each element, and the tombstones.
pub record Digest (K E R : Type 0) : Type 0 where
  pub adds : Dict R (E × List (Tag K))
  pub removed : List (Tag K)

module _ {K E : Type 0} ⦃k : Eq K⦄ ⦃e : Eq E⦄ where
  unfoldable pub tags_of : E → OrSet K E → List (Tag K)
  unfolding get
  tags_of element s = or_none (get element s.adds)

  -- `add`, with `_fresh_tag`
  unfoldable pub add_element : E → OrSet K E → OrSet K E
  unfolding tags_of put add
  add_element element s =
      let tag : Tag K = (s.node_id, s.counter + 1) in
      record s { counter = s.counter + 1; adds = put element (add tag (tags_of element s)) s.adds }

  unfoldable pub remove : E → OrSet K E → OrSet K E
  unfolding tags_of union
  remove element s = record s { removed = union s.removed (tags_of element s) }

  unfoldable pub contains : E → OrSet K E → Bool
  unfolding tags_of subset
  contains element s = let tags = tags_of element s in is_some tags && not (subset tags s.removed)

  unfoldable pub live_elements : List (Tag K) → Dict E (List (Tag K)) → List E
  unfolding subset
  live_elements removed [] = []
  live_elements removed ((x, tags) ∷ adds) =
      let rest = live_elements removed adds in if not (subset tags removed) then x ∷ rest else rest

  unfoldable pub elements : OrSet K E → List E
  unfolding live_elements
  elements s = live_elements s.removed s.adds

  -- `cur = self._adds.setdefault(element, set())`, then `cur |= tags` if a tag is new.
  unfoldable pub merge_adds :
      Dict E (List (Tag K)) × Bool → Dict E (List (Tag K)) → Dict E (List (Tag K)) × Bool
  unfolding get put subset union
  merge_adds s [] = s
  merge_adds (adds, changed) ((x, tags) ∷ other) =
      let cur = or_none (get x adds) in
      merge_adds
        (if not (subset tags cur)
          then (put x (union cur tags) adds, true)
          else (put x cur adds, changed))
        other

  unfoldable pub merge : OrSet K E → OrSet K E → OrSet K E × Bool
  unfolding merge_adds subset union
  merge s other =
      let (adds, changed) = merge_adds (s.adds, false) other.adds in
      if not (subset other.removed s.removed)
      then (record s { adds = adds; removed = union s.removed other.removed }, true)
      else (record s { adds = adds }, changed)

  -- `repr(e)` keys the objects that are sent.
  unfoldable pub digest_adds :
      {R : Type 0} ⦃r : Eq R⦄
      → (E → R)
      → Dict E (List (Tag K))
      → Dict R (E × List (Tag K))
      → Dict R (E × List (Tag K))
  unfolding put
  digest_adds repr [] out = out
  digest_adds repr ((x, tags) ∷ adds) out = digest_adds repr adds (put (repr x) (x, tags) out)

  unfoldable pub digest : {R : Type 0} ⦃r : Eq R⦄ → (E → R) → OrSet K E → Digest K E R
  unfolding digest_adds
  digest repr s = record { adds = digest_adds repr s.adds []; removed = s.removed }

  unfoldable pub read_adds :
      {R : Type 0} → Dict R (E × List (Tag K)) → Dict E (List (Tag K)) → Dict E (List (Tag K))
  unfolding put
  read_adds [] out = out
  read_adds ((r, (x, tags)) ∷ sent) out = read_adds sent (put x tags out)

  unfoldable pub apply_digest :
      {R : Type 0} ⦃b : Blank K⦄ → OrSet K E → Digest K E R → OrSet K E × Bool
  unfolding read_adds
  apply_digest ⦃b⦄ s sent =
      merge s (record (init b.blank) { adds = read_adds sent.adds []; removed = sent.removed })
