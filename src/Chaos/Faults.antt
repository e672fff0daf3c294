-- ===== src/Chaos/Faults.antt =====
-- Who reaches whom under a partition, and what a send does to the counters.
use suprime.Base.{ℕ, ◌+◌, ◌≤◌, ◌≡◌, refl, Bool, true, false, ◌||◌, not, List, [], ◌∷◌, map, arith}
use suprime.Base.Key.{Eq}
use suprime.Base.Sets.{member, union, member-union}
use suprime.Chaos.{
  ChaosController, Outcome, sent, transport_error, World, partition, heal, share, is_placed,
  reach_in, can_reach, chance, should_drop, should_duplicate, delay, send,
}

module _ {A : Type 0} ⦃a : Eq A⦄ where
  share_sym : (x y : A) (groups : List (List A)) → share x y groups ≡ share y x groups
  unfolding share
  share_sym x y [] = refl
  share_sym x y (group ∷ groups) = ground (arith, share_sym x y groups)

  is_placed_sym : (x y : A) (groups : List (List A)) → is_placed x y groups ≡ is_placed y x groups
  unfolding is_placed
  is_placed_sym x y [] = refl
  is_placed_sym x y (group ∷ groups) = ground (arith, is_placed_sym x y groups)

  -- An address is listed in some group.
  abbrev pub is_listed : A → List (List A) → Bool
  is_listed x [] = false
  is_listed x (group ∷ groups) = member x group || is_listed x groups

  is_placed_lem :
      (x y : A) (groups : List (List A))
      → is_placed x y groups ≡ (is_listed x groups || is_listed y groups)
  unfolding is_placed
  is_placed_lem x y [] = refl
  is_placed_lem x y (group ∷ groups) = ground (arith, is_placed_lem x y groups)

  share_listed :
      (x y : A) (groups : List (List A)) → share x y groups ≡ true → is_listed x groups ≡ true
  unfolding share
  share_listed x y [] h = cc
  share_listed x y (group ∷ groups) h = ground (arith, h, share_listed x y groups)

  is_listed-partition :
      (x : A) (groups : List (List A)) → is_listed x (map (union []) groups) ≡ is_listed x groups
  unfolding member
  is_listed-partition x [] = refl
  is_listed-partition x (group ∷ groups) =
      ground (arith, is_listed-partition x groups, member-union x [] group)

  share-partition :
      (x y : A) (groups : List (List A)) → share x y (map (union []) groups) ≡ share x y groups
  unfolding share member
  share-partition x y [] = refl
  share-partition x y (group ∷ groups) =
      ground (arith, share-partition x y groups, member-union x [] group, member-union y [] group)

  reach_in_lem :
      (x y : A) (groups : List (List A))
      → reach_in x y groups ≡ (share x y groups || not (is_listed x groups || is_listed y groups))
  unfolding share
  reach_in_lem x y [] = refl
  reach_in_lem x y (group ∷ groups) = ground (arith, is_placed_lem x y (group ∷ groups))

module _ {A R : Type 0} ⦃a : Eq A⦄ where
  -- Under a partition an address reaches another exactly when some group lists both or no group
  -- lists either; reaching is symmetric; after healing everyone reaches everyone.
  pub can_reach-partition :
      (x y : A) (groups : List (List A)) (c : ChaosController A R)
      → (can_reach x y (partition groups c)
          ≡ (share x y groups || not (is_listed x groups || is_listed y groups)))
        × (can_reach x y (partition groups c) ≡ can_reach y x (partition groups c))
        × (can_reach x y (heal (partition groups c)) ≡ true)
  unfolding can_reach partition heal
  can_reach-partition x y groups c =
      let sets = map (union []) groups in
      (
        ground (
          arith,
          reach_in_lem x y sets,
          share-partition x y groups,
          is_listed-partition x groups,
          is_listed-partition y groups,
        ),
        ground (arith, reach_in_lem x y sets, reach_in_lem y x sets, share_sym x y sets),
        refl,
      )

  -- Under a partition an address that no group lists reaches exactly the addresses that no group
  -- lists.
  pub unlisted_reach :
      (x y : A) (groups : List (List A)) (c : ChaosController A R)
      → is_listed x groups ≡ false
      → can_reach x y (partition groups c) ≡ not (is_listed y groups)
  unlisted_reach x y groups c out =
      ground (arith, (can_reach-partition x y groups c).0, out, share_listed x y groups)

abbrev pub counted : Outcome → ℕ
counted sent = 1
counted transport_error = 0

module _ {A R I M : Type 0} ⦃a : Eq A⦄ (w : World A R I M) where
  -- A send that returns is counted once, as delivered or as dropped, and one that raises is not
  -- counted; copies never exceed what was delivered since; the partitions stay.
  pub send_counts :
      (own address : A) (message : M) (c : ChaosController A R) (i : I)
      → let (d, j, outcome) = send w own address message c i in
        (d.delivered + d.dropped ≡ c.delivered + c.dropped + counted outcome)
        × (c.duplicated ≤ d.duplicated)
        × (d.duplicated + c.delivered ≤ c.duplicated + d.delivered)
        × (d.partitions ≡ c.partitions)
  unfolding send should_drop should_duplicate chance delay
  send_counts own address message c i = (ground arith, ground arith, ground arith, ground arith)
