-- ===== src/HyParView/Repair.antt =====
-- The repair loop of the periodic step ends with a full active view or an empty passive one, and
-- every step of a node keeps its views bounded.
use suprime.Base.{
  ℕ, zero, suc, ◌≤◌, ◌<◌, ◌≡◌, refl, Bool, true, false, ◌||◌, ◌&&◌, not, Option, none, some, List,
  [], ◌∷◌, arith, ltb, leb, Bool-cases, inl, inr,
}
use suprime.Base.Key.{Eq, ◌==◌, ==_refl}
use suprime.Base.Lists.{length}
use suprime.Base.Sets.{member, discard, member-discard, member-intersect}
use suprime.HyParView.{
  Config, HyParView, Wire, neighbor, shuffle, send, choose, on_join, on_forward_join, on_neighbor,
  on_neighbor_reply, on_disconnect, on_shuffle, on_shuffle_reply, sample_views, described,
  shuffle_with, start_shuffle, is_empty, promote, repair, tick, prune_dead,
}
use suprime.HyParView.Views.{IsChoice, length-intersect, length-discard-member}
use suprime.HyParView.Active.{IsBounded, views-send, leave_passive-HasViews, enter-HasViews}
use suprime.HyParView.Steps.{
  sent-IsBounded, sample-IsBounded, on_join-IsBounded, on_forward_join-IsBounded,
  on_neighbor-IsBounded, on_neighbor_reply-IsBounded, on_disconnect-IsBounded, on_shuffle-IsBounded,
  on_shuffle_reply-IsBounded,
}

module _ {K A R : Type 0} ⦃k : Eq K⦄ (c : Config K A R) (h : IsChoice c) where
  -- One turn takes one peer out of the passive view and into the active one.
  promote_lem :
      (v : HyParView K A R) (xs : List K)
      → v.passive ≡ xs
      → is_empty xs ≡ false
      → length v.active < c.active_size
      → IsBounded c v
      → IsBounded c (promote c (choose c v.rng xs) v)
        × (length (promote c (choose c v.rng xs) v).passive < length xs)
  promote_lem v [] is some_left room b = cc
  promote_lem v (x ∷ xs) is some_left room b =
      let (candidate, rng) = c.choice v.rng x xs in
      let w : HyParView K A R = record v { passive = discard candidate v.passive; rng = rng } in
      let message : Wire K A = neighbor c.id c.address (is_empty w.active) in
      let u = send c candidate message w in
      let sent = views-send c candidate message w in
      let there : member candidate v.passive ≡ true = rw is (h v.rng x xs) in
      let left = leave_passive-HasViews c candidate v.active v.passive b in
      let other : (candidate == c.id) ≡ false =
        ground (arith, there, b.no_self.1, k.beq_iff candidate c.id) in
      let gone : member candidate (discard candidate v.passive) ≡ false =
        ground (arith, member-discard candidate candidate v.passive, ==_refl candidate) in
      (
        rw (sent.0, sent.1)
            (enter-HasViews c candidate v.active (discard candidate v.passive) left room other
              gone),
        ground (arith, length-discard-member candidate v.passive there, sent.1, is),
      )

  -- With as much fuel as there are passive peers the loop runs until its condition fails.
  repair_lem :
      (fuel : ℕ) (v : HyParView K A R)
      → length v.passive ≤ fuel
      → IsBounded c v
      → IsBounded c (repair c fuel v)
        × ((ltb (length (repair c fuel v).active) c.active_size
              && not (is_empty (repair c fuel v).passive))
            ≡ false)
  unfolding repair
  repair_lem zero v le b = (b, empty_view v.passive le)
    where
      empty_view :
          (xs : List K)
          → length xs ≤ 0
          → (ltb (length v.active) c.active_size && not (is_empty xs)) ≡ false
      empty_view [] le = ground arith
      empty_view (x ∷ xs) le = absurd (omega (arith, le))
  repair_lem (suc fuel) v le b =
      elim (Bool-cases (ltb (length v.active) c.active_size && not (is_empty v.passive))) [
        | inr stops ↦ rw stops (b, stops)
        | inl goes ↦ rw goes (
            let (bounded, less) =
              promote_lem v v.passive refl (ground (arith, goes)) (ground (arith, goes)) b in
            repair_lem fuel (promote c (choose c v.rng v.passive) v) (omega (arith, less, le))
              bounded)
      ]

  -- The loop of the periodic step ends, on the fuel given, with a full active view or with no
  -- passive peer left, and keeps the views bounded, for a choice that is an element of the list it
  -- is made from.
  pub repair_done :
      (v : HyParView K A R)
      → IsBounded c v
      → IsBounded c (repair c (length v.passive) v)
        × ((leb c.active_size (length (repair c (length v.passive) v).active)
              || is_empty (repair c (length v.passive) v).passive)
            ≡ true)
  repair_done v b =
      let (bounded, stops) = repair_lem (length v.passive) v (omega arith) b in
      (bounded, ground (arith, stops))

  shuffle-IsBounded :
      (o : Option (K × R)) (v : HyParView K A R) → IsBounded c v → IsBounded c (shuffle_with c o v)
  shuffle-IsBounded none v b = b
  shuffle-IsBounded (some (target, rng)) v b =
      let w : HyParView K A R = record v { rng = rng } in
      let (nodes, u) = sample_views c 4 w in
      sent-IsBounded c target (shuffle c.id c.address (described c u.book nodes) c.shuffle_ttl) u
        (sample-IsBounded c 4 w b)

  tick-IsBounded : (v : HyParView K A R) → IsBounded c v → IsBounded c (tick c v)
  unfolding tick start_shuffle
  tick-IsBounded v b =
      let u = repair c (length v.passive) v in
      shuffle-IsBounded (choose c u.rng u.active) u (repair_done v b).0

  prune_dead-IsBounded :
      (alive_ids : List K) (v : HyParView K A R)
      → IsBounded c v
      → IsBounded c (prune_dead c alive_ids v)
  unfolding prune_dead
  prune_dead-IsBounded alive_ids v b = record {
    active_le = omega (arith, length-intersect v.active alive_ids, b.active_le);
    passive_le = omega (arith, length-intersect v.passive alive_ids, b.passive_le);
    no_self = (
      ground (arith, member-intersect c.id v.active alive_ids, b.no_self.0),
      ground (arith, member-intersect c.id v.passive alive_ids, b.no_self.1),
    );
    apart = λ x at. ground (
      arith,
      member-intersect x v.active alive_ids,
      member-intersect x v.passive alive_ids,
      b.apart x,
      at,
    );
  }

  -- Every handler and the periodic step keep both views within their sizes, apart from each other
  -- and without the node itself, for views of positive sizes and a choice that is an element of
  -- the list it is made from.
  pub steps-IsBounded :
      (n : K) (address : A) (nodes : List (K × A)) (ttl : ℕ) (src : K) (flag : Bool)
      (alive_ids : List K) (v : HyParView K A R)
      → 0 < c.passive_size
      → 0 < c.active_size
      → IsBounded c v
      → IsBounded c (on_join c n address v)
        × IsBounded c (on_forward_join c n address ttl src v)
        × IsBounded c (on_neighbor c n address flag v)
        × IsBounded c (on_neighbor_reply c n address flag v)
        × IsBounded c (on_disconnect c n v)
        × IsBounded c (on_shuffle c n address nodes ttl src v)
        × IsBounded c (on_shuffle_reply c n address nodes v)
        × IsBounded c (tick c v)
        × IsBounded c (prune_dead c alive_ids v)
  steps-IsBounded n address nodes ttl src flag alive_ids v pp pa b = (
    on_join-IsBounded c h pp pa n address v b,
    on_forward_join-IsBounded c h pp pa n address ttl src v b,
    on_neighbor-IsBounded c h pp pa n address flag v b,
    on_neighbor_reply-IsBounded c h pp pa n address flag v b,
    on_disconnect-IsBounded c h pp n v b,
    on_shuffle-IsBounded c h pp n address nodes ttl src v b,
    on_shuffle_reply-IsBounded c h pp n address nodes v b,
    tick-IsBounded v b,
    prune_dead-IsBounded alive_ids v b,
  )
