-- ===== src/Version/Streams.antt =====
-- Streams of entries merged one by one: what a replica holds after gossip has delivered them.
use mathlib.Core.Path.{subst}
use suprime.Base.{
  ◌≡◌, refl, ap, ◌⊎◌, inl, inr, ◌↔◌, Bool, false, Option, none, some, List, [], ◌∷◌, arith,
  Bool-cases, Option-cases,
}
use suprime.Base.Key.{Eq, Order, ◌==◌}
use suprime.Base.Lists.{In}
use suprime.Base.Dict.{Dict, get, get-put}
use suprime.Base.Dict.Merge.{merge_loop, merge_step}
use suprime.Version.{Version, gt, gt_irrefl, gt_trans, gt_total}
use suprime.Version.Newest.{newer, IsVersioned}

module _ {K E : Type 0} ⦃q : Eq K⦄ ⦃o : Order K⦄ (version : E → Version K) where
  -- What stands in `d` after each entry of the stream was merged.
  abbrev pub received : Dict K E → List (K × E) → Dict K E
  received d stream = (merge_loop (newer version) (d, false) stream).0

  -- At `k` stands an entry that `v` is not newer than.
  abbrev pub Covers : Dict K E → K → E → Type 0
  Covers d k v = (e : E) × (get k d ≡ some e) × (gt (version v) (version e) ≡ false)

  step-Covers_self :
      (s : Dict K E × Bool) (k : K) (v : E) → Covers (merge_step (newer version) s k v).0 k v
  unfolding merge_step newer
  step-Covers_self (d, c) k v = elim (Option-cases (get k d)) [
    | inl new ↦ (v, ground (arith, get-put k k v d, q.beq_iff k k), gt_irrefl (version v))
    | inr (e, old) ↦ elim (Bool-cases (gt (version v) (version e))) [
      | inl wins ↦ (v, ground (arith, get-put k k v d, q.beq_iff k k), gt_irrefl (version v))
      | inr loses ↦ (e, ground arith, loses)
    ]
  ]

  step-Covers :
      (s : Dict K E × Bool) (j k : K) (w v : E)
      → Covers s.0 k v
      → Covers (merge_step (newer version) s j w).0 k v
  unfolding merge_step newer
  step-Covers (d, c) j k w v (e, at, le) = elim (Bool-cases (j == k)) [
    | inr other ↦ (e, ground (arith, get-put j k w d), le)
    | inl same ↦ elim (Bool-cases (gt (version w) (version e))) [
      | inl wins ↦ (
        w,
        ground (arith, get-put j k w d, q.beq_iff j k),
        ground (arith, gt_trans (version v) (version w) (version e)),
      )
      | inr loses ↦ (e, ground (arith, get-put j k w d, q.beq_iff j k), le)
    ]
  ]

  loop-Covers :
      (s : Dict K E × Bool) (stream : List (K × E)) (k : K) (v : E)
      → Covers s.0 k v
      → Covers (merge_loop (newer version) s stream).0 k v
  unfolding merge_loop
  loop-Covers s [] k v h = h
  loop-Covers s ((j, w) ∷ stream) k v h =
      loop-Covers (merge_step (newer version) s j w) stream k v (step-Covers s j k w v h)

  loop-Covers-In :
      (s : Dict K E × Bool) (stream : List (K × E)) (k : K) (v : E)
      → In (k, v) stream
      → Covers (merge_loop (newer version) s stream).0 k v
  unfolding merge_loop
  loop-Covers-In s [] k v h = absurd h
  loop-Covers-In s ((j, w) ∷ stream) k v (inl here) =
      loop-Covers (merge_step (newer version) s j w) stream k v (
        subst (λ p. Covers (merge_step (newer version) s j w).0 p.0 p.1) here
          (step-Covers_self s j w))
  loop-Covers-In s ((j, w) ∷ stream) k v (inr there) =
      loop-Covers-In (merge_step (newer version) s j w) stream k v there

  step-source :
      (s : Dict K E × Bool) (j k : K) (w : E) {e : E}
      → get k (merge_step (newer version) s j w).0 ≡ some e
      → (get k s.0 ≡ some e) ⊎ ((j ≡ k) × (w ≡ e))
  unfolding merge_step
  step-source (d, c) j k w h = ground (arith, get-put j k w d, q.beq_iff j k)

  loop-source :
      (s : Dict K E × Bool) (stream : List (K × E)) (k : K) {e : E}
      → get k (merge_loop (newer version) s stream).0 ≡ some e
      → (get k s.0 ≡ some e) ⊎ In (k, e) stream
  unfolding merge_loop
  loop-source s [] k h = inl h
  loop-source s ((j, w) ∷ stream) k h =
      elim (loop-source (merge_step (newer version) s j w) stream k h) [
        | inr there ↦ inr (inr there)
        | inl before ↦ elim (step-source s j k w before) [
          | inl old ↦ inl old
          | inr (sj, sw) ↦ inr (inl (λ i. (sj i, sw i)))
        ]
      ]

  -- From nothing, what stands at a key came from the stream, and is newer than all else there.
  pub received_newest :
      (stream : List (K × E)) (k : K) {e : E}
      → get k (received [] stream) ≡ some e
      → In (k, e) stream × ((v : E) → In (k, v) stream → gt (version v) (version e) ≡ false)
  unfolding get
  received_newest stream k h = (
    elim (loop-source ([], false) stream k h) [ inl n ↦ cc | inr i ↦ i ],
    λ v i. ground (arith, loop-Covers-In ([], false) stream k v i),
  )

  received-some :
      (stream : List (K × E)) (k : K) (v : E)
      → In (k, v) stream
      → (e : E) × (get k (received [] stream) ≡ some e)
  received-some stream k v i = let (e, at, _) = loop-Covers-In ([], false) stream k v i in (e, at)

  abbrev pub SameEntries : List (K × E) → List (K × E) → Type 0
  SameEntries xs ys = (p : K × E) → In p xs ↔ In p ys

  abbrev pub AllVersioned : List (K × E) → Type 0
  AllVersioned xs = (k : K) (a b : E) → In (k, a) xs → In (k, b) xs → IsVersioned version a b

  -- Streams with the same entries, in any order and repeated as often, leave the same dictionary.
  pub received_converge :
      (xs ys : List (K × E))
      → SameEntries xs ys
      → AllVersioned xs
      → (k : K) → get k (received [] xs) ≡ get k (received [] ys)
  received_converge xs ys same versioned k =
      go (get k (received [] xs)) (get k (received [] ys)) refl refl
    where
      go : (a b : Option E) → get k (received [] xs) ≡ a → get k (received [] ys) ≡ b → a ≡ b
      go none none p r = refl
      go none (some b) p r =
          absurd (ground (arith, received-some xs k b ((same (k, b)).1 (received_newest ys k r).0)))
      go (some a) none p r =
          absurd (ground (arith, received-some ys k a ((same (k, a)).0 (received_newest xs k p).0)))
      go (some a) (some b) p r =
          let (ia, la) = received_newest xs k p in
          let (ib, lb) = received_newest ys k r in
          let jb = (same (k, b)).1 ib in
          ap some (
            versioned k a b ia jb
              (gt_total (version a) (version b) (lb a ((same (k, a)).0 ia)) (la b jb)))
