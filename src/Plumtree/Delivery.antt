-- ===== src/Plumtree/Delivery.antt =====
-- When a node delivers a message.
use suprime.Base.{
  ◌≡◌, ◌≤◌, ◌+◌, refl, Option, some, List, [], ◌∷◌, ◌++◌, arith, if◌then◌else◌, sym, ap, ◌-◌,
}
use suprime.Base.Key.{Eq, ==_refl}
use suprime.Base.Lists.{length}
use suprime.Base.Dict.{Dict, put, del, has}
use suprime.Base.Sets.{add}
use suprime.Plumtree.{
  Plumtree, Wire, gossip, prune, send, deliver, record_message, evict_oldest, eager_push, lazy_push,
  make_eager, make_lazy, on_gossip, is_sender,
}

append_nil : {A : Type 0} (xs : List A) → xs ++ [] ≡ xs
append_nil [] = refl
append_nil (x ∷ xs) = ap (λ l. x ∷ l) (append_nil xs)

append_snoc : {A : Type 0} (xs ys : List A) (x : A) → (xs ++ x ∷ []) ++ ys ≡ xs ++ x ∷ ys
append_snoc [] ys x = refl
append_snoc (y ∷ xs) ys x = ap (λ l. y ∷ l) (append_snoc xs ys x)

module _ {M P : Type 0} ⦃m : Eq M⦄ where
  length-put : (mid : M) (payload : P) (d : Dict M P) → length (put mid payload d) ≤ length d + 1
  unfolding put
  length-put mid payload [] = ground arith
  length-put mid payload ((j, p) ∷ d) = ground (arith, length-put mid payload d)

  length-del : (mid : M) (d : Dict M P) → length (del mid d) ≤ length d
  unfolding del
  length-del mid [] = ground arith
  length-del mid ((j, p) ∷ d) = ground (arith, length-del mid d)

  length-evict_oldest : (d : Dict M P) → length (evict_oldest d) ≤ length d - 1
  unfolding evict_oldest del
  length-evict_oldest [] = ground arith
  length-evict_oldest ((j, p) ∷ d) = ground (arith, length-del j d, ==_refl j)

module _ {K M P : Type 0} ⦃k : Eq K⦄ where
  delivered-eager_push :
      (mid : M) (payload : P) (sender : Option K) (peers : List K) (t : Plumtree K M P)
      → (eager_push mid payload sender peers t).delivered ≡ t.delivered
  unfolding eager_push send
  delivered-eager_push mid payload sender [] t = refl
  delivered-eager_push mid payload sender (peer ∷ peers) t = ground (
    arith,
    delivered-eager_push mid payload sender peers t,
    delivered-eager_push mid payload sender peers (send peer (gossip mid payload) t),
  )

  delivered-lazy_push :
      (mid : M) (sender : Option K) (peers : List K) (t : Plumtree K M P)
      → (lazy_push mid sender peers t).delivered ≡ t.delivered
  unfolding lazy_push
  delivered-lazy_push mid sender [] t = refl
  delivered-lazy_push mid sender (peer ∷ peers) t = ground (
    arith,
    delivered-lazy_push mid sender peers t,
    delivered-lazy_push mid sender peers
        (record t { lazy_queue = t.lazy_queue ++ (peer, mid) ∷ [] }),
  )

  -- A copy for each of the peers but the sender.
  abbrev pub copies : M → P → Option K → List K → List (K × Wire K M P)
  copies mid payload sender [] = []
  copies mid payload sender (peer ∷ peers) =
      let rest = copies mid payload sender peers in
      if is_sender peer sender then rest else (peer, gossip mid payload) ∷ rest

  sent-eager_push :
      (mid : M) (payload : P) (sender : Option K) (peers : List K) (t : Plumtree K M P)
      → (eager_push mid payload sender peers t).sent ≡ t.sent ++ copies mid payload sender peers
  unfolding eager_push send
  sent-eager_push mid payload sender [] t = sym (append_nil t.sent)
  sent-eager_push mid payload sender (peer ∷ peers) t = ground (
    arith,
    sent-eager_push mid payload sender peers t,
    sent-eager_push mid payload sender peers (send peer (gossip mid payload) t),
    append_snoc t.sent (copies mid payload sender peers) (peer, gossip mid payload),
  )

  sent-lazy_push :
      (mid : M) (sender : Option K) (peers : List K) (t : Plumtree K M P)
      → (lazy_push mid sender peers t).sent ≡ t.sent
  unfolding lazy_push
  sent-lazy_push mid sender [] t = refl
  sent-lazy_push mid sender (peer ∷ peers) t = ground (
    arith,
    sent-lazy_push mid sender peers t,
    sent-lazy_push mid sender peers (record t { lazy_queue = t.lazy_queue ++ (peer, mid) ∷ [] }),
  )

module _ {K M P : Type 0} ⦃k : Eq K⦄ ⦃m : Eq M⦄ where
  -- A message whose id is not in the cache is delivered once and sent on once to every eager link,
  -- the new one to its sender apart; one whose id is there is not delivered, and its sender is
  -- sent a single `PRUNE`.
  pub delivered-on_gossip :
      (mid : M) (payload : P) (src : K) (t : Plumtree K M P)
      → ((on_gossip mid payload src t).delivered
          ≡ (if has mid t.received then t.delivered else t.delivered ++ (mid, payload) ∷ []))
        × ((on_gossip mid payload src t).sent ≡ (
            if has mid t.received
            then t.sent ++ (src, prune) ∷ []
            else t.sent ++ copies mid payload (some src) (add src t.eager)))
  unfolding on_gossip deliver record_message send make_eager make_lazy
  delivered-on_gossip mid payload src t =
      let t₁ = record_message mid payload t in
      let t₂ = record t₁ { missing = del mid t₁.missing; ihave_from = del mid t₁.ihave_from } in
      let t₃ = deliver mid payload (make_eager src t₂) in
      let t₄ = eager_push mid payload (some src) t₃.eager t₃ in
      (
        ground (
          arith,
          delivered-lazy_push mid (some src) t₄.lazy t₄,
          delivered-eager_push mid payload (some src) t₃.eager t₃,
        ),
        ground (
          arith,
          sent-lazy_push mid (some src) t₄.lazy t₄,
          sent-eager_push mid payload (some src) t₃.eager t₃,
        ),
      )

  -- A cache within its cap stays within it when a message is recorded.
  pub length-record_message :
      (mid : M) (payload : P) (t : Plumtree K M P)
      → length t.received ≤ t.cache_cap
      → length (record_message mid payload t).received ≤ t.cache_cap
  unfolding record_message
  length-record_message mid payload t h =
      ground
        (arith, length-put mid payload t.received, length-evict_oldest (put mid payload t.received))
