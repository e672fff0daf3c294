-- ===== src/HyParView/Active.antt =====
-- Taking a peer into the active view, which drops another when the view is full.
use suprime.Base.{
  ◌<◌, ◌≡◌, refl, true, false, ◌||◌, Option, none, some, List, [], ◌∷◌, arith, leb, Bool-cases, inl,
  inr,
}
use suprime.Base.Key.{Eq, ◌==◌, ==_refl}
use suprime.Base.Lists.{length}
use suprime.Base.Dict.{get}
use suprime.Base.Sets.{member, add, discard, member-add, member-discard}
use suprime.HyParView.{
  Config, HyParView, Wire, send, send_at, send_to, note, choose, add_passive, drop,
  drop_random_active, add_active, disconnect, is_known,
}
use suprime.HyParView.Views.{
  HasViews, IsChoice, add_passive-HasViews, active-add_passive, member-add_passive, length-add,
  length-discard, length-discard-member,
}

module _ {K A R : Type 0} ⦃k : Eq K⦄ (c : Config K A R) where
  abbrev pub SameViews : HyParView K A R → HyParView K A R → Type 0
  SameViews v w = (v.active ≡ w.active) × (v.passive ≡ w.passive)

  abbrev pub IsBounded : HyParView K A R → Type 0
  IsBounded v = HasViews c v.active v.passive

  pub same-IsBounded : (v w : HyParView K A R) → SameViews v w → IsBounded w → IsBounded v
  same-IsBounded v w same h = rw (same.0, same.1) h

  views-send_at :
      (o : Option A) (message : Wire K A) (v : HyParView K A R) → SameViews (send_at o message v) v
  unfolding send_to
  views-send_at none message v = (refl, refl)
  views-send_at (some address) message v = (refl, refl)

  pub views-send :
      (n : K) (message : Wire K A) (v : HyParView K A R) → SameViews (send c n message v) v
  unfolding send
  views-send n message v = views-send_at (get n v.book) message v

  pub views-note : (n : K) (address : A) (v : HyParView K A R) → SameViews (note c n address v) v
  unfolding note
  views-note n address v = (ground arith, ground arith)

  -- A peer moves out of the active view.
  pub leave-HasViews :
      (n : K) (active passive : List K)
      → HasViews c active passive
      → HasViews c (discard n active) passive
  leave-HasViews n active passive h = record {
    active_le = omega (arith, length-discard n active, h.active_le);
    passive_le = h.passive_le;
    no_self = (ground (arith, member-discard n c.id active, h.no_self.0), h.no_self.1);
    apart = λ x at. h.apart x (ground (arith, at, member-discard n x active));
  }

  pub leave_passive-HasViews :
      (n : K) (active passive : List K)
      → HasViews c active passive
      → HasViews c active (discard n passive)
  leave_passive-HasViews n active passive h = record {
    active_le = h.active_le;
    passive_le = omega (arith, length-discard n passive, h.passive_le);
    no_self = (h.no_self.0, ground (arith, member-discard n c.id passive, h.no_self.1));
    apart = λ x at. ground (arith, h.apart x at, member-discard n x passive);
  }

  -- A peer that is in no view moves into the active one, where there is room.
  pub enter-HasViews :
      (n : K) (active passive : List K)
      → HasViews c active passive
      → length active < c.active_size
      → (n == c.id) ≡ false
      → member n passive ≡ false
      → HasViews c (add n active) passive
  enter-HasViews n active passive h room other out = record {
    active_le = omega (arith, length-add n active, room);
    passive_le = h.passive_le;
    no_self = (ground (arith, member-add n c.id active, h.no_self.0, other), h.no_self.1);
    apart = λ x at. elim (Bool-cases (n == x)) [
      | inl same ↦ ground (arith, same, out, k.beq_iff n x)
      | inr differs ↦ h.apart x (ground (arith, at, differs, member-add n x active))
    ];
  }

  -- What dropping leaves, where the active view is the list `xs`: room, and a given peer that was
  -- in no view is still in none.
  pub drop-HasViews :
      (v : HyParView K A R) (xs : List K) (n : K)
      → IsChoice c
      → 0 < c.passive_size
      → 0 < c.active_size
      → v.active ≡ xs
      → IsBounded v
      → member n v.active ≡ false
      → member n v.passive ≡ false
      → IsBounded (drop c (choose c v.rng xs) v)
        × (length (drop c (choose c v.rng xs) v).active < c.active_size)
        × (member n (drop c (choose c v.rng xs) v).passive ≡ false)
  drop-HasViews v [] n h pp pa is b out out' = (b, ground (arith, is), out')
  drop-HasViews v (x ∷ xs) n h pp pa is b out out' =
      let (victim, rng) = c.choice v.rng x xs in
      let w : HyParView K A R = record v { active = discard victim v.active; rng = rng } in
      let u = add_passive c victim w in
      let sent = views-send victim (disconnect c.id) u in
      let there : member victim v.active ≡ true = rw is (h v.rng x xs) in
      let left = leave-HasViews victim v.active v.passive b in
      let other : (victim == n) ≡ false = ground (arith, there, out, k.beq_iff victim n) in
      (
        same-IsBounded (send c victim (disconnect c.id) u) u sent
            (add_passive-HasViews c victim w h pp left),
        rw (sent.0, active-add_passive c victim w)
            (omega (arith, length-discard-member victim v.active there, b.active_le)),
        rw sent.1 (member-add_passive c victim n w other out'),
      )

  pub add_active-IsBounded :
      (n : K) (v : HyParView K A R)
      → IsChoice c
      → 0 < c.passive_size
      → 0 < c.active_size
      → IsBounded v
      → IsBounded (add_active c n v)
  unfolding add_active drop_random_active
  add_active-IsBounded n v h pp pa b =
      let w : HyParView K A R = record v { passive = discard n v.passive } in
      let left = leave_passive-HasViews n v.active v.passive b in
      let gone : member n w.passive ≡ false =
        ground (arith, member-discard n n v.passive, ==_refl n) in
      elim (Bool-cases ((n == c.id) || member n v.active)) [
        | inl skip ↦ rw skip b
        | inr new ↦ rw new (elim (Bool-cases (is_known (get n v.book))) [
          | inr unknown ↦ rw unknown b
          | inl known ↦ rw known (elim (Bool-cases (leb c.active_size (length v.active))) [
            | inr room ↦ rw room (
                enter-HasViews n v.active w.passive left (ground (arith, room))
                  (ground (arith, new)) gone)
            | inl full ↦ rw full (
                let (bounded, room, out) =
                  drop-HasViews w v.active n h pp pa refl left (ground (arith, new)) gone in
                let u = drop c (choose c v.rng v.active) w in
                enter-HasViews n u.active u.passive bounded room (ground (arith, new)) out)
          ])
        ])
      ]
