-- ===== src/Chaos.antt =====
-- suprime/chaos.py: a fault injector shared by the transports. `A` are the addresses and `R` the
-- states of the random generator. Rates and random numbers are naturals below a common `unit`, and
-- times are whole. The wrapped transport is a parameter, whose `send` may raise.
pub mod Faults
use suprime.Base.{
  ℕ, ◌+◌, ◌*◌, Bool, true, false, ◌&&◌, ◌||◌, not, Option, none, some, List, [], ◌∷◌, ◌++◌, map,
  ltb, if◌then◌else◌,
}
use suprime.Base.Key.{Eq}
use suprime.Base.Lists.{length}
use suprime.Base.Sets.{member, union}

pub record ChaosController (A R : Type 0) : Type 0 where
  pub drop_rate : ℕ
  pub duplicate_rate : ℕ
  pub latency : ℕ
  pub jitter : ℕ
  pub rng : R
  pub partitions : List (List A)
  pub delivered : ℕ
  pub dropped : ℕ
  pub duplicated : ℕ

-- What a send ends in: it returns, or raises `TransportError`.
pub data Outcome : Type 0 where
  sent transport_error : Outcome

-- The random generator and the wrapped transport, whose state is `I`.
pub record World (A R I M : Type 0) : Type 0 where
  pub random : R → ℕ × R
  pub inner_send : I → A → M → I × Outcome

module _ {A R : Type 0} ⦃a : Eq A⦄ where
  -- `set(g)` of each group
  unfoldable pub partition : List (List A) → ChaosController A R → ChaosController A R
  unfolding union
  partition groups c = record c { partitions = map (union []) groups }

  unfoldable pub heal : ChaosController A R → ChaosController A R
  heal c = record c { partitions = [] }

module _ {A : Type 0} ⦃a : Eq A⦄ where
  unfoldable pub share : A → A → List (List A) → Bool
  unfolding member
  share src dst [] = false
  share src dst (group ∷ groups) =
      let rest = share src dst groups in if member src group && member dst group then true else rest

  unfoldable pub is_placed : A → A → List (List A) → Bool
  unfolding member
  is_placed src dst [] = false
  is_placed src dst (group ∷ groups) =
      let rest = is_placed src dst groups in
      if member src group || member dst group then true else rest

  abbrev pub reach_in : A → A → List (List A) → Bool
  reach_in src dst [] = true
  reach_in src dst (group ∷ groups) =
      if share src dst (group ∷ groups) then true else not (is_placed src dst (group ∷ groups))

module _ {A R : Type 0} ⦃a : Eq A⦄ where
  unfoldable pub can_reach : A → A → ChaosController A R → Bool
  unfolding share is_placed
  can_reach src dst c = reach_in src dst c.partitions

module _ {A R : Type 0} (random : R → ℕ × R) where
  -- `rate > 0 and self.rng.random() < rate`: no number is drawn for a rate of zero.
  unfoldable pub chance : ℕ → ChaosController A R → Bool × ChaosController A R
  chance rate c =
      let (n, rng) = random c.rng in
      if ltb 0 rate then (ltb n rate, record c { rng = rng }) else (false, c)

  unfoldable pub should_drop : ChaosController A R → Bool × ChaosController A R
  unfolding chance
  should_drop c = chance c.drop_rate c

  unfoldable pub should_duplicate : ChaosController A R → Bool × ChaosController A R
  unfolding chance
  should_duplicate c = chance c.duplicate_rate c

  -- The delay in whole times, and the extra part of the jitter in fractions of the unit.
  unfoldable pub delay : ChaosController A R → (ℕ × ℕ) × ChaosController A R
  delay c =
      let (n, rng) = random c.rng in
      if ltb 0 c.jitter
      then ((c.latency, n * c.jitter), record c { rng = rng })
      else ((c.latency, 0), c)

unfoldable pub stats : {A R : Type 0} → ChaosController A R → ℕ × ℕ × ℕ × ℕ
stats c = (c.delivered, c.dropped, c.duplicated, length c.partitions)

module _ {A R I M : Type 0} ⦃a : Eq A⦄ (w : World A R I M) where
  -- A second copy, whose failure is swallowed.
  abbrev pub duplicate : A → M → Bool × ChaosController A R → I → ChaosController A R × I × Outcome
  duplicate address message (false, c) i = (c, i, sent)
  duplicate address message (true, c) i =
      (record c { duplicated = c.duplicated + 1 }, (w.inner_send i address message).0, sent)

  abbrev pub deliver : A → M → ChaosController A R → I × Outcome → ChaosController A R × I × Outcome
  deliver address message c (i, transport_error) = (c, i, transport_error)
  deliver address message c (i, sent) =
      let d = record c { delivered = c.delivered + 1 } in
      duplicate address message (should_duplicate w.random d) i

  abbrev pub pass : A → M → Bool × ChaosController A R → I → ChaosController A R × I × Outcome
  pass address message (true, c) i = (record c { dropped = c.dropped + 1 }, i, sent)
  pass address message (false, c) i =
      deliver address message (delay w.random c).1 (w.inner_send i address message)

  -- `send` of the transport at the address `own`; the wait itself is not modelled.
  unfoldable pub send : A → A → M → ChaosController A R → I → ChaosController A R × I × Outcome
  unfolding can_reach should_drop should_duplicate delay
  send own address message c i =
      if can_reach own address c
      then pass address message (should_drop w.random c) i
      else (c, i, transport_error)

-- `_recv`, over the messages that the application has been given: nothing is filtered.
unfoldable pub recv : {M : Type 0} → Bool → M → List M → List M
recv is_started message given = if is_started then given ++ message ∷ [] else given
