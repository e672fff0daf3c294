-- ===== src/Node/Seen.antt =====
-- The cache of seen messages, and messages that arrive twice.
use Prim.Native.String.{String}
use suprime.Base.{
  ℕ, ◌<◌, ◌≡◌, refl, sym, ap, ◌∙◌, inl, inr, arith, Bool-cases, Bool, true, false, Option, none,
  some, List, [], ◌∷◌, ◌++◌, ltb,
}
use suprime.Base.Key.{==_refl, string_eq, string_order, nat_eq}
use suprime.Base.Lists.{length}
use suprime.Base.Dict.{get}
use suprime.Base.Sets.{member, add}
use suprime.Node.{
  Body, gossip_body, join_body, welcome_body, ping_body, ping_req_body, ack_body, app_body, Letter,
  handler_call, SwarmNode, World, count, transmit, remember,
}
use mathlib.Core.Path.{subst}
use suprime.Base.Sets.{member-add, member-discard}
use suprime.Node.{discard_oldest}
use suprime.Node.Receive.{
  apply_gossip, acknowledged, handle_ack, non_empty, handle_join, handle_ping, relay,
  handle_ping_req, call_handler, dispatch, dispatch_app, or_nothing, route_body, route, isolated,
  receive, on_message,
}
use suprime.Node.Cache.{Unique, length-snoc, IsSeen, remember-IsSeen}

module _ {A X C P N H : Type 0} where
  -- The cache as it was.
  abbrev pub KeepsCache : SwarmNode A X C P N H → SwarmNode A X C P N H → Type 0
  KeepsCache s s' =
      (s'.seen_messages ≡ s.seen_messages)
      × (s'.seen_order ≡ s.seen_order)
      × (s'.seen_cap ≡ s.seen_cap)

  then_keeps : (s t u : SwarmNode A X C P N H) → KeepsCache s t → KeepsCache t u → KeepsCache s u
  then_keeps s t u p q = (q.0 ∙ p.0, q.1 ∙ p.1, q.2 ∙ p.2)

  count-KeepsCache : (name : String) (s : SwarmNode A X C P N H) → KeepsCache s (count name s)
  unfolding count
  count-KeepsCache name s = (refl, refl, refl)

  pub IsSeen-KeepsCache : (s s' : SwarmNode A X C P N H) → KeepsCache s s' → IsSeen s → IsSeen s'
  IsSeen-KeepsCache s s' (p, q, r) h = record {
    same = λ id. ap (member id) p ∙ h.same id ∙ sym (ap (member id) q);
    unique = subst Unique (sym q) h.unique;
    bounded = rw (q, r) h.bounded;
  }

module _ {A X C P N H : Type 0} (w : World A X P N H) where
  call_handler-KeepsCache :
      (handler : H) (m : Letter A X P) (s : SwarmNode A X C P N H)
      → KeepsCache s (call_handler w handler m s)
  call_handler-KeepsCache handler m s = elim (Bool-cases (w.returns (handler_call handler m))) [
    | inl fine ↦ rw fine (refl, refl, refl)
    | inr bad ↦ rw bad (unfold count in (refl, refl, refl))
  ]

  dispatch-KeepsCache :
      (handlers : List H) (m : Letter A X P) (s : SwarmNode A X C P N H)
      → KeepsCache s (dispatch w handlers m s)
  unfolding dispatch
  dispatch-KeepsCache [] m s = (refl, refl, refl)
  dispatch-KeepsCache (handler ∷ handlers) m s =
      let s' = call_handler w handler m s in
      then_keeps s s' (dispatch w handlers m s') (call_handler-KeepsCache handler m s)
        (dispatch-KeepsCache handlers m s')

  acknowledged-KeepsCache :
      (now : ℕ) (subject : Option String) (s : SwarmNode A X C P N H)
      → KeepsCache s (acknowledged now subject s)
  unfolding count
  acknowledged-KeepsCache now none s = (refl, refl, refl)
  acknowledged-KeepsCache now (some subject) s = (ground arith, ground arith, ground arith)

  relay-KeepsCache :
      (a : Option String) (b : Option A) (c : Option String) (d : Option A)
      (s : SwarmNode A X C P N H)
      → KeepsCache s (relay w a b c d s).0
  unfolding transmit
  relay-KeepsCache none b c d s = (refl, refl, refl)
  relay-KeepsCache (some a) none c d s = (refl, refl, refl)
  relay-KeepsCache (some a) (some b) none d s = (refl, refl, refl)
  relay-KeepsCache (some a) (some b) (some c) none s = (refl, refl, refl)
  relay-KeepsCache (some a) (some b) (some c) (some d) s = (refl, refl, refl)

  join-KeepsCache :
      (now : ℕ) (src : String) (address : Option A) (hb : Option ℕ) (s : SwarmNode A X C P N H)
      → KeepsCache s (handle_join w now src address hb s)
  unfolding handle_join transmit
  join-KeepsCache now src none hb s = (refl, refl, refl)
  join-KeepsCache now src (some address) hb s = (refl, refl, refl)

  ping-KeepsCache :
      (address : Option A) (s : SwarmNode A X C P N H) → KeepsCache s (handle_ping w address s)
  unfolding handle_ping transmit
  ping-KeepsCache none s = (refl, refl, refl)
  ping-KeepsCache (some address) s = (refl, refl, refl)

  route_body-KeepsCache :
      (now : ℕ) (m : Letter A X P) (body : Body A X P) (s : SwarmNode A X C P N H)
      → KeepsCache s (route_body w now m body s).0
  unfolding apply_gossip handle_ack handle_ping_req dispatch_app
  route_body-KeepsCache now m (gossip_body payload) s = (refl, refl, refl)
  route_body-KeepsCache now m (join_body address hb) s = join-KeepsCache now m.src address hb s
  route_body-KeepsCache now m (welcome_body payload) s = (refl, refl, refl)
  route_body-KeepsCache now m (ping_body p) s = ping-KeepsCache p.ack_addr s
  route_body-KeepsCache now m (ping_req_body p) s =
      relay-KeepsCache p.subject p.subject_addr p.ack_to p.ack_addr s
  route_body-KeepsCache now m (ack_body subject) s =
      acknowledged-KeepsCache now (non_empty subject) s
  route_body-KeepsCache now m (app_body kind payload) s =
      dispatch-KeepsCache (or_nothing (get kind s.app_handlers)) m s

  isolated-KeepsCache : (r : SwarmNode A X C P N H × Bool) → KeepsCache r.0 (isolated w r)
  isolated-KeepsCache (s, true) = (refl, refl, refl)
  isolated-KeepsCache (s, false) = count-KeepsCache "bad_messages" s

  receive-KeepsCache :
      (now : ℕ) (m : Letter A X P) (s : SwarmNode A X C P N H) → KeepsCache s (receive w now m s)
  unfolding route
  receive-KeepsCache now m s =
      let s' = count "messages_received" s in
      let r = route_body w now m m.body s' in
      then_keeps s s' (isolated w r) (count-KeepsCache "messages_received" s) (
        then_keeps s' r.0 (isolated w r) (route_body-KeepsCache now m m.body s')
          (isolated-KeepsCache r))

  -- The two branches of `on_message` for a message with an id.
  on_message_old :
      (now : ℕ) (id : String) (m : Letter A X P) (s : SwarmNode A X C P N H)
      → member id s.seen_messages ≡ true
      → on_message w now (some id) m s ≡ s
  unfolding on_message
  on_message_old now id m s old = rw old refl

  pub on_message_new :
      (now : ℕ) (id : String) (m : Letter A X P) (s : SwarmNode A X C P N H)
      → member id s.seen_messages ≡ false
      → on_message w now (some id) m s ≡ receive w now m (remember id s)
  unfolding on_message
  on_message_new now id m s new = rw new refl

  -- Whatever arrives, the set of seen messages holds the ids of the queue, which has none twice
  -- and is within its cap.
  pub on_message-IsSeen :
      (now : ℕ) (id : Option String) (m : Letter A X P) (s : SwarmNode A X C P N H)
      → IsSeen s
      → IsSeen (on_message w now id m s)
  unfolding on_message
  on_message-IsSeen now none m s h =
      IsSeen-KeepsCache s (receive w now m s) (receive-KeepsCache now m s) h
  on_message-IsSeen now (some id) m s h = elim (Bool-cases (member id s.seen_messages)) [
    | inl old ↦ subst IsSeen (sym (on_message_old now id m s old)) h
    | inr new ↦ subst IsSeen (sym (on_message_new now id m s new)) (
        IsSeen-KeepsCache (remember id s) (receive w now m (remember id s))
          (receive-KeepsCache now m (remember id s)) (remember-IsSeen id s new h))
  ]

module _ {A X C P N H : Type 0} where
  -- The newest id is not the one that the queue drops.
  kept :
      (order : List String) (id : String) (s : SwarmNode A X C P N H)
      → member id s.seen_messages ≡ true
      → 0 < length order
      → member id order ≡ false
      → member id (discard_oldest s (order ++ id ∷ [])).seen_messages ≡ true
  unfolding discard_oldest member
  kept [] id s there some_there out = absurd (omega (arith, some_there))
  kept (oldest ∷ order) id s there some_there out =
      ground (arith, member-discard oldest id s.seen_messages, there, out)

  member-remember :
      (id : String) (s : SwarmNode A X C P N H)
      → member id s.seen_messages ≡ false
      → IsSeen s
      → 0 < s.seen_cap
      → member id (remember id s).seen_messages ≡ true
  unfolding remember
  member-remember id s out h cap =
      let order = s.seen_order ++ id ∷ [] in
      let s' : SwarmNode A X C P N H = record s {
        seen_messages = add id s.seen_messages;
        seen_order = order;
      } in
      let there : member id (add id s.seen_messages) ≡ true =
        ground (arith, member-add id id s.seen_messages, ==_refl id) in
      elim (Bool-cases (ltb s.seen_cap (length order))) [
        | inl full ↦ rw full (
            kept s.seen_order id s' there (ground (arith, full, length-snoc id s.seen_order, cap))
              (sym (h.same id) ∙ out))
        | inr fits ↦ rw fits there
      ]

module _ {A X C P N H : Type 0} (w : World A X P N H) where
  -- A message with an id that arrives a second time, with whatever contents and whenever, leaves
  -- the node as the first left it, where the cache is valid and its cap positive.
  pub on_message_twice :
      (now later : ℕ) (id : String) (m again : Letter A X P) (s : SwarmNode A X C P N H)
      → IsSeen s
      → 0 < s.seen_cap
      → on_message w later (some id) again (on_message w now (some id) m s)
        ≡ on_message w now (some id) m s
  on_message_twice now later id m again s h cap = elim (Bool-cases (member id s.seen_messages)) [
    | inl old ↦
        ap (on_message w later (some id) again) (on_message_old w now id m s old)
        ∙ on_message_old w later id again s old
        ∙ sym (on_message_old w now id m s old)
    | inr new ↦
        let after = receive w now m (remember id s) in
        let keeps = receive-KeepsCache w now m (remember id s) in
        ap (on_message w later (some id) again) (on_message_new w now id m s new)
        ∙ on_message_old w later id again after
            (ap (member id) keeps.0 ∙ member-remember id s new h cap)
        ∙ sym (on_message_new w now id m s new)
  ]
