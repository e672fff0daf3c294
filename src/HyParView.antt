-- ===== src/HyParView.antt =====
-- suprime/hyparview.py: the bounded views of one node. `K` are the node ids, `A` the addresses and
-- `R` the states of the random generator, whose `choice` of a non-empty list and `sample` are
-- parameters. A set is walked in the order of insertion. Handlers run one at a time; walk lengths
-- in messages are naturals. `passive_size` is positive, since the program draws from the passive view
-- when it is full; the sender's address that `_send` adds to a message, and nobody reads, is left out.
pub mod Views
pub mod Active
pub mod Steps
pub mod Repair
use suprime.Base.{
  ℕ, zero, suc, ◌-◌, Bool, true, false, ◌||◌, ◌&&◌, not, Option, none, some, List, [], ◌∷◌, ◌++◌,
  ltb, leb, nat_beq, if◌then◌else◌,
}
use suprime.Base.Key.{Eq, ◌==◌}
use suprime.Base.Lists.{length}
use suprime.Base.Dict.{Dict, get, put}
use suprime.Base.Sets.{member, add, discard, union, intersect, difference}

pub data Wire (K A : Type 0) : Type 0 where
  join_request : K → A → Wire K A
  forward_join : K → A → ℕ → Wire K A
  neighbor : K → A → Bool → Wire K A
  neighbor_reply : K → A → Bool → Wire K A
  disconnect : K → Wire K A
  shuffle : K → A → List (K × A) → ℕ → Wire K A
  shuffle_reply : K → A → List (K × A) → Wire K A

-- What does not change: the node, the arguments of the constructor and what is called. `is_set` and
-- `is_reachable` are the truth values of an id and of an address.
pub record Config (K A R : Type 0) : Type 0 where
  pub id : K
  pub address : A
  pub is_set : K → Bool
  pub is_reachable : A → Bool
  pub choice : R → K → List K → K × R
  pub sample : R → List K → ℕ → List K × R
  pub active_size : ℕ
  pub passive_size : ℕ
  pub arwl : ℕ
  pub prwl : ℕ
  pub shuffle_ttl : ℕ

pub record HyParView (K A R : Type 0) : Type 0 where
  pub active : List K
  pub passive : List K
  pub book : Dict K A
  pub rng : R
  pub sent : List (A × Wire K A)

unfoldable pub init : {K A R : Type 0} → R → HyParView K A R
init rng = record { active = []; passive = []; book = []; rng = rng; sent = [] }

module _ {K A R : Type 0} where
  unfoldable pub send_to : A → Wire K A → HyParView K A R → HyParView K A R
  send_to address message v = record v { sent = v.sent ++ (address, message) ∷ [] }

  abbrev pub send_at : Option A → Wire K A → HyParView K A R → HyParView K A R
  send_at none message v = v
  send_at (some address) message v = send_to address message v

  -- `self._rng.choice(list(...))`, of a list that is not empty.
  abbrev pub choose : Config K A R → R → List K → Option (K × R)
  choose c rng [] = none
  choose c rng (x ∷ xs) = some (c.choice rng x xs)

module _ {A : Type 0} where
  abbrev pub is_known : Option A → Bool
  is_known none = false
  is_known (some address) = true

  abbrev pub is_empty : List A → Bool
  is_empty [] = true
  is_empty (x ∷ xs) = false

module _ {K A R : Type 0} ⦃k : Eq K⦄ where
  abbrev pub make_room : Option (K × R) → HyParView K A R → HyParView K A R
  make_room none v = v
  make_room (some (victim, rng)) v = record v { passive = discard victim v.passive; rng = rng }

module _ {K A R : Type 0} ⦃k : Eq K⦄ (c : Config K A R) where
  unfoldable pub note : K → A → HyParView K A R → HyParView K A R
  unfolding put
  note node_id address v =
      if (c.is_set node_id && c.is_reachable address) && not (node_id == c.id)
      then record v { book = put node_id address v.book }
      else v

  unfoldable pub send : K → Wire K A → HyParView K A R → HyParView K A R
  unfolding get send_to
  send node_id message v = send_at (get node_id v.book) message v

  -- `join`
  unfoldable pub join : A → HyParView K A R → HyParView K A R
  unfolding send_to
  join contact_address v = send_to contact_address (join_request c.id c.address) v

  unfoldable pub add_passive : K → HyParView K A R → HyParView K A R
  unfolding member get add discard
  add_passive node_id v =
      let room =
        if leb c.passive_size (length v.passive)
        then make_room (choose c v.rng v.passive) v
        else v in
      if (node_id == c.id) || (member node_id v.active || member node_id v.passive)
      then v
      else if is_known (get node_id v.book)
      then record room { passive = add node_id room.passive }
      else v

  abbrev pub drop : Option (K × R) → HyParView K A R → HyParView K A R
  drop none v = v
  drop (some (victim, rng)) v =
      send victim (disconnect c.id)
        (add_passive victim (record v { active = discard victim v.active; rng = rng }))

  unfoldable pub drop_random_active : HyParView K A R → HyParView K A R
  unfolding discard add_passive send
  drop_random_active v = drop (choose c v.rng v.active) v

  unfoldable pub add_active : K → HyParView K A R → HyParView K A R
  unfolding member get add discard drop_random_active
  add_active node_id v =
      let w = record v { passive = discard node_id v.passive } in
      let room = if leb c.active_size (length w.active) then drop_random_active w else w in
      if (node_id == c.id) || member node_id v.active
      then v
      else if is_known (get node_id v.book)
      then record room { active = add node_id room.active }
      else v

  abbrev pub spread : K → Wire K A → List K → HyParView K A R → HyParView K A R
  spread node_id message [] v = v
  spread node_id message (peer ∷ peers) v =
      let skip = spread node_id message peers v in
      let go = spread node_id message peers (send peer message v) in
      if peer == node_id then skip else go

  unfoldable pub on_join : K → A → HyParView K A R → HyParView K A R
  unfolding note add_active send
  on_join node_id address v =
      let w = add_active node_id (note node_id address v) in
      let u = send node_id (neighbor c.id c.address true) w in
      spread node_id (forward_join node_id address c.arwl) u.active u

  abbrev pub walk : K → A → ℕ → Option (K × R) → HyParView K A R → HyParView K A R
  walk node_id address ttl none v = add_active node_id v
  walk node_id address ttl (some (next, rng)) v =
      send next (forward_join node_id address (ttl - 1)) (record v { rng = rng })

  -- `src` is the sender of the message.
  unfoldable pub on_forward_join : K → A → ℕ → K → HyParView K A R → HyParView K A R
  unfolding note add_active add_passive send difference
  on_forward_join node_id address ttl src v =
      let w = note node_id address v in
      let ends = send node_id (neighbor c.id c.address true) (add_active node_id w) in
      let u = if nat_beq ttl c.prwl then add_passive node_id w else w in
      let goes =
        walk node_id address ttl (choose c u.rng (difference u.active (src ∷ node_id ∷ []))) u in
      if nat_beq ttl 0 || leb (length w.active) 1 then ends else goes

  -- `high` is the test `priority == "high"`.
  unfoldable pub on_neighbor : K → A → Bool → HyParView K A R → HyParView K A R
  unfolding note add_active send
  on_neighbor node_id address high v =
      let w = note node_id address v in
      let accept = high || ltb (length w.active) c.active_size in
      send node_id (neighbor_reply c.id c.address accept)
        (if accept then add_active node_id w else w)

  unfoldable pub on_neighbor_reply : K → A → Bool → HyParView K A R → HyParView K A R
  unfolding note add_active add_passive
  on_neighbor_reply node_id address accepted v =
      let w = note node_id address v in
      if accepted then add_active node_id w else add_passive node_id w

  unfoldable pub on_disconnect : K → HyParView K A R → HyParView K A R
  unfolding member discard add_passive
  on_disconnect node_id v =
      if member node_id v.active
      then add_passive node_id (record v { active = discard node_id v.active })
      else v

  -- `_sample` of `self.active | self.passive`
  unfoldable pub sample_views : ℕ → HyParView K A R → List K × HyParView K A R
  unfolding union difference
  sample_views n v =
      let items = difference (union v.active v.passive) (c.id ∷ []) in
      let (some_items, rng) = c.sample v.rng items n in
      if leb (length items) n then (items, v) else (some_items, record v { rng = rng })

  abbrev with_address : K → Option A → List (K × A) → List (K × A)
  with_address n none rest = rest
  with_address n (some address) rest = if c.is_reachable address then (n, address) ∷ rest else rest

  unfoldable pub described : Dict K A → List K → List (K × A)
  unfolding get
  described book [] = []
  described book (n ∷ ns) = with_address n (get n book) (described book ns)

  abbrev pub shuffle_with : Option (K × R) → HyParView K A R → HyParView K A R
  shuffle_with none v = v
  shuffle_with (some (target, rng)) v =
      let (nodes, w) = sample_views 4 (record v { rng = rng }) in
      send target (shuffle c.id c.address (described w.book nodes) c.shuffle_ttl) w

  unfoldable pub start_shuffle : HyParView K A R → HyParView K A R
  unfolding sample_views described send
  start_shuffle v = shuffle_with (choose c v.rng v.active) v

  unfoldable pub integrate : List (K × A) → HyParView K A R → HyParView K A R
  unfolding note add_passive
  integrate [] v = v
  integrate ((n, address) ∷ nodes) v =
      integrate nodes (if n == c.id then v else add_passive n (note n address v))

  -- The end of a shuffle's walk.
  unfoldable pub answer_shuffle : K → List (K × A) → HyParView K A R → HyParView K A R
  unfolding sample_views described send integrate
  answer_shuffle origin nodes v =
      let (own, w) = sample_views 4 v in
      integrate nodes (send origin (shuffle_reply c.id c.address (described w.book own)) w)

  abbrev pub pass_shuffle :
      K → A → List (K × A) → ℕ → Option (K × R) → HyParView K A R → HyParView K A R
  pass_shuffle origin address nodes ttl none v = answer_shuffle origin nodes v
  pass_shuffle origin address nodes ttl (some (next, rng)) v =
      integrate nodes (send next (shuffle origin address nodes ttl) (record v { rng = rng }))

  -- `sent_ttl` is the one in the message; the walk goes on with one less.
  unfoldable pub on_shuffle : K → A → List (K × A) → ℕ → K → HyParView K A R → HyParView K A R
  unfolding note difference answer_shuffle integrate send
  on_shuffle origin address nodes sent_ttl src v =
      let w = note origin address v in
      if ltb 1 sent_ttl
      then pass_shuffle origin address nodes (sent_ttl - 1)
          (choose c w.rng (difference w.active (src ∷ []))) w
      else answer_shuffle origin nodes w

  unfoldable pub on_shuffle_reply : K → A → List (K × A) → HyParView K A R → HyParView K A R
  unfolding note integrate
  on_shuffle_reply node_id address nodes v = integrate nodes (note node_id address v)

  abbrev pub promote : Option (K × R) → HyParView K A R → HyParView K A R
  promote none v = v
  promote (some (candidate, rng)) v =
      let w = record v { passive = discard candidate v.passive; rng = rng } in
      let u = send candidate (neighbor c.id c.address (is_empty w.active)) w in
      record u { active = add candidate u.active }

  -- The `while` loop of `_tick`, on fuel: each turn takes a peer out of the passive view.
  unfoldable pub repair : ℕ → HyParView K A R → HyParView K A R
  unfolding discard send add
  repair zero v = v
  repair (suc fuel) v =
      let again = repair fuel (promote (choose c v.rng v.passive) v) in
      if ltb (length v.active) c.active_size && not (is_empty v.passive) then again else v

  unfoldable pub tick : HyParView K A R → HyParView K A R
  unfolding repair start_shuffle
  tick v = start_shuffle (repair (length v.passive) v)

  unfoldable pub prune_dead : List K → HyParView K A R → HyParView K A R
  unfolding intersect
  prune_dead alive_ids v = record v {
    active = intersect v.active alive_ids;
    passive = intersect v.passive alive_ids;
  }
