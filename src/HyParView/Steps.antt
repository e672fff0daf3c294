-- ===== src/HyParView/Steps.antt =====
-- Every message handler and the periodic step keep the views bounded.
use suprime.Base.{
  ℕ, ◌-◌, ◌<◌, Bool, true, false, ◌||◌, Option, none, some, List, [], ◌∷◌, ltb, leb, nat_beq,
  if◌then◌else◌, Bool-cases, inl, inr,
}
use suprime.Base.Key.{Eq, ◌==◌}
use suprime.Base.Lists.{length}
use suprime.Base.Sets.{member, discard, union, difference}
use suprime.HyParView.{
  Config, HyParView, Wire, forward_join, neighbor, neighbor_reply, shuffle, shuffle_reply, send,
  note, choose, add_passive, add_active, on_join, spread, walk, on_forward_join, on_neighbor,
  on_neighbor_reply, on_disconnect, sample_views, described, integrate, answer_shuffle,
  pass_shuffle, on_shuffle, on_shuffle_reply,
}
use suprime.HyParView.Views.{IsChoice, add_passive-HasViews}
use suprime.HyParView.Active.{
  IsBounded, same-IsBounded, views-send, views-note, leave-HasViews, add_active-IsBounded,
}

module _ {K A R : Type 0} ⦃k : Eq K⦄ (c : Config K A R) where
  pub sent-IsBounded :
      (n : K) (message : Wire K A) (v : HyParView K A R)
      → IsBounded c v
      → IsBounded c (send c n message v)
  sent-IsBounded n message v b =
      same-IsBounded c (send c n message v) v (views-send c n message v) b

  noted-IsBounded :
      (n : K) (address : A) (v : HyParView K A R) → IsBounded c v → IsBounded c (note c n address v)
  noted-IsBounded n address v b =
      same-IsBounded c (note c n address v) v (views-note c n address v) b

  spread-IsBounded :
      (n : K) (message : Wire K A) (peers : List K) (v : HyParView K A R)
      → IsBounded c v
      → IsBounded c (spread c n message peers v)
  spread-IsBounded n message [] v b = b
  spread-IsBounded n message (peer ∷ peers) v b = elim (Bool-cases (peer == n)) [
    | inl same ↦ rw same (spread-IsBounded n message peers v b)
    | inr other ↦
        rw other (
          spread-IsBounded n message peers (send c peer message v)
            (sent-IsBounded peer message v b))
  ]

  pub sample-IsBounded :
      (n : ℕ) (v : HyParView K A R) → IsBounded c v → IsBounded c (sample_views c n v).1
  unfolding sample_views
  sample-IsBounded n v b =
      elim (Bool-cases (leb (length (difference (union v.active v.passive) (c.id ∷ []))) n)) [
        | inl few ↦ rw few b
        | inr many ↦ rw many b
      ]

module _ {K A R : Type 0} ⦃k : Eq K⦄ (c : Config K A R) (h : IsChoice c)
    (pp : 0 < c.passive_size) where
  turn-IsBounded :
      (n : K) (address : A) (v : HyParView K A R)
      → IsBounded c v
      → IsBounded c (if n == c.id then v else add_passive c n (note c n address v))
  turn-IsBounded n address v b = elim (Bool-cases (n == c.id)) [
    | inl own ↦ rw own b
    | inr other ↦
        rw other
          (add_passive-HasViews c n (note c n address v) h pp (noted-IsBounded c n address v b))
  ]

  integrate-IsBounded :
      (nodes : List (K × A)) (v : HyParView K A R)
      → IsBounded c v
      → IsBounded c (integrate c nodes v)
  unfolding integrate
  integrate-IsBounded [] v b = b
  integrate-IsBounded ((n, address) ∷ nodes) v b =
      integrate-IsBounded nodes (if n == c.id then v else add_passive c n (note c n address v))
        (turn-IsBounded n address v b)

  answer-IsBounded :
      (origin : K) (nodes : List (K × A)) (v : HyParView K A R)
      → IsBounded c v
      → IsBounded c (answer_shuffle c origin nodes v)
  unfolding answer_shuffle
  answer-IsBounded origin nodes v b =
      let (own, w) = sample_views c 4 v in
      integrate-IsBounded nodes
        (send c origin (shuffle_reply c.id c.address (described c w.book own)) w)
        (sent-IsBounded c origin (shuffle_reply c.id c.address (described c w.book own)) w
          (sample-IsBounded c 4 v b))

  pass-IsBounded :
      (origin : K) (address : A) (nodes : List (K × A)) (ttl : ℕ) (o : Option (K × R))
      (v : HyParView K A R)
      → IsBounded c v
      → IsBounded c (pass_shuffle c origin address nodes ttl o v)
  pass-IsBounded origin address nodes ttl none v b = answer-IsBounded origin nodes v b
  pass-IsBounded origin address nodes ttl (some (next, rng)) v b =
      let message = shuffle origin address nodes ttl in
      integrate-IsBounded nodes (send c next message (record v { rng = rng }))
        (sent-IsBounded c next message (record v { rng = rng }) b)

  pub on_shuffle-IsBounded :
      (origin : K) (address : A) (nodes : List (K × A)) (sent_ttl : ℕ) (src : K)
      (v : HyParView K A R)
      → IsBounded c v
      → IsBounded c (on_shuffle c origin address nodes sent_ttl src v)
  unfolding on_shuffle
  on_shuffle-IsBounded origin address nodes sent_ttl src v b =
      let w = note c origin address v in
      let bw = noted-IsBounded c origin address v b in
      elim (Bool-cases (ltb 1 sent_ttl)) [
        | inl goes ↦ rw goes (
            pass-IsBounded origin address nodes (sent_ttl - 1)
              (choose c w.rng (difference w.active (src ∷ []))) w bw)
        | inr ends ↦ rw ends (answer-IsBounded origin nodes w bw)
      ]

  pub on_shuffle_reply-IsBounded :
      (n : K) (address : A) (nodes : List (K × A)) (v : HyParView K A R)
      → IsBounded c v
      → IsBounded c (on_shuffle_reply c n address nodes v)
  unfolding on_shuffle_reply
  on_shuffle_reply-IsBounded n address nodes v b =
      integrate-IsBounded nodes (note c n address v) (noted-IsBounded c n address v b)

  pub on_disconnect-IsBounded :
      (n : K) (v : HyParView K A R) → IsBounded c v → IsBounded c (on_disconnect c n v)
  unfolding on_disconnect
  on_disconnect-IsBounded n v b = elim (Bool-cases (member n v.active)) [
    | inl there ↦ rw there (
        add_passive-HasViews c n (record v { active = discard n v.active }) h pp
          (leave-HasViews c n v.active v.passive b))
    | inr out ↦ rw out b
  ]

module _ {K A R : Type 0} ⦃k : Eq K⦄ (c : Config K A R) (h : IsChoice c) (pp : 0 < c.passive_size)
    (pa : 0 < c.active_size) where
  pub on_join-IsBounded :
      (n : K) (address : A) (v : HyParView K A R)
      → IsBounded c v
      → IsBounded c (on_join c n address v)
  unfolding on_join
  on_join-IsBounded n address v b =
      let w = add_active c n (note c n address v) in
      let u = send c n (neighbor c.id c.address true) w in
      spread-IsBounded c n (forward_join n address c.arwl) u.active u (
        sent-IsBounded c n (neighbor c.id c.address true) w
          (add_active-IsBounded c n (note c n address v) h pp pa (noted-IsBounded c n address v b)))

  walk-IsBounded :
      (n : K) (address : A) (ttl : ℕ) (o : Option (K × R)) (v : HyParView K A R)
      → IsBounded c v
      → IsBounded c (walk c n address ttl o v)
  walk-IsBounded n address ttl none v b = add_active-IsBounded c n v h pp pa b
  walk-IsBounded n address ttl (some (next, rng)) v b =
      sent-IsBounded c next (forward_join n address (ttl - 1)) (record v { rng = rng }) b

  pub on_forward_join-IsBounded :
      (n : K) (address : A) (ttl : ℕ) (src : K) (v : HyParView K A R)
      → IsBounded c v
      → IsBounded c (on_forward_join c n address ttl src v)
  unfolding on_forward_join
  on_forward_join-IsBounded n address ttl src v b =
      let w = note c n address v in
      let bw = noted-IsBounded c n address v b in
      elim (Bool-cases (nat_beq ttl 0 || leb (length w.active) 1)) [
        | inl ends ↦ rw ends (
            sent-IsBounded c n (neighbor c.id c.address true) (add_active c n w)
              (add_active-IsBounded c n w h pp pa bw))
        | inr goes ↦ rw goes (elim (Bool-cases (nat_beq ttl c.prwl)) [
          | inl deposit ↦ rw deposit (
              let u = add_passive c n w in
              walk-IsBounded n address ttl (choose c u.rng (difference u.active (src ∷ n ∷ []))) u
                (add_passive-HasViews c n w h pp bw))
          | inr on ↦ rw on (
              walk-IsBounded n address ttl (choose c w.rng (difference w.active (src ∷ n ∷ []))) w
                bw)
        ])
      ]

  pub on_neighbor-IsBounded :
      (n : K) (address : A) (high : Bool) (v : HyParView K A R)
      → IsBounded c v
      → IsBounded c (on_neighbor c n address high v)
  unfolding on_neighbor
  on_neighbor-IsBounded n address high v b =
      let w = note c n address v in
      let bw = noted-IsBounded c n address v b in
      elim (Bool-cases (high || ltb (length w.active) c.active_size)) [
        | inl yes_please ↦ rw yes_please (
            sent-IsBounded c n (neighbor_reply c.id c.address true) (add_active c n w)
              (add_active-IsBounded c n w h pp pa bw))
        | inr declined ↦ rw declined (sent-IsBounded c n (neighbor_reply c.id c.address false) w bw)
      ]

  pub on_neighbor_reply-IsBounded :
      (n : K) (address : A) (accepted : Bool) (v : HyParView K A R)
      → IsBounded c v
      → IsBounded c (on_neighbor_reply c n address accepted v)
  unfolding on_neighbor_reply
  on_neighbor_reply-IsBounded n address true v b =
      add_active-IsBounded c n (note c n address v) h pp pa (noted-IsBounded c n address v b)
  on_neighbor_reply-IsBounded n address false v b =
      add_passive-HasViews c n (note c n address v) h pp (noted-IsBounded c n address v b)
