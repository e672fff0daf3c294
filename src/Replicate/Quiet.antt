-- ===== src/Replicate/Quiet.antt =====
-- A round in which nothing changed sends nothing.
use Prim.Native.String.{String}
use suprime.Base.{
  ℕ, ◌+◌, ◌%◌, ◌≡◌, refl, sym, ap, ◌∙◌, inl, inr, Bool, true, false, ◌||◌, not, Option, none, some,
  List, [], ◌∷◌, ◌++◌, arith, leb, nat_beq, if◌then◌else◌, Bool-cases,
}
use suprime.Base.Key.{Eq, ==_refl, string_eq}
use suprime.Base.Lists.{length}
use suprime.Base.Dict.{Dict, Distinct, get, put, get-put}
use suprime.Replicate.{Crdt, CrdtReplicator, is_empty, is_news, collect, send_all, ship, tick}

two_more : (n : ℕ) → n + 1 + 1 ≡ n + 2
two_more n = omega arith

no_news :
    {F : Type 0} ⦃f : Eq F⦄ (full : Bool) (old : Option F) (fingerprint : F)
    → (full || is_news fingerprint old) ≡ false
    → old ≡ some fingerprint
no_news full none fingerprint h = ground (arith, h)
no_news ⦃f⦄ full (some old) fingerprint h = ground (arith, h, f.beq_iff old fingerprint)

module _ {R D F : Type 0} ⦃f : Eq F⦄ (c : Crdt R D F) where
  abbrev print : R → F
  print crdt = c.repr (c.digest crdt)

  -- Every CRDT was last sent as it is.
  abbrev pub IsSent : Dict String R → Dict String F → Type 0
  IsSent [] last = Unit
  IsSent ((name, crdt) ∷ crdts) last = (get name last ≡ some (print crdt)) × IsSent crdts last

  collect_other :
      (full : Bool) (name : String) (crdts : Dict String R) (payload : Dict String D)
      (last : Dict String F)
      → get name crdts ≡ none
      → get name (collect c full crdts payload last).1 ≡ get name last
  unfolding collect get
  collect_other full name [] payload last out = refl
  collect_other full name ((j, crdt) ∷ crdts) payload last out = ground (
    arith,
    out,
    collect_other full name crdts payload last,
    collect_other full name crdts (put j (c.digest crdt) payload) (put j (print crdt) last),
    get-put j name (print crdt) last,
  )

  IsSent-collect :
      (full : Bool) (crdts : Dict String R) (payload : Dict String D) (last : Dict String F)
      → Distinct crdts
      → IsSent crdts (collect c full crdts payload last).1
  unfolding collect
  IsSent-collect full [] payload last h = tt
  IsSent-collect full ((name, crdt) ∷ crdts) payload last h =
      elim (Bool-cases (full || is_news (print crdt) (get name last))) [
        | inl news ↦
            let last' = put name (print crdt) last in
            let payload' = put name (c.digest crdt) payload in
            rw news (
              collect_other full name crdts payload' last' h.0
                  ∙ ground (arith, get-put name name (print crdt) last, ==_refl name),
              IsSent-collect full crdts payload' last' h.1,
            )
        | inr quiet ↦ rw quiet (
          collect_other full name crdts payload last h.0
              ∙ no_news full (get name last) (print crdt) quiet,
          IsSent-collect full crdts payload last h.1,
        )
      ]

  collect_quiet :
      (crdts : Dict String R) (payload : Dict String D) (last : Dict String F)
      → IsSent crdts last
      → collect c false crdts payload last ≡ (payload, last)
  unfolding collect
  collect_quiet [] payload last h = refl
  collect_quiet ((name, crdt) ∷ crdts) payload last h =
      let same : is_news (print crdt) (get name last) ≡ false =
        ap (is_news (print crdt)) h.0 ∙ ap not (==_refl (print crdt)) in
      rw same (collect_quiet crdts payload last h.1)

module _ {K R D F H : Type 0} where
  -- What sending leaves of a replicator.
  abbrev Keeps : CrdtReplicator K R D F H → CrdtReplicator K R D F H → Type 0
  Keeps s s' =
      (s'.crdts ≡ s.crdts)
      × (s'.last_sent ≡ s.last_sent)
      × (s'.ticks ≡ s.ticks)
      × (s'.full_sync_every ≡ s.full_sync_every)

  send_all-Keeps :
      (targets : List K) (payload : Dict String D) (s : CrdtReplicator K R D F H)
      → Keeps s (send_all targets payload s)
  unfolding send_all
  send_all-Keeps [] payload s = (refl, refl, refl, refl)
  send_all-Keeps (target ∷ targets) payload s =
      send_all-Keeps targets payload
        (record s { sent = s.sent ++ (target, payload) ∷ []; syncs_sent = s.syncs_sent + 1 })

module _ {K R D F H : Type 0} ⦃f : Eq F⦄ (c : Crdt R D F) (sample : List K → ℕ → List K) where
  ship-Keeps :
      (alive : List K) (payload : Dict String D) (last : Dict String F)
      (s : CrdtReplicator K R D F H)
      → Keeps (record s { last_sent = last }) (ship c sample alive (payload, last) s)
  ship-Keeps alive payload last s =
      let s' : CrdtReplicator K R D F H = record s { last_sent = last } in
      elim (Bool-cases (is_empty payload)) [
        | inl nothing ↦ rw nothing (refl, refl, refl, refl)
        | inr some_there ↦ rw some_there (
            send_all-Keeps (if leb (length alive) s.fanout then alive else sample alive s.fanout)
              payload s')
      ]

  tick_idle :
      (alive : List K) (s : CrdtReplicator K R D F H)
      → (is_empty s.crdts || is_empty alive) ≡ true
      → tick c sample alive s ≡ (s, true)
  unfolding tick
  tick_idle alive s idle = elim (Bool-cases (is_empty s.crdts)) [
    | inl bare ↦ rw bare refl
    | inr full ↦
        let alone : is_empty alive ≡ true = ground (arith, idle, full) in rw (full, alone) refl
  ]

  -- The state after a round that collects.
  abbrev shipped : List K → CrdtReplicator K R D F H → CrdtReplicator K R D F H
  shipped alive s =
      ship c sample alive
        (collect c (nat_beq ((s.ticks + 1) % s.full_sync_every) 0) s.crdts [] s.last_sent)
        (record s { ticks = s.ticks + 1 })

  tick_busy :
      (alive : List K) (s : CrdtReplicator K R D F H)
      → (is_empty s.crdts || is_empty alive) ≡ false
      → nat_beq s.full_sync_every 0 ≡ false
      → tick c sample alive s ≡ (shipped alive s, true)
  unfolding tick
  tick_busy alive s busy every =
      let there : is_empty s.crdts ≡ false = ground (arith, busy) in
      let peers : is_empty alive ≡ false = ground (arith, busy) in rw (there, peers, every) refl

  -- A round that is not full, over CRDTs that were all sent as they are.
  sent-tick :
      (alive : List K) (s : CrdtReplicator K R D F H)
      → IsSent c s.crdts s.last_sent
      → nat_beq s.full_sync_every 0 ≡ false
      → nat_beq ((s.ticks + 1) % s.full_sync_every) 0 ≡ false
      → (tick c sample alive s).0.sent ≡ s.sent
  sent-tick alive s h every partial = elim (Bool-cases (is_empty s.crdts || is_empty alive)) [
    | inl idle ↦ ap (λ p. p.0.sent) (tick_idle alive s idle)
    | inr busy ↦
        ap (λ p. p.0.sent) (tick_busy alive s busy every)
        ∙ ap
            (λ full.
              (ship c sample alive (collect c full s.crdts [] s.last_sent)
                (record s { ticks = s.ticks + 1 })).sent)
            partial
        ∙ ap (λ p. (ship c sample alive p (record s { ticks = s.ticks + 1 })).sent)
            (collect_quiet c s.crdts [] s.last_sent h)
  ]

  -- Where the names are distinct, some peer is live and the CRDTs did not change since the round
  -- before, a round that is not a full one sends nothing.
  pub tick_quiet :
      (alive more : List K) (s : CrdtReplicator K R D F H)
      → Distinct s.crdts
      → is_empty alive ≡ false
      → nat_beq s.full_sync_every 0 ≡ false
      → nat_beq ((s.ticks + 2) % s.full_sync_every) 0 ≡ false
      → (tick c sample more (tick c sample alive s).0).0.sent ≡ (tick c sample alive s).0.sent
  tick_quiet alive more s h peers every partial = elim (Bool-cases (is_empty s.crdts)) [
    | inl bare ↦
        let same : tick c sample alive s ≡ (s, true) = tick_idle alive s (ground (arith, bare)) in
        let again : tick c sample more s ≡ (s, true) = tick_idle more s (ground (arith, bare)) in
        ap (λ p. (tick c sample more p.0).0.sent) same
        ∙ ap (λ p. p.0.sent) again
        ∙ sym (ap (λ p. p.0.sent) same)
    | inr there ↦
        let same = tick_busy alive s (ground (arith, there, peers)) every in
        let s1 = shipped alive s in
        let got =
          collect c (nat_beq ((s.ticks + 1) % s.full_sync_every) 0) s.crdts [] s.last_sent in
        let (crdts, last, ticks, rounds) =
          ship-Keeps alive got.0 got.1 (record s { ticks = s.ticks + 1 }) in
        let all_sent : IsSent c s1.crdts s1.last_sent =
          rw (crdts, last)
            (IsSent-collect c (nat_beq ((s.ticks + 1) % s.full_sync_every) 0) s.crdts [] s.last_sent
              h) in
        let later : nat_beq ((s1.ticks + 1) % s1.full_sync_every) 0 ≡ false =
          ap (λ n. nat_beq ((n + 1) % s1.full_sync_every) 0) ticks
          ∙ ap (λ m. nat_beq ((s.ticks + 1 + 1) % m) 0) rounds
          ∙ ap (λ n. nat_beq (n % s.full_sync_every) 0) (two_more s.ticks)
          ∙ partial in
        ap (λ p. (tick c sample more p.0).0.sent) same
        ∙ sent-tick more s1 all_sent (ap (λ m. nat_beq m 0) rounds ∙ every) later
        ∙ sym (ap (λ p. p.0.sent) same)
  ]
