-- ===== src/AntiEntropy/Converge.antt =====
-- One exchange brings two stores to the same entries.
use Prim.Native.String.{String}
use suprime.Base.{
  ℕ, ◌≡◌, refl, sym, ap, ◌∙◌, inl, inr, Bool, true, false, Option, none, some, List, [], ◌∷◌, arith,
  if◌then◌else◌, Bool-cases,
}
use suprime.Base.Key.{Eq, Order, nat_eq, string_eq, string_order}
use suprime.Base.Sets.{member}
use suprime.Base.Dict.{Distinct, get}
use suprime.Base.Dict.Merge.{pick}
use suprime.Version.Newest.{newer, newest, newest_comm, newest_assoc, newest_idem, IsVersioned}
use suprime.Store.Entries.{Entry, version_of}
use suprime.Store.{Store, merge}
use suprime.Store.Merge.{merge-newest, merge-Distinct}
use suprime.Store.Wire
use suprime.Store.Wire.{Sent, to_dict, digest_of, apply_digest-digest_of}
use suprime.AntiEntropy.{
  Message, no_keys, tick, on_digest, on_pull, handle, Hashing, AntiEntropy, bucket_of,
  bucket_hashes, differ, diff_buckets, entries_for_buckets, on_push,
}
use suprime.AntiEntropy.Buckets.{member-diff_buckets}
use suprime.AntiEntropy.Format.{IsFaithful, HasPlain, CollisionFree}
use suprime.AntiEntropy.Exchange.{
  AgreeOn, chosen, entries-chosen, get-chosen, chosen-Distinct, same_key,
}

none_named : (bs : List ℕ) (i : ℕ) → no_keys bs ≡ true → member i bs ≡ false
unfolding member
none_named [] i h' = refl
none_named (b ∷ bs) i h' = cc

module _ {K V : Type 0} ⦃o : Order K⦄ where
  newest-none : (x : Option (Entry K V)) → newest version_of x none ≡ x
  unfolding pick newer
  newest-none none = refl
  newest-none (some a) = refl

  newest-if :
      (x y : Option (Entry K V)) (m : Bool)
      → newest version_of x (if m then y else none) ≡ (if m then newest version_of x y else x)
  newest-if x y true = refl
  newest-if x y false = newest-none x

  pub back_and_forth :
      (x y : Option (Entry K V))
      → ((u v : Entry K V) → x ≡ some u → y ≡ some v → IsVersioned version_of u v)
      → newest version_of y (newest version_of x y) ≡ newest version_of x y
  unfolding pick newer
  back_and_forth none none agree = refl
  back_and_forth none (some v) agree = newest_idem version_of (some v)
  back_and_forth (some u) none agree = refl
  back_and_forth (some u) (some v) agree =
      let comm = newest_comm version_of u v (agree u v refl refl) in
      ap (newest version_of (some v)) comm
      ∙ sym (newest_assoc version_of (some v) (some v) (some u))
      ∙ ap (λ z. newest version_of z (some u)) (newest_idem version_of (some v))
      ∙ sym comm

module _ {V F : Type 0} (h : Hashing F) where
  -- A store that receives the entries of some buckets takes the newer at each key of theirs.
  get-received :
      {C D : Type 0} (s : Store String V C) (r : Store String V D) (buckets : List ℕ) (n : ℕ)
      (k : String)
      → Distinct r.entries
      → get k (merge (chosen h r.entries buckets n) s).0.entries ≡ (
          if member (bucket_of h k n) buckets
          then newest version_of (get k s.entries) (get k r.entries)
          else get k s.entries)
  get-received s r buckets n k p =
      let at =
        (merge-newest (chosen h r.entries buckets n) s (chosen-Distinct h r.entries buckets n p)).0
          k in
      at
      ∙ ap (newest version_of (get k s.entries)) (get-chosen h k r.entries buckets n)
      ∙ newest-if (get k s.entries) (get k r.entries) (member (bucket_of h k n) buckets)

  -- The store after a push of the entries of some buckets of another.
  pushed : {C D : Type 0} → Store String V C → Store String V D → List ℕ → ℕ → Store String V C
  pushed s r buckets n = (merge (chosen h r.entries buckets n) s).0

  exchanged :
      {C D : Type 0} (a : Store String V C) (b : Store String V D) (buckets : List ℕ) (n : ℕ)
      (k : String)
      → Distinct a.entries
      → Distinct b.entries
      → AgreeOn a.entries b.entries
      → (member (bucket_of h k n) buckets ≡ false → get k a.entries ≡ get k b.entries)
      → get k (pushed a b buckets n).entries
        ≡ get k (pushed b (pushed a b buckets n) buckets n).entries
  unfolding pushed
  exchanged a b buckets n k da db agree rest =
      let a' = pushed a b buckets n in
      let first = get-received a b buckets n k db in
      let second =
        get-received b a' buckets n k (merge-Distinct (chosen h b.entries buckets n) a da) in
      elim (Bool-cases (member (bucket_of h k n) buckets)) [
        | inr out ↦ ground (arith, first, second, out, rest out)
        | inl named ↦
            let newer_one : get k a'.entries
                ≡ newest version_of (get k a.entries) (get k b.entries) =
              first ∙ rw named refl in
            newer_one
            ∙ sym (
                back_and_forth (get k a.entries) (get k b.entries)
                  (λ u v p q same. agree k u v p q (ap (λ w. w.ts) same) (ap (λ w. w.origin) same)))
            ∙ sym (second ∙ (rw named (ap (newest version_of (get k b.entries)) newer_one)))
      ]

module _ {V C F : Type 0} ⦃f : Eq F⦄ (h : Hashing F) where
  -- The requests of one node arrive at the other, in their order.
  abbrev pub deliver :
      String
      → List (String × Message String V F)
      → AntiEntropy String V C F
      → AntiEntropy String V C F
  deliver src [] s = s
  deliver src ((dst, message) ∷ requests) s = deliver src requests (handle h src message s)

module _ {K V C F : Type 0} where
  abbrev pub cleared : AntiEntropy K V C F → AntiEntropy K V C F
  cleared s = record s { requests = [] }

module _ {V C F : Type 0} (h : Hashing F) where
  apply-chosen :
      {D : Type 0} (r : Store String V D) (buckets : List ℕ) (n : ℕ) (s : Store String V C)
      → (Wire.apply_digest (entries_for_buckets h (Wire.digest r) buckets n) s).0
        ≡ pushed h s r buckets n
  unfolding pushed Wire.digest
  apply-chosen r buckets n s =
      ap (λ d. (Wire.apply_digest d s).0) (entries-chosen h r.entries buckets n)
      ∙ ap (λ p. p.0) (apply_digest-digest_of (chosen h r.entries buckets n) s)

module _ {V C D F : Type 0} ⦃f : Eq F⦄ (h : Hashing F) where
  -- What follows once the second node has handled the digest.
  abbrev pub answers :
      String
      → String
      → AntiEntropy String V C F
      → AntiEntropy String V D F
      → Store String V C × Store String V D
  answers ida idb a b =
      let a' = deliver h idb b.requests (cleared a) in
      (a'.store, (deliver h ida a'.requests (cleared b)).store)

  -- A round of the first node that chooses the second, with all messages delivered: the stores after.
  abbrev pub exchange :
      String
      → String
      → AntiEntropy String V C F
      → AntiEntropy String V D F
      → Store String V C × Store String V D
  exchange ida idb a b =
      let a' = tick h (some idb) (cleared a) in
      answers ida idb a' (deliver h ida a'.requests (cleared b))

  abbrev mismatched : AntiEntropy String V C F → AntiEntropy String V D F → List ℕ
  mismatched a b =
      diff_buckets (bucket_hashes h (Wire.digest b.store) b.n_buckets)
        (bucket_hashes h (Wire.digest a.store) a.n_buckets)

  exchange_quiet :
      (ida idb : String) (a : AntiEntropy String V C F) (b : AntiEntropy String V D F)
      → no_keys (mismatched a b) ≡ true
      → exchange ida idb a b ≡ (a.store, b.store)
  unfolding tick handle on_digest
  exchange_quiet ida idb a b quiet = rw quiet refl

  exchange_loud :
      (ida idb : String) (a : AntiEntropy String V C F) (b : AntiEntropy String V D F)
      → no_keys (mismatched a b) ≡ false
      → let ms = mismatched a b in
        let a' =
          (Wire.apply_digest
            (entries_for_buckets h (Wire.digest b.store) ms b.n_buckets)
            a.store).0 in
        exchange ida idb a b ≡ (
          a',
          (Wire.apply_digest (entries_for_buckets h (Wire.digest a') ms a.n_buckets) b.store).0,
        )
  unfolding tick handle on_digest on_pull on_push
  exchange_loud ida idb a b loud = rw loud refl

  -- What the fingerprints say of a key whose bucket is not named.
  unnamed :
      (a : AntiEntropy String V C F) (b : AntiEntropy String V D F) (k : String)
      → IsFaithful h
      → HasPlain a.store.entries
      → HasPlain b.store.entries
      → CollisionFree h b.n_buckets b.store.entries a.store.entries
      → a.n_buckets ≡ b.n_buckets
      → Distinct a.store.entries
      → Distinct b.store.entries
      → AgreeOn a.store.entries b.store.entries
      → member (bucket_of h k b.n_buckets) (mismatched a b) ≡ false
      → get k a.store.entries ≡ get k b.store.entries
  unfolding Wire.digest
  unnamed a b k faithful pa pb apart n da db agree out =
      let i = bucket_of h k b.n_buckets in
      let ha = bucket_hashes h (digest_of a.store.entries) b.n_buckets in
      let hb = bucket_hashes h (digest_of b.store.entries) b.n_buckets in
      let alike : differ (get i hb) (get i ha) ≡ false =
        sym (member-diff_buckets i hb ha)
        ∙ (ap (λ m. member i (diff_buckets hb (bucket_hashes h (digest_of a.store.entries) m)))
            (sym n))
        ∙ out in
      sym (
        same_key h faithful b.n_buckets b.store.entries a.store.entries k pb pa apart db da
          (λ j x y p q ts origin. sym (agree j y x q p (sym ts) (sym origin))) alike)

  -- After one round of a node that chooses another, with all messages delivered in order, the two
  -- stores hold the same entry at every key, where the text of a timestamp tells it and has no bar
  -- or newline, no key and no origin of either store has a bar or a newline, the texts of a bucket
  -- of the two stores have one fingerprint only if they are equal, the nodes use equally many
  -- buckets, the keys of each store are distinct, and equal versions at a key mean equal entries.
  pub exchange_converge :
      (ida idb : String) (a : AntiEntropy String V C F) (b : AntiEntropy String V D F) (k : String)
      → IsFaithful h
      → HasPlain a.store.entries
      → HasPlain b.store.entries
      → CollisionFree h b.n_buckets b.store.entries a.store.entries
      → a.n_buckets ≡ b.n_buckets
      → Distinct a.store.entries
      → Distinct b.store.entries
      → AgreeOn a.store.entries b.store.entries
      → get k (exchange ida idb a b).0.entries ≡ get k (exchange ida idb a b).1.entries
  exchange_converge ida idb a b k faithful pa pb apart n da db agree =
      let ms = mismatched a b in
      let same = unnamed a b k faithful pa pb apart n da db agree in
      elim (Bool-cases (no_keys ms)) [
        | inl quiet ↦
            let is = exchange_quiet ida idb a b quiet in
            ap (λ p. get k p.0.entries) is
            ∙ same (none_named ms (bucket_of h k b.n_buckets) quiet)
            ∙ sym (ap (λ p. get k p.1.entries) is)
        | inr loud ↦
            let is = exchange_loud ida idb a b loud in
            let a' = pushed h a.store b.store ms b.n_buckets in
            let first = apply-chosen h b.store ms b.n_buckets a.store in
            let second : (s : Store String V C)
                → (Wire.apply_digest (entries_for_buckets h (Wire.digest s) ms a.n_buckets)
                    b.store).0
                  ≡ pushed h b.store s ms b.n_buckets =
              λ s. apply-chosen h s ms a.n_buckets b.store ∙ ap (pushed h b.store s ms) n in
            ap (λ p. get k p.0.entries) is
            ∙ ap (λ s. get k s.entries) first
            ∙ exchanged h a.store b.store ms b.n_buckets k da db agree same
            ∙ sym (ap (λ s. get k (pushed h b.store s ms b.n_buckets).entries) first)
            ∙ sym (
                ap (λ s. get k s.entries)
                  (second
                    (Wire.apply_digest (entries_for_buckets h (Wire.digest b.store) ms b.n_buckets)
                      a.store).0))
            ∙ sym (ap (λ p. get k p.1.entries) is)
      ]
