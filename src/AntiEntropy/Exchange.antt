-- ===== src/AntiEntropy/Exchange.antt =====
-- The entries of the buckets that are sent, and what the fingerprints of a bucket tell of its keys.
use Prim.Native.String.{String}
use suprime.Base.{
  ℕ, ◌≡◌, refl, sym, ap, ◌∙◌, inl, inr, false, Option, none, some, List, [], ◌∷◌, arith,
  if◌then◌else◌, Option-cases,
}
use suprime.Base.Key.{Eq, nat_eq, string_eq, string_order}
use suprime.Base.Lists.{In}
use suprime.Base.Sets.{member}
use suprime.Base.Sort.{sorted, In-sorted}
use suprime.Base.Dict.{Dict, Distinct, get}
use suprime.Base.Dict.Members.{get-In, In-get}
use suprime.Store.Entries.{Entry}
use suprime.Store.Wire.{to_dict, digest_of}
use suprime.AntiEntropy.{
  Hashing, join_lines, or_empty, bucket_of, line_of, collect, bucket_hashes, differ,
  entries_for_buckets,
}
use suprime.AntiEntropy.Buckets.{marked, get-fingerprints}
use suprime.AntiEntropy.Texts.{IsLine, join_lines_tell}
use suprime.AntiEntropy.Format.{
  IsFaithful, HasPlain, NoCollision, CollisionFree, line_tells, lines-IsLine,
}
use suprime.AntiEntropy.Lines.{Lines, Lines-collect, collect-Lines}

module _ {V F : Type 0} (h : Hashing F) where
  -- The entries of some buckets.
  abbrev pub chosen : Dict String (Entry String V) → List ℕ → ℕ → Dict String (Entry String V)
  chosen [] buckets n = []
  chosen ((k, a) ∷ d) buckets n =
      let rest = chosen d buckets n in
      if member (bucket_of h k n) buckets then (k, a) ∷ rest else rest

  pub entries-chosen :
      (d : Dict String (Entry String V)) (buckets : List ℕ) (n : ℕ)
      → entries_for_buckets h (digest_of d) buckets n ≡ digest_of (chosen d buckets n)
  unfolding entries_for_buckets digest_of
  entries-chosen [] buckets n = refl
  entries-chosen ((k, a) ∷ d) buckets n = ground (arith, entries-chosen d buckets n)

  pub get-chosen :
      (k : String) (d : Dict String (Entry String V)) (buckets : List ℕ) (n : ℕ)
      → get k (chosen d buckets n) ≡ (if member (bucket_of h k n) buckets then get k d else none)
  unfolding get
  get-chosen k [] buckets n = ground arith
  get-chosen k ((j, a) ∷ d) buckets n =
      ground (arith, get-chosen k d buckets n, string_eq.beq_iff j k)

  pub chosen-Distinct :
      (d : Dict String (Entry String V)) (buckets : List ℕ) (n : ℕ)
      → Distinct d
      → Distinct (chosen d buckets n)
  chosen-Distinct [] buckets n p = p
  chosen-Distinct ((k, a) ∷ d) buckets n p =
      ground (arith, p.0, chosen-Distinct d buckets n p.1, get-chosen k d buckets n)

module _ {F : Type 0} ⦃f : Eq F⦄ (h : Hashing F) where
  -- Buckets that are not named hold the same lines on both sides.
  same_lines :
      (x y : Option (List String)) (l : String)
      → ((xs : List String) → x ≡ some xs → (t : String) → In t xs → IsLine t)
      → ((ys : List String) → y ≡ some ys → (t : String) → In t ys → IsLine t)
      → ((xs ys : List String) → x ≡ some xs → y ≡ some ys → NoCollision h xs ys)
      → differ (marked h x) (marked h y) ≡ false
      → In l (or_empty x)
      → In l (or_empty y)
  same_lines none y l mine other apart same there = absurd there
  same_lines (some xs) none l mine other apart same there = cc
  same_lines (some xs) (some ys) l mine other apart same there =
      let a = join_lines (sorted xs) in
      let b = join_lines (sorted ys) in
      let is : sorted xs ≡ sorted ys =
        join_lines_tell (sorted xs) (sorted ys) (λ t i. mine xs refl t ((In-sorted t xs).0 i))
          (λ t i. other ys refl t ((In-sorted t ys).0 i))
          (apart xs ys refl refl
            (ground (arith, same, f.beq_iff (h.fingerprint a) (h.fingerprint b)))) in
      (In-sorted l ys).0 (rw is at ((In-sorted l xs).1 there))

module _ {F : Type 0} ⦃f : Eq F⦄ where
  differ_sym : (x y : Option F) → differ x y ≡ false → differ y x ≡ false
  differ_sym none none p = refl
  differ_sym none (some y) p = cc
  differ_sym (some x) none p = cc
  differ_sym (some x) (some y) p = ground (arith, p, f.beq_iff x y, f.beq_iff y x)

module _ {K V : Type 0} where
  -- Equal versions at a key mean equal entries.
  abbrev pub AgreeOn : ⦃e : Eq K⦄ → Dict K (Entry K V) → Dict K (Entry K V) → Type 0
  AgreeOn a b =
      (k : K) (x y : Entry K V)
      → get k a ≡ some x
      → get k b ≡ some y
      → x.version.ts ≡ y.version.ts
      → x.version.origin ≡ y.version.origin
      → x ≡ y

module _ {V F : Type 0} ⦃f : Eq F⦄ (h : Hashing F) (faithful : IsFaithful h) (n : ℕ) where
  -- A key whose bucket has one fingerprint on both sides reads the same on both.
  one_side :
      (a b : Dict String (Entry String V)) (k : String) (x : Entry String V)
      → HasPlain a
      → HasPlain b
      → CollisionFree h n a b
      → Distinct b
      → AgreeOn a b
      → differ
          (get (bucket_of h k n) (bucket_hashes h (digest_of a) n))
          (get (bucket_of h k n) (bucket_hashes h (digest_of b) n))
        ≡ false
      → get k a ≡ some x
      → get k b ≡ some x
  unfolding bucket_hashes line_of to_dict
  one_side a b k x pa pb apart db agree same at =
      let i = bucket_of h k n in
      let l = line_of h k (to_dict x) in
      let mine = collect h (digest_of a) n [] in
      let other = collect h (digest_of b) n [] in
      let alike : differ (marked h (get i mine)) (marked h (get i other)) ≡ false =
        rw (get-fingerprints h i mine, get-fingerprints h i other) at same in
      let there : Lines mine i l =
        collect-Lines h a n i l [] (inr ((k, x), get-In k x a at, refl, refl)) in
      elim (Lines-collect h b n i l [] (
        same_lines h (get i mine) (get i other) l (λ xs is. lines-IsLine h a n i xs faithful pa is)
          (λ ys is. lines-IsLine h b n i ys faithful pb is) (λ xs ys. apart i xs ys) alike there)) [
            | inl none_there ↦ absurd (unfold get in none_there)
            | inr (p, found, _, is) ↦
                let (key, ts, origin) =
                  line_tells h p.0 k p.1 x faithful (pb p found) (pa (k, x) (get-In k x a at)) is in
                let here : get k b ≡ some p.1 =
                  ap (λ j. get j b) (sym key) ∙ In-get p.0 p.1 b db found in
                here ∙ ap some (sym (agree k x p.1 at here (sym ts) (sym origin)))
          ]

  -- Where the bucket has one fingerprint the two sides agree.
  pub same_key :
      (a b : Dict String (Entry String V)) (k : String)
      → HasPlain a
      → HasPlain b
      → CollisionFree h n a b
      → Distinct a
      → Distinct b
      → AgreeOn a b
      → differ
          (get (bucket_of h k n) (bucket_hashes h (digest_of a) n))
          (get (bucket_of h k n) (bucket_hashes h (digest_of b) n))
        ≡ false
      → get k a ≡ get k b
  same_key a b k pa pb apart da db agree same =
      let i = bucket_of h k n in
      let back =
        differ_sym (get i (bucket_hashes h (digest_of a) n))
          (get i (bucket_hashes h (digest_of b) n)) same in
      elim (Option-cases (get k a)) [
        | inr (x, at) ↦ at ∙ sym (one_side a b k x pa pb apart db agree same at)
        | inl out ↦ elim (Option-cases (get k b)) [
          | inl out' ↦ out ∙ sym out'
          | inr (y, at) ↦
              one_side b a k y pb pa (λ m ys xs q p same. sym (apart m xs ys p q (sym same))) da
                (λ j u v p q ts o. sym (agree j v u q p (sym ts) (sym o))) back at
              ∙ sym at
        ]
      ]
