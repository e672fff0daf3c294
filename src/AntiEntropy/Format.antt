-- ===== src/AntiEntropy/Format.antt =====
-- The line of an entry whose key and origin are plain tells its key, timestamp and origin.
use mathlib.Core.Path.{subst}
use Prim.Native.String.{String, ◌++◌ as ◌<>◌}
use suprime.Base.{ℕ, ◌≡◌, sym, inl, inr, true, some, List, []}
use suprime.Base.Key.{nat_eq, string_eq, string_order}
use suprime.Base.Lists.{In}
use suprime.Base.Sort.{sorted}
use suprime.Base.Dict.{Dict, get}
use suprime.Store.Entries.{Entry}
use suprime.Store.Wire.{to_dict, digest_of}
use suprime.AntiEntropy.{Hashing, join_lines, mark_text, or_empty, line_of, collect}
use suprime.AntiEntropy.Texts.{
  is_free, is_blank-bar, is_free-append, is_free-mark_text, is_free-bar, bar_tells, IsLine,
}
use suprime.AntiEntropy.Lines.{Lines-collect}

-- A text that neither a bar nor a newline can be read out of.
abbrev pub IsPlain : String → Type 0
IsPlain s = (is_free 124 s ≡ true) × (is_free 10 s ≡ true)

module _ {F : Type 0} (h : Hashing F) where
  -- What Python's formatting of floats is trusted with: the text of a timestamp tells it, and has
  -- neither a bar nor a newline.
  pub record IsFaithful : Type 0 where
    pub text_tells : (ts ts' : ℕ) → h.text_of ts ≡ h.text_of ts' → ts ≡ ts'
    pub text_plain : (ts : ℕ) → IsPlain (h.text_of ts)

  -- Two texts without a collision of their fingerprints.
  abbrev pub NoCollision : List String → List String → Type 0
  NoCollision xs ys =
      h.fingerprint (join_lines (sorted xs)) ≡ h.fingerprint (join_lines (sorted ys))
      → join_lines (sorted xs) ≡ join_lines (sorted ys)

module _ {V : Type 0} where
  -- The keys and the origins of a store are plain.
  abbrev pub HasPlain : Dict String (Entry String V) → Type 0
  HasPlain d = (p : String × Entry String V) → In p d → IsPlain p.0 × IsPlain p.1.version.origin

module _ {V F : Type 0} (h : Hashing F) where
  -- No two texts of a bucket, one of each store, collide.
  abbrev pub CollisionFree :
      ℕ → Dict String (Entry String V) → Dict String (Entry String V) → Type 0
  CollisionFree n a b =
      (i : ℕ) (xs ys : List String)
      → get i (collect h (digest_of a) n []) ≡ some xs
      → get i (collect h (digest_of b) n []) ≡ some ys
      → NoCollision h xs ys

  -- A line of plain fields tells its key, timestamp and origin.
  pub line_tells :
      (k j : String) (x y : Entry String V)
      → IsFaithful h
      → IsPlain k × IsPlain x.version.origin
      → IsPlain j × IsPlain y.version.origin
      → line_of h k (to_dict x) ≡ line_of h j (to_dict y)
      → (k ≡ j) × (x.version.ts ≡ y.version.ts) × (x.version.origin ≡ y.version.origin)
  unfolding line_of to_dict
  line_tells k j x y faithful (plain_k, plain_o) (plain_j, plain_p) same =
      let tail : Entry String V → String = λ z. z.version.origin <> ("|" <> mark_text z.deleted) in
      let (key, rest) =
        bar_tells k j (h.text_of x.version.ts <> ("|" <> tail x))
          (h.text_of y.version.ts <> ("|" <> tail y)) plain_k.0 plain_j.0 same in
      let (ts, rest') =
        bar_tells (h.text_of x.version.ts) (h.text_of y.version.ts) (tail x) (tail y)
          (faithful.text_plain x.version.ts).0 (faithful.text_plain y.version.ts).0 rest in
      let (origin, _) =
        bar_tells x.version.origin y.version.origin (mark_text x.deleted) (mark_text y.deleted)
          plain_o.0 plain_p.0 rest' in
      (key, faithful.text_tells x.version.ts y.version.ts ts, origin)

  -- A line of plain fields is a line.
  line_of-IsLine :
      (k : String) (x : Entry String V)
      → IsFaithful h
      → IsPlain k
      → IsPlain x.version.origin
      → IsLine (line_of h k (to_dict x))
  unfolding line_of to_dict
  line_of-IsLine k x faithful plain_k plain_o =
      let after : (s : String) → is_free 10 s ≡ true → is_free 10 ("|" <> s) ≡ true =
        λ s free. is_free-append 10 "|" s is_free-bar free in
      let mark = after (mark_text x.deleted) (is_free-mark_text x.deleted) in
      let origin =
        after (x.version.origin <> ("|" <> mark_text x.deleted))
          (is_free-append 10 x.version.origin ("|" <> mark_text x.deleted) plain_o.1 mark) in
      let ts =
        after
          (h.text_of x.version.ts <> ("|" <> (x.version.origin <> ("|" <> mark_text x.deleted))))
          (is_free-append 10 (h.text_of x.version.ts)
            ("|" <> (x.version.origin <> ("|" <> mark_text x.deleted)))
            (faithful.text_plain x.version.ts).1 origin) in
      let rest =
        h.text_of x.version.ts <> ("|" <> (x.version.origin <> ("|" <> mark_text x.deleted))) in
      (is_free-append 10 k ("|" <> rest) plain_k.1 ts, is_blank-bar k rest)

  -- The lines of a bucket of a store of plain fields.
  pub lines-IsLine :
      (d : Dict String (Entry String V)) (n i : ℕ) (xs : List String)
      → IsFaithful h
      → HasPlain d
      → get i (collect h (digest_of d) n []) ≡ some xs
      → (l : String) → In l xs
      → IsLine l
  lines-IsLine d n i xs faithful plain at l there =
      elim (Lines-collect h d n i l [] (subst (λ o. In l (or_empty o)) (sym at) there)) [
        | inl none_there ↦ absurd (unfold get in none_there)
        | inr (p, found, _, is) ↦
            let (key, origin) = plain p found in
            subst IsLine is (line_of-IsLine p.0 p.1 faithful key origin)
      ]
