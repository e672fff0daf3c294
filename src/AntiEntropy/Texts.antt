-- ===== src/AntiEntropy/Texts.antt =====
-- What a line of a bucket and the joined lines tell: texts read up to a separator.
use Prim.Native.Char.{code}
use Prim.Native.String.{String, ◌++◌ as ◌<>◌}
use text.Mathlib.TextLemmas.{append_cancel_left, append-nil, nil-append, cons-append}
use suprime.Base.{
  ℕ, ◌≡◌, refl, sym, ap, ◌∙◌, inl, inr, Bool, true, false, List, [], ◌∷◌, arith, if◌then◌else◌,
  nat_beq,
}
use suprime.Base.Lists.{In}
use suprime.AntiEntropy.{mark_text, join_lines, tail_lines}

-- Whether no letter of a text has the code `n`.
unfoldable pub is_free : ℕ → String → Bool
is_free n String.[] = true
is_free n (String.◌∷◌ c s) = let rest = is_free n s in if nat_beq (code c) n then false else rest

abbrev pub is_blank : String → Bool
is_blank String.[] = true
is_blank (String.◌∷◌ c s) = false

-- The text before the first letter of code `n`.
unfoldable upto : ℕ → String → String
upto n String.[] = String.[]
upto n (String.◌∷◌ c s) =
    let rest = upto n s in if nat_beq (code c) n then String.[] else String.◌∷◌ c rest

pub is_free-append :
    (n : ℕ) (a b : String) → is_free n a ≡ true → is_free n b ≡ true → is_free n (a <> b) ≡ true
unfolding is_free
is_free-append n String.[] b p q = ap (is_free n) (nil-append b) ∙ q
is_free-append n (String.◌∷◌ c a) b p q =
    ap (is_free n) (cons-append c a b)
    ∙ ground (arith, p, is_free-append n a b (ground (arith, p)) q)

upto-append : (n : ℕ) (p r : String) → is_free n p ≡ true → upto n (p <> r) ≡ p <> upto n r
unfolding is_free upto
upto-append n String.[] r h = ap (upto n) (nil-append r) ∙ sym (nil-append (upto n r))
upto-append n (String.◌∷◌ c p) r h =
    ap (upto n) (cons-append c p r)
    ∙ ground (arith, h, upto-append n p r (ground (arith, h)))
    ∙ sym (cons-append c p (upto n r))

-- A text without the letter, before a text that is empty or starts with it, is told by the two.
upto_tells :
    (n : ℕ) (p p' r r' : String)
    → is_free n p ≡ true
    → is_free n p' ≡ true
    → upto n r ≡ String.[]
    → upto n r' ≡ String.[]
    → p <> r ≡ p' <> r'
    → (p ≡ p') × (r ≡ r')
upto_tells n p p' r r' free free' starts starts' same =
    let before : (q s : String) → is_free n q ≡ true → upto n s ≡ String.[] → upto n (q <> s) ≡ q =
      λ q s f e. upto-append n q s f ∙ ap (λ t. q <> t) e ∙ append-nil q in
    let alike : p ≡ p' =
      sym (before p r free starts) ∙ ap (upto n) same ∙ before p' r' free' starts' in
    (alike, append_cancel_left p r r' (same ∙ ap (λ t. t <> r') (sym alike)))

bar-append : (q : String) → "|" <> q ≡ String.◌∷◌ "|" q
bar-append q = cons-append "|" String.[] q ∙ ap (String.◌∷◌ "|") (nil-append q)

newline-append : (q : String) → "\n" <> q ≡ String.◌∷◌ "\n" q
newline-append q = cons-append "\n" String.[] q ∙ ap (String.◌∷◌ "\n") (nil-append q)

-- A field without a bar, and what follows the bar.
pub bar_tells :
    (p p' q q' : String)
    → is_free 124 p ≡ true
    → is_free 124 p' ≡ true
    → p <> ("|" <> q) ≡ p' <> ("|" <> q')
    → (p ≡ p') × (q ≡ q')
unfolding upto
bar_tells p p' q q' free free' same =
    let starts : (s : String) → upto 124 ("|" <> s) ≡ String.[] =
      λ s. ap (upto 124) (bar-append s) in
    let (first, rest) =
      upto_tells 124 p p' ("|" <> q) ("|" <> q') free free' (starts q) (starts q') same in
    (first, append_cancel_left "|" q q' rest)

pub is_blank-bar : (k q : String) → is_blank (k <> ("|" <> q)) ≡ false
is_blank-bar String.[] q = ap is_blank (nil-append ("|" <> q) ∙ bar-append q)
is_blank-bar (String.◌∷◌ c k) q = ap is_blank (cons-append c k ("|" <> q))

-- A line is not empty and has no newline.
abbrev pub IsLine : String → Type 0
IsLine l = (is_free 10 l ≡ true) × (is_blank l ≡ false)

upto-tail_lines : (xs : List String) → upto 10 (tail_lines xs) ≡ String.[]
unfolding upto tail_lines
upto-tail_lines [] = refl
upto-tail_lines (x ∷ xs) = ap (upto 10) (newline-append (x <> tail_lines xs))

tail_lines_tell :
    (xs ys : List String)
    → ((l : String) → In l xs → IsLine l)
    → ((l : String) → In l ys → IsLine l)
    → tail_lines xs ≡ tail_lines ys
    → xs ≡ ys
unfolding tail_lines
tail_lines_tell [] [] mine other same = refl
tail_lines_tell [] (y ∷ ys) mine other same =
    absurd (cc (ap is_blank (same ∙ newline-append (y <> tail_lines ys))))
tail_lines_tell (x ∷ xs) [] mine other same =
    absurd (cc (ap is_blank (sym (newline-append (x <> tail_lines xs)) ∙ same)))
tail_lines_tell (x ∷ xs) (y ∷ ys) mine other same =
    let (first, rest) =
      upto_tells 10 x y (tail_lines xs) (tail_lines ys) (mine x (inl refl)).0 (other y (inl refl)).0
        (upto-tail_lines xs) (upto-tail_lines ys)
        (append_cancel_left "\n" (x <> tail_lines xs) (y <> tail_lines ys) same) in
    let more = tail_lines_tell xs ys (λ l i. mine l (inr i)) (λ l i. other l (inr i)) rest in
    ap (λ z. z ∷ xs) first ∙ ap (λ zs. y ∷ zs) more

is_blank-append : (a b : String) → is_blank a ≡ false → is_blank (a <> b) ≡ false
is_blank-append String.[] b h = cc
is_blank-append (String.◌∷◌ c a) b h = ap is_blank (cons-append c a b)

-- The joined lines tell the lines.
pub join_lines_tell :
    (xs ys : List String)
    → ((l : String) → In l xs → IsLine l)
    → ((l : String) → In l ys → IsLine l)
    → join_lines xs ≡ join_lines ys
    → xs ≡ ys
unfolding join_lines
join_lines_tell [] [] mine other same = refl
join_lines_tell [] (y ∷ ys) mine other same =
    absurd (cc (ap is_blank same, is_blank-append y (tail_lines ys) (other y (inl refl)).1))
join_lines_tell (x ∷ xs) [] mine other same =
    absurd (cc (ap is_blank same, is_blank-append x (tail_lines xs) (mine x (inl refl)).1))
join_lines_tell (x ∷ xs) (y ∷ ys) mine other same =
    let (first, rest) =
      upto_tells 10 x y (tail_lines xs) (tail_lines ys) (mine x (inl refl)).0 (other y (inl refl)).0
        (upto-tail_lines xs) (upto-tail_lines ys) same in
    let more = tail_lines_tell xs ys (λ l i. mine l (inr i)) (λ l i. other l (inr i)) rest in
    ap (λ z. z ∷ xs) first ∙ ap (λ zs. y ∷ zs) more

pub is_free-mark_text : (m : Bool) → is_free 10 (mark_text m) ≡ true
unfolding is_free
is_free-mark_text true = refl
is_free-mark_text false = refl

pub is_free-bar : is_free 10 "|" ≡ true
unfolding is_free
is_free-bar = refl
