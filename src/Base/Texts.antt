-- ===== src/Base/Texts.antt =====
-- Texts: the rest after a prefix, and prefixes that no text can share.
use Prim.Native.Char.{Char, code}
use Prim.Native.String.{String, ◌++◌ as ◌<>◌}
use mathlib.Core.Path.{◌≡◌, sym, ap, ◌∙◌}
use mathlib.Core.Bool.{Bool, true, false, ◌&&◌}
use mathlib.Core.Logic.{◌≢◌}
use mathlib.Core.Option.{Option, none, some}
use native.Mathlib.Omega.{arith}
use text.Mathlib.TextLemmas.{append_assoc, append_cancel_left, nil-append, cons-append}
use suprime.Base.Key.{◌==◌, string_eq}
use suprime.Base.Tests.{if◌then◌else◌, nat_beq}

-- `k[len(p):]` of a text that starts with `p`.
unfoldable pub rest_of : String → String → Option String
rest_of String.[] k = some k
rest_of (String.◌∷◌ c p) String.[] = none
rest_of (String.◌∷◌ c p) (String.◌∷◌ d k) =
    let rest = rest_of p k in if nat_beq (code c) (code d) then rest else none

-- `text.rstrip("/")`
abbrev is_blank : String → Bool
is_blank String.[] = true
is_blank (String.◌∷◌ c s) = false

unfoldable pub rstrip_slash : String → String
rstrip_slash String.[] = String.[]
rstrip_slash (String.◌∷◌ c s) =
    let rest = rstrip_slash s in
    if nat_beq (code c) 47 && is_blank rest then String.[] else String.◌∷◌ c rest

rest_of_same : (c : Char) (p k : String) → rest_of (String.◌∷◌ c p) (String.◌∷◌ c k) ≡ rest_of p k
unfolding rest_of
rest_of_same c p k = ground arith

pub rest_of-append : (p k : String) → rest_of p (p <> k) ≡ some k
unfolding rest_of
rest_of-append String.[] k = ap some (nil-append k)
rest_of-append (String.◌∷◌ c p) k =
    ap (rest_of (String.◌∷◌ c p)) (cons-append c p k)
    ∙ rest_of_same c p (p <> k)
    ∙ rest_of-append p k

-- Both have a letter at some place where the two differ.
abbrev pub differ_early : String → String → Bool
differ_early String.[] b = false
differ_early (String.◌∷◌ c a) String.[] = false
differ_early (String.◌∷◌ c a) (String.◌∷◌ d b) =
    let rest = differ_early a b in if nat_beq (code c) (code d) then rest else true

rest_of_other : (a b j : String) → differ_early a b ≡ true → rest_of a (b <> j) ≡ none
unfolding rest_of
rest_of_other String.[] b j h = cc
rest_of_other (String.◌∷◌ c a) String.[] j h = cc
rest_of_other (String.◌∷◌ c a) (String.◌∷◌ d b) j h =
    ap (rest_of (String.◌∷◌ c a)) (cons-append d b j) ∙ ground (arith, h, rest_of_other a b j)

apart : (a b k j : String) → differ_early a b ≡ true → a <> k ≢ b <> j
apart a b k j h same = cc (sym (rest_of-append a k) ∙ ap (rest_of a) same ∙ rest_of_other a b j h)

-- Under one base, prefixes that differ early have no key in common.
pub apart_under :
    (base a b k j : String)
    → differ_early a b ≡ true
    → ((base <> a) <> k == (base <> b) <> j) ≡ false
apart_under base a b k j h =
    let differ : (base <> a) <> k ≢ (base <> b) <> j = λ same. apart a b k j h (
      append_cancel_left base (a <> k) (b <> j)
        (sym (append_assoc base a k) ∙ same ∙ append_assoc base b j)) in
    ground (arith, string_eq.beq_iff ((base <> a) <> k) ((base <> b) <> j), differ)

-- Under one prefix, equal keys have equal rests.
pub beq-append : (p k j : String) → (p <> k == p <> j) ≡ (k == j)
beq-append p k j =
    ground
      (arith, string_eq.beq_iff (p <> k) (p <> j), string_eq.beq_iff k j, append_cancel_left p k j)
