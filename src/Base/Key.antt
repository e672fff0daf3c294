-- ===== src/Base/Key.antt =====
-- What the program asks of Python's `str` keys and node ids: an equality, and for ids an order.
use Prim.Native.Nat.{ℕ}
use Prim.Native.Char.{code}
use Prim.Native.String.{String}
use mathlib.Core.Path.{◌≡◌, refl, ap₂}
use mathlib.Core.Logic.{◌↔◌}
use mathlib.Core.Bool.{Bool, true, false, ◌&&◌}
use mathlib.Core.List.{List, [], ◌∷◌}
use native.Mathlib.Omega.{arith}
use text.Mathlib.Text.{◌==◌ as str_eq}
use text.Mathlib.TextEquality.{eq_iff, Char-path}
use suprime.Base.Tests.{ltb, nat_beq, nat_beq_iff, if◌then◌else◌}

-- `__eq__`, read as the equality of the model.
pub record Eq {ℓ} (A : Type ℓ) : Type ℓ where
  pub beq : A → A → Bool
  pub beq_iff : (a b : A) → (beq a b ≡ true) ↔ (a ≡ b)

-- `__lt__` of a totally ordered type.
pub record Order {ℓ} (A : Type ℓ) : Type ℓ where
  pub less : A → A → Bool
  pub less_irrefl : (a : A) → less a a ≡ false
  pub less_trans : (a b c : A) → less a b ≡ true → less b c ≡ true → less a c ≡ true
  pub less_total : (a b : A) → less a b ≡ false → less b a ≡ false → a ≡ b

infix 50 ◌==◌ ◌≺◌
abbrev pub ◌==◌ {ℓ} : {A : Type ℓ} ⦃e : Eq A⦄ → A → A → Bool
◌==◌ ⦃e⦄ = e.beq

abbrev pub ◌≺◌ {ℓ} : {A : Type ℓ} ⦃o : Order A⦄ → A → A → Bool
◌≺◌ ⦃o⦄ = o.less

pub ==_refl {ℓ} : {A : Type ℓ} ⦃e : Eq A⦄ (a : A) → (a == a) ≡ true
==_refl ⦃e⦄ a = (e.beq_iff a a).1 refl

pub ltb_irrefl : (a : ℕ) → ltb a a ≡ false
ltb_irrefl a = ground arith

pub ltb_trans : (a b c : ℕ) → ltb a b ≡ true → ltb b c ≡ true → ltb a c ≡ true
ltb_trans a b c p q = ground arith

pub ltb_total : (a b : ℕ) → ltb a b ≡ false → ltb b a ≡ false → a ≡ b
ltb_total a b p q = ground arith

instance abbrev pub nat_eq : Eq ℕ
nat_eq = record { beq = nat_beq; beq_iff = nat_beq_iff }

instance abbrev pub nat_order : Order ℕ
nat_order = record {
  less = ltb;
  less_irrefl = ltb_irrefl;
  less_trans = ltb_trans;
  less_total = ltb_total;
}

instance abbrev pub string_eq : Eq String
string_eq = record { beq = str_eq; beq_iff = eq_iff }

-- `str.__lt__`: by code points, a proper prefix first.
abbrev pub str_less : String → String → Bool
str_less s String.[] = false
str_less String.[] (String.◌∷◌ d t) = true
str_less (String.◌∷◌ c s) (String.◌∷◌ d t) =
    let rest = str_less s t in if nat_beq (code c) (code d) then rest else ltb (code c) (code d)

pub str_less_irrefl : (s : String) → str_less s s ≡ false
str_less_irrefl String.[] = refl
str_less_irrefl (String.◌∷◌ c s) = ground (arith, str_less_irrefl s)

pub str_less_trans :
    (s t u : String) → str_less s t ≡ true → str_less t u ≡ true → str_less s u ≡ true
str_less_trans String.[] String.[] u p q = ground arith
str_less_trans String.[] (String.◌∷◌ d t) String.[] p q = ground arith
str_less_trans String.[] (String.◌∷◌ d t) (String.◌∷◌ e u) p q = refl
str_less_trans (String.◌∷◌ c s) String.[] u p q = ground arith
str_less_trans (String.◌∷◌ c s) (String.◌∷◌ d t) String.[] p q = ground arith
str_less_trans (String.◌∷◌ c s) (String.◌∷◌ d t) (String.◌∷◌ e u) p q =
    ground (arith, str_less_trans s t u)

pub str_less_total : (s t : String) → str_less s t ≡ false → str_less t s ≡ false → s ≡ t
str_less_total String.[] String.[] p q = refl
str_less_total String.[] (String.◌∷◌ d t) p q = ground arith
str_less_total (String.◌∷◌ c s) String.[] p q = ground arith
str_less_total (String.◌∷◌ c s) (String.◌∷◌ d t) p q =
    ap₂ String.◌∷◌ (Char-path c d (ground arith)) (str_less_total s t (ground arith) (ground arith))

instance abbrev pub string_order : Order String
string_order = record {
  less = str_less;
  less_irrefl = str_less_irrefl;
  less_trans = str_less_trans;
  less_total = str_less_total;
}

-- `""`, the id that the source gives to a peer rebuilt from a digest.
pub record Blank {ℓ} (A : Type ℓ) : Type ℓ where
  pub blank : A

instance abbrev pub string_blank : Blank String
string_blank = record { blank = "" }

-- Tuples compare part by part.
module _ {ℓ κ} {A : Type ℓ} {B : Type κ} ⦃a : Eq A⦄ ⦃b : Eq B⦄ where
  abbrev pub pair_beq : A × B → A × B → Bool
  pair_beq p q = p.0 == q.0 && p.1 == q.1

  pub pair_beq_iff : (p q : A × B) → (pair_beq p q ≡ true) ↔ (p ≡ q)
  pair_beq_iff p q = ground (arith, a.beq_iff p.0 q.0, b.beq_iff p.1 q.1)

  instance unfoldable pub pair_eq : Eq (A × B)
  pair_eq = record { beq = pair_beq; beq_iff = pair_beq_iff }

module _ {ℓ κ} {A : Type ℓ} {B : Type κ} ⦃a : Eq A⦄ ⦃o : Order A⦄ ⦃r : Order B⦄ where
  abbrev pub pair_less : A × B → A × B → Bool
  pair_less p q = if p.0 == q.0 then r.less p.1 q.1 else o.less p.0 q.0

  pub pair_less_irrefl : (p : A × B) → pair_less p p ≡ false
  pair_less_irrefl p = ground (arith, r.less_irrefl p.1, o.less_irrefl p.0)

  pub pair_less_trans :
      (p q s : A × B) → pair_less p q ≡ true → pair_less q s ≡ true → pair_less p s ≡ true
  pair_less_trans p q s h k = ground (
    arith,
    a.beq_iff p.0 q.0,
    a.beq_iff q.0 s.0,
    a.beq_iff p.0 s.0,
    o.less_irrefl p.0,
    o.less_trans p.0 q.0 s.0,
    r.less_trans p.1 q.1 s.1,
  )

  pub pair_less_total : (p q : A × B) → pair_less p q ≡ false → pair_less q p ≡ false → p ≡ q
  pair_less_total p q h k =
      ground
        (arith, a.beq_iff p.0 q.0, a.beq_iff q.0 p.0, o.less_total p.0 q.0, r.less_total p.1 q.1)

  instance unfoldable pub pair_order : Order (A × B)
  pair_order = record {
    less = pair_less;
    less_irrefl = pair_less_irrefl;
    less_trans = pair_less_trans;
    less_total = pair_less_total;
  }

-- Lists compare item by item.
module _ {ℓ} {A : Type ℓ} ⦃a : Eq A⦄ where
  abbrev pub list_beq : List A → List A → Bool
  list_beq [] [] = true
  list_beq [] (y ∷ ys) = false
  list_beq (x ∷ xs) [] = false
  list_beq (x ∷ xs) (y ∷ ys) = x == y && list_beq xs ys

  pub list_beq_iff : (xs ys : List A) → (list_beq xs ys ≡ true) ↔ (xs ≡ ys)
  list_beq_iff [] [] = ground arith
  list_beq_iff [] (y ∷ ys) = ground arith
  list_beq_iff (x ∷ xs) [] = ground arith
  list_beq_iff (x ∷ xs) (y ∷ ys) = ground (arith, a.beq_iff x y, list_beq_iff xs ys)

  instance unfoldable pub list_eq : Eq (List A)
  list_eq = record { beq = list_beq; beq_iff = list_beq_iff }
