-- ===== src/Tests/Repair.antt =====
-- A repair between nodes `a` and `b`, with four buckets, timestamps in unary and a fingerprint that
-- is the text itself.
use mathlib.Core.Path.{subst}
use Prim.Native.Char.{code}
use Prim.Native.String.{String}
use suprime.Base.{ℕ, zero, suc, ◌≡◌, refl, ap, inl, inr, false, some, [], ◌∷◌, arith}
use suprime.Base.Key.{string_eq, string_order, nat_eq}
use suprime.Base.Dict.{Dict, Distinct, get}
use suprime.Store.Entries.{Entry}
use suprime.AntiEntropy.{Hashing, AntiEntropy}
use suprime.AntiEntropy.Texts.{is_free, is_blank}
use suprime.AntiEntropy.Format.{IsPlain, IsFaithful, HasPlain, CollisionFree}
use suprime.AntiEntropy.Exchange.{AgreeOn}
use suprime.AntiEntropy.Converge.{exchange, exchange_converge}

abbrev first_code : String → ℕ
first_code String.[] = 0
first_code (String.◌∷◌ c s) = code c

abbrev unary : ℕ → String
unary zero = String.[]
unary (suc n) = String.◌∷◌ "i" (unary n)

abbrev rest : String → String
rest String.[] = String.[]
rest (String.◌∷◌ c s) = s

unary_tells : (n m : ℕ) → unary n ≡ unary m → n ≡ m
unary_tells zero zero h = refl
unary_tells zero (suc m) h = absurd (cc (ap is_blank h))
unary_tells (suc n) zero h = absurd (cc (ap is_blank h))
unary_tells (suc n) (suc m) h = ap suc (unary_tells n m (ap rest h))

unary-IsPlain : (n : ℕ) → IsPlain (unary n)
unfolding is_free
unary-IsPlain zero = (refl, refl)
unary-IsPlain (suc n) = unary-IsPlain n

abbrev hashing : Hashing String
hashing = record { key_hash = first_code; text_of = unary; fingerprint = λ text. text }

hashing-IsFaithful : IsFaithful hashing
hashing-IsFaithful = record { text_tells = unary_tells; text_plain = unary-IsPlain }

abbrev entry : ℕ → ℕ → String → Entry String ℕ
entry value ts origin = record {
  value = some value;
  version = record { ts = ts; origin = origin };
  deleted = false;
}

abbrev node : String → Dict String (Entry String ℕ) → AntiEntropy String ℕ ℕ String
node id entries = record {
  store = record {
    node_id = id;
    entries = entries;
    subscribers = [];
    commit_subs = [];
    highest_ts = 0;
    calls = [];
  };
  n_buckets = 4;
  entries_sent = 0;
  entries_received = 0;
  requests = [];
}

abbrev first : Dict String (Entry String ℕ)
first = ("x", entry 10 5 "a") ∷ ("y", entry 20 3 "a") ∷ []

abbrev second : Dict String (Entry String ℕ)
second = ("z", entry 60 4 "b") ∷ ("x", entry 11 7 "b") ∷ []

first-Distinct : Distinct first
unfolding get
first-Distinct = (refl, (refl, tt))

second-Distinct : Distinct second
unfolding get
second-Distinct = (refl, (refl, tt))

agree : AgreeOn first second
unfolding get
agree k x y p q ts origin = ground arith

abbrev PlainAt : String × Entry String ℕ → Type 0
PlainAt p = IsPlain p.0 × IsPlain p.1.version.origin

first-HasPlain : HasPlain first
unfolding is_free
first-HasPlain p (inl is) = subst PlainAt is ((refl, refl), (refl, refl))
first-HasPlain p (inr (inl is)) = subst PlainAt is ((refl, refl), (refl, refl))
first-HasPlain p (inr (inr none_there)) = absurd none_there

second-HasPlain : HasPlain second
unfolding is_free
second-HasPlain p (inl is) = subst PlainAt is ((refl, refl), (refl, refl))
second-HasPlain p (inr (inl is)) = subst PlainAt is ((refl, refl), (refl, refl))
second-HasPlain p (inr (inr none_there)) = absurd none_there

apart : CollisionFree hashing 4 second first
apart i xs ys p q same = same

exchange_converge_example :
    get "x" (exchange hashing "a" "b" (node "a" first) (node "b" second)).0.entries
    ≡ get "x" (exchange hashing "a" "b" (node "a" first) (node "b" second)).1.entries
exchange_converge_example =
    exchange_converge hashing "a" "b" (node "a" first) (node "b" second) "x" hashing-IsFaithful
      first-HasPlain second-HasPlain apart refl first-Distinct second-Distinct agree
