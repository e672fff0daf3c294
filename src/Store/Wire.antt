-- ===== src/Store/Wire.antt =====
-- `Entry.to_dict` and `from_dict`, `digest` and `apply_digest`: the store as it is sent. An entry
-- that is sent is an object any of whose fields may be missing; a field of another type than the
-- sender writes is not modelled.
use suprime.Base.{
  ◌⊎◌, ◌++◌, ℕ, ◌≡◌, refl, Bool, true, false, Option, none, some, [], ◌∷◌, arith, if◌then◌else◌,
}
use suprime.Base.Key.{Eq, Order}
use suprime.Base.Result.{Result, ok, raise, key_error, ◌>>=◌}
use suprime.Base.Dict.{Dict}
use suprime.Store.Entries.{Entry}
use suprime.Store.{Store, merge, merge_from, merge_entry}

pub record Sent (K V : Type 0) : Type 0 where
  pub value : Option (Option V)
  pub ts : Option ℕ
  pub origin : Option K
  pub deleted : Option Bool

-- `data[name]`
abbrev required {ℓ} : {A : Type ℓ} → Option A → Result A
required none = raise key_error
required (some a) = ok a

-- `data.get(name, default)`
abbrev or_default {ℓ} : {A : Type ℓ} → A → Option A → A
or_default default none = default
or_default default (some a) = a

unfoldable pub to_dict : {K V : Type 0} → Entry K V → Sent K V
to_dict a = record {
  value = some a.value;
  ts = some a.version.ts;
  origin = some a.version.origin;
  deleted = some a.deleted;
}

unfoldable pub from_dict : {K V : Type 0} → Sent K V → Result (Entry K V)
from_dict sent = required sent.ts >>= λ ts. required sent.origin >>= λ origin. ok (record {
  value = or_default none sent.value;
  version = record { ts = ts; origin = origin };
  deleted = or_default false sent.deleted;
})

unfoldable pub digest_of : {K V : Type 0} → Dict K (Entry K V) → Dict K (Sent K V)
unfolding to_dict
digest_of [] = []
digest_of ((k, a) ∷ d) = (k, to_dict a) ∷ digest_of d

unfoldable pub digest : {K V C : Type 0} → Store K V C → Dict K (Sent K V)
unfolding digest_of
digest s = digest_of s.entries

module _ {K V C : Type 0} ⦃e : Eq K⦄ ⦃o : Order K⦄ where
  abbrev apply_entry : Store K V C × Bool → K → Result (Entry K V) → Store K V C × Bool
  apply_entry s k (raise err) = s
  apply_entry (s, changed) k (ok a) =
      let (s', now_changed) = merge_entry k a s in (s', if now_changed then true else changed)

  -- The entries are read and merged one at a time, so those before a bad one are merged when it
  -- raises.
  unfoldable pub apply_from : Store K V C × Bool → Dict K (Sent K V) → Store K V C × Result Bool
  unfolding from_dict
  apply_from (s, changed) [] = (s, ok changed)
  apply_from s ((k, sent) ∷ d) =
      let rest = apply_from (apply_entry s k (from_dict sent)) d in
      elim (from_dict sent) [ raise err ↦ (s.0, raise err) | ok a ↦ rest ]

  unfoldable pub apply_digest : Dict K (Sent K V) → Store K V C → Store K V C × Result Bool
  unfolding apply_from
  apply_digest d s = apply_from (s, false) d

pub from_dict-to_dict : {K V : Type 0} (a : Entry K V) → from_dict (to_dict a) ≡ ok a
unfolding from_dict to_dict
from_dict-to_dict a = refl

bad_raises :
    {K V : Type 0} (bad : Sent K V)
    → (bad.ts ≡ none) ⊎ (bad.origin ≡ none)
    → from_dict bad ≡ raise key_error
unfolding from_dict
bad_raises bad h = ground arith

module _ {K V C : Type 0} ⦃e : Eq K⦄ ⦃o : Order K⦄ where
  apply_from-digest_of :
      (d : Dict K (Entry K V)) (s : Store K V C) (c : Bool)
      → apply_from (s, c) (digest_of d) ≡ ((merge_from (s, c) d).0, ok (merge_from (s, c) d).1)
  unfolding apply_from digest_of merge_from to_dict from_dict
  apply_from-digest_of [] s c = refl
  apply_from-digest_of ((k, a) ∷ d) s c =
      apply_from-digest_of d (merge_entry k a s).0 (if (merge_entry k a s).1 then true else c)

  -- Entries that are sent arrive as they were.
  pub apply_digest-digest_of :
      (d : Dict K (Entry K V)) (s : Store K V C)
      → apply_digest (digest_of d) s ≡ ((merge d s).0, ok (merge d s).1)
  unfolding apply_digest merge
  apply_digest-digest_of d s = apply_from-digest_of d s false

  -- A store that applies a peer's digest ends as one that merges the peer's entries, and does not
  -- raise.
  pub apply_digest-merge :
      (s t : Store K V C)
      → apply_digest (digest t) s ≡ ((merge t.entries s).0, ok (merge t.entries s).1)
  unfolding apply_digest digest merge
  apply_digest-merge s t = apply_from-digest_of t.entries s false

  apply_from_bad :
      (d : Dict K (Entry K V)) (k : K) (bad : Sent K V) (rest : Dict K (Sent K V)) (s : Store K V C)
      (c : Bool)
      → from_dict bad ≡ raise key_error
      → apply_from (s, c) (digest_of d ++ (k, bad) ∷ rest)
        ≡ ((merge_from (s, c) d).0, raise key_error)
  unfolding apply_from digest_of merge_from to_dict
  apply_from_bad [] k bad rest s c h = ground (arith, h)
  apply_from_bad ((j, a) ∷ d) k bad rest s c h =
      apply_from_bad d k bad rest (merge_entry j a s).0 (if (merge_entry j a s).1 then true else c)
        h

  -- An entry without a timestamp or an origin raises `KeyError`, and what stood before it in the
  -- digest stays merged.
  pub apply_digest_bad :
      (d : Dict K (Entry K V)) (k : K) (bad : Sent K V) (rest : Dict K (Sent K V)) (s : Store K V C)
      → (bad.ts ≡ none) ⊎ (bad.origin ≡ none)
      → apply_digest (digest_of d ++ (k, bad) ∷ rest) s ≡ ((merge d s).0, raise key_error)
  unfolding apply_digest merge
  apply_digest_bad d k bad rest s h = apply_from_bad d k bad rest s false (bad_raises bad h)
