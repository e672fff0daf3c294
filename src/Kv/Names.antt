-- ===== src/Kv/Names.antt =====
-- Keys of the three namespaces, and what the index entries leave of the rest.
use Prim.Native.String.{String, ◌++◌ as ◌<>◌}
use suprime.Base.{
  ℕ, ◌≡◌, refl, ap, ◌∙◌, Bool, true, false, Option, none, some, [], ◌∷◌, arith, if◌then◌else◌,
}
use suprime.Base.Key.{Eq, ◌==◌, string_eq}
use suprime.Base.Texts.{differ_early, apart_under}
use suprime.Base.Dict.{Dict}
use suprime.Store
use suprime.Store.{Store}
use suprime.Store.Reads.{read-set, read-delete}
use suprime.Kv.{
  Item, mark, KvStore, time_of, index_key, add_index_entry, drop_old, add_new, reindex,
}

pub time_of_if :
    {X : Type 0} (b : Bool) (x y : Option (Item X))
    → time_of (if b then x else y) ≡ (if b then time_of x else time_of y)
time_of_if true x y = refl
time_of_if false x y = refl

module _ {K V C : Type 0} ⦃e : Eq K⦄ where
  pub read_dead :
      (key : K) (s : Store K V C) (default : Option V)
      → Store.contains key s ≡ false
      → Store.read key default s ≡ default
  unfolding Store.contains Store.read
  read_dead key s default h = ground arith

module _ {X C E : Type 0} where
  -- The three namespaces of one base.
  pub record IsNamed (base : String) (d : KvStore X C E) : Type 0 where
    pub values : d.ns ≡ base <> "/"
    pub times : d.exp_ns ≡ base <> ".exp/"
    pub marks : d.idx_ns ≡ base <> ".idx/"

  -- The same names, and the same reads outside the index.
  abbrev pub KeepsReads : String → KvStore X C E → KvStore X C E → Type 0
  KeepsReads base d d' =
      IsNamed base d'
      × ((a j : String) (default : Option (Item X))
          → differ_early ".idx/" a ≡ true
          → Store.read ((base <> a) <> j) default d'.store
            ≡ Store.read ((base <> a) <> j) default d.store)

  pub renamed :
      (base : String) (d : KvStore X C E) (s : Store String (Item X) C)
      → IsNamed base d
      → IsNamed base (record d { store = s })
  renamed base d s h = record { values = h.values; times = h.times; marks = h.marks }

  pub index_apart :
      (base name value key a j : String) (d : KvStore X C E)
      → IsNamed base d
      → differ_early ".idx/" a ≡ true
      → (index_key name value key d == (base <> a) <> j) ≡ false
  unfolding index_key
  index_apart base name value key a j d h early =
      ap (λ p. p <> (name <> ("/" <> (value <> ("/" <> key)))) == (base <> a) <> j) h.marks
      ∙ apart_under base ".idx/" a (name <> ("/" <> (value <> ("/" <> key)))) j early

module _ {X C E : Type 0} (extract : E → Option (Item X) → String) where
  pub drop_old-KeepsReads :
      (now : ℕ) (base key name : String) (x : E) (old : Option (Item X)) (d : KvStore X C E)
      → IsNamed base d
      → KeepsReads base d (drop_old extract now key name x old d)
  drop_old-KeepsReads now base key name x none d h = (h, λ a j default early. refl)
  drop_old-KeepsReads now base key name x (some v) d h =
      let k = index_key name (extract x (some v)) key d in
      (
        renamed base d (Store.delete k now d.store).1 h,
        λ a j default early. ground (
          arith,
          (read-delete k ((base <> a) <> j) default now d.store).0,
          index_apart base name (extract x (some v)) key a j d h early,
        ),
      )

  pub add_new-KeepsReads :
      (now : ℕ) (base key name : String) (x : E) (value : Option (Item X)) (d : KvStore X C E)
      → IsNamed base d
      → KeepsReads base d (add_new extract now key name x value d)
  unfolding add_index_entry
  add_new-KeepsReads now base key name x none d h = (h, λ a j default early. refl)
  add_new-KeepsReads now base key name x (some v) d h =
      let k = index_key name (extract x (some v)) key d in
      (
        renamed base d (Store.set k (some mark) now d.store).1 h,
        λ a j default early. ground (
          arith,
          (read-set k ((base <> a) <> j) (some mark) default now d.store).0,
          index_apart base name (extract x (some v)) key a j d h early,
        ),
      )

  pub reindex-KeepsReads :
      (now : ℕ) (base key : String) (old value : Option (Item X)) (indexes : Dict String E)
      (d : KvStore X C E)
      → IsNamed base d
      → KeepsReads base d (reindex extract now key old value indexes d)
  unfolding reindex
  reindex-KeepsReads now base key old value [] d h = (h, λ a j default early. refl)
  reindex-KeepsReads now base key old value ((name, x) ∷ indexes) d h =
      let d1 = drop_old extract now key name x old d in
      let (h1, r1) = drop_old-KeepsReads now base key name x old d h in
      let d2 = add_new extract now key name x value d1 in
      let (h2, r2) = add_new-KeepsReads now base key name x value d1 h1 in
      let (h3, r3) = reindex-KeepsReads now base key old value indexes d2 h2 in
      (h3, λ a j default early. r3 a j default early ∙ r2 a j default early ∙ r1 a j default early)
