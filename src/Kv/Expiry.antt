-- ===== src/Kv/Expiry.antt =====
-- Values and their expiry: what a read finds after a write or a deletion.
use Prim.Native.String.{String, ◌++◌ as ◌<>◌}
use suprime.Base.{
  ℕ, ◌+◌, ◌≡◌, refl, sym, ap, ◌∙◌, inl, inr, true, false, Option, none, some, arith, if◌then◌else◌,
  Bool-cases,
}
use suprime.Base.Key.{◌==◌, string_eq}
use suprime.Base.Texts.{apart_under, beq-append}
use suprime.Store
use suprime.Store.{Store}
use suprime.Store.Reads.{read-set, read-delete}
use suprime.Kv.{
  Item, expiry_at, KvStore, time_of, has_passed, expiry, is_expired, set_at, delete_at, reindex,
  write_value, clear_expiry, set_expiry, with_expiry, put, delete, get,
}
use suprime.Kv.Names.{time_of_if, read_dead, IsNamed, renamed, reindex-KeepsReads}

module _ {X C E : Type 0} where
  -- What is stored under a key of the database, and the time at which it expires.
  abbrev pub value_at : String → String → Option (Item X) → KvStore X C E → Option (Item X)
  value_at base j default d = Store.read ((base <> "/") <> j) default d.store

  abbrev pub time_at : String → String → KvStore X C E → Option ℕ
  time_at base j d = time_of (Store.read ((base <> ".exp/") <> j) none d.store)

  set_value :
      (now : ℕ) (base key j : String) (value default : Option (Item X)) (d : KvStore X C E)
      → IsNamed base d
      → (value_at base j default (set_at now (d.ns <> key) value d)
          ≡ (if key == j then value else value_at base j default d))
        × (time_at base j (set_at now (d.ns <> key) value d) ≡ time_at base j d)
  set_value now base key j value default d h =
      let k = d.ns <> key in
      let own : (k == (base <> "/") <> j) ≡ (key == j) =
        ap (λ p. p <> key == (base <> "/") <> j) h.values ∙ beq-append (base <> "/") key j in
      let other : (k == (base <> ".exp/") <> j) ≡ false =
        ap (λ p. p <> key == (base <> ".exp/") <> j) h.values
        ∙ apart_under base "/" ".exp/" key j refl in
      (
        ground (arith, (read-set k ((base <> "/") <> j) value default now d.store).0, own),
        ap time_of
            (ground (arith, (read-set k ((base <> ".exp/") <> j) value none now d.store).0, other)),
      )

  delete_value :
      (now : ℕ) (base key j : String) (default : Option (Item X)) (d : KvStore X C E)
      → IsNamed base d
      → (value_at base j default (delete_at now (d.ns <> key) d)
          ≡ (if key == j then default else value_at base j default d))
        × (time_at base j (delete_at now (d.ns <> key) d) ≡ time_at base j d)
  delete_value now base key j default d h =
      let k = d.ns <> key in
      let own : (k == (base <> "/") <> j) ≡ (key == j) =
        ap (λ p. p <> key == (base <> "/") <> j) h.values ∙ beq-append (base <> "/") key j in
      let other : (k == (base <> ".exp/") <> j) ≡ false =
        ap (λ p. p <> key == (base <> ".exp/") <> j) h.values
        ∙ apart_under base "/" ".exp/" key j refl in
      (
        ground (arith, (read-delete k ((base <> "/") <> j) default now d.store).0, own),
        ap time_of
            (ground (arith, (read-delete k ((base <> ".exp/") <> j) none now d.store).0, other)),
      )

  set_time :
      (now span : ℕ) (base key j : String) (default : Option (Item X)) (d : KvStore X C E)
      → IsNamed base d
      → (value_at base j default (set_expiry now key span d) ≡ value_at base j default d)
        × (time_at base j (set_expiry now key span d)
            ≡ (if key == j then some (now + span) else time_at base j d))
  set_time now span base key j default d h =
      let k = d.exp_ns <> key in
      let own : (k == (base <> ".exp/") <> j) ≡ (key == j) =
        ap (λ p. p <> key == (base <> ".exp/") <> j) h.times ∙ beq-append (base <> ".exp/") key j in
      let other : (k == (base <> "/") <> j) ≡ false =
        ap (λ p. p <> key == (base <> "/") <> j) h.times
        ∙ apart_under base ".exp/" "/" key j refl in
      let at =
        (read-set k ((base <> ".exp/") <> j) (some (expiry_at (now + span))) none now d.store).0 in
      (
        ground (
          arith,
          (read-set k ((base <> "/") <> j) (some (expiry_at (now + span))) default now d.store).0,
          other,
        ),
        ap time_of at
            ∙ time_of_if (k == (base <> ".exp/") <> j) (some (expiry_at (now + span)))
                (Store.read ((base <> ".exp/") <> j) none d.store)
            ∙ ap (λ b. if b then some (now + span) else time_at base j d) own,
      )

  clear_time :
      (now : ℕ) (base key j : String) (default : Option (Item X)) (d : KvStore X C E)
      → IsNamed base d
      → (value_at base j default (clear_expiry now key d) ≡ value_at base j default d)
        × (time_at base j (clear_expiry now key d) ≡ (if key == j then none else time_at base j d))
  clear_time now base key j default d h =
      let k = d.exp_ns <> key in
      let own : (k == (base <> ".exp/") <> j) ≡ (key == j) =
        ap (λ p. p <> key == (base <> ".exp/") <> j) h.times ∙ beq-append (base <> ".exp/") key j in
      let other : (k == (base <> "/") <> j) ≡ false =
        ap (λ p. p <> key == (base <> "/") <> j) h.times
        ∙ apart_under base ".exp/" "/" key j refl in
      let at = (read-delete k ((base <> ".exp/") <> j) none now d.store).0 in
      let at' = (read-delete k ((base <> "/") <> j) default now d.store).0 in
      elim (Bool-cases (Store.contains k d.store)) [
        | inl there ↦ rw there (
          at' ∙ rw other refl,
          ap time_of at
              ∙ time_of_if (k == (base <> ".exp/") <> j) none
                  (Store.read ((base <> ".exp/") <> j) none d.store)
              ∙ ap (λ b. if b then none else time_at base j d) own,
        )
        | inr gone ↦ rw gone (
          refl,
          elim (Bool-cases (key == j)) [
            | inl same ↦
                let is : k ≡ (base <> ".exp/") <> j =
                  (string_eq.beq_iff k ((base <> ".exp/") <> j)).0 (own ∙ same) in
                rw same (
                  ap time_of
                    (ap (λ i. Store.read i none d.store) (sym is) ∙ read_dead k d.store none gone))
            | inr differ ↦ rw differ refl
          ],
        )
      ]

-- The time at which a write with this span expires.
abbrev pub expires : ℕ → Option ℕ → Option ℕ
expires now none = none
expires now (some span) = some (now + span)

module _ {X C E : Type 0} (extract : E → Option (Item X) → String) where
  -- The value's write leaves its expiry as it was.
  pub write_value_lem :
      (now : ℕ) (base key j : String) (value default : Option (Item X)) (d : KvStore X C E)
      → IsNamed base d
      → let d' = write_value extract now key value d in
        IsNamed base d'
        × (value_at base j default d' ≡ (if key == j then value else value_at base j default d))
        × (time_at base j d' ≡ time_at base j d)
  unfolding write_value
  write_value_lem now base key j value default d h =
      let old = Store.read (d.ns <> key) none d.store in
      let d1 = reindex extract now key old value d.indexes d in
      let (h1, same) = reindex-KeepsReads extract now base key old value d.indexes d h in
      let named : set_at now (d.ns <> key) value d1 ≡ set_at now (d1.ns <> key) value d1 =
        ap (λ n. set_at now (n <> key) value d1) (h.values ∙ sym h1.values) in
      let wrote = set_value now base key j value default d1 h1 in
      (
        renamed base d1 (Store.set (d.ns <> key) value now d1.store).1 h1,
        ap (value_at base j default) named
            ∙ wrote.0
            ∙ ap (λ v. if key == j then value else v) (same "/" j default refl),
        ap (time_at base j) named ∙ wrote.1 ∙ ap time_of (same ".exp/" j none refl),
      )

  with_expiry_lem :
      (now : ℕ) (base key j : String) (default : Option (Item X)) (span : Option ℕ)
      (d : KvStore X C E)
      → IsNamed base d
      → (value_at base j default (with_expiry now key span d) ≡ value_at base j default d)
        × (time_at base j (with_expiry now key span d)
            ≡ (if key == j then expires now span else time_at base j d))
  with_expiry_lem now base key j default none d h = clear_time now base key j default d h
  with_expiry_lem now base key j default (some span) d h = set_time now span base key j default d h

  -- What a read finds.
  pub get_lem :
      (later : ℕ) (base j : String) (default : Option (Item X)) (d : KvStore X C E)
      → IsNamed base d
      → (get extract later j default d).0
        ≡ (if has_passed later (time_at base j d) then default else value_at base j default d)
  unfolding get is_expired expiry
  get_lem later base j default d h =
      let times : time_of (Store.read (d.exp_ns <> j) none d.store) ≡ time_at base j d =
        ap (λ n. time_of (Store.read (n <> j) none d.store)) h.times in
      let values : Store.read (d.ns <> j) default d.store ≡ value_at base j default d =
        ap (λ n. Store.read (n <> j) default d.store) h.values in
      elim (Bool-cases (has_passed later (time_at base j d))) [
        | inl gone ↦
            let gone' : has_passed later (time_of (Store.read (d.exp_ns <> j) none d.store))
                ≡ true =
              ap (has_passed later) times ∙ gone in
            rw (gone, gone') refl
        | inr fresh ↦
            let fresh' : has_passed later (time_of (Store.read (d.exp_ns <> j) none d.store))
                ≡ false =
              ap (has_passed later) times ∙ fresh in
            rw (fresh, fresh') values
      ]

  IsNamed-with_expiry :
      (now : ℕ) (base key : String) (span : Option ℕ) (d : KvStore X C E)
      → IsNamed base d
      → IsNamed base (with_expiry now key span d)
  IsNamed-with_expiry now base key (some span) d h =
      renamed base d (set_expiry now key span d).store h
  IsNamed-with_expiry now base key none d h =
      elim (Bool-cases (Store.contains (d.exp_ns <> key) d.store)) [
        | inl there ↦ rw there (renamed base d (Store.delete (d.exp_ns <> key) now d.store).1 h)
        | inr gone ↦ rw gone h
      ]

  -- In a database whose three namespaces have one base, a read after a write finds the value
  -- written until the write's span has passed and the default from then on; without a span the
  -- value has no expiry; every other key is read as before.
  pub get-put :
      (now later : ℕ) (base key j : String) (value default : Option (Item X)) (span : Option ℕ)
      (d : KvStore X C E)
      → IsNamed base d
      → (get extract later j default (put extract now key value span d)).0 ≡ (
          if has_passed later (if key == j then expires now span else time_at base j d)
          then default
          else if key == j
          then value
          else value_at base j default d)
  unfolding put
  get-put now later base key j value default span d h =
      let d1 = write_value extract now key value d in
      let (h1, v1, t1) = write_value_lem now base key j value default d h in
      let (v2, t2) = with_expiry_lem now base key j default span d1 h1 in
      get_lem later base j default (with_expiry now key span d1)
        (IsNamed-with_expiry now base key span d1 h1)
      ∙ ap
          (λ t.
            if has_passed later t
            then default
            else value_at base j default (with_expiry now key span d1))
          (t2 ∙ ap (λ t. if key == j then expires now span else t) t1)
      ∙ ap
          (λ v.
            if has_passed later (if key == j then expires now span else time_at base j d)
            then default
            else v)
          (v2 ∙ v1)

  -- After a deletion its key reads as the default and every other key as before.
  pub get-delete :
      (now later : ℕ) (base key j : String) (default : Option (Item X)) (d : KvStore X C E)
      → IsNamed base d
      → (get extract later j default (delete extract now key d)).0
        ≡ (if key == j then default else (get extract later j default d).0)
  unfolding delete
  get-delete now later base key j default d h =
      let old = Store.read (d.ns <> key) none d.store in
      let d1 = reindex extract now key old none d.indexes d in
      let (h1, same) = reindex-KeepsReads extract now base key old none d.indexes d h in
      let d2 = delete_at now (d.ns <> key) d1 in
      let named : d2 ≡ delete_at now (d1.ns <> key) d1 =
        ap (λ n. delete_at now (n <> key) d1) (h.values ∙ sym h1.values) in
      let h2 = renamed base d1 (Store.delete (d.ns <> key) now d1.store).1 h1 in
      let gone = delete_value now base key j default d1 h1 in
      let cleared = clear_time now base key j default d2 h2 in
      let values : value_at base j default (clear_expiry now key d2)
          ≡ (if key == j then default else value_at base j default d) =
        cleared.0
        ∙ ap (value_at base j default) named
        ∙ gone.0
        ∙ ap (λ v. if key == j then default else v) (same "/" j default refl) in
      let times : time_at base j (clear_expiry now key d2)
          ≡ (if key == j then none else time_at base j d) =
        cleared.1
        ∙ ap (λ t. if key == j then none else t)
            (ap (time_at base j) named ∙ gone.1 ∙ ap time_of (same ".exp/" j none refl)) in
      let found =
        get_lem later base j default (clear_expiry now key d2)
          (IsNamed-with_expiry now base key none d2 h2) in
      elim (Bool-cases (key == j)) [
        | inl own ↦ ground (arith, found, values, times, own)
        | inr other ↦ rw other (
            found
            ∙ ap
                (λ t.
                  if has_passed later t
                  then default
                  else value_at base j default (clear_expiry now key d2))
                (times ∙ rw other refl)
            ∙ ap (λ v. if has_passed later (time_at base j d) then default else v)
                (values ∙ rw other refl)
            ∙ sym (get_lem later base j default d h))
      ]
