-- ===== src/Kv/Repair.antt =====
-- What a quorum read returns and repairs, and what a quorum write leaves of an expiry.
use Prim.Native.String.{String, ◌++◌ as ◌<>◌}
use mathlib.Core.Path.{subst}
use suprime.Base.{
  ℕ, ◌-◌, nat_beq, ◌≡◌, refl, sym, ap, ◌∙◌, ◌⊎◌, inl, inr, true, false, Option, none, some, List,
  [], ◌∷◌, arith, if◌then◌else◌, Bool-cases, Option-cases,
}
use suprime.Base.Key.{==_refl, string_eq, string_order}
use suprime.Base.Lists.{In}
use suprime.Base.Result.{Error, Result, ok, raise}
use suprime.Base.Dict.{get as get_key, get-put}
use suprime.Version.{Version, gt, gt_irrefl, gt_trans, gt_chain, gt_total}
use suprime.Version.Newest.{newer}
use suprime.Store.Entries.{Entry}
use suprime.Store
use suprime.Store.{Store}
use suprime.Store.Wire.{Sent, to_dict, from_dict}
use suprime.Kv.{Item, get, write_value, has_passed}
use suprime.Kv.Expiry.{value_at, time_at, write_value_lem, get_lem}
use suprime.Kv.Names.{IsNamed}
use suprime.Kv.Quorum.{
  Replica, Collected, entry_sent, is_nobody, write_here, quorum_put, newer_of, pick_best, repaired,
  finish_get,
}

read_cases :
    {B : Type 0} (r : Result B) → ((b : B) × (r ≡ ok b)) ⊎ ((err : Error) × (r ≡ raise err))
read_cases (ok b) = inl (b, refl)
read_cases (raise err) = inr (err, refl)

gt_flip : (u v : Version String) → gt u v ≡ true → gt v u ≡ false
gt_flip u v h = elim (Bool-cases (gt v u)) [
  | inl back ↦ cc (gt_trans u v u h back, gt_irrefl u)
  | inr fine ↦ fine
]

module _ {X : Type 0} where
  newer_of_kept :
      (x a best : Entry String (Item X)) (b : Option (Entry String (Item X)))
      → newer_of (some x) a ≡ b
      → ((y : Entry String (Item X)) → b ≡ some y → gt y.version best.version ≡ false)
      → (gt x.version best.version ≡ false) × (gt a.version best.version ≡ false)
  newer_of_kept x a best b is least = elim (Bool-cases (gt a.version x.version)) [
    | inl more ↦
        let fine = least a (sym is ∙ rw more refl) in
        (gt_chain x.version a.version best.version (gt_flip a.version x.version more) fine, fine)
    | inr less ↦
        let fine = least x (sym is ∙ rw less refl) in
        (fine, gt_chain a.version x.version best.version less fine)
  ]

  pick_best-some :
      (best : Option (Entry String (Item X))) (peer : String) (sent : Sent String (Item X))
      (a : Entry String (Item X)) (cs : Collected X)
      → from_dict sent ≡ ok a
      → pick_best best ((peer, some sent) ∷ cs) ≡ pick_best (newer_of best a) cs
  unfolding pick_best
  pick_best-some best peer sent a cs is = rw is refl

  pick_best_bad :
      (best : Option (Entry String (Item X))) (peer : String) (sent : Sent String (Item X))
      (cs : Collected X) (found : Option (Entry String (Item X)))
      → pick_best best ((peer, some sent) ∷ cs) ≡ ok found
      → (a : Entry String (Item X)) × (from_dict sent ≡ ok a)
  unfolding pick_best
  pick_best_bad best peer sent cs found h = elim (read_cases (from_dict sent)) [
    | inl (a, is) ↦ (a, is)
    | inr (err, is) ↦ cc (h, is)
  ]

  -- Nothing collected is newer than what is picked.
  abbrev IsLeast : Entry String (Item X) → Option (Entry String (Item X)) → Collected X → Type 0
  IsLeast best b cs =
      ((x : Entry String (Item X)) → b ≡ some x → gt x.version best.version ≡ false)
      × ((peer : String) (sent : Sent String (Item X)) (a : Entry String (Item X))
          → In (peer, some sent) cs
          → from_dict sent ≡ ok a
          → gt a.version best.version ≡ false)

  -- The entry just compared is no newer than the pick either.
  newest_in :
      (b : Option (Entry String (Item X))) (first best : Entry String (Item X))
      → ((y : Entry String (Item X))
          → newer_of b first ≡ some y
          → gt y.version best.version ≡ false)
      → gt first.version best.version ≡ false
  newest_in none first best own = own first refl
  newest_in (some x) first best own =
      (newer_of_kept x first best (newer_of (some x) first) refl own).1

  abbrev version_in :
      Entry String (Item X) → Result (Option (Entry String (Item X))) → Version String
  version_in x (ok (some e)) = e.version
  version_in x (ok none) = x.version
  version_in x (raise err) = x.version

  pick_best-IsLeast :
      (cs : Collected X) (b : Option (Entry String (Item X))) (best : Entry String (Item X))
      → pick_best b cs ≡ ok (some best)
      → IsLeast best b cs
  unfolding pick_best
  pick_best-IsLeast [] b best h = (
    λ x is.
        (let same : ok (some x) ≡ ok (some best) = ap ok (sym is) ∙ h in
          ap (λ r. gt x.version (version_in x r)) (sym same) ∙ gt_irrefl x.version),
    λ peer sent a there read. absurd there,
  )
  pick_best-IsLeast ((peer, none) ∷ cs) b best h =
      let (own, rest) = pick_best-IsLeast cs b best h in
      (
        own,
        λ p sent a there read. elim there [ inl here ↦ cc | inr later ↦ rest p sent a later read ],
      )
  pick_best-IsLeast ((peer, some s) ∷ cs) b best h =
      let (first, is) = pick_best_bad b peer s cs (some best) h in
      let (own, rest) =
        pick_best-IsLeast cs (newer_of b first) best
          (sym (pick_best-some b peer s first cs is) ∙ h) in
      (
        λ x at.
            (newer_of_kept x first best (newer_of b first) (ap (λ c. newer_of c first) (sym at))
              own).0,
        λ p sent a there read. elim there [
          | inl here ↦
              let same : first ≡ a = ground (arith, here, is, read) in
              ap (λ e. gt e.version best.version) (sym same) ∙ newest_in b first best own
          | inr later ↦ rest p sent a later read
        ],
      )

module _ {X C : Type 0} where
  -- A replica that holds nothing newer than an entry has its version once it is merged.
  merged_version :
      (key : String) (best : Entry String (Item X)) (s : Store String (Item X) C)
      → ((x : Entry String (Item X))
          → get_key key s.entries ≡ some x
          → gt x.version best.version ≡ false)
      → (e : Entry String (Item X)) × (get_key key (Store.merge_entry key best s).0.entries
          ≡ some e)
        × (e.version ≡ best.version)
  unfolding Store.merge_entry newer Store.observe Store.commit Store.notify Store.emit_commit
  merged_version key best s least = elim (Option-cases (get_key key s.entries)) [
    | inl absent ↦ (best, ground (arith, absent, get-put key key best s.entries, ==_refl key), refl)
    | inr (x, at) ↦ elim (Bool-cases (gt best.version x.version)) [
      | inl more ↦
          (best, ground (arith, at, more, get-put key key best s.entries, ==_refl key), refl)
      | inr less ↦ (x, ground (arith, at, less), gt_total x.version best.version (least x at) less)
    ]
  ]

from_dict-to_dict : {X : Type 0} (a : Entry String (Item X)) → from_dict (to_dict a) ≡ ok a
unfolding from_dict to_dict
from_dict-to_dict a = refl

module _ {X C E : Type 0} where
  -- A quorum read whose pick is an entry, of what was collected with the own replica's entry among
  -- it, returns that entry's value, or nothing for a tombstone; nothing collected is newer; and
  -- afterwards the own replica holds an entry of that version.
  pub finish_get-newest :
      (key peer : String) (collected : Collected X) (a best : Entry String (Item X))
      (r : Replica X C E)
      → pick_best none collected ≡ ok (some best)
      → In (r.node_id, entry_sent (Store.entry (r.db.ns <> key) r.db.store)) collected
      → In (peer, some (to_dict a)) collected
      → ((finish_get key collected r).1 ≡ ok (if best.deleted then none else best.value))
        × (gt a.version best.version ≡ false)
        × ((e : Entry String (Item X)) × (get_key
                (r.db.ns <> key)
                (finish_get key collected r).0.db.store.entries
              ≡ some e)
            × (e.version ≡ best.version))
  unfolding finish_get Store.entry
  finish_get-newest key peer collected a best r picked own there =
      let full = r.db.ns <> key in
      let least = (pick_best-IsLeast collected none best picked).1 in
      let is : finish_get key collected r ≡ repaired full (ok (some best)) r =
        ap (λ p. repaired full p r) picked in
      (
        ap (λ p. p.1) is,
        least peer (to_dict a) a there (from_dict-to_dict a),
        subst
            (λ p.
              (e : Entry String (Item X)) × (get_key full p.0.db.store.entries ≡ some e)
              × (e.version ≡ best.version))
            (sym is)
            (merged_version full best r.db.store (λ x at.
              least r.node_id (to_dict x) x
                (subst (λ o. In (r.node_id, entry_sent o) collected) at own)
                (from_dict-to_dict x))),
      )

module _ {X C E : Type 0} (extract : E → Option (Item X) → String) where
  db-quorum_put :
      (now w : ℕ) (key req_id : String) (value : Option (Item X)) (peers : List String)
      (r : Replica X C E)
      → (quorum_put extract now key value w none req_id peers r).0.db
        ≡ write_value extract now key value r.db
  unfolding quorum_put write_here write_value
  db-quorum_put now w key req_id value peers r = elim (Bool-cases (nat_beq (w - 1) 0)) [
    | inl alone ↦ rw alone refl
    | inr more ↦ elim (Bool-cases (is_nobody peers)) [
      | inl nobody ↦ rw (more, nobody) refl
      | inr some_there ↦ rw (more, some_there) refl
    ]
  ]

  -- In a database whose three namespaces have one base, after a quorum write without a span its
  -- key is read as the value only until the expiry that the key had before the write.
  pub get-quorum_put :
      (now later w : ℕ) (base key req_id : String) (value default : Option (Item X))
      (peers : List String) (r : Replica X C E)
      → IsNamed base r.db
      → (get extract later key default
          (quorum_put extract now key value w none req_id peers r).0.db).0
        ≡ (if has_passed later (time_at base key r.db) then default else value)
  get-quorum_put now later w base key req_id value default peers r h =
      let d' = write_value extract now key value r.db in
      let (named, values, times) = write_value_lem extract now base key key value default r.db h in
      ap (λ d. (get extract later key default d).0) (db-quorum_put now w key req_id value peers r)
      ∙ get_lem extract later base key default d' named
      ∙ ap (λ t. if has_passed later t then default else value_at base key default d') times
      ∙ ap (λ v. if has_passed later (time_at base key r.db) then default else v)
          (values ∙ ap (λ b. if b then value else value_at base key default r.db) (==_refl key))
