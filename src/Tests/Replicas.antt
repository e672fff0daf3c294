-- ===== src/Tests/Replicas.antt =====
-- Maps, sets and registers of nodes 1 and 2.
use mathlib.Core.Path.{subst}
use suprime.Base.{ℕ, ◌≡◌, ◌⊎◌, inl, inr, refl, true, false, some, [], ◌∷◌, arith}
use suprime.Base.Key.{nat_eq, nat_order, pair_eq}
use suprime.Base.Lists.{In}
use suprime.Base.Dict.{Distinct, get}
use suprime.Base.Sets.{member}
use suprime.Crdt.LwwMap
use suprime.Crdt.LwwMap.{LwwMap}
use suprime.Crdt.LwwMap.Merge.{Agree, set_same_tick}
use suprime.Crdt.OrSet
use suprime.Crdt.OrSet.{OrSet, Tag, contains, add_element, remove}
use suprime.Crdt.OrSet.Merge.{SameSet, merge_view_laws}
use suprime.Crdt.OrSet.AddWins.{IsFresh, add_wins, contains-remove, add_element_lost}
use suprime.Crdt.MvRegister
use suprime.Crdt.MvRegister.{MvRegister, Write}
use suprime.Crdt.MvRegister.Merge.{HasClock, AllClocks, Incomparable, Covered, merge_maxima}

abbrev stamped : ℕ → ℕ → ℕ → LwwMap.Entry ℕ ℕ
stamped value ts origin = record { value = value; ts = ts; origin = origin }

abbrev map_1 : LwwMap ℕ ℕ
map_1 = record { node_id = 1; entries = (7, stamped 70 100 1) ∷ (8, stamped 80 20 2) ∷ [] }

abbrev map_2 : LwwMap ℕ ℕ
map_2 = record { node_id = 2; entries = (7, stamped 71 100 2) ∷ [] }

map_1-Distinct : Distinct map_1.entries
unfolding get
map_1-Distinct = (refl, (refl, tt))

map_2-Distinct : Distinct map_2.entries
unfolding get
map_2-Distinct = (refl, tt)

agree : Agree map_1 map_2
unfolding get
agree k x y at at' v = ground (arith, at, at', v)

abbrev copy : LwwMap ℕ ℕ
copy = record map_1 { node_id = 2 }

copy_there : get 7 copy.entries ≡ some (stamped 70 100 map_1.node_id)
unfolding get
copy_there = refl

set_same_tick_example :
    (get 7 (LwwMap.merge copy (LwwMap.set 7 75 100 map_1)).0.entries ≡ some (stamped 70 100 1))
    × (get 7 (LwwMap.merge (LwwMap.set 7 75 100 map_1) copy).0.entries ≡ some (stamped 75 100 1))
set_same_tick_example =
    set_same_tick 7 70 75 100 map_1 copy copy_there map_1-Distinct map_1-Distinct

abbrev set_1 : OrSet ℕ ℕ
set_1 = record { node_id = 1; counter = 1; adds = (7, (1, 1) ∷ []) ∷ []; removed = [] }

abbrev set_2 : OrSet ℕ ℕ
set_2 = record {
  node_id = 2;
  counter = 2;
  adds = (7, (1, 1) ∷ []) ∷ (8, (2, 1) ∷ []) ∷ [];
  removed = (2, 1) ∷ [];
}

set_1-Distinct : Distinct set_1.adds
unfolding get
set_1-Distinct = (refl, tt)

set_2-Distinct : Distinct set_2.adds
unfolding get
set_2-Distinct = (refl, (refl, tt))

merge_view_laws_example :
    SameSet (OrSet.merge set_1 set_2).0 (OrSet.merge set_2 set_1).0
    × SameSet
        (OrSet.merge (OrSet.merge set_1 set_2).0 set_1).0
        (OrSet.merge set_1 (OrSet.merge set_2 set_1).0).0
    × SameSet (OrSet.merge set_1 set_1).0 set_1
merge_view_laws_example =
    merge_view_laws set_1 set_2 set_1 set_1-Distinct set_2-Distinct set_1-Distinct

contains-remove_example : contains 7 (remove 7 set_2) ≡ false
contains-remove_example = contains-remove 7 set_2

set_2-IsFresh : IsFresh set_2.node_id set_2.counter set_2
unfolding member pair_eq
set_2-IsFresh n h = ground (arith, h)

removed-IsFresh : IsFresh set_2.node_id set_2.counter (remove 7 set_1)
unfolding remove member pair_eq
removed-IsFresh n h = ground (arith, h)

add_wins_example :
    (contains 7 (OrSet.merge (remove 7 set_1) (add_element 7 set_2)).0 ≡ true)
    × (contains 7 (OrSet.merge (add_element 7 set_2) (remove 7 set_1)).0 ≡ true)
add_wins_example =
    add_wins 7 set_1 set_2 set_1-Distinct set_2-Distinct set_2-IsFresh removed-IsFresh

-- Node 2 rebuilt with an empty state that has merged its old tombstone.
abbrev rebuilt : OrSet ℕ ℕ
rebuilt = record { node_id = 2; counter = 0; adds = []; removed = (2, 1) ∷ [] }

rebuilt_empty : contains 8 rebuilt ≡ false
unfolding contains
rebuilt_empty = refl

tag_removed : member (2, 1) rebuilt.removed ≡ true
unfolding member pair_eq
tag_removed = refl

add_element_lost_example : contains 8 (add_element 8 rebuilt) ≡ false
add_element_lost_example = add_element_lost 8 rebuilt rebuilt_empty tag_removed

abbrev write_1 : Write ℕ ℕ
write_1 = (70, record { clock = (1, 1) ∷ [] })

abbrev write_2 : Write ℕ ℕ
write_2 = (71, record { clock = (2, 1) ∷ [] })

abbrev register_1 : MvRegister ℕ ℕ
register_1 = record { node_id = 1; vc = write_1.1; versions = write_1 ∷ [] }

abbrev register_2 : MvRegister ℕ ℕ
register_2 = record { node_id = 2; vc = write_2.1; versions = write_2 ∷ [] }

one_clock : (w : Write ℕ ℕ) → HasClock w → AllClocks (w ∷ [])
one_clock w h p (inl same) = subst HasClock same h
one_clock w h p (inr no_more) = absurd no_more

register_1-AllClocks : AllClocks register_1.versions
unfolding get
register_1-AllClocks = one_clock write_1 (refl, tt)

register_2-AllClocks : AllClocks register_2.versions
unfolding get
register_2-AllClocks = one_clock write_2 (refl, tt)

merge_maxima_example :
    ((q : Write ℕ ℕ)
      → In q (MvRegister.merge register_1 register_2).0.versions
      → In q register_1.versions ⊎ In q register_2.versions)
    × Incomparable (MvRegister.merge register_1 register_2).0.versions
    × ((p : Write ℕ ℕ)
        → In p register_1.versions ⊎ In p register_2.versions
        → Covered p (MvRegister.merge register_1 register_2).0.versions)
merge_maxima_example = merge_maxima register_1 register_2 register_1-AllClocks register_2-AllClocks
