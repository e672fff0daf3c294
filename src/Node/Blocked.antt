-- ===== src/Node/Blocked.antt =====
-- A task entry that cannot be read ends the round before it gossips.
use Prim.Native.String.{String}
use suprime.Base.{
  ℕ, ◌≡◌, refl, sym, ap, ◌∙◌, inl, inr, Bool-cases, Bool, true, false, Option, none, some, List, [],
  ◌∷◌, ◌++◌, map,
}
use suprime.Base.Key.{string_eq, string_order, nat_eq}
use suprime.Base.Result.{Result, ok, raise}
use suprime.Peers
use suprime.Peers.{Peer}
use suprime.Store
use suprime.Consensus
use suprime.Tasks.{Value}
use suprime.Node.{leader_call, SwarmNode, World}
use text.Mathlib.Text.{starts_with}
use mathlib.Core.Path.{subst}
use suprime.Base.Lists.{In}
use suprime.Base.Result.{Error, ◌>>=◌}
use suprime.Tasks.{task_prefix, Task}
use suprime.Tasks.Claims.{as_task, tasks_in, tasks}
use suprime.Tasks.Evaluate.{evaluate}
use suprime.Node.Round.{
  tick, tick_start, and_then, evaluate_tasks, update_leader, tell_leader, tell_if, disseminate,
}

abbrev pub Raises : {B : Type 0} → Result B → Type 0
Raises r = (err : Error) × (r ≡ raise err)

first-Raises : {B D : Type 0} (r : Result B) (f : B → Result D) → Raises r → Raises (r >>= f)
first-Raises r f (err, is) = (err, rw is refl)

module _ {X : Type 0} where
  last-Raises :
      (r : Result (Task X)) (rest : Result (List (Task X)))
      → Raises rest
      → Raises (r >>= λ t. rest >>= λ ts. ok (t ∷ ts))
  last-Raises (raise err) rest h = (err, refl)
  last-Raises (ok t) rest (err, is) = (err, rw is refl)

  tasks_in-task :
      (empty : X) (k : String) (v : Option (Value X)) (items : List (String × Option (Value X)))
      → starts_with k task_prefix ≡ true
      → tasks_in empty ((k, v) ∷ items)
        ≡ (as_task empty v >>= λ t. tasks_in empty items >>= λ ts. ok (t ∷ ts))
  unfolding tasks_in
  tasks_in-task empty k v items is = rw is refl

  tasks_in-other :
      (empty : X) (k : String) (v : Option (Value X)) (items : List (String × Option (Value X)))
      → starts_with k task_prefix ≡ false
      → tasks_in empty ((k, v) ∷ items) ≡ tasks_in empty items
  unfolding tasks_in
  tasks_in-other empty k v items is = rw is refl

  -- One entry that cannot be read is enough.
  unreadable :
      (empty : X) (k : String) (v : Option (Value X)) (items : List (String × Option (Value X)))
      → In (k, v) items
      → starts_with k task_prefix ≡ true
      → Raises (as_task empty v)
      → Raises (tasks_in empty items)
  unreadable empty k v [] there named bad = absurd there
  unreadable empty k v ((j, u) ∷ items) (inl here) named bad =
      let same : (k, v) ∷ items ≡ (j, u) ∷ items = ap (λ p. p ∷ items) (sym here) in
      subst (λ is. Raises (tasks_in empty is)) same
        (subst Raises (sym (tasks_in-task empty k v items named))
          (first-Raises (as_task empty v) (λ t. tasks_in empty items >>= λ ts. ok (t ∷ ts)) bad))
  unreadable empty k v ((j, u) ∷ items) (inr there) named bad =
      let rest = unreadable empty k v items there named bad in
      elim (Bool-cases (starts_with j task_prefix)) [
        | inl task ↦
            subst Raises (sym (tasks_in-task empty j u items task))
              (last-Raises (as_task empty u) (tasks_in empty items) rest)
        | inr other ↦ subst Raises (sym (tasks_in-other empty j u items other)) rest
      ]

module _ {A X C P N H : Type 0} (w : World A X P N H) where
  -- The callbacks see neither the transport nor the store.
  abbrev KeepsNet : SwarmNode A X C P N H → SwarmNode A X C P N H → Type 0
  KeepsNet s s' = (s'.transport ≡ s.transport) × (s'.gossip ≡ s.gossip) × (s'.tasks ≡ s.tasks)

  tell_leader-KeepsNet :
      (callbacks : List H) (leader : String) (s : SwarmNode A X C P N H)
      → KeepsNet s (tell_leader w callbacks leader s).0
  unfolding tell_leader
  tell_leader-KeepsNet [] leader s = (refl, refl, refl)
  tell_leader-KeepsNet (callback ∷ callbacks) leader s =
      let called : SwarmNode A X C P N H = record s {
        calls = s.calls ++ leader_call callback leader ∷ [];
      } in
      elim (Bool-cases (w.returns (leader_call callback leader))) [
        | inl fine ↦ rw fine (tell_leader-KeepsNet callbacks leader called)
        | inr bad ↦ rw bad (refl, refl, refl)
      ]

  tell_if-KeepsNet :
      (changed : Option String) (s : SwarmNode A X C P N H) → KeepsNet s (tell_if w changed s).0
  tell_if-KeepsNet none s = (refl, refl, refl)
  tell_if-KeepsNet (some leader) s = tell_leader-KeepsNet s.leader_callbacks leader s

  update_leader-KeepsNet : (s : SwarmNode A X C P N H) → KeepsNet s (update_leader w s).0
  unfolding update_leader
  update_leader-KeepsNet s =
      let alive = map (λ p. p.node_id) (Peers.alive_peers s.gossip.peers) in
      let r = Consensus.update alive s.leader_view in
      tell_if-KeepsNet r.1 (record s { leader_view = r.0 })

  -- What is left of the round when the board cannot read its tasks.
  abbrev Stops : SwarmNode A X C P N H → SwarmNode A X C P N H × Bool → Type 0
  Stops s r = (r.1 ≡ false) × (r.0.transport ≡ s.transport) × (r.0.gossip.store ≡ s.gossip.store)

  evaluate-Stops :
      (s : SwarmNode A X C P N H)
      → Raises (tasks_in w.task_calls.empty (Store.items s.gossip.store))
      → Stops s (evaluate_tasks w s)
  unfolding evaluate_tasks evaluate tasks
  evaluate-Stops s (err, is) = rw is (refl, refl, refl)

  stopped :
      (s : SwarmNode A X C P N H) (q : SwarmNode A X C P N H × Bool)
      → Stops s q
      → Stops s (and_then w (disseminate w) q)
  stopped s (t, false) h = h
  stopped s (t, true) h = cc

  after_leader :
      (r : SwarmNode A X C P N H × Bool)
      → Raises (tasks_in w.task_calls.empty (Store.items r.0.gossip.store))
      → Stops r.0 (and_then w (disseminate w) (and_then w (evaluate_tasks w) r))
  after_leader (s, false) bad = (refl, refl, refl)
  after_leader (s, true) bad = stopped s (evaluate_tasks w s) (evaluate-Stops s bad)

  -- A round in which the store holds, when the tasks are evaluated, an entry under a task key that
  -- cannot be read raises, and has sent nothing after its first steps and changed nothing of the
  -- store.
  pub tick_blocked :
      (now : ℕ) (k : String) (v : Option (Value X)) (s : SwarmNode A X C P N H)
      → In (k, v) (Store.items (tick_start w now s).gossip.store)
      → starts_with k task_prefix ≡ true
      → Raises (as_task w.task_calls.empty v)
      → ((tick w now s).1 ≡ false)
        × ((tick w now s).0.transport ≡ (tick_start w now s).transport)
        × ((tick w now s).0.gossip.store ≡ (tick_start w now s).gossip.store)
  unfolding tick
  tick_blocked now k v s there named bad =
      let before = tick_start w now s in
      let r = update_leader w before in
      let keeps = update_leader-KeepsNet before in
      let still : Raises (tasks_in w.task_calls.empty (Store.items r.0.gossip.store)) =
        subst (λ g. Raises (tasks_in w.task_calls.empty (Store.items g.store))) (sym keeps.1)
          (unreadable w.task_calls.empty k v (Store.items before.gossip.store) there named bad) in
      let stops = after_leader r still in
      (stops.0, stops.1 ∙ keeps.0, stops.2 ∙ ap (λ g. g.store) keeps.1)
