-- ===== src/Artifacts/Debounce.antt =====
-- crates/sol-artifacts/src/actor/mod.rs: the counter that puts off the update of the contracts until no
-- other one is queued. The actor alone sends itself the message for the update: the call that actor/ext.rs
-- offers for it is made nowhere.
use ethui.Common.{
  list_Same, ℕ, ◌+◌, ◌≤◌, ◌≡◌, refl, ◌∙◌, true, not, List, [], ◌∷◌, ◌++◌, filter, ◌==◌, nat_Same,
  arith, Option-cases, inl, inr,
}
use ethui.Common.Exec.{Exec}
use ethui.Artifacts.Paths.{FilePath}
use ethui.Artifacts.Abi.{read_artifact}
use ethui.Artifacts.Actor.{
  State, Env, Own, update_contracts_message, poll_project_roots_message, FileEvent,
  trigger_update_contracts, scan_project, scan_each, unwatch_each, watch_each, update_project_roots,
  add_path, remove_path, each, update_roots, process_debounced_events, update_contracts,
  insert_all_abis, insert_abi, remove_abi, finish_foundry, artifact_of, update_watches,
  new_projects, old_projects, contains,
}

-- What reaches the actor: a message of others, or its own first message, which waits in its mailbox.
pub data Event : Type 0 where
  update_roots_call : List FilePath → Event
  new_contract : Event
  files_changed : List FileEvent → Event
  turn : Event

abbrev pub take_turn : Env → List Own → State → State
take_turn env [] s = s
take_turn env (update_contracts_message ∷ rest) s =
    (update_contracts env (record s { pending = rest })).1
take_turn env (poll_project_roots_message ∷ rest) s =
    (update_project_roots env (record s { pending = rest })).1

unfoldable pub step : Env → Event → State → State
unfolding trigger_update_contracts
step env (update_roots_call roots) s = update_roots env roots s
step env new_contract s = trigger_update_contracts env s
step env (files_changed events) s = process_debounced_events env events s
step env turn s = take_turn env s.pending s

unfoldable pub run : List (Env × Event) → State → State
run [] s = s
run ((env, event) ∷ rest) s = run rest (step env event s)

-- The updates that wait in the mailbox.
abbrev pub updates : List Own → ℕ
updates [] = 0
updates (update_contracts_message ∷ rest) = 1 + updates rest
updates (poll_project_roots_message ∷ rest) = updates rest

-- Nothing is stored, and the counter runs ahead of the mailbox no less than before; as much as before
-- where the mailbox has room.
abbrev pub Keeps : Env → State → State → Type 0
Keeps env s v =
    (v.stored ≡ s.stored)
    × (s.triggers + updates v.pending ≤ v.triggers + updates s.pending)
    × (env.accepts ≡ true → s.triggers + updates v.pending ≡ v.triggers + updates s.pending)

Keeps-trans : (env : Env) (s t u : State) → Keeps env s t → Keeps env t u → Keeps env s u
Keeps-trans env s t u h k = (k.0 ∙ h.0, omega (arith, h.1, k.1), λ e. omega (arith, h.2 e, k.2 e))

Keeps-refl : (env : Env) (s : State) → Keeps env s s
Keeps-refl env s = (refl, omega arith, λ e. refl)

updates-append : (xs : List Own) (x : Own) → updates (xs ++ x ∷ []) ≡ updates xs + updates (x ∷ [])
updates-append [] x = omega arith
updates-append (update_contracts_message ∷ xs) x = omega (arith, updates-append xs x)
updates-append (poll_project_roots_message ∷ xs) x = updates-append xs x

pub trigger-Keeps : (env : Env) (s : State) → Keeps env s (trigger_update_contracts env s)
unfolding trigger_update_contracts
trigger-Keeps env s =
    let u = updates-append s.pending update_contracts_message in
    (refl, ground (arith, u), λ e. ground (arith, u, e))

-- The table of ABIs and the onboarding step have no part in it.
abbrev SameQueue : State → State → Type 0
SameQueue s v = (v.stored ≡ s.stored) × (v.triggers ≡ s.triggers) × (v.pending ≡ s.pending)

insert_all_abis-SameQueue :
    (env : Env) (paths : List FilePath) (s : State) → SameQueue s (insert_all_abis env paths s)
insert_all_abis-SameQueue env [] s = (refl, refl, refl)
insert_all_abis-SameQueue env (path ∷ paths) s =
    elim (Option-cases (read_artifact env.files path)) [
      | inl e ↦ rw (e, insert_all_abis) (insert_all_abis-SameQueue env paths s)
      | inr (abi, e) ↦
          rw (e, insert_all_abis) (insert_all_abis-SameQueue env paths (insert_abi abi s))
    ]

finish_foundry-SameQueue : (s : State) → SameQueue s (finish_foundry s)
finish_foundry-SameQueue s = ground arith

scan_project-Keeps :
    (env : Env) (root : FilePath) (s : State) → Keeps env s (scan_project env root s).1
unfolding scan_project
scan_project-Keeps env root s =
    grind (arith, trigger-Keeps, insert_all_abis-SameQueue, finish_foundry-SameQueue, Keeps-refl)

scan_each-Keeps :
    (env : Env) (paths : List FilePath) (s : State) → Keeps env s (scan_each env paths s).1
unfolding scan_each
scan_each-Keeps env [] s = Keeps-refl env s
scan_each-Keeps env (p ∷ ps) s = grind (arith, scan_project-Keeps, scan_each-Keeps env ps)

unwatch_each-SameQueue :
    (env : Env) (paths : List FilePath) (s : State) → SameQueue s (unwatch_each env paths s).1
unfolding unwatch_each
unwatch_each-SameQueue env [] s = (refl, refl, refl)
unwatch_each-SameQueue env (p ∷ ps) s = grind (arith, unwatch_each-SameQueue env ps)

watch_each-SameQueue :
    (env : Env) (paths : List FilePath) (s : State) → SameQueue s (watch_each env paths s).1
unfolding watch_each
watch_each-SameQueue env [] s = (refl, refl, refl)
watch_each-SameQueue env (p ∷ ps) s = grind (arith, watch_each-SameQueue env ps)

update_watches-SameQueue :
    (env : Env) (to_remove to_add : List FilePath) (s : State)
    → SameQueue s (update_watches env to_remove to_add s).1
unfolding update_watches
update_watches-SameQueue env to_remove to_add s =
    grind (arith, unwatch_each-SameQueue, watch_each-SameQueue)

pub update_project_roots-Keeps :
    (env : Env) (s : State) → Keeps env s (update_project_roots env s).1
unfolding update_project_roots
update_project_roots-Keeps env s =
    let scanned = scan_each-Keeps env (new_projects env s) s in
    let moved =
      update_watches-SameQueue env (old_projects env s) (new_projects env s)
        (scan_each env (new_projects env s) s).1 in
    ground (arith, scanned, moved)

add_path-Keeps : (env : Env) (path : FilePath) (s : State) → Keeps env s (add_path env path s).1
unfolding add_path
add_path-Keeps env path s =
    ground (arith, update_project_roots-Keeps env (record s { roots = s.roots ++ path ∷ [] }))

remove_path-Keeps :
    (env : Env) (path : FilePath) (s : State) → Keeps env s (remove_path env path s).1
unfolding remove_path
remove_path-Keeps env path s = ground (
  arith,
  update_project_roots-Keeps env (record s { roots = filter (λ p. not (p == path)) s.roots }),
)

each-Keeps :
    (env : Env) (f : FilePath → Exec State (Unit {0})) (paths : List FilePath) (s : State)
    → ((p : FilePath) (t : State) → Keeps env t (f p t).1)
    → Keeps env s (each f paths s)
each-Keeps env f [] s k = Keeps-refl env s
each-Keeps env f (p ∷ ps) s k =
    Keeps-trans env s (f p s).1 (each f ps (f p s).1) (k p s) (each-Keeps env f ps (f p s).1 k)

pub update_roots-Keeps :
    (env : Env) (roots : List FilePath) (s : State) → Keeps env s (update_roots env roots s)
unfolding update_roots
update_roots-Keeps env roots s =
    let to_remove = filter (λ p. not (contains roots p)) s.roots in
    let to_add = filter (λ p. not (contains s.roots p)) roots in
    let t = each (remove_path env) to_remove s in
    let u = each (add_path env) to_add t in
    let k =
      Keeps-trans env s t u (each-Keeps env (remove_path env) to_remove s (remove_path-Keeps env))
        (each-Keeps env (add_path env) to_add t (add_path-Keeps env)) in
    ground (arith, k, updates-append u.pending poll_project_roots_message)

pub process_debounced_events-Keeps :
    (env : Env) (events : List FileEvent) (s : State)
    → Keeps env s (process_debounced_events env events s)
unfolding process_debounced_events
process_debounced_events-Keeps env [] s = trigger-Keeps env s
process_debounced_events-Keeps env (event ∷ events) s =
    elim (Option-cases (artifact_of env event)) [
      | inl e ↦
          rw (e, process_debounced_events)
            (process_debounced_events-Keeps env events (remove_abi event.path s))
      | inr (abi, e) ↦
          rw (e, process_debounced_events)
            (process_debounced_events-Keeps env events (insert_abi abi s))
    ]
