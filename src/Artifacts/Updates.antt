-- ===== src/Artifacts/Updates.antt =====
-- crates/sol-artifacts/src/actor/mod.rs: when the contracts are matched with the ABIs.
use ethui.Common.{◌<◌, ◌≡◌, refl, ◌∙◌, true, false, List, [], ◌∷◌, arith, ltb, if◌then◌else◌, All}
use ethui.Artifacts.Actor.{
  State, Env, Contract, Own, update_contracts_message, poll_project_roots_message,
  trigger_update_contracts, update_contracts, match_contracts, insert_contracts, notify_found,
}
use ethui.Artifacts.Debounce.{
  Event, update_roots_call, new_contract, files_changed, turn, take_turn, step, run, updates,
  trigger-Keeps, update_roots-Keeps, process_debounced_events-Keeps, update_project_roots-Keeps,
}

insert_contracts-queue :
    (env : Env) (cs : List Contract) (s : State)
    → let v = (insert_contracts env cs s).1 in (v.triggers ≡ s.triggers) × (v.pending ≡ s.pending)
unfolding insert_contracts
insert_contracts-queue env [] s = (refl, refl)
insert_contracts-queue env (c ∷ cs) s = grind (arith, insert_contracts-queue env cs)

notify_found-queue :
    (cs : List Contract) (s : State)
    → ((notify_found cs s).triggers ≡ s.triggers) × ((notify_found cs s).pending ≡ s.pending)
notify_found-queue cs s = ground arith

match_contracts-queue :
    (env : Env) (s : State)
    → let v = (match_contracts env s).1 in (v.triggers ≡ s.triggers) × (v.pending ≡ s.pending)
unfolding match_contracts
match_contracts-queue env s = grind (arith, insert_contracts-queue, notify_found-queue)

-- The counter is the number of updates that wait.
abbrev pub IsBalanced : State → Type 0
IsBalanced s = s.triggers ≡ updates s.pending

take_turn-IsBalanced :
    (env : Env) (own : List Own) (s : State)
    → env.accepts ≡ true
    → s.triggers ≡ updates own
    → own ≡ s.pending
    → IsBalanced (take_turn env own s)
unfolding update_contracts
take_turn-IsBalanced env [] s room b e = ground (arith, b, e)
take_turn-IsBalanced env (update_contracts_message ∷ rest) s room b e =
    ground
      (arith, b, match_contracts-queue env (record s { triggers = updates rest; pending = rest }))
take_turn-IsBalanced env (poll_project_roots_message ∷ rest) s room b e =
    let k = update_project_roots-Keeps env (record s { pending = rest }) in
    omega (arith, k.2 room, b)

step-IsBalanced :
    (env : Env) (event : Event) (s : State)
    → env.accepts ≡ true
    → IsBalanced s
    → IsBalanced (step env event s)
unfolding step
step-IsBalanced env (update_roots_call roots) s room b =
    let k = update_roots-Keeps env roots s in omega (arith, k.2 room, b)
step-IsBalanced env new_contract s room b =
    let k = trigger-Keeps env s in omega (arith, k.2 room, b)
step-IsBalanced env (files_changed events) s room b =
    let k = process_debounced_events-Keeps env events s in omega (arith, k.2 room, b)
step-IsBalanced env turn s room b = take_turn-IsBalanced env s.pending s room b refl

-- As long as the mailbox has room for what the actor tells itself, the counter stays the number of updates
-- that wait, so that it is never decreased at zero.
pub run-IsBalanced :
    (events : List (Env × Event)) (s : State)
    → All (λ e. e.0.accepts ≡ true) events
    → IsBalanced s
    → IsBalanced (run events s)
unfolding run
run-IsBalanced [] s room b = b
run-IsBalanced ((env, event) ∷ rest) s room b =
    run-IsBalanced rest (step env event s) room.1 (step-IsBalanced env event s room.0 b)

-- If the counter is the number of updates that wait and an update is next, then it matches the contracts
-- if no other update waits behind it, and only counts down otherwise.
pub turn-debounced :
    (env : Env) (s : State) (rest : List Own)
    → IsBalanced s
    → s.pending ≡ update_contracts_message ∷ rest
    → let v : State = record s { triggers = updates rest; pending = rest } in
      step env turn s ≡ (if ltb 0 (updates rest) then v else (match_contracts env v).1)
unfolding step update_contracts
turn-debounced env s rest b e = ground (arith, b, e)

-- The counter is ahead of the updates that wait.
abbrev pub IsAhead : State → Type 0
IsAhead s = updates s.pending < s.triggers

take_turn-IsAhead :
    (env : Env) (own : List Own) (s : State)
    → updates own < s.triggers
    → own ≡ s.pending
    → let v = take_turn env own s in IsAhead v × (v.stored ≡ s.stored)
unfolding update_contracts
take_turn-IsAhead env [] s a e = ground (arith, a, e)
take_turn-IsAhead env (update_contracts_message ∷ rest) s a e = ground (arith, a)
take_turn-IsAhead env (poll_project_roots_message ∷ rest) s a e =
    let k = update_project_roots-Keeps env (record s { pending = rest }) in
    (omega (arith, k.1, a), k.0)

step-IsAhead :
    (env : Env) (event : Event) (s : State)
    → IsAhead s
    → let v = step env event s in IsAhead v × (v.stored ≡ s.stored)
unfolding step
step-IsAhead env (update_roots_call roots) s a =
    let k = update_roots-Keeps env roots s in (omega (arith, k.1, a), k.0)
step-IsAhead env new_contract s a = let k = trigger-Keeps env s in (omega (arith, k.1, a), k.0)
step-IsAhead env (files_changed events) s a =
    let k = process_debounced_events-Keeps env events s in (omega (arith, k.1, a), k.0)
step-IsAhead env turn s a = take_turn-IsAhead env s.pending s a refl

run-IsAhead :
    (events : List (Env × Event)) (s : State) → IsAhead s → (run events s).stored ≡ s.stored
unfolding run
run-IsAhead [] s a = refl
run-IsAhead ((env, event) ∷ rest) s a =
    let k = step-IsAhead env event s a in run-IsAhead rest (step env event s) k.0 ∙ k.1

-- If the counter is the number of updates that wait and a single update is lost because the mailbox is
-- full, then no contract is stored ever again, whatever happens afterwards.
pub run-lost :
    (env : Env) (events : List (Env × Event)) (s : State)
    → IsBalanced s
    → env.accepts ≡ false
    → (run events (step env new_contract s)).stored ≡ s.stored
unfolding step trigger_update_contracts
run-lost env events s b full =
    run-IsAhead events (trigger_update_contracts env s) (ground (arith, b, full))
