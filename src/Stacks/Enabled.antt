-- ===== src/Stacks/Enabled.antt =====
-- crates/stacks/src/actor/mod.rs: when the container runs.
use ethui.Common.{ℕ, ◌≡◌, refl, ◌∙◌, String, Bool, true, false, none, List, [], ◌∷◌, arith, All}
use ethui.Stacks.{
  RuntimeState, failed, initializing, stopped, started, Actor, Env, new_actor, set_enabled,
  create_stack, remove_stack, shutdown, initialize, Request, set_enabled_request,
  create_stack_request, remove_stack_request, shutdown_request, initialize_request, handle, run,
}

-- The container program does what is asked of it, and the app does not shut down.
abbrev pub IsOrderly : Env × Request → Type 0
IsOrderly (env, shutdown_request) = ⊥
IsOrderly (env, _) = (env.runs ≡ none) × (env.stops ≡ none) × (env.initializes ≡ none)

-- The container runs if the stacks are enabled, and is stopped if not, once it is initialized.
abbrev pub Agrees : Bool → RuntimeState → Type 0
Agrees enabled (failed e) = ⊥
Agrees enabled initializing = Unit
Agrees enabled (stopped m) = enabled ≡ false
Agrees enabled (started m) = enabled ≡ true

handle-Agrees :
    (env : Env) (r : Request) (a : Actor)
    → IsOrderly (env, r)
    → Agrees a.enabled a.manager
    → Agrees (handle env r a).enabled (handle env r a).manager
unfolding handle set_enabled create_stack remove_stack initialize
handle-Agrees env (set_enabled_request b) a o h = ground (arith, o, h)
handle-Agrees env (create_stack_request slug) a o h = ground (arith, h)
handle-Agrees env (remove_stack_request slug) a o h = ground (arith, h)
handle-Agrees env shutdown_request a o h = absurd o
handle-Agrees env initialize_request a o h = ground (arith, o, h)

run-step-Agrees :
    (requests : List (Env × Request)) (a : Actor)
    → All IsOrderly requests
    → Agrees a.enabled a.manager
    → Agrees (run requests a).enabled (run requests a).manager
unfolding run
run-step-Agrees [] a o h = h
run-step-Agrees ((env, r) ∷ rest) a o h =
    run-step-Agrees rest (handle env r a) o.1 (handle-Agrees env r a o.0 h)

-- As long as the container program does what is asked of it and the app does not shut down, whatever else is
-- asked, the container runs exactly if the stacks are enabled, once it is initialized, and there is no
-- failure.
pub run-Agrees :
    (port : ℕ) (config_dir : String) (requests : List (Env × Request))
    → All IsOrderly requests
    → let a = run requests (new_actor port config_dir) in Agrees a.enabled a.manager
unfolding new_actor
run-Agrees port config_dir requests o = run-step-Agrees requests (new_actor port config_dir) o tt

-- Anything but the message that initializes.
abbrev pub IsLater : Env × Request → Type 0
IsLater (env, initialize_request) = ⊥
IsLater (env, _) = Unit

handle-initializing :
    (env : Env) (r : Request) (a : Actor)
    → IsLater (env, r)
    → a.manager ≡ initializing
    → ((handle env r a).manager ≡ initializing) × ((handle env r a).calls ≡ a.calls)
unfolding handle set_enabled create_stack remove_stack shutdown
handle-initializing env (set_enabled_request b) a l h = ground (arith, h)
handle-initializing env (create_stack_request slug) a l h = ground (arith, h)
handle-initializing env (remove_stack_request slug) a l h = ground (arith, h)
handle-initializing env shutdown_request a l h = ground (arith, h)
handle-initializing env initialize_request a l h = absurd l

run-initializing :
    (requests : List (Env × Request)) (a : Actor)
    → All IsLater requests
    → a.manager ≡ initializing
    → ((run requests a).manager ≡ initializing) × ((run requests a).calls ≡ a.calls)
unfolding run
run-initializing [] a l h = (h, refl)
run-initializing ((env, r) ∷ rest) a l h =
    let s = handle-initializing env r a l.0 h in
    let k = run-initializing rest (handle env r a) l.1 s.0 in (k.0, k.1 ∙ s.1)

-- If the stacks are enabled again after a failure, then unless the message that initializes is sent once
-- more, which only the start of the app does, they stay initializing, and no call reaches the server.
pub set_enabled-stays_initializing :
    (env : Env) (requests : List (Env × Request)) (a : Actor) (e : String)
    → a.manager ≡ failed e
    → a.enabled ≡ false
    → All IsLater requests
    → let v = run requests (set_enabled env true a) in
      (v.manager ≡ initializing) × (v.calls ≡ a.calls)
unfolding set_enabled
set_enabled-stays_initializing env requests a e h off l =
    let k = run-initializing requests (set_enabled env true a) l (ground (arith, h, off)) in
    (k.0, k.1 ∙ ground (arith, off))
