-- ===== src/Stacks/Tests.antt =====
-- crates/stacks: the theorems at a container that starts, and at one that failed.
use ethui.Common.{refl, true, false, none, List, [], ◌∷◌}
use ethui.Stacks.{
  Actor, Env, failed, new_actor, Request, set_enabled_request, create_stack_request,
  initialize_request, run,
}
use ethui.Stacks.Enabled.{Agrees, run-Agrees}

abbrev env : Env
env = record { runs = none; stops = none; initializes = none }

abbrev requests : List (Env × Request)
requests =
    (env, set_enabled_request true)
    ∷ (env, initialize_request)
    ∷ (env, create_stack_request "one")
    ∷ []

run-Agrees_example : let a = run requests (new_actor 4000 "dir") in Agrees a.enabled a.manager
run-Agrees_example =
    run-Agrees 4000 "dir" requests
      ((refl, refl, refl), ((refl, refl, refl), ((refl, refl, refl), tt)))

abbrev broken : Actor
broken = record {
  enabled = false;
  port = 4000;
  config_dir = "dir";
  manager = failed "no socket";
  calls = [];
}
