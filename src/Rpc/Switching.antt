-- ===== src/Rpc/Switching.antt =====
-- crates/rpc/src/methods: what chain_add.rs and chain_update.rs do to the networks.
use ethui.Common.{
  ◌≡◌, ◌≢◌, refl, String, Option, none, some, List, [], ◌∷◌, ◌++◌, arith, nat_Same, text_Same,
}
use mathlib.Core.List.{append_assoc, append-nil}
use ethui.Types.{id_Same, Network, NewNetworkParams}
use ethui.Networks
use ethui.Networks.{Actor, by_id, by_name, get, get_current_inner}
use ethui.Networks.Service
use ethui.Networks.Service.{Request, handle, add_request, set_current_request}
use ethui.Rpc.Method.{accepted, await_verdict}
use ethui.Rpc.Chains.{
  ChainParams, World, Env, new_network_params, build_network, chain_exists, chain_add, chain_update,
  add_missing, confirmed, ask_user,
}

-- What others send to the actor while the dialogs are open.
abbrev pub others : Env → List String → List (Networks.Env × Request)
others env [] = []
others env (preset ∷ presets) = env.meanwhile preset ++ others env presets

run-append :
    (xs ys : List (Networks.Env × Request)) (s : Actor)
    → Service.run s (xs ++ ys) ≡ Service.run (Service.run s xs) ys
unfolding Service.run
run-append [] ys s = refl
run-append ((env, r) ∷ xs) ys s = run-append xs ys (handle env r s).1

new_network_params-keeps :
    (env : Env) (p : ChainParams) (w : World) → (new_network_params env p w).1 ≡ w
unfolding new_network_params
new_network_params-keeps env p w = ground arith

others-append :
    (env : Env) (presets : List String) (preset : String)
    → others env (presets ++ preset ∷ []) ≡ others env presets ++ env.meanwhile preset
others-append env [] preset = append-nil (env.meanwhile preset)
others-append env (x ∷ presets) preset = simp (
  others-append env presets preset,
  append_assoc (env.meanwhile x) (others env presets) (env.meanwhile preset),
)

-- The networks are what others made of them while the dialogs were open.
abbrev pub IsByOthers : Env → Actor → World → Type 0
IsByOthers env s w = w.networks ≡ Service.run s (others env w.shown)

-- The user accepts no dialog.
abbrev pub Declines : Env → Type 0
Declines env = (preset : String) → await_verdict (env.delivers preset) ≢ accepted

module _ (env : Env) (s : Actor) (declines : Declines env) where
  ask_user-IsByOthers :
      (preset : String) (w : World)
      → IsByOthers env s w
      → IsByOthers env s (ask_user env preset w).1
  ask_user-IsByOthers preset w h =
      rw
        (
          others-append env w.shown preset,
          run-append (others env w.shown) (env.meanwhile preset) s,
          h,
        )
        refl

  confirmed-IsByOthers :
      (preset : String) (r : Request) (w : World)
      → IsByOthers env s w
      → IsByOthers env s (confirmed env preset r w).1
  confirmed-IsByOthers preset r w h =
      ground (arith, ask_user-IsByOthers preset w h, declines preset)

  add_missing-IsByOthers :
      (stored : Option Network) (p : NewNetworkParams) (w : World)
      → IsByOthers env s w
      → IsByOthers env s (add_missing env stored p w).1
  add_missing-IsByOthers none p w h = confirmed-IsByOthers "chain-add" (add_request p) w h
  add_missing-IsByOthers (some n) p w h = h

  chain_add-IsByOthers :
      (p : ChainParams) (w : World) → IsByOthers env s w → IsByOthers env s (chain_add env p w).1
  unfolding chain_add chain_exists
  chain_add-IsByOthers p w h = ground (
    arith,
    new_network_params-keeps env p w,
    ask_user-IsByOthers "chain-add" w h,
    declines "chain-add",
  )

  chain_update-IsByOthers :
      (p : ChainParams) (w : World) → IsByOthers env s w → IsByOthers env s (chain_update env p w).1
  unfolding chain_update build_network
  chain_update-IsByOthers p w h =
      grind (arith, new_network_params-keeps, confirmed-IsByOthers, add_missing-IsByOthers)

-- If the user accepts no dialog, then neither method does anything to the networks: afterwards they are
-- what the messages of others, handled while the dialogs were open, have made of them.
pub chain_methods-declined :
    (env : Env) (p : ChainParams) (s : Actor)
    → Declines env
    → let w : World = record { networks = s; shown = [] } in
      IsByOthers env s (chain_add env p w).1 × IsByOthers env s (chain_update env p w).1
unfolding Service.run
chain_methods-declined env p s declines =
    let w : World = record { networks = s; shown = [] } in
    (chain_add-IsByOthers env s declines p w refl, chain_update-IsByOthers env s declines p w refl)
