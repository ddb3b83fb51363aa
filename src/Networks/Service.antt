-- ===== src/Networks/Service.antt =====
-- crates/networks/src/init.rs and the start of the actor: how messages reach the networks actor.
use ethui.Common.{
  String, Bool, true, Option, none, some, List, [], ◌∷◌, map, any, if◌then◌else◌, text_Same, not,
  ◌==◌,
}
use ethui.Common.Dict.{values}
use ethui.Common.Exec.{Exec, ◌>>=◌, ◌>>◌, pure, modify}
use ethui.Types.{
  Network, NetworkStatus, status_Same, online, offline, NewNetworkParams, all_default, anvil,
  is_global, is_unset,
}
use ethui.Broadcast.{
  Message, chain_changed, stack_add, stack_remove, network_added, network_selected, ui_notify,
  peers_updated,
}
use ethui.Networks.{
  Actor, SerializedNetworks, Env, NetworkGetKey, by_id, current_inner, save, set_current, add,
  update, remove, update_statuses, send, insert_all,
}

-- `Network::poll_status`, by whether the node gave its chain id; `some` is the status before a change.
unfoldable pub poll_status : Bool → Network → Network × Option NetworkStatus
poll_status answered n =
    let new_status = if answered then online else offline in
    if not (n.status == new_status)
    then (record n { status = new_status }, some n.status)
    else (n, none)

-- One poll of `status_poller`; no answer stands for the timeout of two seconds.
unfoldable pub poll_network : (Network → Option Bool) → Network → Network × Option NetworkStatus
unfolding poll_status
poll_network answers n = elim (answers n) [ none ↦ (n, none) | some b ↦ poll_status b n ]

unfoldable pub poll_networks : (Network → Option Bool) → List Network → List (String × Network)
unfolding poll_network
poll_networks answers [] = []
poll_networks answers (n ∷ ns) = (n.name, (poll_network answers n).0) ∷ poll_networks answers ns

abbrev pub is_change : Option NetworkStatus → Bool
is_change none = Bool.false
is_change (some _) = true

unfoldable pub any_changes : (Network → Option Bool) → List Network → Bool
any_changes answers ns = any (λ n. is_change (poll_network answers n).1) ns

-- The messages that change the actor. The last is the poller's, with the networks that it had listed
-- and what the nodes answered.
pub data Request : Type 0 where
  set_current_request : NetworkGetKey → Request
  add_request : NewNetworkParams → Request
  update_request : String → Network → Request
  remove_request : String → Request
  update_statuses_request : (Network → Option Bool) → List Network → Request

-- The actor's part of each. The poller's own notice to the interface after its update is left out.
unfoldable pub handle : Env → Request → Exec Actor (Unit {0})
unfolding any_changes
handle env (set_current_request key) = set_current env key
handle env (add_request params) = add env params
handle env (update_request old_name network) = update env old_name network
handle env (remove_request name) = remove env name
handle env (update_statuses_request answers listed) =
    if any_changes answers listed
    then update_statuses env (poll_networks answers listed)
    else pure tt

-- The actor takes its messages one by one, and goes on after an error.
unfoldable pub run : Actor → List (Env × Request) → Actor
run s [] = s
run s ((env, r) ∷ rs) = run (handle env r s).1 rs

-- `receiver`: what an internal message makes of the actor; an error is dropped.
unfoldable pub receive : Env → Message → Exec Actor (Unit {0})
receive env (chain_changed id domain affinity) = do
  send (ui_notify peers_updated)
  if is_global affinity
      then set_current env (by_id id)
      else if is_unset affinity
      then set_current env (by_id id)
      else pure tt
receive env (stack_add params) = add env params
receive env (stack_remove name) = remove env name
receive env _ = pure tt

abbrev first_networks : SerializedNetworks
first_networks = record {
  networks = insert_all [] (map (λ n. (n.name, n)) all_default);
  current = (anvil 0).name;
}

send_added : List Network → Exec Actor (Unit {0})
send_added [] = pure tt
send_added (n ∷ ns) = do send (network_added n); send_added ns

-- `on_start`, with the networks that the file holds, if there is one.
unfoldable pub on_start : Env → Option SerializedNetworks → Exec Actor (Unit {0})
unfolding save send_added insert_all
on_start env stored = do
  modify (λ s. record s { inner = elim stored [ none ↦ first_networks | some inner ↦ inner ] })
  save env
  (λ s. send_added (values s.networks) s)
  network ← current_inner
  send (network_selected network)
