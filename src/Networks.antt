-- ===== src/Networks.antt =====
-- crates/networks/src/actor/mod.rs: the actor that keeps the list of networks. Each `#[message]` is an
-- action of `Exec Actor`; the proofs are in the modules below.
pub mod Service
pub mod Invariant
pub mod Lookup
pub mod Lowest
pub mod Current
pub mod Dedup
pub mod Statuses
pub mod Migrations
mod Tests
use ethui.Common.{
  ℕ, String, Bool, not, ◌&&◌, Option, none, some, List, [], ◌∷◌, ◌++◌, map, length, any, find,
  filter, first?, min, ◌==◌, nat_Same, text_Same, if◌then◌else◌,
}
use ethui.Common.Dict
use ethui.Common.Dict.{Dict, values}
use ethui.Common.Exec.{Exec, ◌>>=◌, ◌>>◌, pure, raise, lift, gets, modify, or_raise, unwrap}
use ethui.Types.{
  NetworkId, id_Same, Network, Node, NewNetworkParams, chain_id, is_dev, into_network, global,
}
use ethui.Broadcast.{
  Message, chain_changed, network_added, network_updated, network_removed, network_selected,
  ui_notify, networks_changed, current_network_changed,
}

pub record SerializedNetworks : Type 0 where
  pub networks : Dict String Network
  pub current : String

-- The actor, the contents of its file, and the messages that it has sent.
pub record Actor : Type 0 where
  pub inner : SerializedNetworks
  pub open inner use *
  pub file : Option SerializedNetworks
  pub sent : List Message

pub data NetworkGetKey : Type 0 where
  by_id : NetworkId → NetworkGetKey
  by_chain_id : ℕ → NetworkGetKey
  by_name : String → NetworkGetKey

-- Whether the file can be written, and the nodes that the networks point to.
pub record Env : Type 0 where
  pub can_write : Bool
  pub node : Node

abbrev pub set_networks : Dict String Network → Actor → Actor
set_networks d s = record s { inner = record s.inner { networks = d } }

abbrev pub set_current_name : String → Actor → Actor
set_current_name name s = record s { inner = record s.inner { current = name } }

abbrev send : Message → Exec Actor (Unit {0})
send m = modify (λ s. record s { sent = s.sent ++ m ∷ [] })

-- `get_current_inner`, where `none` is the panic "No networks available".
unfoldable pub get_current_inner : SerializedNetworks → Option Network
get_current_inner s =
    if not (Dict.contains_key s.networks s.current)
    then first? (values s.networks)
    else Dict.get s.networks s.current

abbrev current_inner : Exec Actor Network
current_inner s = unwrap (get_current_inner s.inner) s

-- The task that `notify_peers` spawns is taken to send at once.
unfoldable pub on_network_changed : Exec Actor (Unit {0})
on_network_changed = do
  current ← current_inner
  send (chain_changed current.id none global)
  send (ui_notify current_network_changed)
  network ← current_inner
  send (network_selected network)

unfoldable pub save : Env → Exec Actor (Unit {0})
save env s =
    if env.can_write then modify (λ s. record s { file = some s.inner }) s else raise "io error" s

unfoldable pub get_chain_id_count : SerializedNetworks → ℕ → ℕ
get_chain_id_count s c = length (filter (λ n. chain_id n == c) (values s.networks))

unfoldable pub get_list : SerializedNetworks → List Network
get_list s = values s.networks

unfoldable pub get : SerializedNetworks → NetworkGetKey → Option Network
get s (by_id i) = find (λ n. n.id == i) (values s.networks)
get s (by_chain_id c) = find (λ n. chain_id n == c) (values s.networks)
get s (by_name name) = find (λ n. n.name == name) (values s.networks)

unfoldable pub validate_chain_id : SerializedNetworks → ℕ → Bool
validate_chain_id s c = any (λ n. chain_id n == c) (values s.networks)

-- `Iterator::min`
unfoldable pub minimum : List ℕ → Option ℕ
minimum [] = none
minimum (x ∷ xs) = elim (minimum xs) [ none ↦ some x | some y ↦ some (min x y) ]

unfoldable pub get_lowest_dedup_id : SerializedNetworks → ℕ → ℕ
unfolding minimum
get_lowest_dedup_id s c =
    elim (minimum (map (λ n. n.id.dedup_id) (filter (λ n. chain_id n == c) (values s.networks)))) [
      | none ↦ 0
      | some d ↦ d
    ]

-- The name that a key of `set_current` stands for.
unfoldable pub resolve : NetworkGetKey → Exec Actor String
resolve (by_name name) = pure name
resolve (by_id i) = do
  s ← gets (λ s. s.inner)
  n ← or_raise (find (λ n. n.id == i) (values s.networks)) "Network with id not found"
  pure n.name
resolve (by_chain_id c) = do
  s ← gets (λ s. s.inner)
  n ← or_raise (find (λ n. chain_id n == c) (values s.networks)) "Network with chain_id not found"
  pure n.name

unfoldable pub set_current : Env → NetworkGetKey → Exec Actor (Unit {0})
unfolding save
set_current env key = do
  new_current_network ← resolve key
  previous ← current_inner
  modify (set_current_name new_current_network)
  new ← current_inner
  if previous.name == new.name then pure tt else on_network_changed
  save env

unfoldable pub add : Env → NewNetworkParams → Exec Actor (Unit {0})
unfolding save
add env params = do
  s ← gets (λ s. s.inner)
  if Dict.contains_key s.networks params.name then raise "Already exists" else do
    let network = into_network params (get_chain_id_count s params.chain_id)
    dev ← lift (is_dev env.node network)
    let taken = any (λ n. n.id == network.id) (values s.networks)
    if not dev && taken then raise "Already exists" else do
      modify (set_networks (Dict.insert s.networks network.name network))
      save env
      send (network_added network)
      send (ui_notify networks_changed)

unfoldable pub update : Env → String → Network → Exec Actor (Unit {0})
unfolding save
update env old_name network = do
  s ← gets (λ s. s.inner)
  if not (network.name == old_name) && Dict.contains_key s.networks network.name
      then raise "Already exists"
      else do
        modify (set_networks (Dict.insert (Dict.remove s.networks old_name) network.name network))
        if s.current == old_name
            then (do modify (set_current_name network.name); on_network_changed)
            else pure tt
        save env
        send (network_updated network)
        send (ui_notify networks_changed)

-- The part of `remove` that picks another current network, by the networks that remain.
unfoldable pub reselect : String → Exec Actor (Unit {0})
reselect name = do
  s ← gets (λ s. s.inner)
  if s.current == name
      then (do
        first ← or_raise (first? (values s.networks)) "No networks remaining"
        modify (set_current_name first.name)
        on_network_changed)
      else pure tt

unfoldable pub remove : Env → String → Exec Actor (Unit {0})
unfolding save
remove env name = do
  s ← gets (λ s. s.inner)
  modify (set_networks (Dict.remove s.networks name))
  network ← or_raise (Dict.get s.networks name) "Does not exist"
  reselect name
  save env
  send (network_removed network)
  send (ui_notify networks_changed)

pub insert_all : Dict String Network → List (String × Network) → Dict String Network
insert_all d [] = d
insert_all d ((key, updated_network) ∷ rest) = insert_all (Dict.insert d key updated_network) rest

unfoldable pub update_statuses : Env → List (String × Network) → Exec Actor (Unit {0})
unfolding insert_all save
update_statuses env updates = do
  s ← gets (λ s. s.inner)
  modify (set_networks (insert_all s.networks updates))
  save env
