-- ===== src/Rpc/Chains.antt =====
-- crates/rpc/src/methods: chain_add.rs and chain_update.rs, over the networks actor. While a dialog is
-- open the actor handles the messages of others.
use ethui.Common.{
  ℕ, ◌%◌, String, Bool, true, false, Option, none, some, List, [], ◌∷◌, ◌++◌, ◌==◌, nat_Same,
  text_Same, find, first?, ltb, starts_with, if◌then◌else◌,
}
use ethui.Common.Radix.{u64_mod}
use ethui.Types.{Url, Network, NewNetworkParams, chain_id, into_network}
use ethui.Networks
use ethui.Networks.{Actor, by_id, by_name, get, get_current_inner, validate_chain_id}
use ethui.Networks.Service
use ethui.Networks.Service.{Request, add_request, set_current_request, handle}
use ethui.Rpc.{parse_error, user_rejected_dialog}
use ethui.Rpc.Method.{
  Call, done, ◌>>=◌, ◌>>◌, answer, fail, reads, or_fail, expect, writes, DialogMsg, Verdict,
  accepted, closed, ended, await_verdict,
}

pub record Currency : Type 0 where
  pub name : String
  pub symbol : String
  pub decimals : ℕ

-- The parameters of both methods.
pub record ChainParams : Type 0 where
  pub chain_id : ℕ
  pub chain_name : String
  pub rpc_urls : List Url
  pub native_currency : Currency
  pub block_explorer_urls : Option (List Url)

-- The actor, and the dialogs that were shown.
pub record World : Type 0 where
  pub networks : Actor
  pub shown : List String

-- What the actor's nodes and file do, the schemes of the URLs, and for each dialog the messages that it
-- delivers and those that others send to the actor while it is open.
pub record Env : Type 0 where
  pub node : Networks.Env
  pub scheme : Url → String
  pub delivers : String → List DialogMsg
  pub meanwhile : String → List (Networks.Env × Request)

-- `networks().add(..)` and `set_current(..)` only tell the actor: its errors do not come back.
abbrev pub tell : Env → Request → Call World (Unit {0})
tell env r = writes (λ w. record w { networks = (handle env.node r w.networks).1 })

abbrev pub ask_user : Env → String → Call World Verdict
ask_user env preset w = (
  done (await_verdict (env.delivers preset)),
  record w {
    networks = Service.run w.networks (env.meanwhile preset);
    shown = w.shown ++ preset ∷ [];
  },
)

-- `utils::get_current_network`
abbrev pub current_network : Call World Network
current_network w = expect (get_current_inner w.networks.inner) w

abbrev pub url_of : Env → String → List Url → Option Url
url_of env prefix urls = find (λ u. starts_with (env.scheme u) prefix) urls

abbrev pub u64_of : ℕ → Option ℕ
u64_of c = if ltb c u64_mod then some c else none

abbrev explorer_of : Option (List Url) → Option Url
explorer_of none = none
explorer_of (some urls) = first? urls

abbrev pub params_of : Env → ChainParams → ℕ → Url → NewNetworkParams
params_of env params c http = record {
  name = params.chain_name;
  chain_id = c;
  explorer_url = explorer_of params.block_explorer_urls;
  http_url = http;
  ws_url = url_of env "ws" params.rpc_urls;
  currency = params.native_currency.symbol;
  decimals = params.native_currency.decimals % 4294967296;
  is_stack = false;
}

-- `TryFrom<ChainAdd> for NewNetworkParams`, and the same in `build_network`.
unfoldable pub new_network_params : Env → ChainParams → Call World NewNetworkParams
new_network_params env params = do
  c ← or_fail (u64_of params.chain_id) parse_error
  http ← expect (url_of env "http" params.rpc_urls)
  answer (params_of env params c http)

-- `ChainAdd::already_exists`
unfoldable pub chain_exists : ChainParams → Call World Bool
chain_exists params = do
  c ← or_fail (u64_of params.chain_id) parse_error
  reads (λ w. validate_chain_id w.networks.inner c)

-- `ChainAdd::run`
unfoldable pub chain_add : Env → ChainParams → Call World (Unit {0})
unfolding chain_exists
chain_add env params = do
  network ← new_network_params env params
  exists ← chain_exists params
  if exists then answer tt else do
    verdict ← ask_user env "chain-add"
    (λ w. elim verdict [
      | accepted ↦ tell env (add_request network) w
      | closed ↦ answer tt w
      | ended ↦ answer tt w
    ])

-- `ChainUpdate::build_network`
unfoldable pub build_network : Env → ChainParams → Call World (Network × NewNetworkParams)
build_network env params = do
  network ← new_network_params env params
  stored ← reads (λ w. get w.networks.inner (by_name params.chain_name))
  let dedup : ℕ = elim stored [ none ↦ 0 | some n ↦ n.id.dedup_id ]
  answer (into_network network dedup, network)

-- A dialog that has to be accepted before `then_do`; one whose channel ends lets the method go on
-- without.
abbrev pub confirmed : Env → String → Request → Call World (Unit {0})
confirmed env preset r = do
  verdict ← ask_user env preset
  (λ w. elim verdict [
    | accepted ↦ tell env r w
    | closed ↦ fail user_rejected_dialog w
    | ended ↦ answer tt w
  ])

abbrev pub add_missing : Env → Option Network → NewNetworkParams → Call World (Unit {0})
add_missing env none params = confirmed env "chain-add" (add_request params)
add_missing env (some n) params = answer tt

-- `ChainUpdate::run`; true where the chain was the current one.
unfoldable pub chain_update : Env → ChainParams → Call World Bool
unfolding build_network
chain_update env params = do
  both ← build_network env params
  let (network, new_params) = both
  current ← current_network
  if chain_id current == chain_id network then answer true else do
    exists ← reads (λ w. get w.networks.inner (by_name network.name))
    add_missing env exists new_params
    shown ← current_network
    confirmed env "chain-switch" (set_current_request (by_id network.id))
    answer false
