-- ===== src/Rpc/Tests.antt =====
-- crates/rpc: the theorems at concrete texts and requests.
use ethui.Common.{
  ◌≡◌, ◌≢◌, ◌⊎◌, refl, String, true, false, none, some, List, [], ◌∷◌, ◌==◌, arith, text_Same,
  nat_Same, All, if◌then◌else◌,
}
use ethui.Common.Dict
use ethui.Common.Json.{Json, str}
use ethui.Types.{mainnet, anvil, id_Same}
use ethui.Networks
use ethui.Networks.{Actor, by_id, by_name, get, get_current_inner}
use ethui.Networks.Service.{Request, remove_request}
use ethui.Rpc.{bytes, chain_id_hex, switch_chain_id}
use ethui.Rpc.Laws.{switch_chain_id-chain_id_hex}
use ethui.Rpc.Method.{done, DialogMsg, payload, close, await_verdict}
use ethui.Rpc.Chains
use ethui.Rpc.Chains.{ChainParams, chain_add, chain_update}
use ethui.Rpc.Switching.{Declines, IsByOthers, chain_methods-declined}
use ethui.Rpc.Updating.{Proceeds, chain_update-selects_other}
use ethui.Rpc.Tokens
use ethui.Rpc.Tokens.{
  check_network, TokenAdd, erc20, erc721, ErcOptions, Erc20Options, TokenMetadata, Erc20Metadata,
  ErcMetadataResponse, erc721_token, is_missing, set_erc20_metadata, check_erc20_metadata,
}
use ethui.Rpc.Adding.{token_add, run_erc721}
use ethui.Rpc.Saving.{IsSound, IsEntitled, token_add-IsSound, token_add-IsEntitled}

switch_chain_id-chain_id_hex_example : switch_chain_id (chain_id_hex 31337) ≡ some 31337
switch_chain_id-chain_id_hex_example = switch_chain_id-chain_id_hex 31337 (omega arith)

-- Anvil is current, beside Ethereum.
abbrev actor : Actor
actor = record {
  inner = record { networks = ("Anvil", anvil 0) ∷ ("Mainnet", mainnet 0) ∷ []; current = "Anvil" };
  file = none;
  sent = [];
}

abbrev world : Chains.World
world = record { networks = actor; shown = [] }

abbrev chain_env : List DialogMsg → List (Networks.Env × Request) → Chains.Env
chain_env msgs requests = record {
  node = record {
    can_write = true;
    node = record { connects = λ n. true; has_metadata = λ n. false };
  };
  scheme = λ u. "https";
  delivers = λ preset. msgs;
  meanwhile = λ preset. requests;
}

-- A request for Ethereum under a name.
abbrev ethereum : String → ChainParams
ethereum name = record {
  chain_id = 1;
  chain_name = name;
  rpc_urls = "https://eth.example" ∷ [];
  native_currency = record { name = "Ether"; symbol = "ETH"; decimals = 18 };
  block_explorer_urls = none;
}

-- The dialog is closed, and another client removes Ethereum meanwhile.
abbrev declining : Chains.Env
declining = chain_env (close ∷ []) (((chain_env [] []).node, remove_request "Mainnet") ∷ [])

declines : Declines declining
unfolding await_verdict
declines preset e = cc

chain_methods-declined_example :
    IsByOthers declining actor (chain_add declining (ethereum "Other") world).1
    × IsByOthers declining actor (chain_update declining (ethereum "Other") world).1
chain_methods-declined_example = chain_methods-declined declining (ethereum "Other") actor declines

abbrev accepting : Chains.Env
accepting = chain_env (payload (str "accept") ∷ []) []

abbrev proceeds : (name : String) → Proceeds accepting (ethereum name) world (anvil 0)
unfolding await_verdict Dict.get
proceeds name = record {
  is_u64 = omega arith;
  http = "https://eth.example";
  has_http = refl;
  consistent = record { distinct = (refl, (refl, tt)); keyed = (refl, (refl, tt)) };
  current = refl;
  elsewhere = λ e. omega (arith, e);
  writes = refl;
  accepts = λ preset. refl;
  alone = λ preset. refl;
}

chain_update-selects_other_example :
    let (r, v) = chain_update accepting (ethereum "Mine") world in
    (r ≡ done false)
    × (get_current_inner v.networks.inner ≡ some (mainnet 0))
    × ((mainnet 0).name ≢ "Mine")
    × (v.shown ≡ "chain-add" ∷ "chain-switch" ∷ [])
unfolding get
chain_update-selects_other_example =
    chain_update-selects_other accepting (ethereum "Mine") world (anvil 0) (mainnet 0)
      (proceeds "Mine") refl refl

abbrev collectible : ErcMetadataResponse
collectible = record {
  address = 9;
  symbol = "APE";
  token_type = "ERC721";
  token_id = 5;
  token_uri = "ipfs";
  metadata = Json.null;
  collection = none;
  balance = none;
}

-- The wallet 7 owns a token; once the dialog is answered, the wallet is 8.
abbrev token_env : Tokens.Env
token_env = record {
  read_erc20 = λ j. none;
  read_erc = λ j. none;
  fetch_erc20_metadata = λ c a. some (record { decimals = none; name = none; symbol = none });
  fetch_erc_metadata = λ c a id kind. some collectible;
  fetch_erc_owners = λ c a. some (record { owner_address = "seven"; token_balances = [] } ∷ []);
  show_address = λ a. if a == 7 then "seven" else "eight";
  show_u256 = λ n. "5";
  parse_u256 = λ t. some 1;
  show_json = λ j. "null";
  delivers = λ preset. payload (str "accept") ∷ [];
  wallet_after = some 8;
}

abbrev token_world : Tokens.World
token_world = record { chain = some 1; wallet = some 7; saved = []; shown = [] }

abbrev options : ErcOptions
options = record { address = 9; chain_id = none; token_id = 5 }

-- The user's symbol, which the token service does not know.
abbrev given : TokenMetadata
given = record { address = 9; name = none; symbol = some (bytes "APE"); decimals = none }

abbrev told : Erc20Metadata
told = record { decimals = none; name = none; symbol = none }

token_add-IsSound_example :
    All
      (IsSound 1)
      (token_add token_env
        (erc20
          (record { address = 9; chain_id = some 1; name = none; symbol = none; decimals = none }))
        token_world).1.saved
token_add-IsSound_example =
    token_add-IsSound token_env
      (erc20
        (record { address = 9; chain_id = some 1; name = none; symbol = none; decimals = none }))
      1 token_world refl refl

saves : (token_add token_env (erc721 options) token_world).1.saved ≢ token_world.saved
unfolding token_add check_network run_erc721 await_verdict
saves e = cc

token_add-IsEntitled_example :
    ((Tokens.chain_id (erc721 options) ≡ none) ⊎ (Tokens.chain_id (erc721 options) ≡ some 1))
    × IsEntitled token_env 1 (erc721 options) token_world
token_add-IsEntitled_example =
    token_add-IsEntitled token_env (erc721 options) 1 token_world refl saves
