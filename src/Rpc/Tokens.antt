-- ===== src/Rpc/Tokens.antt =====
-- crates/rpc/src/methods/token_add.rs: the request, and the checks of its data. The token service, the
-- JSON readers of the options and the printing of numbers and addresses are parameters.
use ethui.Common.{
  ℕ, String, Bool, true, false, not, ◌&&◌, ◌||◌, Option, none, some, List, [], ◌∷◌, ◌==◌, nat_Same,
  text_Same, any, length, ltb, if◌then◌else◌,
}
use ethui.Common.Json.{Json, get_field, as_str}
use ethui.Common.Radix.{Text}
use ethui.Types.{Address}
use ethui.Rpc.{
  Error, serde, type_invalid, network_invalid, symbol_missing, symbol_invalid, decimals_invalid,
}
use ethui.Rpc.Method.{Call, ◌>>=◌, answer, fail, or_fail, expect, DialogMsg}

-- A name and a symbol are their bytes.
pub record Erc20Options : Type 0 where
  pub address : Address
  pub chain_id : Option ℕ
  pub name : Option Text
  pub symbol : Option Text
  pub decimals : Option ℕ

-- `ERC721Options` and `ERC1155Options`
pub record ErcOptions : Type 0 where
  pub address : Address
  pub chain_id : Option ℕ
  pub token_id : ℕ

pub data TokenAdd : Type 0 where
  erc20 : Erc20Options → TokenAdd
  erc721 erc1155 : ErcOptions → TokenAdd

pub record TokenMetadata : Type 0 where
  pub address : Address
  pub name : Option Text
  pub symbol : Option Text
  pub decimals : Option ℕ

-- What the token service tells of a token (crates/sync/alchemy/src/types.rs).
pub record Erc20Metadata : Type 0 where
  pub decimals : Option ℕ
  pub name : Option Text
  pub symbol : Option Text

pub record ErcMetadataResponse : Type 0 where
  pub address : Address
  pub symbol : String
  pub token_type : String
  pub token_id : ℕ
  pub token_uri : String
  pub metadata : Json
  pub collection : Option (Option String)
  pub balance : Option ℕ

pub record ErcBalances : Type 0 where
  pub token_id : String
  pub balance : String

pub record ErcOwners : Type 0 where
  pub owner_address : String
  pub token_balances : List ErcBalances

-- What is written to the database, whose errors are dropped.
pub data Saved : Type 0 where
  erc20_metadata : ℕ → TokenMetadata → Saved
  erc20_balance : ℕ → Address → Address → ℕ → Saved
  erc721_token : Address → ℕ → ℕ → Address → String → String → Saved
  erc721_collection : Address → ℕ → String → String → Saved
  erc1155_token : Address → ℕ → ℕ → Address → ℕ → String → String → Saved
  erc1155_collection : Address → ℕ → String → String → Saved

-- The chain of the current network and the address of the current wallet, where there are any.
pub record World : Type 0 where
  pub chain : Option ℕ
  pub wallet : Option Address
  pub saved : List Saved
  pub shown : List String

-- The current wallet may be another one once a dialog is answered.
pub record Env : Type 0 where
  pub read_erc20 : Json → Option Erc20Options
  pub read_erc : Json → Option ErcOptions
  pub fetch_erc20_metadata : ℕ → Address → Option Erc20Metadata
  pub fetch_erc_metadata : ℕ → Address → ℕ → String → Option ErcMetadataResponse
  pub fetch_erc_owners : ℕ → Address → Option (List ErcOwners)
  pub show_address : Address → String
  pub show_u256 : ℕ → String
  pub parse_u256 : String → Option ℕ
  pub show_json : Json → String
  pub delivers : String → List DialogMsg
  pub wallet_after : Option Address

abbrev options_of : {A : Type 0} → (Json → Option A) → Json → Call World A
options_of read value = do
  options ← or_fail (get_field value "options") type_invalid
  or_fail (read options) serde

-- `TokenAdd::build`, on the single parameter.
unfoldable pub build : Env → Json → Call World TokenAdd
build env value = do
  type_value ← or_fail (get_field value "type") type_invalid
  token_type ← or_fail (as_str type_value) serde
  if token_type == "ERC20"
      then (do options ← options_of env.read_erc20 value; answer (erc20 options))
      else if token_type == "ERC721"
      then (do options ← options_of env.read_erc value; answer (erc721 options))
      else if token_type == "ERC1155"
      then (do options ← options_of env.read_erc value; answer (erc1155 options))
      else fail type_invalid

abbrev pub chain_id : TokenAdd → Option ℕ
chain_id (erc20 opts) = opts.chain_id
chain_id (erc721 opts) = opts.chain_id
chain_id (erc1155 opts) = opts.chain_id

abbrev pub token_type : TokenAdd → String
token_type (erc20 opts) = "ERC20"
token_type (erc721 opts) = "ERC721"
token_type (erc1155 opts) = "ERC1155"

unfoldable pub check_network : TokenAdd → Call World (Unit {0})
check_network self = do
  current ← (λ w. expect w.chain w)
  (λ w. elim (chain_id self) [
    | none ↦ answer tt w
    | some c ↦ if not (current == c) then fail network_invalid w else answer tt w
  ])

-- `== Some("")`
abbrev pub is_empty : Option Text → Bool
is_empty (some []) = true
is_empty _ = false

-- `is_none() || == Some(0)`
abbrev pub no_decimals : Option ℕ → Bool
no_decimals none = true
no_decimals (some d) = d == 0

-- What the token service tells comes first.
unfoldable pub set_erc20_metadata : TokenMetadata → Erc20Metadata → TokenMetadata
set_erc20_metadata metadata alchemy = record {
  address = metadata.address;
  name = if is_empty alchemy.name then metadata.name else alchemy.name;
  symbol = if is_empty alchemy.symbol then metadata.symbol else alchemy.symbol;
  decimals =
      if no_decimals alchemy.decimals && no_decimals metadata.decimals
      then some 18
      else if no_decimals alchemy.decimals
      then metadata.decimals
      else alchemy.decimals;
}

-- `.map(|s| s.len()).unwrap_or(0)`
abbrev pub text_length : Option Text → ℕ
text_length none = 0
text_length (some t) = length t

abbrev pub or_zero : Option ℕ → ℕ
or_zero none = 0
or_zero (some d) = d

abbrev pub is_missing : Option Text → Bool
is_missing none = true
is_missing (some t) = is_empty (some t)

-- The error that is found, if any.
unfoldable pub check_erc20_metadata : TokenMetadata → Erc20Metadata → Option Error
check_erc20_metadata metadata alchemy =
    if is_empty alchemy.symbol && is_missing metadata.symbol
    then some symbol_missing
    else if ltb 11 (text_length alchemy.symbol) || ltb 11 (text_length metadata.symbol)
    then some symbol_invalid
    else if ltb 36 (or_zero alchemy.decimals) || ltb 36 (or_zero metadata.decimals)
    then some decimals_invalid
    else none

-- `owners.contains(&wallet_address.to_string())`
abbrev pub is_owner : String → List ErcOwners → Bool
is_owner address owners = any (λ o. o.owner_address == address) owners

abbrev balance_of : String → List ErcBalances → Option String
balance_of token_id [] = none
balance_of token_id (b ∷ bs) =
    if b.token_id == token_id then some b.balance else balance_of token_id bs

-- The first balance of the token with an owner of the address: the two loops of `get_erc1155_balances`.
abbrev pub owned_balance : String → String → List ErcOwners → Option String
owned_balance address token_id [] = none
owned_balance address token_id (o ∷ os) =
    let rest = owned_balance address token_id os in
    if o.owner_address == address
    then (elim (balance_of token_id o.token_balances) [ none ↦ rest | some b ↦ some b ])
    else rest
