-- ===== src/Rpc.antt =====
-- crates/rpc: the parameters of the methods (params.rs) and the codes of their errors (error.rs).
pub mod Method
pub mod Chains
pub mod Switching
pub mod Updating
pub mod Tokens
pub mod Adding
pub mod Saving
pub mod Sending
pub mod Reviewing
pub mod Consenting
pub mod Creating
pub mod Signing
pub mod Laws
mod Tests
mod SendTests
use Prim.Native.Char.{code}
use ethui.Common.{
  ℕ, ◌+◌, String, Bool, true, false, ◌&&◌, ◌||◌, Option, none, some, List, [], ◌∷◌, ◌++◌, ◌==◌,
  nat_Same, leb, map, if◌then◌else◌,
}
use ethui.Common.Radix.{Text, from_str_radix, to_text}

-- The bytes of an ASCII text.
abbrev pub bytes : String → Text
bytes String.[] = []
bytes (String.◌∷◌ c s) = code c ∷ bytes s

-- `Error` of error.rs. A variant's data is kept where the conversion reads it.
pub data Error : Type 0 where
  tx_dialog_rejected signature_rejected wallet_name_not_found wallet_not_found : Error
  signer_build cannot_parse_url signer_error transport : Error
  ethui_report : Text → Error
  json_rpc unrecognized_chain_id serde io cannot_simulate rpc parse_error : Error
  user_rejected_dialog token_invalid symbol_missing symbol_invalid decimals_invalid : Error
  network_invalid type_invalid erc_type_invalid erc_wrong_owner erc_invalid invalid_params : Error

pub data ErrorCode : Type 0 where
  parse_error_code invalid_params_code internal_error : ErrorCode
  server_error : ℕ → ErrorCode

-- `str::to_lowercase`, on ASCII.
abbrev pub to_lower : ℕ → ℕ
to_lower c = if leb b'A' c && leb c b'Z' then c + 32 else c

abbrev pub is_prefix : Text → Text → Bool
is_prefix [] t = true
is_prefix (p ∷ ps) [] = false
is_prefix (p ∷ ps) (c ∷ cs) = p == c && is_prefix ps cs

-- `str::contains`
abbrev pub contains_text : Text → Text → Bool
contains_text [] p = is_prefix p []
contains_text (c ∷ cs) p = is_prefix p (c ∷ cs) || contains_text cs p

abbrev pub invalid_chain_id : Text
invalid_chain_id = bytes "invalid chain id"

-- `impl From<Error> for jsonrpc_core::Error`, its code.
unfoldable pub error_code : Error → ErrorCode
error_code tx_dialog_rejected = server_error 4001
error_code signature_rejected = server_error 4001
error_code user_rejected_dialog = server_error 4001
error_code parse_error = parse_error_code
error_code type_invalid = invalid_params_code
error_code erc_type_invalid = invalid_params_code
error_code erc_invalid = invalid_params_code
error_code erc_wrong_owner = invalid_params_code
error_code decimals_invalid = invalid_params_code
error_code token_invalid = invalid_params_code
error_code symbol_missing = invalid_params_code
error_code symbol_invalid = invalid_params_code
error_code wallet_not_found = server_error 4100
error_code network_invalid = server_error 4901
error_code (ethui_report e) =
    if contains_text (map to_lower e) invalid_chain_id then server_error 4902 else internal_error
error_code _ = internal_error

-- `Network::chain_id_hex` of crates/types.
unfoldable pub chain_id_hex : ℕ → Text
chain_id_hex chain_id = b'0' ∷ b'x' ∷ to_text 16 chain_id

-- `str::strip_prefix("0x")`
abbrev pub strip_0x : Text → Option Text
strip_0x [] = none
strip_0x (a ∷ []) = none
strip_0x (a ∷ b ∷ rest) = if a == b'0' && b == b'x' then some rest else none

-- `SwitchChainParams::chain_id`, where `none` is `Error::InvalidParams`.
unfoldable pub switch_chain_id : Text → Option ℕ
switch_chain_id chain_id = elim (strip_0x chain_id) [
  | none ↦ none
  | some hex_str ↦ from_str_radix 16 hex_str
]
