-- ===== src/Rpc/Adding.antt =====
-- crates/rpc/src/methods/token_add.rs: adding a token of each kind, over the checks of Tokens.antt.
use ethui.Common.{
  ℕ, String, not, Option, none, some, [], ◌∷◌, ◌++◌, ◌==◌, nat_Same, text_Same, if◌then◌else◌,
}
use ethui.Types.{Address}
use ethui.Rpc.{
  Error, token_invalid, parse_error, erc_type_invalid, erc_wrong_owner, erc_invalid,
  user_rejected_dialog,
}
use ethui.Rpc.Method.{
  Call, ◌>>=◌, ◌>>◌, answer, fail, or_fail, expect, writes, accepted, closed, ended, await_verdict,
}
use ethui.Rpc.Tokens.{
  Erc20Options, ErcOptions, TokenAdd, erc20, erc721, erc1155, TokenMetadata, ErcMetadataResponse,
  Saved, erc20_metadata, erc20_balance, erc721_token, erc721_collection, erc1155_token,
  erc1155_collection, World, Env, check_network, set_erc20_metadata, check_erc20_metadata, is_owner,
  owned_balance,
}

abbrev save : Saved → Call World (Unit {0})
save entry = writes (λ w. record w { saved = w.saved ++ entry ∷ [] })

abbrev get_current_wallet_address : Call World Address
get_current_wallet_address w = expect w.wallet w

-- The loop over a dialog's messages, with what is done on acceptance.
abbrev pub on_accept : Env → String → Call World (Unit {0}) → Call World (Unit {0})
on_accept env preset then_do w =
    let v : World = record w { shown = w.shown ++ preset ∷ []; wallet = env.wallet_after } in
    elim (await_verdict (env.delivers preset)) [
      | accepted ↦ then_do v
      | closed ↦ fail user_rejected_dialog v
      | ended ↦ answer tt v
    ]

abbrev pub checked : Option Error → Call World (Unit {0})
checked none = answer tt
checked (some e) = fail e

unfoldable pub on_accept_erc20 : ℕ → TokenMetadata → Call World (Unit {0})
on_accept_erc20 c metadata = do
  wallet ← get_current_wallet_address
  save (erc20_metadata c metadata)
  save (erc20_balance c metadata.address wallet 0)

unfoldable pub run_erc20 : Env → ℕ → Erc20Options → Call World (Unit {0})
unfolding on_accept_erc20
run_erc20 env c opts = do
  alchemy ← or_fail (env.fetch_erc20_metadata c opts.address) token_invalid
  let metadata : TokenMetadata = record {
    address = opts.address;
    name = opts.name;
    symbol = opts.symbol;
    decimals = opts.decimals;
  }
  checked (check_erc20_metadata metadata alchemy)
  on_accept env "erc20-add" (on_accept_erc20 c (set_erc20_metadata metadata alchemy))

-- `self` is used for its token type.
unfoldable pub check_erc_type : String → ErcMetadataResponse → Call World (Unit {0})
check_erc_type wanted erc =
    if not (erc.token_type == wanted) then fail erc_type_invalid else answer tt

unfoldable pub check_erc_owner : Env → ℕ → Address → Call World (Unit {0})
check_erc_owner env c address = do
  wallet ← get_current_wallet_address
  owners ← or_fail (env.fetch_erc_owners c address) parse_error
  if not (is_owner (env.show_address wallet) owners) then fail erc_wrong_owner else answer tt

unfoldable pub get_erc1155_balances : Env → ℕ → Address → ℕ → Call World ℕ
get_erc1155_balances env c address token_id = do
  wallet ← get_current_wallet_address
  owners ← or_fail (env.fetch_erc_owners c address) parse_error
  if not (is_owner (env.show_address wallet) owners) then fail erc_wrong_owner else do
    balance ←
        or_fail (owned_balance (env.show_address wallet) (env.show_u256 token_id) owners)
          erc_invalid
    or_fail (env.parse_u256 balance) parse_error

abbrev or_empty : Option String → String
or_empty none = ""
or_empty (some t) = t

abbrev save_collection :
    (Address → ℕ → String → String → Saved) → ℕ → ErcMetadataResponse → Call World (Unit {0})
save_collection entry c full w = elim full.collection [
  | none ↦ answer tt w
  | some name ↦ save (entry full.address c (or_empty name) full.symbol) w
]

unfoldable pub on_accept_erc721 : Env → ℕ → ErcMetadataResponse → Call World (Unit {0})
on_accept_erc721 env c full = do
  wallet ← get_current_wallet_address
  save (
      erc721_token full.address c full.token_id wallet full.token_uri (env.show_json full.metadata))
  save_collection erc721_collection c full

unfoldable pub run_erc721 : Env → ℕ → ErcOptions → Call World (Unit {0})
unfolding check_erc_type check_erc_owner on_accept_erc721
run_erc721 env c opts = do
  full ← or_fail (env.fetch_erc_metadata c opts.address opts.token_id "ERC721") token_invalid
  check_erc_type "ERC721" full
  check_erc_owner env c opts.address
  on_accept env "erc721-add" (on_accept_erc721 env c full)

unfoldable pub on_accept_erc1155 : Env → ℕ → ErcMetadataResponse → Call World (Unit {0})
on_accept_erc1155 env c full = do
  wallet ← get_current_wallet_address
  balance ← expect full.balance
  save (
      erc1155_token full.address c full.token_id wallet balance full.token_uri
        (env.show_json full.metadata))
  save_collection erc1155_collection c full

unfoldable pub run_erc1155 : Env → ℕ → ErcOptions → Call World (Unit {0})
unfolding check_erc_type check_erc_owner get_erc1155_balances on_accept_erc1155
run_erc1155 env c opts = do
  response ← or_fail (env.fetch_erc_metadata c opts.address opts.token_id "ERC1155") token_invalid
  check_erc_type "ERC1155" response
  check_erc_owner env c opts.address
  balance ← get_erc1155_balances env c opts.address opts.token_id
  on_accept env "erc1155-add" (on_accept_erc1155 env c (record response { balance = some balance }))

-- `TokenAdd::run`
unfoldable pub token_add : Env → TokenAdd → Call World (Unit {0})
unfolding run_erc20 run_erc721 run_erc1155
token_add env self = do check_network self; c ← (λ w. expect w.chain w); add_kind c self
  where
    add_kind : ℕ → TokenAdd → Call World (Unit {0})
    add_kind c (erc20 opts) = run_erc20 env c opts
    add_kind c (erc721 opts) = run_erc721 env c opts
    add_kind c (erc1155 opts) = run_erc1155 env c opts
