-- ===== src/Rpc/Saving.antt =====
-- crates/rpc/src/methods/token_add.rs: what is saved of a token, and when.
use ethui.Common.{
  ℕ, ◌≤◌, ◌<◌, ◌⊎◌, ◌↔◌, ◌≡◌, ◌≢◌, same_refl, String, Bool, true, false, none, some, [], ◌∷◌, ◌++◌,
  ◌==◌, arith, nat_Same, text_Same, All, All-append,
}
use ethui.Types.{Address}
use ethui.Rpc.Method.{accepted, await_verdict}
use ethui.Rpc.Tokens.{
  Erc20Options, ErcOptions, TokenAdd, erc20, erc721, erc1155, TokenMetadata, Erc20Metadata,
  ErcMetadataResponse, Saved, erc20_metadata, erc20_balance, erc721_token, erc721_collection,
  erc1155_token, erc1155_collection, World, Env, chain_id, check_network, set_erc20_metadata,
  check_erc20_metadata, is_owner, text_length, or_zero, is_missing,
}
use ethui.Rpc.Adding.{
  on_accept_erc20, on_accept_erc721, on_accept_erc1155, run_erc20, run_erc721, run_erc1155,
  check_erc_type, check_erc_owner, get_erc1155_balances, token_add,
}

-- The decimals are from 1 to 36, and the symbol has at most 11 bytes.
abbrev pub IsUsable : TokenMetadata → Type 0
IsUsable metadata =
    let d = or_zero metadata.decimals in
    (metadata.decimals ≡ some d) × (0 < d) × (d ≤ 36) × (text_length metadata.symbol ≤ 11)

-- An entry is for the chain; metadata is usable, and a first balance is zero.
abbrev pub IsSound : ℕ → Saved → Type 0
IsSound c (erc20_metadata k metadata) = (k ≡ c) × IsUsable metadata
IsSound c (erc20_balance k address wallet balance) = (k ≡ c) × (balance ≡ 0)
IsSound c (erc721_token address k token_id wallet uri metadata) = k ≡ c
IsSound c (erc721_collection address k name symbol) = k ≡ c
IsSound c (erc1155_token address k token_id wallet balance uri metadata) = k ≡ c
IsSound c (erc1155_collection address k name symbol) = k ≡ c

-- Metadata that passes the check is usable once it is completed.
check_erc20_metadata-IsUsable :
    (metadata : TokenMetadata) (alchemy : Erc20Metadata)
    → check_erc20_metadata metadata alchemy ≡ none
    → IsUsable (set_erc20_metadata metadata alchemy)
unfolding check_erc20_metadata set_erc20_metadata
check_erc20_metadata-IsUsable metadata alchemy e = ground arith

-- If metadata passes the check then, once it is completed, the symbol is missing exactly if the token
-- service tells none, whatever symbol the request gives.
pub check_erc20_metadata-symbol :
    (metadata : TokenMetadata) (alchemy : Erc20Metadata)
    → check_erc20_metadata metadata alchemy ≡ none
    → (is_missing (set_erc20_metadata metadata alchemy).symbol ≡ true) ↔ (alchemy.symbol ≡ none)
unfolding check_erc20_metadata set_erc20_metadata
check_erc20_metadata-symbol metadata alchemy e = ground arith

module _ (env : Env) (c : ℕ) where
  run_erc20-IsSound :
      (opts : Erc20Options) (w : World)
      → All (IsSound c) w.saved
      → All (IsSound c) (run_erc20 env c opts w).1.saved
  unfolding run_erc20 on_accept_erc20
  run_erc20-IsSound opts w h = grind (arith, All-append (IsSound c), check_erc20_metadata-IsUsable)

  run_erc721-IsSound :
      (opts : ErcOptions) (w : World)
      → All (IsSound c) w.saved
      → All (IsSound c) (run_erc721 env c opts w).1.saved
  unfolding run_erc721 on_accept_erc721 check_erc_type check_erc_owner
  run_erc721-IsSound opts w h = grind (arith, All-append (IsSound c))

  run_erc1155-IsSound :
      (opts : ErcOptions) (w : World)
      → All (IsSound c) w.saved
      → All (IsSound c) (run_erc1155 env c opts w).1.saved
  unfolding run_erc1155 on_accept_erc1155 check_erc_type check_erc_owner get_erc1155_balances
  run_erc1155-IsSound opts w h = grind (arith, All-append (IsSound c))

-- Whatever kind of token is added and however the user answers, each entry that is saved is for the
-- chain of the current network; the metadata of an ERC-20 token has from 1 to 36 decimals and a symbol
-- of at most 11 bytes, and its first balance is zero.
pub token_add-IsSound :
    (env : Env) (self : TokenAdd) (c : ℕ) (w : World)
    → w.chain ≡ some c
    → w.saved ≡ []
    → All (IsSound c) (token_add env self w).1.saved
unfolding token_add check_network
token_add-IsSound env (erc20 opts) c w e nothing =
    ground (arith, run_erc20-IsSound env c opts w (rw nothing tt))
token_add-IsSound env (erc721 opts) c w e nothing =
    ground (arith, run_erc721-IsSound env c opts w (rw nothing tt))
token_add-IsSound env (erc1155 opts) c w e nothing =
    ground (arith, run_erc1155-IsSound env c opts w (rw nothing tt))

-- The wallet that is current before the dialog is an owner of the token's contract on the chain.
abbrev pub owns : Env → ℕ → ErcOptions → World → Bool
owns env c opts w = elim w.wallet [
  | none ↦ false
  | some a ↦ elim (env.fetch_erc_owners c opts.address) [
    | none ↦ false
    | some owners ↦ is_owner (env.show_address a) owners
  ]
]

-- The token service tells the kind that was asked for.
abbrev pub is_kind : Env → ℕ → String → ErcOptions → Bool
is_kind env c kind opts = elim (env.fetch_erc_metadata c opts.address opts.token_id kind) [
  | none ↦ false
  | some full ↦ full.token_type == kind
]

-- What the user may have saved; nothing is asked of an ERC-20 token.
abbrev pub IsEntitled : Env → ℕ → TokenAdd → World → Type 0
IsEntitled env c (erc20 opts) w = Unit
IsEntitled env c (erc721 opts) w = (owns env c opts w ≡ true) × (is_kind env c "ERC721" opts ≡ true)
IsEntitled env c (erc1155 opts) w =
    (owns env c opts w ≡ true) × (is_kind env c "ERC1155" opts ≡ true)

run_erc721-owned :
    (env : Env) (c : ℕ) (opts : ErcOptions) (w : World)
    → (run_erc721 env c opts w).1.saved ≢ w.saved
    → (owns env c opts w ≡ true) × (is_kind env c "ERC721" opts ≡ true)
unfolding run_erc721 check_erc_type check_erc_owner
run_erc721-owned env c opts w h = ground (arith, h)

run_erc1155-owned :
    (env : Env) (c : ℕ) (opts : ErcOptions) (w : World)
    → (run_erc1155 env c opts w).1.saved ≢ w.saved
    → (owns env c opts w ≡ true) × (is_kind env c "ERC1155" opts ≡ true)
unfolding run_erc1155 check_erc_type check_erc_owner
run_erc1155-owned env c opts w h = ground (arith, h)

-- If the request that is handled saves anything, then it names the chain of the current network or none,
-- and for an ERC-721 or ERC-1155 token the wallet that is current before the dialog is an owner of the
-- contract and the token service tells the kind that was asked for.
pub token_add-IsEntitled :
    (env : Env) (self : TokenAdd) (c : ℕ) (w : World)
    → w.chain ≡ some c
    → (token_add env self w).1.saved ≢ w.saved
    → ((chain_id self ≡ none) ⊎ (chain_id self ≡ some c)) × IsEntitled env c self w
unfolding token_add check_network
token_add-IsEntitled env (erc20 opts) c w e h = (ground (arith, h), tt)
token_add-IsEntitled env (erc721 opts) c w e h =
    (ground (arith, h), run_erc721-owned env c opts w (ground (arith, h)))
token_add-IsEntitled env (erc1155 opts) c w e h =
    (ground (arith, h), run_erc1155-owned env c opts w (ground (arith, h)))

-- If the token service tells `full` of an ERC-721 token, of that kind and of no collection, the current
-- wallet is an owner of the contract, and the user accepts, then the token is saved for the wallet that is
-- current once the dialog is answered, which may be another one.
pub run_erc721-saves_for_later :
    (env : Env) (c : ℕ) (opts : ErcOptions) (w : World) (full : ErcMetadataResponse) (b : Address)
    → owns env c opts w ≡ true
    → env.fetch_erc_metadata c opts.address opts.token_id "ERC721" ≡ some full
    → full.token_type ≡ "ERC721"
    → full.collection ≡ none
    → await_verdict (env.delivers "erc721-add") ≡ accepted
    → env.wallet_after ≡ some b
    → (run_erc721 env c opts w).1.saved
      ≡ w.saved
        ++ erc721_token full.address c full.token_id b full.token_uri (env.show_json full.metadata)
          ∷ []
unfolding run_erc721 check_erc_type check_erc_owner on_accept_erc721
run_erc721-saves_for_later env c opts w full b o f k n a l =
    ground (arith, same_refl full.token_type)
