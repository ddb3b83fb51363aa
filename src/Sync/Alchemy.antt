-- ===== src/Sync/Alchemy.antt =====
-- crates/sync/alchemy/src/networks.rs: the chains that the Alchemy service covers.
use ethui.Common.{ℕ, Bool, none, some, [], ◌∷◌, nat_Same}
use ethui.Common.Dict
use ethui.Common.Dict.{Dict}
use ethui.Types.{Url}

pub record AlchemyNetwork : Type 0 where
  pub base_url : Url
  pub default_from_block : ℕ

abbrev entry : ℕ → Url → ℕ → ℕ × AlchemyNetwork
entry chain_id url block = (chain_id, record { base_url = url; default_from_block = block })

abbrev pub alchemy_networks : Dict ℕ AlchemyNetwork
alchemy_networks =
    entry 1 "https://eth-mainnet.g.alchemy.com" 15537393
    ∷ entry 11155111 "https://eth-sepolia.g.alchemy.com" 3000000
    ∷ entry 137 "https://polygon-mainnet.g.alchemy.com" 42170000
    ∷ entry 80002 "https://polygon-amoy.g.alchemy.com" 1
    ∷ entry 42161 "https://arb-mainnet.g.alchemy.com" 86100000
    ∷ entry 421614 "https://arb-sepolia.g.alchemy.com" 1
    ∷ entry 10 "https://opt-mainnet.g.alchemy.com" 95610000
    ∷ entry 11155420 "https://opt-sepolia.g.alchemy.com" 1
    ∷ entry 8453 "https://base-mainnet.g.alchemy.com" 1
    ∷ entry 84532 "https://base-sepolia.g.alchemy.com" 1
    ∷ entry 324 "https://zksync-mainnet.g.alchemy.com" 1
    ∷ entry 300 "https://zksync-sepolia.g.alchemy.com" 1
    ∷ entry 534352 "https://scroll-mainnet.g.alchemy.com" 1
    ∷ entry 534351 "https://scroll-sepolia.g.alchemy.com" 1
    ∷ entry 43114 "https://avax-mainnet.g.alchemy.com" 1
    ∷ []

unfoldable pub supports_network : ℕ → Bool
supports_network chain_id = Dict.contains_key alchemy_networks chain_id

unfoldable pub default_from_block : ℕ → ℕ
default_from_block chain_id = elim (Dict.get alchemy_networks chain_id) [
  | none ↦ 0
  | some network ↦ network.default_from_block
]
