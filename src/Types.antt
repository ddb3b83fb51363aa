-- ===== src/Types.antt =====
-- crates/types: network ids, affinities, networks and the parameters of a new one.
-- A `Url` is kept as the text that it was parsed from: the modelled code only carries it along.
use ethui.Common.{
  ℕ, String, ◌≡◌, ◌↔◌, Bool, true, false, ◌&&◌, ◌||◌, Option, none, some, List, [], ◌∷◌, arith,
  Same, ◌==◌, nat_Same, if◌then◌else◌,
}
use ethui.Common.Exec.{Result, ok, err}

abbrev pub Url : Type 0
Url = String

abbrev pub Address : Type 0
Address = ℕ

pub record NetworkId : Type 0 where
  pub chain_id : ℕ
  pub dedup_id : ℕ

abbrev pub id_same : NetworkId → NetworkId → Bool
id_same a b = a.chain_id == b.chain_id && a.dedup_id == b.dedup_id

pub id_same_iff : (a b : NetworkId) → (id_same a b ≡ true) ↔ (a ≡ b)
id_same_iff a b = ground arith

instance abbrev pub id_Same : Same NetworkId
id_Same = record { same = id_same; same_iff = id_same_iff }

pub data Affinity : Type 0 where
  unset global : Affinity
  sticky : NetworkId → Affinity

abbrev pub affinity_same : Affinity → Affinity → Bool
affinity_same unset unset = true
affinity_same global global = true
affinity_same (sticky a) (sticky b) = a == b
affinity_same _ _ = false

pub affinity_same_iff : (a b : Affinity) → (affinity_same a b ≡ true) ↔ (a ≡ b)
affinity_same_iff (sticky a) (sticky b) = ground (arith, id_same_iff a b)
affinity_same_iff _ _ = ground arith

instance abbrev pub affinity_Same : Same Affinity
affinity_Same = record { same = affinity_same; same_iff = affinity_same_iff }

unfoldable pub is_unset : Affinity → Bool
is_unset a = a == unset

unfoldable pub is_global : Affinity → Bool
is_global a = a == global

pub data NetworkStatus : Type 0 where
  unknown online offline : NetworkStatus

abbrev pub status_same : NetworkStatus → NetworkStatus → Bool
status_same unknown unknown = true
status_same online online = true
status_same offline offline = true
status_same _ _ = false

pub status_same_iff : (a b : NetworkStatus) → (status_same a b ≡ true) ↔ (a ≡ b)
status_same_iff unknown _ = ground arith
status_same_iff _ _ = ground arith

instance abbrev pub status_Same : Same NetworkStatus
status_Same = record { same = status_same; same_iff = status_same_iff }

pub record Network : Type 0 where
  pub id : NetworkId
  pub name : String
  pub explorer_url : Option String
  pub http_url : Url
  pub ws_url : Option Url
  pub currency : String
  pub decimals : ℕ
  pub status : NetworkStatus
  pub is_stack : Bool

abbrev pub chain_id : Network → ℕ
chain_id n = n.id.chain_id

abbrev pub mainnet : ℕ → Network
mainnet deduplication_id = record {
  id = record { chain_id = 1; dedup_id = deduplication_id };
  name = "Mainnet";
  explorer_url = some "https://etherscan.io/search?q=";
  http_url = "https://eth.llamarpc.com";
  ws_url = none;
  currency = "ETH";
  decimals = 18;
  status = unknown;
  is_stack = false;
}

abbrev pub sepolia : ℕ → Network
sepolia deduplication_id = record {
  id = record { chain_id = 11155111; dedup_id = deduplication_id };
  name = "Sepolia";
  explorer_url = some "https://sepolia.etherscan.io/search?q=";
  http_url = "https://ethereum-sepolia-rpc.publicnode.com";
  ws_url = none;
  currency = "ETH";
  decimals = 18;
  status = unknown;
  is_stack = false;
}

abbrev pub anvil : ℕ → Network
anvil deduplication_id = record {
  id = record { chain_id = 31337; dedup_id = deduplication_id };
  name = "Anvil";
  explorer_url = none;
  http_url = "http://localhost:8545";
  ws_url = some "ws://localhost:8545";
  currency = "ETH";
  decimals = 18;
  status = unknown;
  is_stack = false;
}

abbrev pub all_default : List Network
all_default = anvil 0 ∷ mainnet 0 ∷ sepolia 0 ∷ []

-- What a node at a network's URL answers: whether a provider connects, and whether the node knows
-- the method `hardhat_metadata`.
pub record Node : Type 0 where
  pub connects : Network → Bool
  pub has_metadata : Network → Bool

unfoldable pub is_dev : Node → Network → Result Bool
is_dev node n =
    if n.is_stack
    then ok true
    else if chain_id n == 31337
    then ok true
    else if node.connects n
    then ok (chain_id n == 31337 || node.has_metadata n)
    else err "connection failed"

pub record NewNetworkParams : Type 0 where
  pub name : String
  pub chain_id : ℕ
  pub explorer_url : Option String
  pub http_url : Url
  pub ws_url : Option Url
  pub currency : String
  pub decimals : ℕ
  pub is_stack : Bool

unfoldable pub into_network : NewNetworkParams → ℕ → Network
into_network p deduplication_id = record {
  id = record { chain_id = p.chain_id; dedup_id = deduplication_id };
  name = p.name;
  explorer_url = p.explorer_url;
  http_url = p.http_url;
  ws_url = p.ws_url;
  currency = p.currency;
  decimals = p.decimals;
  status = unknown;
  is_stack = p.is_stack;
}
