-- ===== src/Networks/Migrations.antt =====
-- crates/networks/src/migrations.rs: the formats of the networks file, and the migration of an old one
-- to the latest. The version of a format is its constructor.
use ethui.Common.{ℕ, zero, suc, String, false, ◌≡◌, refl, Option, none, some, map, text_Same, arith}
use mathlib.Core.Option
use ethui.Common.Dict
use ethui.Common.Dict.{Dict, get-map}
use ethui.Types.{Url, Network, unknown}
use ethui.Networks.{SerializedNetworks}

pub record NetworkV0 : Type 0 where
  pub name : String
  pub chain_id : ℕ
  pub explorer_url : Option String
  pub http_url : Url
  pub ws_url : Option Url
  pub currency : String
  pub decimals : ℕ

pub record NetworkV1 : Type 0 where
  pub deduplication_id : ℕ
  pub name : String
  pub chain_id : ℕ
  pub explorer_url : Option String
  pub http_url : Url
  pub ws_url : Option Url
  pub currency : String
  pub decimals : ℕ

pub record SerializedNetworksV0 : Type 0 where
  pub current : String
  pub networks : Dict String NetworkV0

pub record SerializedNetworksV1 : Type 0 where
  pub current : String
  pub networks : Dict String NetworkV0

pub record SerializedNetworksV2 : Type 0 where
  pub current : String
  pub networks : Dict String NetworkV1

pub data Versions : Type 0 where
  v0 : SerializedNetworksV0 → Versions
  v1 : SerializedNetworksV1 → Versions
  v2 : SerializedNetworksV2 → Versions
  v3 : SerializedNetworks → Versions

abbrev pub to_v1 : NetworkV0 → NetworkV1
to_v1 n = record {
  deduplication_id = 0;
  name = n.name;
  chain_id = n.chain_id;
  explorer_url = n.explorer_url;
  http_url = n.http_url;
  ws_url = n.ws_url;
  currency = n.currency;
  decimals = n.decimals;
}

abbrev pub to_network : NetworkV1 → Network
to_network n = record {
  id = record { chain_id = n.chain_id; dedup_id = n.deduplication_id };
  name = n.name;
  explorer_url = n.explorer_url;
  http_url = n.http_url;
  ws_url = n.ws_url;
  currency = n.currency;
  decimals = n.decimals;
  status = unknown;
  is_stack = false;
}

unfoldable pub migrate_networks_from_v1_to_v2 : Dict String NetworkV0 → Dict String NetworkV1
migrate_networks_from_v1_to_v2 = map (λ p. (p.0, to_v1 p.1))

unfoldable pub migrate_networks_from_v2_to_v3 : Dict String NetworkV1 → Dict String Network
migrate_networks_from_v2_to_v3 = map (λ p. (p.0, to_network p.1))

-- One migration, or none at the latest format.
unfoldable pub migrate_once : Versions → Versions
migrate_once (v0 s) = v1 (record { current = s.current; networks = s.networks })
migrate_once (v1 s) =
    v2 (record { current = s.current; networks = migrate_networks_from_v1_to_v2 s.networks })
migrate_once (v2 s) =
    v3 (record { current = s.current; networks = migrate_networks_from_v2_to_v3 s.networks })
migrate_once (v3 s) = v3 s

-- `run_migrations`, which calls itself on the next format; the fuel bounds these calls.
pub run_migrations : ℕ → Versions → Option SerializedNetworks
unfolding migrate_once
run_migrations fuel (v3 latest) = some latest
run_migrations zero old = none
run_migrations (suc fuel) old = run_migrations fuel (migrate_once old)

-- The current name that a file of any format holds.
abbrev pub current_of : Versions → String
current_of (v0 s) = s.current
current_of (v1 s) = s.current
current_of (v2 s) = s.current
current_of (v3 s) = s.current

-- What a network of an old format stands for, field by field: its status is unknown, it is no stack, and
-- before there were deduplication ids, its is 0.
abbrev pub of_v0 : NetworkV0 → Network
of_v0 n = record {
  id = record { chain_id = n.chain_id; dedup_id = 0 };
  name = n.name;
  explorer_url = n.explorer_url;
  http_url = n.http_url;
  ws_url = n.ws_url;
  currency = n.currency;
  decimals = n.decimals;
  status = unknown;
  is_stack = false;
}

abbrev pub of_v1 : NetworkV1 → Network
of_v1 n = record {
  id = record { chain_id = n.chain_id; dedup_id = n.deduplication_id };
  name = n.name;
  explorer_url = n.explorer_url;
  http_url = n.http_url;
  ws_url = n.ws_url;
  currency = n.currency;
  decimals = n.decimals;
  status = unknown;
  is_stack = false;
}

-- The network that a file of any format holds under a name.
abbrev pub network_of : Versions → String → Option Network
network_of (v0 s) name = Option.map of_v0 (Dict.get s.networks name)
network_of (v1 s) name = Option.map of_v0 (Dict.get s.networks name)
network_of (v2 s) name = Option.map of_v1 (Dict.get s.networks name)
network_of (v3 s) name = Dict.get s.networks name

get-v1_to_v2 :
    (d : Dict String NetworkV0) (k : String)
    → Dict.get (migrate_networks_from_v1_to_v2 d) k ≡ Option.map to_v1 (Dict.get d k)
unfolding migrate_networks_from_v1_to_v2
get-v1_to_v2 d k = get-map to_v1 d k

get-v2_to_v3 :
    (d : Dict String NetworkV1) (k : String)
    → Dict.get (migrate_networks_from_v2_to_v3 d) k ≡ Option.map to_network (Dict.get d k)
unfolding migrate_networks_from_v2_to_v3
get-v2_to_v3 d k = get-map to_network d k

get-v1_to_v3 :
    (d : Dict String NetworkV0) (k : String)
    → Dict.get (migrate_networks_from_v2_to_v3 (migrate_networks_from_v1_to_v2 d)) k
      ≡ Option.map (λ n. to_network (to_v1 n)) (Dict.get d k)
get-v1_to_v3 d k =
    ground (arith, get-v2_to_v3 (migrate_networks_from_v1_to_v2 d) k, get-v1_to_v2 d k)

-- Three calls bring a file of any format to the latest one: the current name stays, and under every name
-- stands the network that the old format held there, with every field of it, an unknown status, no stack
-- and, where the format had none, the deduplication id 0.
pub run_migrations-keeps :
    (v : Versions)
    → (s : SerializedNetworks) × (run_migrations 3 v ≡ some s)
      × (s.current ≡ current_of v)
      × ((name : String) → Dict.get s.networks name ≡ network_of v name)
unfolding run_migrations
run_migrations-keeps (v0 s) = (_, refl, refl, get-v1_to_v3 s.networks)
run_migrations-keeps (v1 s) = (_, refl, refl, get-v1_to_v3 s.networks)
run_migrations-keeps (v2 s) = (_, refl, refl, get-v2_to_v3 s.networks)
run_migrations-keeps (v3 s) = (s, refl, refl, λ name. refl)
