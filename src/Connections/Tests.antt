-- ===== src/Connections/Tests.antt =====
-- crates/connections: the theorems at a concrete store and concrete networks.
use ethui.Common.{String, ◌≡◌, refl, true, Option, none, some, [], ◌∷◌, text_Same}
use ethui.Common.Dict
use ethui.Common.Dict.{Dict}
use ethui.Common.Exec.{ok}
use ethui.Types.{NetworkId, Affinity, global, sticky, affinity_Same, anvil, mainnet, sepolia}
use ethui.Broadcast.{chain_changed}
use ethui.Networks.{SerializedNetworks, validate_chain_id}
use ethui.Connections.{World, affinity_of, switch_chain, current_chain_id, get_affinity}
use ethui.Connections.Switching.{switch_chain-binds}
use ethui.Connections.Migrations.{Versions, v0, sticky_v0, global_v0}

abbrev main_id : NetworkId
main_id = record { chain_id = 1; dedup_id = 0 }

abbrev local_id : NetworkId
local_id = record { chain_id = 31337; dedup_id = 0 }

abbrev affinities : Dict String Affinity
affinities = ("app.org", sticky main_id) ∷ ("wide.org", global) ∷ []

-- Sepolia stands under the second deduplication id only.
abbrev networks : SerializedNetworks
networks = record {
  networks = ("Anvil", anvil 0) ∷ ("Mainnet", mainnet 0) ∷ ("Sepolia", sepolia 1) ∷ [];
  current = "Anvil";
}

abbrev world : Option String → World
world domain = record {
  domain = domain;
  store = record { affinities = affinities; file = none };
  networks = networks;
  sent = [];
  can_write = true;
}

switch_chain-binds_example :
    let (r, v) = switch_chain 31337 (world (some "app.org")) in
    (r ≡ ok tt)
    × (current_chain_id v ≡ some 31337)
    × (affinity_of v.store.affinities "app.org" ≡ sticky local_id)
    × (v.store.file ≡ some v.store.affinities)
    × (v.sent ≡ chain_changed local_id (some "app.org") (sticky local_id) ∷ [])
unfolding current_chain_id get_affinity affinity_of Dict.get validate_chain_id
switch_chain-binds_example =
    switch_chain-binds 31337 1 (world (some "app.org")) "app.org" refl (λ e. cc) refl (λ e. cc) refl
      refl

abbrev old : Versions
old = v0 (record { affinities = ("app.org", sticky_v0 1) ∷ ("wide.org", global_v0) ∷ [] })
