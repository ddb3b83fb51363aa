-- ===== src/Networks/Tests.antt =====
-- crates/networks: the theorems at concrete networks.
use ethui.Common.{
  String, ◌≡◌, refl, true, false, none, some, List, [], ◌∷◌, ◌++◌, inl, text_Same, nat_Same, ◌==◌,
  if◌then◌else◌,
}
use ethui.Common.Dict
use ethui.Common.Dict.{Dict, values}
use ethui.Common.Exec.{ok, err}
use ethui.Types.{Network, NewNetworkParams, id_Same, mainnet, anvil, into_network, is_dev}
use ethui.Broadcast.{network_added, network_removed, ui_notify, networks_changed}
use ethui.Networks.{
  Actor, Env, SerializedNetworks, by_chain_id, by_name, get, set_current, add, remove,
  get_current_inner, get_chain_id_count,
}
use ethui.Networks.Service.{Request, set_current_request, add_request, remove_request, run}
use ethui.Networks.Invariant.{IsConsistent, run-IsConsistent}
use ethui.Networks.Lookup.{set_current-selects, add-inserts, changed}
use ethui.Networks.Current.{remove_current-reselects, remove_last-panics}
use ethui.Networks.Migrations.{run_migrations-keeps, run_migrations, Versions, v0, network_of}

abbrev env : Env
env = record { can_write = true; node = record { connects = λ n. true; has_metadata = λ n. false } }

abbrev two : Dict String Network
two = ("Anvil", anvil 0) ∷ ("Mainnet", mainnet 0) ∷ []

abbrev start : Actor
start = record { inner = record { networks = two; current = "Anvil" }; file = none; sent = [] }

abbrev fork_params : NewNetworkParams
fork_params = record {
  name = "Fork";
  chain_id = 31337;
  explorer_url = none;
  http_url = "http://localhost:8546";
  ws_url = none;
  currency = "ETH";
  decimals = 18;
  is_stack = false;
}

abbrev fork : Network
fork = record (anvil 1) { name = "Fork"; http_url = "http://localhost:8546"; ws_url = none }

-- The first network of the chain is gone, and the second one has kept its id.
abbrev shrunk : Actor
shrunk = record {
  inner = record { networks = ("Fork", fork) ∷ ("Mainnet", mainnet 0) ∷ []; current = "Fork" };
  file = none;
  sent = [];
}

abbrev requests : List (Env × Request)
requests =
    (env, add_request fork_params)
    ∷ (env, set_current_request (by_name "Fork"))
    ∷ (env, remove_request "Anvil")
    ∷ []

two-IsConsistent : IsConsistent two
unfolding Dict.get
two-IsConsistent = record { distinct = (refl, (refl, tt)); keyed = (refl, (refl, tt)) }

run-IsConsistent_example : IsConsistent (run start requests).networks
run-IsConsistent_example = run-IsConsistent start requests two-IsConsistent

set_current-selects_example :
    let (r, t) = set_current env (by_chain_id 1) start in
    (r ≡ ok tt)
    × (get_current_inner t.inner ≡ some (mainnet 0))
    × (t.networks ≡ two)
    × (t.file ≡ some t.inner)
    × (t.sent ≡ changed (mainnet 0))
unfolding get get_current_inner Dict.get Dict.contains_key
set_current-selects_example =
    set_current-selects env (by_chain_id 1) start (mainnet 0) (anvil 0) two-IsConsistent refl refl
      refl

add-inserts_example :
    let (r, t) = add env fork_params start in
    (r ≡ ok tt)
    × ((j : String) → Dict.get t.networks j ≡ (if "Fork" == j then some fork else Dict.get two j))
    × (t.current ≡ "Anvil")
    × (t.file ≡ some t.inner)
    × (t.sent ≡ network_added fork ∷ ui_notify networks_changed ∷ [])
unfolding Dict.get is_dev into_network get_chain_id_count
add-inserts_example = add-inserts env fork_params start true refl refl (inl refl) refl

abbrev anvil_params : NewNetworkParams
anvil_params = record fork_params { name = "Anvil" }

remove_current-reselects_example :
    let (r, t) = remove env "Anvil" start in
    (r ≡ ok tt)
    × (t.current ≡ "Mainnet")
    × (get_current_inner t.inner ≡ some (mainnet 0))
    × (t.file ≡ some t.inner)
    × (t.sent
        ≡ changed (mainnet 0) ++ (network_removed (anvil 0) ∷ ui_notify networks_changed ∷ []))
unfolding Dict.get Dict.remove
remove_current-reselects_example =
    remove_current-reselects env start (anvil 0) (mainnet 0) [] two-IsConsistent refl refl refl

abbrev single : Actor
single = record {
  inner = record { networks = ("Anvil", anvil 0) ∷ []; current = "Anvil" };
  file = none;
  sent = [];
}

remove_last-panics_example :
    let (r, t) = remove env "Anvil" single in
    (r ≡ err "No networks remaining")
    × (t.networks ≡ [])
    × (t.file ≡ none)
    × (t.sent ≡ [])
    × (get_current_inner t.inner ≡ none)
remove_last-panics_example = remove_last-panics env single "Anvil" (anvil 0) refl refl

abbrev third_params : NewNetworkParams
third_params = record fork_params { name = "Third" }

abbrev old : Versions
old = v0 (record {
  current = "Local";
  networks =
      (
        "Local",
        record {
          name = "Local";
          chain_id = 31337;
          explorer_url = none;
          http_url = "http://localhost:8545";
          ws_url = none;
          currency = "ETH";
          decimals = 18;
        },
      )
      ∷ [];
})

run_migrations-keeps_example :
    (s : SerializedNetworks) × (run_migrations 3 old ≡ some s)
    × (s.current ≡ "Local")
    × ((name : String) → Dict.get s.networks name ≡ network_of old name)
run_migrations-keeps_example = run_migrations-keeps old
