-- ===== src/Connections.antt =====
-- crates/connections: the affinities of the domains that connect (store.rs, utils.rs), the context of
-- one connection (ctx.rs) and the commands of the interface (commands.rs).
pub mod Affinities
pub mod Switching
pub mod Migrations
pub mod Permissions
mod Tests
use ethui.Common.{
  ℕ, String, Bool, true, false, not, ◌||◌, Option, none, some, List, [], ◌∷◌, ◌++◌, filter, ◌==◌,
  nat_Same, text_Same, option_Same, if◌then◌else◌,
}
use ethui.Common.Dict
use ethui.Common.Dict.{Dict}
use ethui.Common.Exec.{Exec, ◌>>=◌, ◌>>◌, pure, raise, gets, modify, or_raise, unwrap}
use ethui.Types.{
  NetworkId, Network, Affinity, unset, global, sticky, affinity_Same, is_unset, is_global, chain_id,
}
use ethui.Broadcast.{Message, chain_changed}
use ethui.Networks.{
  SerializedNetworks, get_current_inner, get, by_chain_id, validate_chain_id, get_lowest_dedup_id,
}

-- `Store`: the affinities, and the contents of their file.
pub record Store : Type 0 where
  pub affinities : Dict String Affinity
  pub file : Option (Dict String Affinity)

-- What a handler can reach: the domain of its connection, the store, the networks actor, which it only
-- asks, the messages sent, and whether the store's file can be written.
pub record World : Type 0 where
  pub domain : Option String
  pub store : Store
  pub networks : SerializedNetworks
  pub sent : List Message
  pub can_write : Bool

-- `Store::get_affinity`, where an unknown domain has the default.
unfoldable pub affinity_of : Dict String Affinity → String → Affinity
affinity_of d domain = elim (Dict.get d domain) [ none ↦ unset | some a ↦ a ]

unfoldable pub save : Exec World (Unit {0})
save w =
    if w.can_write
    then modify (λ v. record v { store = record v.store { file = some v.store.affinities } }) w
    else raise "io error" w

abbrev put_affinities : Dict String Affinity → Exec World (Unit {0})
put_affinities d = modify (λ w. record w { store = record w.store { affinities = d } })

abbrev send : Message → Exec World (Unit {0})
send m = modify (λ w. record w { sent = w.sent ++ m ∷ [] })

-- What `Store::set_affinity` makes of the map.
unfoldable pub updated : Dict String Affinity → String → Affinity → Dict String Affinity
updated d domain unset = Dict.remove d domain
updated d domain affinity = Dict.insert d domain affinity

unfoldable pub store_affinity : String → Affinity → Exec World (Unit {0})
unfolding save
store_affinity domain affinity = do
  d ← gets (λ w. w.store.affinities)
  put_affinities (updated d domain affinity)
  save

-- `Store::on_chain_removed`
unfoldable pub on_chain_removed : NetworkId → Store → Store
on_chain_removed internal_id s = record s {
  affinities = filter (λ p. not (p.1 == sticky internal_id)) s.affinities;
}

-- `affinity_matches` of utils.rs
unfoldable pub affinity_matches :
    Dict String Affinity → Option String → Option String → Affinity → Bool
affinity_matches d own other (sticky id) = own == other
affinity_matches d none other _ = true
affinity_matches d (some domain) other _ =
    is_unset (affinity_of d domain) || is_global (affinity_of d domain)

-- `Ctx::get_affinity`
unfoldable pub get_affinity : World → Affinity
get_affinity w = elim w.domain [ none ↦ unset | some d ↦ affinity_of w.store.affinities d ]

-- `Ctx::set_affinity`
unfoldable pub set_affinity : Affinity → Exec World (Unit {0})
set_affinity affinity w = elim w.domain [ none ↦ pure tt w | some d ↦ store_affinity d affinity w ]

-- The chain of an affinity, or of the current network.
unfoldable pub chain_of : SerializedNetworks → Affinity → Option ℕ
chain_of s (sticky id) = some id.chain_id
chain_of s _ = elim (get_current_inner s) [ none ↦ none | some n ↦ some (chain_id n) ]

-- `Ctx::chain_id`, where `none` is the panic of the networks actor with no network.
unfoldable pub current_chain_id : World → Option ℕ
unfolding chain_of
current_chain_id w = chain_of w.networks (get_affinity w)

-- `Ctx::network`, where `none` is a panic.
unfoldable pub network : World → Option Network
network w = elim (current_chain_id w) [ none ↦ none | some c ↦ get w.networks (by_chain_id c) ]

-- The part of `Ctx::switch_chain` that goes by the affinity.
unfoldable pub switch_by : ℕ → ℕ → Affinity → Exec World (Unit {0})
switch_by new_chain_id dedup_id global =
    send (chain_changed (record { chain_id = new_chain_id; dedup_id = dedup_id }) none global)
switch_by new_chain_id dedup_id _ = do
  let internal_id : NetworkId = record { chain_id = new_chain_id; dedup_id = 0 }
  set_affinity (sticky internal_id)
  domain ← gets (λ w. w.domain)
  send (chain_changed internal_id domain (sticky internal_id))

unfoldable pub switch_chain : ℕ → Exec World (Unit {0})
unfolding switch_by
switch_chain new_chain_id w =
    (do
      current ← (λ v. unwrap (current_chain_id v) v)
      if current == new_chain_id
          then pure tt
          else if validate_chain_id w.networks new_chain_id
          then switch_by new_chain_id (get_lowest_dedup_id w.networks new_chain_id) (get_affinity w)
          else raise "Invalid chain ID")
      w

-- `connections_set_affinity` of commands.rs
unfoldable pub connections_set_affinity : String → Affinity → Exec World (Unit {0})
unfolding store_affinity
connections_set_affinity domain (sticky id) w =
    if validate_chain_id w.networks id.chain_id
    then (do store_affinity domain (sticky id); send (chain_changed id (some domain) (sticky id))) w
    else raise "Invalid chain ID" w
connections_set_affinity domain affinity w =
    (do
      n ← (λ v. or_raise (get_current_inner v.networks) "networks actor error" v)
      store_affinity domain affinity
      send (chain_changed n.id (some domain) affinity))
      w
