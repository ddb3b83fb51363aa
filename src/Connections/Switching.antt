-- ===== src/Connections/Switching.antt =====
-- crates/connections/src/ctx.rs: `wallet_switchEthereumChain` on one connection.
use ethui.Common.{
  ℕ, String, ◌<◌, ◌≡◌, refl, ◌≢◌, true, false, none, some, [], ◌∷◌, ◌++◌, arith, nat_Same,
  text_Same,
}
use ethui.Common.Dict.{get-insert_self}
use ethui.Common.Exec.{ok, err}
use ethui.Types.{NetworkId, Affinity, unset, global, sticky, id_Same}
use ethui.Broadcast.{chain_changed}
use ethui.Networks.{get, by_id, validate_chain_id, get_lowest_dedup_id}
use ethui.Networks.Lowest.{no_id_below}
use ethui.Connections.{
  World, affinity_of, updated, store_affinity, get_affinity, set_affinity, current_chain_id,
  switch_by, switch_chain,
}

-- A switch to a chain that is not the current one and that no network has is refused, and changes
-- nothing.
pub switch_chain_refused :
    (c m : ℕ) (w : World)
    → current_chain_id w ≡ some m
    → m ≢ c
    → validate_chain_id w.networks c ≡ false
    → switch_chain c w ≡ (err "Invalid chain ID", w)
unfolding switch_chain
switch_chain_refused c m w cur ne bad = ground (arith)

switch_chain-known :
    (c m : ℕ) (w : World)
    → current_chain_id w ≡ some m
    → m ≢ c
    → validate_chain_id w.networks c ≡ true
    → switch_chain c w ≡ switch_by c (get_lowest_dedup_id w.networks c) (get_affinity w) w
unfolding switch_chain
switch_chain-known c m w cur ne known = rw cur (ground arith)

binds :
    (a : Affinity) (c l : ℕ) (w : World) (domain : String)
    → w.domain ≡ some domain
    → a ≢ global
    → w.can_write ≡ true
    → let (r, v) = switch_by c l a w in
      let id : NetworkId = record { chain_id = c; dedup_id = 0 } in
      (r ≡ ok tt)
      × (current_chain_id v ≡ some c)
      × (affinity_of v.store.affinities domain ≡ sticky id)
      × (v.store.file ≡ some v.store.affinities)
      × (v.sent ≡ w.sent ++ chain_changed id (some domain) (sticky id) ∷ [])
unfolding switch_by set_affinity store_affinity current_chain_id get_affinity affinity_of updated
binds global c l w domain d free can = absurd (free refl)
binds _ c l w domain d free can = ground (
  arith,
  get-insert_self w.store.affinities domain (sticky (record { chain_id = c; dedup_id = 0 })),
)

asks :
    (c l m : ℕ) (w : World)
    → current_chain_id w ≡ some m
    → let (r, v) = switch_by c l global w in
      let id : NetworkId = record { chain_id = c; dedup_id = l } in
      (r ≡ ok tt)
      × (v.store ≡ w.store)
      × (current_chain_id v ≡ some m)
      × (v.sent ≡ w.sent ++ chain_changed id none global ∷ [])
unfolding switch_by current_chain_id get_affinity
asks c l m w cur = (refl, refl, cur, refl)

get_affinity-none : (w : World) → w.domain ≡ none → get_affinity w ≡ unset
unfolding get_affinity
get_affinity-none w d = rw d

goes_nowhere :
    (c l m : ℕ) (w : World)
    → w.domain ≡ none
    → current_chain_id w ≡ some m
    → let (r, v) = switch_by c l unset w in
      (r ≡ ok tt) × (current_chain_id v ≡ some m) × (v.store ≡ w.store)
unfolding switch_by set_affinity current_chain_id get_affinity
goes_nowhere c l m w d cur = ground arith

-- Switching a connection of a domain that does not follow the global choice binds the domain: if the
-- chain is known, is not the current one and the file can be written, then the switch succeeds, the
-- connection is on that chain, the domain has the sticky affinity with the deduplication id 0, the
-- file has the affinities, and the peers of the domain are told of it.
pub switch_chain-binds :
    (c m : ℕ) (w : World) (domain : String)
    → w.domain ≡ some domain
    → get_affinity w ≢ global
    → current_chain_id w ≡ some m
    → m ≢ c
    → validate_chain_id w.networks c ≡ true
    → w.can_write ≡ true
    → let (r, v) = switch_chain c w in
      let id : NetworkId = record { chain_id = c; dedup_id = 0 } in
      (r ≡ ok tt)
      × (current_chain_id v ≡ some c)
      × (affinity_of v.store.affinities domain ≡ sticky id)
      × (v.store.file ≡ some v.store.affinities)
      × (v.sent ≡ w.sent ++ chain_changed id (some domain) (sticky id) ∷ [])
switch_chain-binds c m w domain d free cur ne known can =
    rw (switch_chain-known c m w cur ne known)
      (binds (get_affinity w) c (get_lowest_dedup_id w.networks c) w domain d free can)

-- A connection with the global affinity binds nothing: if the chain is known and is not the current
-- one, the switch succeeds and asks for the network of that chain with the lowest deduplication id, for
-- all who follow the global choice; until the networks actor answers, the connection stays where it was.
pub switch_chain-asks :
    (c m : ℕ) (w : World)
    → get_affinity w ≡ global
    → current_chain_id w ≡ some m
    → m ≢ c
    → validate_chain_id w.networks c ≡ true
    → let (r, v) = switch_chain c w in
      let id : NetworkId = record { chain_id = c; dedup_id = get_lowest_dedup_id w.networks c } in
      (r ≡ ok tt)
      × (v.store ≡ w.store)
      × (current_chain_id v ≡ some m)
      × (v.sent ≡ w.sent ++ chain_changed id none global ∷ [])
switch_chain-asks c m w g cur ne known =
    rw (switch_chain-known c m w cur ne known, g)
      (asks c (get_lowest_dedup_id w.networks c) m w cur)

-- A connection with no domain cannot switch: if the chain is known and is not the current one, the
-- switch succeeds, and the connection is still on the old chain.
pub switch_chain_without_domain :
    (c m : ℕ) (w : World)
    → w.domain ≡ none
    → current_chain_id w ≡ some m
    → m ≢ c
    → validate_chain_id w.networks c ≡ true
    → let (r, v) = switch_chain c w in
      (r ≡ ok tt) × (current_chain_id v ≡ some m) × (v.store ≡ w.store)
switch_chain_without_domain c m w d cur ne known =
    rw (switch_chain-known c m w cur ne known, get_affinity-none w d)
      (goes_nowhere c (get_lowest_dedup_id w.networks c) m w d cur)

-- The deduplication id of the affinity is always 0, whatever ids the chain has: under the conditions
-- of `switch_chain-binds`, if every network of the chain has a higher one, the domain is bound to an id
-- that no network has, so that `on_chain_removed` of none of them unbinds it.
pub switch_chain-dangles :
    (c m : ℕ) (w : World) (domain : String)
    → w.domain ≡ some domain
    → get_affinity w ≢ global
    → current_chain_id w ≡ some m
    → m ≢ c
    → validate_chain_id w.networks c ≡ true
    → w.can_write ≡ true
    → 0 < get_lowest_dedup_id w.networks c
    → let v = (switch_chain c w).1 in
      (id : NetworkId) × (affinity_of v.store.affinities domain ≡ sticky id)
      × (id.chain_id ≡ c)
      × (get w.networks (by_id id) ≡ none)
switch_chain-dangles c m w domain d free cur ne known can low =
    let id : NetworkId = record { chain_id = c; dedup_id = 0 } in
    (
      id,
      (switch_chain-binds c m w domain d free cur ne known can).2,
      refl,
      no_id_below w.networks c 0 low,
    )
