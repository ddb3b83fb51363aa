-- ===== src/Networks/Lookup.antt =====
-- crates/networks/src/actor/mod.rs: looking networks up, adding one, and choosing the current one.
use ethui.Common.{
  String, ◌≡◌, ◌⊎◌, any-find, refl, Bool, true, none, some, List, [], ◌∷◌, ◌++◌, arith, text_Same,
  ◌==◌, find, if◌then◌else◌, same_refl, find_holds, eq_iff,
}
use mathlib.Core.List.{append_assoc}
use ethui.Common.Dict
use ethui.Common.Dict.{Dict, values, Distinct, get-insert, contains_key-get, get-remove}
use ethui.Common.Exec.{ok, err}
use ethui.Types.{id_Same, Network, NewNetworkParams, into_network, is_dev, global}
use ethui.Broadcast.{
  Message, chain_changed, network_selected, network_added, ui_notify, current_network_changed,
  networks_changed,
}
use ethui.Networks.{
  Actor, Env, SerializedNetworks, NetworkGetKey, by_id, by_chain_id, by_name, on_network_changed,
  resolve, set_current, set_current_name, add, get, get_current_inner, get_chain_id_count,
}
use ethui.Networks.Invariant.{IsConsistent}

-- A network that a scan of the values finds is the one under its name.
find-get :
    (p : Network → Bool) (d : Dict String Network) (n : Network)
    → IsConsistent d
    → find p (values d) ≡ some n
    → Dict.get d n.name ≡ some n
unfolding Dict.get
find-get p [] n h e = cc
find-get p ((k, m) ∷ d) n h e = ground (
  arith,
  find-get p d n (record { distinct = h.distinct.1; keyed = h.keyed.1 }),
  same_refl m.name,
  eq_iff k n.name,
)

get-find_name :
    (d : Dict String Network) (name : String)
    → IsConsistent d
    → find (λ n. n.name == name) (values d) ≡ Dict.get d name
unfolding Dict.get
get-find_name [] name h = refl
get-find_name ((k, m) ∷ d) name h =
    ground (arith, get-find_name d name (record { distinct = h.distinct.1; keyed = h.keyed.1 }))

-- If the networks are consistent, the scan by name finds what the map holds under the name.
pub get-by_name :
    (s : SerializedNetworks) (name : String)
    → IsConsistent s.networks
    → get s (by_name name) ≡ Dict.get s.networks name
unfolding get
get-by_name s name h = get-find_name s.networks name h

-- If the networks are consistent, what a key finds stands under its own name.
pub get_sound :
    (s : SerializedNetworks) (key : NetworkGetKey) (n : Network)
    → IsConsistent s.networks
    → get s key ≡ some n
    → Dict.get s.networks n.name ≡ some n
unfolding get
get_sound s (by_id i) n h e = find-get _ s.networks n h e
get_sound s (by_chain_id c) n h e = find-get _ s.networks n h e
get_sound s (by_name name) n h e = find-get _ s.networks n h e

pub get_current_inner-contains :
    (s : SerializedNetworks) (n : Network)
    → Dict.get s.networks s.current ≡ some n
    → get_current_inner s ≡ some n
unfolding get_current_inner
get_current_inner-contains s n e = ground (arith, contains_key-get s.networks s.current)

-- A key that finds `n` stands for its name.
resolve-get :
    (key : NetworkGetKey) (s : Actor) (n : Network)
    → get s.inner key ≡ some n
    → resolve key s ≡ (ok n.name, s)
unfolding resolve get
resolve-get (by_id i) s n e = rw e
resolve-get (by_chain_id c) s n e = rw e
resolve-get (by_name name) s n e =
    ground (arith, find_holds (λ m. m.name == name) (values s.networks) n e, eq_iff n.name name)

-- The messages that tell of a new current network.
abbrev pub changed : Network → List Message
changed n =
    chain_changed n.id none global ∷ ui_notify current_network_changed ∷ network_selected n ∷ []

pub on_network_changed-current :
    (s : Actor) (n : Network)
    → get_current_inner s.inner ≡ some n
    → on_network_changed s ≡ (ok tt, record s { sent = s.sent ++ changed n })
unfolding on_network_changed
on_network_changed-current s n e = ground (
  arith,
  append_assoc s.sent (chain_changed n.id none global ∷ [])
      (ui_notify current_network_changed ∷ []),
  append_assoc s.sent (chain_changed n.id none global ∷ ui_notify current_network_changed ∷ [])
      (network_selected n ∷ []),
)

-- If the networks are consistent, the key finds `n`, `m` is the current network and the file can be
-- written, then `set_current` succeeds, `n` is the current network, the networks are as they were, the
-- file holds the result, and the change is announced exactly if the names of `m` and `n` differ.
pub set_current-selects :
    (env : Env) (key : NetworkGetKey) (s : Actor) (n m : Network)
    → IsConsistent s.networks
    → get s.inner key ≡ some n
    → get_current_inner s.inner ≡ some m
    → env.can_write ≡ true
    → let (r, t) = set_current env key s in
      (r ≡ ok tt)
      × (get_current_inner t.inner ≡ some n)
      × (t.networks ≡ s.networks)
      × (t.file ≡ some t.inner)
      × (t.sent ≡ (if m.name == n.name then s.sent else s.sent ++ changed n))
unfolding set_current
set_current-selects env key s n m h found cur w =
    let chosen : Actor = set_current_name n.name s in
    let now = get_current_inner-contains chosen.inner n (get_sound s.inner key n h found) in
    rw (resolve-get key s n found) (ground (arith, now, on_network_changed-current chosen n now))

added : NewNetworkParams → Actor → Actor
added p s = record {
  inner = record s.inner { networks = Dict.insert s.networks p.name n };
  file = some (record s.inner { networks = Dict.insert s.networks p.name n });
  sent = s.sent ++ (network_added n ∷ ui_notify networks_changed ∷ []);
}
  where
    n : Network
    n = into_network p (get_chain_id_count s.inner p.chain_id)

add-added :
    (env : Env) (p : NewNetworkParams) (s : Actor) (dev : Bool)
    → Dict.get s.networks p.name ≡ none
    → is_dev env.node (into_network p (get_chain_id_count s.inner p.chain_id)) ≡ ok dev
    → (dev ≡ true)
      ⊎ (get s.inner (by_id (into_network p (get_chain_id_count s.inner p.chain_id)).id) ≡ none)
    → env.can_write ≡ true
    → add env p s ≡ (ok tt, added p s)
unfolding add get into_network added
add-added env p s dev free answer fresh w =
    let i = (into_network p (get_chain_id_count s.inner p.chain_id)).id in
    ground (
      arith,
      contains_key-get s.networks p.name,
      any-find (λ (n : Network). n.id == i) (values s.networks),
      append_assoc s.sent
          (network_added (into_network p (get_chain_id_count s.inner p.chain_id)) ∷ [])
          (ui_notify networks_changed ∷ []),
    )

-- If no network has the new name, the node check gives an answer, the network is a development one or
-- no network has the id that the count of its chain gives it, and the file can be written, then `add`
-- succeeds: the new network stands under its name, every other name has what it had, the current name
-- stays, the file holds the result, and the peers are told last.
pub add-inserts :
    (env : Env) (p : NewNetworkParams) (s : Actor) (dev : Bool)
    → Dict.get s.networks p.name ≡ none
    → is_dev env.node (into_network p (get_chain_id_count s.inner p.chain_id)) ≡ ok dev
    → (dev ≡ true)
      ⊎ (get s.inner (by_id (into_network p (get_chain_id_count s.inner p.chain_id)).id) ≡ none)
    → env.can_write ≡ true
    → let (r, t) = add env p s in
      let n = into_network p (get_chain_id_count s.inner p.chain_id) in
      (r ≡ ok tt)
      × ((j : String)
          → Dict.get t.networks j ≡ (if p.name == j then some n else Dict.get s.networks j))
      × (t.current ≡ s.current)
      × (t.file ≡ some t.inner)
      × (t.sent ≡ s.sent ++ (network_added n ∷ ui_notify networks_changed ∷ []))
unfolding added into_network
add-inserts env p s dev free answer fresh w =
    let n = into_network p (get_chain_id_count s.inner p.chain_id) in
    rw (add-added env p s dev free answer fresh w)
      (refl, λ j. get-insert s.networks p.name j n, refl, refl, refl)

-- If the file can be written, an `add` that returns an error changes nothing and sends nothing.
pub add_refused_unchanged :
    (env : Env) (p : NewNetworkParams) (s : Actor) (e : String)
    → env.can_write ≡ true
    → (add env p s).0 ≡ err e
    → (add env p s).1 ≡ s
unfolding add
add_refused_unchanged env p s e w h = ground arith
