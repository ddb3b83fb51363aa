-- ===== src/Rpc/Updating.antt =====
-- crates/rpc/src/methods/chain_update.rs: the network that it switches to.
use ethui.Common.{
  ℕ, ◌<◌, ◌≡◌, ◌≢◌, sym, ◌∙◌, String, Bool, true, false, none, some, List, [], ◌∷◌, ◌++◌, ◌==◌,
  arith, nat_Same, text_Same, eq_iff, find, length, filter,
}
use mathlib.Core.List.{append_assoc, map-append}
use ethui.Common.Dict
use ethui.Common.Dict.{Dict, values, insert_new, get-insert, contains_key-get}
use ethui.Common.Radix.{u64_mod}
use ethui.Types.{Url, id_Same, Network, NewNetworkParams, chain_id, into_network}
use ethui.Networks
use ethui.Networks.{
  Actor, by_id, by_name, get, get_current_inner, set_current, add, get_chain_id_count,
}
use ethui.Networks.Service
use ethui.Networks.Service.{Request, handle, add_request, set_current_request}
use ethui.Networks.Invariant.{IsConsistent, handle-IsConsistent}
use ethui.Networks.Lookup.{set_current-selects, get_current_inner-contains, get-by_name, get_sound}
use ethui.Rpc.Method.{done, await_verdict, accepted}
use ethui.Rpc.Chains.{
  ChainParams, World, Env, new_network_params, build_network, chain_update, url_of, params_of,
}

-- What `chain_update` asks for can be built, the current network `m` is on another chain, the file can
-- be written, and the user accepts the dialogs, while nobody else sends a message.
pub record Proceeds (env : Env) (p : ChainParams) (w : World) (m : Network) : Type 0 where
  pub is_u64 : p.chain_id < u64_mod
  pub http : Url
  pub has_http : url_of env "http" p.rpc_urls ≡ some http
  pub consistent : IsConsistent w.networks.networks
  pub current : Dict.get w.networks.networks w.networks.current ≡ some m
  pub elsewhere : chain_id m ≢ p.chain_id
  pub writes : env.node.can_write ≡ true
  pub accepts : (preset : String) → await_verdict (env.delivers preset) ≡ accepted
  pub alone : (preset : String) → env.meanwhile preset ≡ []

-- If `chain_update` proceeds from the current network `m`, `n` has the name that it asks for and is on
-- the chain that it asks for, and `n` is what its own id finds, then only the switch is asked for,
-- afterwards `n` is the current network, and the networks are as they were.
pub chain_update-selects :
    (env : Env) (p : ChainParams) (w : World) (m n : Network)
    → Proceeds env p w m
    → get w.networks.inner (by_name p.chain_name) ≡ some n
    → chain_id n ≡ p.chain_id
    → get w.networks.inner (by_id n.id) ≡ some n
    → let (r, v) = chain_update env p w in
      (r ≡ done false)
      × (get_current_inner v.networks.inner ≡ some n)
      × (v.networks.networks ≡ w.networks.networks)
      × (v.shown ≡ w.shown ++ "chain-switch" ∷ [])
unfolding chain_update build_network new_network_params Service.run handle into_network
chain_update-selects env p w m n h named on_chain by_its_id =
    let now = get_current_inner-contains w.networks.inner m h.current in
    ground (
      arith,
      set_current-selects env.node (by_id n.id) w.networks n m h.consistent by_its_id now h.writes,
      h.is_u64,
      h.has_http,
      h.elsewhere,
      h.accepts "chain-switch",
      h.alone "chain-switch",
    )

find-append :
    (q : Network → Bool) (ns : List Network) (n : Network)
    → q n ≡ false
    → find q (ns ++ n ∷ []) ≡ find q ns
find-append q [] n e = ground arith
find-append q (m ∷ ns) n e = ground (arith, find-append q ns n e)

values-insert_new :
    (d : Dict String Network) (name : String) (n : Network)
    → Dict.get d name ≡ none
    → values (Dict.insert d name n) ≡ values d ++ n ∷ []
values-insert_new d name n e = rw (insert_new d name n e) (map-append (λ e. e.1) d ((name, n) ∷ []))

-- A chain that has a network with an id counts one at least.
count-positive :
    (c d : ℕ) (ns : List Network) (a : Network)
    → find (λ n. n.id == (record { chain_id = c; dedup_id = d })) ns ≡ some a
    → 0 < length (filter (λ n. chain_id n == c) ns)
count-positive c d [] a e = cc
count-positive c d (n ∷ ns) a e = ground (arith, count-positive c d ns a)

-- The first id of a chain that has it goes on to find the same network, whatever `add` does.
add-get_first :
    (env : Networks.Env) (p : NewNetworkParams) (s : Actor) (a : Network)
    → Dict.get s.networks p.name ≡ none
    → get s.inner (by_id (record { chain_id = p.chain_id; dedup_id = 0 })) ≡ some a
    → get (add env p s).1.inner (by_id (record { chain_id = p.chain_id; dedup_id = 0 })) ≡ some a
unfolding add get get_chain_id_count into_network
add-get_first env p s a free e =
    let n = into_network p (get_chain_id_count s.inner p.chain_id) in
    ground (
      arith,
      values-insert_new s.networks p.name n free,
      count-positive p.chain_id 0 (values s.networks) a e,
      find-append (λ m. m.id == (record { chain_id = p.chain_id; dedup_id = 0 }))
          (values s.networks) n,
    )

add-get_current :
    (env : Networks.Env) (p : NewNetworkParams) (s : Actor) (m : Network)
    → Dict.get s.networks p.name ≡ none
    → Dict.get s.networks s.current ≡ some m
    → Dict.get (add env p s).1.networks (add env p s).1.current ≡ some m
unfolding add into_network
add-get_current env p s m free e =
    let n = into_network p (get_chain_id_count s.inner p.chain_id) in
    ground (arith, get-insert s.networks p.name s.current n, eq_iff p.name s.current)

-- If `chain_update` proceeds from the current network `m`, no network has the name that it asks for, and
-- `a` is the network that the first id of the chain finds, then a new network is asked for and then a
-- switch, and afterwards `a` is the current network, whether or not the new one could be added.
pub chain_update-selects_other :
    (env : Env) (p : ChainParams) (w : World) (m a : Network)
    → Proceeds env p w m
    → get w.networks.inner (by_name p.chain_name) ≡ none
    → get w.networks.inner (by_id (record { chain_id = p.chain_id; dedup_id = 0 })) ≡ some a
    → let (r, v) = chain_update env p w in
      (r ≡ done false)
      × (get_current_inner v.networks.inner ≡ some a)
      × (a.name ≢ p.chain_name)
      × (v.shown ≡ w.shown ++ "chain-add" ∷ "chain-switch" ∷ [])
unfolding chain_update build_network new_network_params Service.run handle into_network
chain_update-selects_other env p w m a h unnamed first =
    let s = w.networks in
    let q = params_of env p p.chain_id h.http in
    let t = (add env.node q s).1 in
    let free = sym (get-by_name s.inner p.chain_name h.consistent) ∙ unnamed in
    let now = get_current_inner-contains s.inner m h.current in
    let still =
      get_current_inner-contains t.inner m (add-get_current env.node q s m free h.current) in
    let picked =
      set_current-selects env.node (by_id (record { chain_id = p.chain_id; dedup_id = 0 })) t a m
        (handle-IsConsistent env.node (add_request q) s h.consistent)
        (add-get_first env.node q s a free first) still h.writes in
    ground (
      arith,
      picked,
      still,
      now,
      unnamed,
      free,
      get_sound s.inner (by_id (record { chain_id = p.chain_id; dedup_id = 0 })) a h.consistent
          first,
      h.is_u64,
      h.has_http,
      h.elsewhere,
      h.accepts "chain-switch",
      h.alone "chain-switch",
      h.accepts "chain-add",
      h.alone "chain-add",
      append_assoc w.shown ("chain-add" ∷ []) ("chain-switch" ∷ []),
    )
