-- ===== src/Networks/Invariant.antt =====
-- crates/networks/src/actor/mod.rs: what every message of the networks actor keeps.
use ethui.Common.{String, ◌≡◌, refl, Bool, Option, List, [], ◌∷◌, arith, All, text_Same}
use ethui.Common.Dict
use ethui.Common.Dict.{
  Dict, values, Distinct, insert-Distinct, remove-Distinct, All-insert, All-remove, All-get,
  get-insert,
}
use ethui.Types.{Network, NewNetworkParams, into_network}
use ethui.Networks.{
  Actor, Env, NetworkGetKey, by_name, on_network_changed, reselect, resolve, set_current, add,
  update, remove, update_statuses, insert_all, get_chain_id_count,
}
use ethui.Networks.Service.{
  Request, set_current_request, add_request, update_request, remove_request,
  update_statuses_request, poll_network, poll_networks, handle, run,
}

-- Each network stands under its own name, and no name stands twice.
pub record IsConsistent (d : Dict String Network) : Type 0 where
  pub distinct : Distinct d
  pub keyed : All (λ p. p.0 ≡ p.1.name) d

module _ (d : Dict String Network) (h : IsConsistent d) where
  insert-IsConsistent : (k : String) (n : Network) → k ≡ n.name → IsConsistent (Dict.insert d k n)
  insert-IsConsistent k n e = record {
    distinct = insert-Distinct d k n h.distinct;
    keyed = All-insert (λ p. p.0 ≡ p.1.name) d k n e h.keyed;
  }

  remove-IsConsistent : (k : String) → IsConsistent (Dict.remove d k)
  remove-IsConsistent k = record {
    distinct = remove-Distinct d k h.distinct;
    keyed = All-remove (λ p. p.0 ≡ p.1.name) d k h.keyed;
  }

networks-on_network_changed : (s : Actor) → (on_network_changed s).1.networks ≡ s.networks
unfolding on_network_changed
networks-on_network_changed s = ground arith

networks-reselect : (name : String) (s : Actor) → (reselect name s).1.networks ≡ s.networks
unfolding reselect on_network_changed
networks-reselect name s = ground arith

add-IsConsistent :
    (env : Env) (p : NewNetworkParams) (s : Actor)
    → IsConsistent s.networks
    → IsConsistent (add env p s).1.networks
unfolding add into_network
add-IsConsistent env p s h =
    let n = into_network p (get_chain_id_count s.inner p.chain_id) in
    ground (arith, insert-IsConsistent s.networks h p.name n refl)

set_current-IsConsistent :
    (env : Env) (key : NetworkGetKey) (s : Actor)
    → IsConsistent s.networks
    → IsConsistent (set_current env key s).1.networks
unfolding set_current resolve on_network_changed
set_current-IsConsistent env (by_name n) s h = ground arith
set_current-IsConsistent env key s h = ground arith

update-IsConsistent :
    (env : Env) (old : String) (n : Network) (s : Actor)
    → IsConsistent s.networks
    → IsConsistent (update env old n s).1.networks
unfolding update on_network_changed
update-IsConsistent env old n s h = ground (
  arith,
  insert-IsConsistent (Dict.remove s.networks old) (remove-IsConsistent s.networks h old) n.name n
      refl,
)

remove_message-IsConsistent :
    (env : Env) (name : String) (s : Actor)
    → IsConsistent s.networks
    → IsConsistent (remove env name s).1.networks
unfolding remove reselect on_network_changed
remove_message-IsConsistent env name s h = ground (arith, remove-IsConsistent s.networks h name)

insert_all-IsConsistent :
    (us : List (String × Network)) (d : Dict String Network)
    → All (λ p. p.0 ≡ p.1.name) us
    → IsConsistent d
    → IsConsistent (insert_all d us)
unfolding insert_all
insert_all-IsConsistent [] d hs h = h
insert_all-IsConsistent ((k, n) ∷ us) d hs h =
    insert_all-IsConsistent us (Dict.insert d k n) hs.1 (insert-IsConsistent d h k n hs.0)

-- What the poller sends is keyed by name, whatever the nodes answered.
poll_networks-keyed :
    (answers : Network → Option Bool) (ns : List Network)
    → All (λ p. p.0 ≡ p.1.name) (poll_networks answers ns)
unfolding poll_networks poll_network
poll_networks-keyed answers [] = tt
poll_networks-keyed answers (n ∷ ns) = ground (arith, poll_networks-keyed answers ns)

-- One message, failing or not, keeps the networks consistent.
pub handle-IsConsistent :
    (env : Env) (r : Request) (s : Actor)
    → IsConsistent s.networks
    → IsConsistent (handle env r s).1.networks
unfolding handle update_statuses
handle-IsConsistent env (set_current_request key) s h = set_current-IsConsistent env key s h
handle-IsConsistent env (add_request p) s h = add-IsConsistent env p s h
handle-IsConsistent env (update_request old n) s h = update-IsConsistent env old n s h
handle-IsConsistent env (remove_request name) s h = remove_message-IsConsistent env name s h
handle-IsConsistent env (update_statuses_request answers ns) s h =
    let us = poll_networks answers ns in
    ground (arith, insert_all-IsConsistent us s.networks (poll_networks-keyed answers ns) h)

-- From consistent networks, whatever messages arrive and whichever of them fail, every network
-- stands under its own name and no name stands twice.
pub run-IsConsistent :
    (s : Actor) (rs : List (Env × Request))
    → IsConsistent s.networks
    → IsConsistent (run s rs).networks
unfolding run
run-IsConsistent s [] h = h
run-IsConsistent s ((env, r) ∷ rs) h =
    run-IsConsistent (handle env r s).1 rs (handle-IsConsistent env r s h)
