-- ===== src/Networks/Statuses.antt =====
-- crates/networks/src/init.rs: the status poller and the actor, which another message may reach between
-- the poller's listing and its update.
use ethui.Common.{
  String, ◌≡◌, Bool, true, Option, none, some, List, [], ◌∷◌, arith, All, text_Same, ◌==◌,
  if◌then◌else◌, eq_iff, Bool-cases, inl, inr,
}
use ethui.Common.Dict
use ethui.Common.Dict.{Dict, values, Distinct, contains_key-get, contains_key-insert, get-insert}
use ethui.Types.{Network, status_Same}
use ethui.Networks.{Actor, Env, insert_all, update_statuses, get_list, remove}
use ethui.Networks.Invariant.{IsConsistent}
use ethui.Networks.Service.{
  update_statuses_request, remove_request, poll_networks, poll_network, any_changes, handle,
}

insert_all-contains :
    (us : List (String × Network)) (d : Dict String Network) (k : String)
    → Dict.contains_key d k ≡ true
    → Dict.contains_key (insert_all d us) k ≡ true
unfolding insert_all
insert_all-contains [] d k h = h
insert_all-contains ((j, n) ∷ us) d k h =
    insert_all-contains us (Dict.insert d j n) k (ground (arith, contains_key-insert d j k n))

poll-contains :
    (answers : Network → Option Bool) (d e : Dict String Network) (k : String)
    → All (λ p. p.0 ≡ p.1.name) d
    → Dict.contains_key d k ≡ true
    → Dict.contains_key (insert_all e (poll_networks answers (values d))) k ≡ true
unfolding insert_all poll_networks Dict.contains_key
poll-contains answers [] e k h c = cc
poll-contains answers ((j, n) ∷ d) e k h c =
    let polled = (poll_network answers n).0 in
    let next = Dict.insert e n.name polled in
    elim (Bool-cases (j == k)) [
      | inl hit ↦
          insert_all-contains (poll_networks answers (values d)) next k
            (ground (arith, contains_key-insert e n.name k polled, eq_iff j k, eq_iff n.name k))
      | inr miss ↦ poll-contains answers d next k h.1 (ground (arith))
    ]

-- A removal between the poller's listing and its update is undone: if the networks are consistent, the
-- poller listed `name`, some status changed, and another message removed `name` since, then the update
-- puts `name` back, whether or not either message could write the file.
pub update_statuses-revives :
    (env env' : Env) (s : Actor) (name : String) (answers : Network → Option Bool)
    → IsConsistent s.networks
    → Dict.contains_key s.networks name ≡ true
    → any_changes answers (get_list s.inner) ≡ true
    → let t = (handle env (remove_request name) s).1 in
      let u = (handle env' (update_statuses_request answers (get_list s.inner)) t).1 in
      Dict.contains_key u.networks name ≡ true
unfolding handle update_statuses get_list
update_statuses-revives env env' s name answers h c change =
    let t = (remove env name s).1 in
    ground (arith, poll-contains answers s.networks t.networks name h.keyed c)

-- A poll changes at most the status: every other field of a polled network is as it was, and the
-- status differs exactly when the poll reports a change, of which it gives the status before.
pub poll_network-only_status :
    (answers : Network → Option Bool) (n : Network)
    → let (m, change) = poll_network answers n in
      (record m { status = n.status } ≡ n)
      × (change ≡ (if m.status == n.status then none else some n.status))
unfolding poll_network
poll_network-only_status answers n = ground (arith)
