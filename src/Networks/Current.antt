-- ===== src/Networks/Current.antt =====
-- crates/networks/src/actor/mod.rs: what becomes of the current network when networks are removed,
-- and of the name that stands for it.
use mathlib.Core.List.{append_assoc}
use ethui.Common.{String, ◌≡◌, true, none, some, [], ◌∷◌, ◌++◌, arith, text_Same, same_refl, eq_iff}
use ethui.Common.Dict
use ethui.Common.Dict.{Dict, values, Distinct, get-insert, contains_key-get, get-remove, get_head}
use ethui.Common.Exec.{ok, err}
use ethui.Types.{id_Same, Network}
use ethui.Broadcast.{network_removed, ui_notify, networks_changed}
use ethui.Networks.{
  Actor, Env, SerializedNetworks, by_name, resolve, reselect, set_current, set_current_name,
  set_networks, remove, get_current_inner,
}
use ethui.Networks.Invariant.{IsConsistent}
use ethui.Networks.Lookup.{changed, on_network_changed-current, get_current_inner-contains}

-- Removing the current network makes the first one that remains current: if the networks are
-- consistent, the current name is that of `n`, `f` is first among the rest and the file can be
-- written, then `remove` succeeds, `f` is current, the file holds the result, and the change of the
-- current network is announced before the removal of `n`.
pub remove_current-reselects :
    (env : Env) (s : Actor) (n f : Network) (rest : Dict String Network)
    → IsConsistent s.networks
    → Dict.get s.networks s.current ≡ some n
    → Dict.remove s.networks s.current ≡ (f.name, f) ∷ rest
    → env.can_write ≡ true
    → let (r, t) = remove env s.current s in
      (r ≡ ok tt)
      × (t.current ≡ f.name)
      × (get_current_inner t.inner ≡ some f)
      × (t.file ≡ some t.inner)
      × (t.sent ≡ (s.sent ++ changed f) ++ (network_removed n ∷ ui_notify networks_changed ∷ []))
unfolding remove reselect
remove_current-reselects env s n f rest h found left w =
    let left_over : Actor = set_networks (Dict.remove s.networks s.current) s in
    let chosen : Actor = set_current_name f.name left_over in
    let now : get_current_inner chosen.inner ≡ some f =
      get_current_inner-contains chosen.inner f (rw left (get_head rest f.name f)) in
    ground (
      arith,
      now,
      on_network_changed-current chosen f now,
      same_refl s.current,
      append_assoc (s.sent ++ changed f) (network_removed n ∷ []) (ui_notify networks_changed ∷ []),
    )

-- Removing the only network, the current one, returns an error and yet removes it: the actor is left
-- with no network, the file and the peers know nothing of it, and `get_current_inner` panics.
pub remove_last-panics :
    (env : Env) (s : Actor) (name : String) (n : Network)
    → s.networks ≡ (name, n) ∷ []
    → s.current ≡ name
    → let (r, t) = remove env name s in
      (r ≡ err "No networks remaining")
      × (t.networks ≡ [])
      × (t.file ≡ s.file)
      × (t.sent ≡ s.sent)
      × (get_current_inner t.inner ≡ none)
unfolding remove reselect get_current_inner Dict.get Dict.remove Dict.contains_key
remove_last-panics env s name n e c = ground (arith, eq_iff name name)

-- A name that no network has is stood in for by the first network.
get_current_inner-missing :
    (s : SerializedNetworks) (k : String) (f : Network) (rest : Dict String Network)
    → Dict.get s.networks s.current ≡ none
    → s.networks ≡ (k, f) ∷ rest
    → get_current_inner s ≡ some f
unfolding get_current_inner
get_current_inner-missing s k f rest missing e =
    ground (arith, contains_key-get s.networks s.current)

-- `set_current` takes any name: if no network has it, some network is current and the file can be
-- written, the call succeeds, the name is kept in the file, and the first network stands in for it.
pub set_current-unknown :
    (env : Env) (name : String) (s : Actor) (k : String) (f m : Network)
    (rest : Dict String Network)
    → Dict.get s.networks name ≡ none
    → s.networks ≡ (k, f) ∷ rest
    → get_current_inner s.inner ≡ some m
    → env.can_write ≡ true
    → let (r, t) = set_current env (by_name name) s in
      (r ≡ ok tt)
      × (t.current ≡ name)
      × (t.file ≡ some t.inner)
      × (get_current_inner t.inner ≡ some f)
unfolding set_current resolve
set_current-unknown env name s k f m rest missing e cur w =
    let chosen : Actor = set_current_name name s in
    let now = get_current_inner-missing chosen.inner k f rest missing e in
    ground (arith, now, on_network_changed-current chosen f now)
