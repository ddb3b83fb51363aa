-- ===== src/Networks/Dedup.antt =====
-- crates/networks/src/actor/mod.rs: the deduplication ids that `add` gives out, by the number of
-- networks on the chain.
use mathlib.Core.List.{map-append}
use ethui.Common.{
  ℕ, String, ◌+◌, ◌<◌, ◌≡◌, refl, sym, ap, ◌≢◌, ◌∙◌, true, false, none, some, List, [], ◌∷◌, ◌++◌,
  arith, All, text_Same, inl, ◌==◌, nat_Same, filter, length, if◌then◌else◌, All-append, All-mono,
  eq_iff,
}
use ethui.Common.Dict
use ethui.Common.Dict.{Dict, values, insert_new, contains_key-get, get-insert}
use ethui.Common.Exec.{ok}
use ethui.Types.{Network, NewNetworkParams, into_network, is_dev, chain_id}
use ethui.Networks.{
  Actor, Env, NetworkGetKey, by_name, add, get_chain_id_count, on_network_changed, resolve,
  set_current,
}
use ethui.Networks.Service.{Request, set_current_request, add_request, handle, run}
use ethui.Networks.Lookup.{add-inserts}

abbrev on_chain : ℕ → List Network → ℕ
on_chain c ns = length (filter (λ n. chain_id n == c) ns)

abbrev UniqueIds : List Network → Type 0
UniqueIds [] = Unit
UniqueIds (n ∷ ns) = All (λ m. m.id ≢ n.id) ns × UniqueIds ns

-- Every deduplication id is below the number of networks on its chain, and no two ids are equal.
pub record IsDense (ns : List Network) : Type 0 where
  pub below : All (λ n. n.id.dedup_id < on_chain n.id.chain_id ns) ns
  pub unique : UniqueIds ns

on_chain-append :
    (c : ℕ) (ns : List Network) (n : Network)
    → on_chain c (ns ++ n ∷ []) ≡ on_chain c ns + (if chain_id n == c then 1 else 0)
on_chain-append c [] n = ground arith
on_chain-append c (m ∷ ns) n = ground (arith, on_chain-append c ns n)

UniqueIds-append :
    (ns : List Network) (n : Network)
    → All (λ m. n.id ≢ m.id) ns
    → UniqueIds ns
    → UniqueIds (ns ++ n ∷ [])
UniqueIds-append [] n fresh u = (tt, tt)
UniqueIds-append (m ∷ ns) n fresh u =
    (All-append (λ x. x.id ≢ m.id) ns (n ∷ []) u.0 (fresh.0, tt), UniqueIds-append ns n fresh.1 u.1)

-- The network that `add` makes has a new id, since its deduplication id is the count.
append-IsDense :
    (ns : List Network) (n : Network)
    → n.id.dedup_id ≡ on_chain n.id.chain_id ns
    → IsDense ns
    → IsDense (ns ++ n ∷ [])
append-IsDense ns n e h = record {
  below =
      All-append _ ns (n ∷ [])
        (All-mono (λ m p. omega (arith, on_chain-append m.id.chain_id ns n, p)) ns h.below)
        (ground (arith, on_chain-append n.id.chain_id ns n), tt);
  unique =
      UniqueIds-append ns n (All-mono (λ m p q. absurd (ground (arith, p, q, e))) ns h.below)
        h.unique;
}

insert-IsDense :
    (d : Dict String Network) (n : Network)
    → Dict.get d n.name ≡ none
    → n.id.dedup_id ≡ on_chain n.id.chain_id (values d)
    → IsDense (values d)
    → IsDense (values (Dict.insert d n.name n))
insert-IsDense d n free e h =
    rw (insert_new d n.name n free, map-append) (append-IsDense (values d) n e h)

free-contains_key :
    (d : Dict String Network) (k : String) → Dict.contains_key d k ≡ false → Dict.get d k ≡ none
free-contains_key d k e = ground (arith, contains_key-get d k)

add-IsDense :
    (env : Env) (p : NewNetworkParams) (s : Actor)
    → IsDense (values s.networks)
    → IsDense (values (add env p s).1.networks)
unfolding add into_network get_chain_id_count
add-IsDense env p s h =
    let n = into_network p (get_chain_id_count s.inner p.chain_id) in
    ground (arith, free-contains_key s.networks p.name, insert-IsDense s.networks n)

networks-set_current :
    (env : Env) (key : NetworkGetKey) (s : Actor) → (set_current env key s).1.networks ≡ s.networks
unfolding set_current resolve on_network_changed
networks-set_current env (by_name n) s = ground arith
networks-set_current env key s = ground arith

-- The messages that neither rename nor remove a network.
abbrev pub IsGrowth : Request → Type 0
IsGrowth (set_current_request key) = Unit
IsGrowth (add_request p) = Unit
IsGrowth _ = ⊥

handle-IsDense :
    (env : Env) (r : Request) (s : Actor)
    → IsGrowth r
    → IsDense (values s.networks)
    → IsDense (values (handle env r s).1.networks)
unfolding handle
handle-IsDense env (set_current_request key) s g h = rw (networks-set_current env key s) h
handle-IsDense env (add_request p) s g h = add-IsDense env p s h
handle-IsDense env _ s g h = absurd g

-- If every deduplication id is below the number of networks on its chain and no two networks share an
-- id, then this stays so as long as networks are only added and chosen, whichever of these messages
-- fail.
pub run-IsDense :
    (s : Actor) (rs : List (Env × Request))
    → All (λ q. IsGrowth q.1) rs
    → IsDense (values s.networks)
    → IsDense (values (run s rs).networks)
unfolding run
run-IsDense s [] g h = h
run-IsDense s ((env, r) ∷ rs) g h =
    run-IsDense (handle env r s).1 rs g.1 (handle-IsDense env r s g.0 h)

-- After a removal the count can be an id in use: if some network `b` has the id that the count of its
-- chain gives the next one, the new name is free, the new network is a development one and the file can
-- be written, then `add` succeeds and leaves two networks of different names with one id.
pub add_shares_id :
    (env : Env) (p : NewNetworkParams) (s : Actor) (b : Network)
    → Dict.get s.networks b.name ≡ some b
    → b.id ≡ record { chain_id = p.chain_id; dedup_id = get_chain_id_count s.inner p.chain_id }
    → Dict.get s.networks p.name ≡ none
    → is_dev env.node (into_network p (get_chain_id_count s.inner p.chain_id)) ≡ ok true
    → env.can_write ≡ true
    → let (r, t) = add env p s in
      (n : Network) × (r ≡ ok tt)
      × (Dict.get t.networks p.name ≡ some n)
      × (Dict.get t.networks b.name ≡ some b)
      × (n.id ≡ b.id)
      × (p.name ≢ b.name)
unfolding into_network
add_shares_id env p s b held e free dev w =
    let n = into_network p (get_chain_id_count s.inner p.chain_id) in
    let (done, at, c, f, m) = add-inserts env p s true free dev (inl refl) w in
    let other : p.name ≢ b.name = λ q. ground (arith, held, free, ap (Dict.get s.networks) q) in
    (
      n,
      done,
      at p.name ∙ ground (arith, eq_iff p.name p.name),
      at b.name ∙ ground (arith, eq_iff p.name b.name, other),
      sym e,
      other,
    )
