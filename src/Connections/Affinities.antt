-- ===== src/Connections/Affinities.antt =====
-- crates/connections/src/store.rs and utils.rs: what the store keeps for each domain.
use ethui.Common.{
  String, ◌≡◌, refl, true, not, ◌||◌, ◌↔◌, Option, none, some, [], ◌∷◌, arith, filter, ◌==◌,
  text_Same, option_Same, if◌then◌else◌, eq_iff, option_same_iff,
}
use ethui.Common.Dict
use ethui.Common.Dict.{Dict, Distinct, get-insert, get-remove, insert-Distinct, remove-Distinct}
use ethui.Common.Exec.{ok}
use ethui.Types.{NetworkId, Affinity, unset, global, sticky, affinity_Same, is_unset, is_global}
use ethui.Connections.{
  Store, World, affinity_of, updated, store_affinity, on_chain_removed, affinity_matches,
}

affinity_of-updated :
    (d : Dict String Affinity) (k j : String) (a : Affinity)
    → affinity_of (updated d k a) j ≡ (if k == j then a else affinity_of d j)
unfolding affinity_of updated
affinity_of-updated d k j unset = ground (arith, get-remove d k j)
affinity_of-updated d k j a = ground (arith, get-insert d k j a)

-- Setting a domain's affinity, `Unset` included, is what the domain then has, and no other domain is
-- touched. The result is an error exactly when the file cannot be written, and then memory has the new
-- affinity and the file the old contents.
pub store_affinity-exact :
    (domain : String) (a : Affinity) (w : World)
    → let (r, v) = store_affinity domain a w in
      ((j : String)
        → affinity_of v.store.affinities j
          ≡ (if domain == j then a else affinity_of w.store.affinities j))
      × ((r ≡ ok tt) ↔ (w.can_write ≡ true))
      × (v.store.file ≡ (if w.can_write then some v.store.affinities else w.store.file))
      × (v.sent ≡ w.sent)
unfolding store_affinity
store_affinity-exact domain a w = (
  λ j. ground (arith, affinity_of-updated w.store.affinities domain j a),
  ground arith,
  ground arith,
  ground arith,
)

get-retain :
    (d : Dict String Affinity) (id : NetworkId) (k : String)
    → Distinct d
    → Dict.get (filter (λ p. not (p.1 == sticky id)) d) k
      ≡ (elim (Dict.get d k) [ none ↦ none | some a ↦ if a == sticky id then none else some a ])
unfolding Dict.get
get-retain [] id k h = refl
get-retain ((j, a) ∷ d) id k h = ground (arith, get-retain d id k h.1, eq_iff j k)

-- If no domain stands twice, then when a network goes, each domain that was bound to its id is unbound, and every other domain keeps
-- what it had.
pub on_chain_removed-unbinds :
    (id : NetworkId) (s : Store) (domain : String)
    → Distinct s.affinities
    → affinity_of (on_chain_removed id s).affinities domain ≡ (
        if affinity_of s.affinities domain == sticky id
        then unset
        else affinity_of s.affinities domain)
unfolding affinity_of on_chain_removed
on_chain_removed-unbinds id s domain h = ground (arith, get-retain s.affinities id domain h)

abbrev IsFree : Affinity → Type 0
IsFree (sticky id) = ⊥
IsFree _ = Unit

-- The peers that a chain change is for: with a sticky affinity those of the domain; otherwise those
-- with no domain and those whose domain is not bound to a network.
abbrev pub Reaches : Dict String Affinity → Option String → Option String → Affinity → Type 0
Reaches d own other (sticky id) = own ≡ other
Reaches d none other _ = Unit
Reaches d (some k) other _ = IsFree (affinity_of d k)

unbound_iff : (a : Affinity) → ((is_unset a || is_global a) ≡ true) ↔ IsFree a
unfolding is_unset is_global
unbound_iff a = ground arith

-- `affinity_matches` holds exactly of the peers that a chain change is for.
pub affinity_matches-Reaches :
    (d : Dict String Affinity) (own other : Option String) (a : Affinity)
    → (affinity_matches d own other a ≡ true) ↔ Reaches d own other a
unfolding affinity_matches
affinity_matches-Reaches d own other (sticky id) = option_same_iff own other
affinity_matches-Reaches d none other unset = ground arith
affinity_matches-Reaches d none other global = ground arith
affinity_matches-Reaches d (some k) other unset = unbound_iff (affinity_of d k)
affinity_matches-Reaches d (some k) other global = unbound_iff (affinity_of d k)
