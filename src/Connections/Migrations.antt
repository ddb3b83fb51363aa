-- ===== src/Connections/Migrations.antt =====
-- crates/connections/src/migrations.rs: the formats of the connections file, and the migration of an old
-- one to the latest. The version of a format is its constructor.
use ethui.Common.{
  ℕ, zero, suc, String, ◌≡◌, refl, Option, none, some, map, text_Same, arith, Option-cases, inl,
  inr,
}
use ethui.Common.Dict
use ethui.Common.Dict.{Dict, get-map}
use ethui.Types.{Affinity, unset, global, sticky}
use ethui.Connections.{affinity_of}

pub data AffinityV0 : Type 0 where
  unset_v0 : AffinityV0
  global_v0 : AffinityV0
  sticky_v0 : ℕ → AffinityV0

pub record SerializedStoreV0 : Type 0 where
  pub affinities : Dict String AffinityV0

pub record SerializedStoreV1 : Type 0 where
  pub affinities : Dict String AffinityV0

pub data Versions : Type 0 where
  v0 : SerializedStoreV0 → Versions
  v1 : SerializedStoreV1 → Versions
  v2 : Dict String Affinity → Versions

abbrev pub to_affinity : AffinityV0 → Affinity
to_affinity (sticky_v0 chain_id) = sticky (record { chain_id = chain_id; dedup_id = 0 })
to_affinity unset_v0 = unset
to_affinity global_v0 = global

unfoldable pub migrate_affinities_from_v1_to_v2 : Dict String AffinityV0 → Dict String Affinity
migrate_affinities_from_v1_to_v2 = map (λ p. (p.0, to_affinity p.1))

-- `run_migrations`, which calls itself on the second format for the first; the fuel bounds these calls.
unfoldable pub run_migrations : ℕ → Versions → Option (Dict String Affinity)
run_migrations fuel (v2 latest) = some latest
run_migrations fuel (v1 s) = some (migrate_affinities_from_v1_to_v2 s.affinities)
run_migrations (suc fuel) (v0 s) = run_migrations fuel (v1 (record { affinities = s.affinities }))
run_migrations zero (v0 s) = none

-- The affinity that a file of an old format holds for a domain.
abbrev pub old_affinity_of : Dict String AffinityV0 → String → Affinity
old_affinity_of d domain = elim (Dict.get d domain) [
  | none ↦ unset
  | some unset_v0 ↦ unset
  | some global_v0 ↦ global
  | some (sticky_v0 c) ↦ sticky (record { chain_id = c; dedup_id = 0 })
]

-- The affinity that a file of any format holds for a domain.
abbrev pub stored_affinity : Versions → String → Affinity
stored_affinity (v0 s) domain = old_affinity_of s.affinities domain
stored_affinity (v1 s) domain = old_affinity_of s.affinities domain
stored_affinity (v2 d) domain = affinity_of d domain

affinity_of-migrate :
    (d : Dict String AffinityV0) (domain : String)
    → affinity_of (migrate_affinities_from_v1_to_v2 d) domain ≡ old_affinity_of d domain
unfolding affinity_of migrate_affinities_from_v1_to_v2
affinity_of-migrate d domain = elim (Option-cases (Dict.get d domain)) [
  | inl missing ↦ ground (arith, get-map to_affinity d domain)
  | inr (unset_v0, e) ↦ ground (arith, get-map to_affinity d domain)
  | inr (global_v0, e) ↦ ground (arith, get-map to_affinity d domain)
  | inr (sticky_v0 c, e) ↦ ground (arith, get-map to_affinity d domain)
]

-- One further call brings a connections file of any format to the latest one, in which every domain has
-- the affinity that the old file held for it; a chain of an old format is its network with the
-- deduplication id 0.
pub run_migrations-affinity :
    (v : Versions)
    → (d : Dict String Affinity) × (run_migrations 1 v ≡ some d)
      × ((domain : String) → affinity_of d domain ≡ stored_affinity v domain)
unfolding run_migrations
run_migrations-affinity (v0 s) = (_, refl, affinity_of-migrate s.affinities)
run_migrations-affinity (v1 s) = (_, refl, affinity_of-migrate s.affinities)
run_migrations-affinity (v2 d) = (d, refl, λ domain. refl)
