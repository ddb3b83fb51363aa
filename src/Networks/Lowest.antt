-- ===== src/Networks/Lowest.antt =====
-- crates/networks/src/actor/mod.rs: `get_lowest_dedup_id`.
use ethui.Common.{
  ℕ, suc, ◌<◌, ◌≤◌, ◌≡◌, refl, true, inl, inr, none, some, List, [], ◌∷◌, arith, filter, ◌==◌,
  nat_Same, find, map, min, All, All-mono, any, Option-cases, Bool-cases,
}
use ethui.Common.Dict.{values}
use ethui.Types.{Network, chain_id, id_Same}
use ethui.Networks.{SerializedNetworks, get, by_id, validate_chain_id, get_lowest_dedup_id, minimum}

abbrev dedup_ids : ℕ → List Network → List ℕ
dedup_ids c ns = map (λ n. n.id.dedup_id) (filter (λ n. chain_id n == c) ns)

-- `d` is at most the deduplication id of every network of the chain.
abbrev IsBelow : ℕ → ℕ → List Network → Type 0
IsBelow c d = All (λ n. chain_id n ≡ c → d ≤ n.id.dedup_id)

minimum-none : (c d : ℕ) (ns : List Network) → minimum (dedup_ids c ns) ≡ none → IsBelow c d ns
unfolding minimum
minimum-none c d [] e = tt
minimum-none c d (n ∷ ns) e = elim (Bool-cases (chain_id n == c)) [
  | inl hit ↦ absurd (ground (arith, Option-cases (minimum (dedup_ids c ns))))
  | inr miss ↦ (λ q. absurd (ground arith), minimum-none c d ns (ground arith))
]

minimum-IsBelow : (c d : ℕ) (ns : List Network) → minimum (dedup_ids c ns) ≡ some d → IsBelow c d ns
unfolding minimum
minimum-IsBelow c d [] e = cc
minimum-IsBelow c d (n ∷ ns) e = elim (Bool-cases (chain_id n == c)) [
  | inl hit ↦ elim (Option-cases (minimum (dedup_ids c ns))) [
    | inl empty ↦ (λ q. ground arith, minimum-none c d ns empty)
    | inr (x, rest) ↦ (
      λ q. ground arith,
      All-mono (λ m f q. omega (arith, f q, min_below d n.id.dedup_id x (ground arith))) ns
          (minimum-IsBelow c x ns rest),
    )
  ]
  | inr miss ↦ (λ q. absurd (ground arith), minimum-IsBelow c d ns (ground arith))
]
  where
    min_below : (d a x : ℕ) → d ≡ min a x → d ≤ x
    min_below d a x e = omega arith

minimum-find :
    (c d : ℕ) (ns : List Network)
    → minimum (dedup_ids c ns) ≡ some d
    → (m : Network) × (find (λ n. n.id == record { chain_id = c; dedup_id = d }) ns ≡ some m)
unfolding minimum
minimum-find c d [] e = cc
minimum-find c d (n ∷ ns) e = elim (Bool-cases (n.id == record { chain_id = c; dedup_id = d })) [
  | inl hit ↦ (n, ground arith)
  | inr miss ↦
      let (m, found) =
        minimum-find c d ns (ground (arith, Option-cases (minimum (dedup_ids c ns)))) in
      (m, ground arith)
]

minimum_known :
    (c : ℕ) (ns : List Network)
    → any (λ n. chain_id n == c) ns ≡ true
    → (d : ℕ) × (minimum (dedup_ids c ns) ≡ some d)
unfolding minimum
minimum_known c [] e = cc
minimum_known c (n ∷ ns) e = elim (Bool-cases (chain_id n == c)) [
  | inl hit ↦ elim (Option-cases (minimum (dedup_ids c ns))) [
    | inl empty ↦ (n.id.dedup_id, ground arith)
    | inr (x, rest) ↦ (min n.id.dedup_id x, ground arith)
  ]
  | inr miss ↦ let (d, r) = minimum_known c ns (ground arith) in (d, ground arith)
]

get_lowest_dedup_id-minimum :
    (s : SerializedNetworks) (c d : ℕ)
    → minimum (dedup_ids c (values s.networks)) ≡ some d
    → get_lowest_dedup_id s c ≡ d
unfolding get_lowest_dedup_id
get_lowest_dedup_id-minimum s c d e = ground arith

-- On a chain that has a network, the id with the lowest deduplication id belongs to a network, and no
-- network of the chain has a lower one.
pub get_lowest_dedup_id-least :
    (s : SerializedNetworks) (c : ℕ)
    → validate_chain_id s c ≡ true
    → (m : Network) × (get s (by_id (record { chain_id = c; dedup_id = get_lowest_dedup_id s c }))
        ≡ some m)
      × All (λ n. chain_id n ≡ c → get_lowest_dedup_id s c ≤ n.id.dedup_id) (values s.networks)
unfolding validate_chain_id get
get_lowest_dedup_id-least s c known =
    let (d, e) = minimum_known c (values s.networks) known in
    let (m, found) = minimum-find c d (values s.networks) e in
    rw (get_lowest_dedup_id-minimum s c d e) (m, found, minimum-IsBelow c d (values s.networks) e)

find_below :
    (c d : ℕ) (ns : List Network)
    → All (λ n. chain_id n ≡ c → suc d ≤ n.id.dedup_id) ns
    → find (λ n. n.id == record { chain_id = c; dedup_id = d }) ns ≡ none
find_below c d [] h = refl
find_below c d (n ∷ ns) h = ground (arith, find_below c d ns h.1, h.0)

pub no_id_below :
    (s : SerializedNetworks) (c d : ℕ)
    → d < get_lowest_dedup_id s c
    → get s (by_id (record { chain_id = c; dedup_id = d })) ≡ none
unfolding get get_lowest_dedup_id
no_id_below s c d low = elim (Option-cases (minimum (dedup_ids c (values s.networks)))) [
  | inl empty ↦ absurd (ground arith)
  | inr (x, e) ↦ find_below c d (values s.networks) (
      All-mono (λ m f q. omega (arith, f q, bound x e)) (values s.networks)
        (minimum-IsBelow c x (values s.networks) e))
]
  where
    bound : (x : ℕ) → minimum (dedup_ids c (values s.networks)) ≡ some x → d < x
    bound x e = ground arith
