-- ===== src/Sync/Spawning.antt =====
-- crates/sync/src/worker.rs: the sets of the worker, and what spawning its tasks adds.
use ethui.Common.{
  ℕ, ◌≡◌, refl, ap, Bool, true, false, ◌&&◌, ◌||◌, List, [], ◌∷◌, ◌++◌, map, any, filter, length,
  ◌==◌, nat_Same, nat_same_iff, pair_Same, pair_same_iff, if◌then◌else◌, arith,
}
use ethui.Common.Dict
use ethui.Common.Dict.{Dict, contains_key-insert, All-insert, contains_key-get}
use ethui.Types.{Address}
use ethui.Sync.{Worker, member, set_insert, set_remove, spawn, spawn_all}

member-append : (y x : ℕ) (xs : List ℕ) → member y (xs ++ x ∷ []) ≡ (x == y || member y xs)
member-append y x [] = ground arith
member-append y x (z ∷ xs) = ground (arith, member-append y x xs)

pub member-set_insert :
    (y x : ℕ) (xs : List ℕ) → member y (set_insert x xs) ≡ (if x == y then true else member y xs)
member-set_insert y x xs = ground (arith, member-append y x xs, nat_same_iff x y)

pub member-set_remove :
    (y x : ℕ) (xs : List ℕ) → member y (set_remove x xs) ≡ (if x == y then false else member y xs)
member-set_remove y x [] = ground arith
member-set_remove y x (z ∷ xs) =
    ground (arith, member-set_remove y x xs, nat_same_iff x y, nat_same_iff z y, nat_same_iff z x)

pub contains_key-filter :
    (f : Address × ℕ → Bool) (d : Dict (Address × ℕ) ℕ) (k : Address × ℕ)
    → Dict.contains_key (filter (λ e. f e.0) d) k ≡ (f k && Dict.contains_key d k)
unfolding Dict.contains_key
contains_key-filter f [] k = ground arith
contains_key-filter f ((j, v) ∷ d) k =
    ground (arith, contains_key-filter f d k, pair_same_iff j k, ap f {x = j} {y = k})

pub spawn_all-keeps :
    (pairs : List (Address × ℕ)) (w : Worker)
    → let v = spawn_all pairs w in
      (v.addresses ≡ w.addresses)
      × (v.chain_ids ≡ w.chain_ids)
      × ((p : Address × ℕ)
          → Dict.contains_key v.workers p
            ≡ (any (λ q. q == p) pairs || Dict.contains_key w.workers p))
unfolding spawn_all spawn
spawn_all-keeps [] w = (refl, refl, λ p. refl)
spawn_all-keeps (q ∷ pairs) w =
    let (a, c, k) = spawn_all-keeps pairs (spawn q w) in
    (a, c, λ p. ground (arith, k p, contains_key-insert w.workers q p (length w.tasks)))

pub any-pairs_addr :
    (addr a c : ℕ) (cs : List ℕ)
    → any (λ (q : Address × ℕ). q == (a, c)) (map (λ x. (addr, x)) cs) ≡ (addr == a && member c cs)
any-pairs_addr addr a c [] = ground arith
any-pairs_addr addr a c (x ∷ cs) = ground (arith, any-pairs_addr addr a c cs)

pub any-pairs_chain :
    (chain a c : ℕ) (as' : List ℕ)
    → any (λ (q : Address × ℕ). q == (a, c)) (map (λ x. (x, chain)) as')
      ≡ (chain == c && member a as')
any-pairs_chain chain a c [] = ground arith
any-pairs_chain chain a c (x ∷ as') = ground (arith, any-pairs_chain chain a c as')
