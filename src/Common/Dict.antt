-- ===== src/Common/Dict.antt =====
-- `HashMap` (and `BTreeMap`) as an association list. The source leaves the order in which a
-- `HashMap` is iterated open; here it is the list's, and the theorems are about every list.
use Prim.Native.Nat.{◌+◌}
use mathlib.Core.Path.{◌≡◌, refl}
use mathlib.Core.Bool.{Bool, true, false}
use mathlib.Core.Option
use mathlib.Core.Option.{Option, none, some}
use mathlib.Core.List.{List, [], ◌∷◌, ◌++◌, map}
use native.Mathlib.Omega.{arith}
use ethui.Common.Tests.{Same, ◌==◌, if◌then◌else◌, same_refl}
use ethui.Common.Lists.{length, All}

abbrev pub Dict {ℓ} : Type ℓ → Type ℓ → Type ℓ
Dict K V = List (K × V)

module _ {ℓ} {K V : Type ℓ} where
  abbrev pub keys : Dict K V → List K
  keys = map (λ p. p.0)

  abbrev pub values : Dict K V → List V
  values = map (λ p. p.1)

module _ {ℓ} {K V : Type ℓ} ⦃s : Same K⦄ where
  unfoldable pub get : Dict K V → K → Option V
  get [] k = none
  get ((j, v) ∷ d) k = if j == k then some v else get d k

  unfoldable pub contains_key : Dict K V → K → Bool
  contains_key [] k = false
  contains_key ((j, v) ∷ d) k = if j == k then true else contains_key d k

  -- A key that is there keeps its place.
  unfoldable pub insert : Dict K V → K → V → Dict K V
  insert [] k v = (k, v) ∷ []
  insert ((j, w) ∷ d) k v = if j == k then (k, v) ∷ d else (j, w) ∷ insert d k v

  unfoldable pub remove : Dict K V → K → Dict K V
  remove [] k = []
  remove ((j, v) ∷ d) k = let rest = remove d k in if j == k then rest else (j, v) ∷ rest

  pub get-insert :
      (d : Dict K V) (k j : K) (v : V) → get (insert d k v) j ≡ (if k == j then some v else get d j)
  unfolding get insert
  get-insert [] k j v = refl
  get-insert ((i, w) ∷ d) k j v =
      ground (arith, s.same_iff k j, s.same_iff i k, s.same_iff i j, get-insert d k j v)

  pub get-remove :
      (d : Dict K V) (k j : K) → get (remove d k) j ≡ (if k == j then none else get d j)
  unfolding get remove
  get-remove [] k j = ground arith
  get-remove ((i, w) ∷ d) k j =
      ground (arith, s.same_iff k j, s.same_iff i k, s.same_iff i j, get-remove d k j)

  pub contains_key-get :
      (d : Dict K V) (k : K) → contains_key d k ≡ (elim (get d k) [ none ↦ false | some _ ↦ true ])
  unfolding get contains_key
  contains_key-get [] k = refl
  contains_key-get ((i, w) ∷ d) k = ground (arith, contains_key-get d k)

  pub contains_key-remove :
      (d : Dict K V) (k j : K)
      → contains_key (remove d k) j ≡ (if k == j then false else contains_key d j)
  unfolding contains_key remove
  contains_key-remove [] k j = ground arith
  contains_key-remove ((i, w) ∷ d) k j =
      ground (arith, s.same_iff k j, s.same_iff i k, s.same_iff i j, contains_key-remove d k j)

  pub get-insert_self : (d : Dict K V) (k : K) (v : V) → get (insert d k v) k ≡ some v
  get-insert_self d k v = ground (arith, get-insert d k k v, same_refl k)

module _ {ℓ} {K V : Type ℓ} ⦃s : Same K⦄ where
  -- What a `HashMap` keeps by construction: a key stands once.
  abbrev pub Distinct : Dict K V → Type ℓ
  Distinct [] = Unit
  Distinct ((k, v) ∷ d) = (get d k ≡ none) × Distinct d

  pub insert-Distinct : (d : Dict K V) (k : K) (v : V) → Distinct d → Distinct (insert d k v)
  unfolding insert get
  insert-Distinct [] k v h = (refl, tt)
  insert-Distinct ((j, w) ∷ d) k v h =
      ground (arith, insert-Distinct d k v, get-insert d k j v, s.same_iff j k, s.same_iff k j)

  pub remove-Distinct : (d : Dict K V) (k : K) → Distinct d → Distinct (remove d k)
  unfolding remove
  remove-Distinct [] k h = tt
  remove-Distinct ((j, w) ∷ d) k h = ground (arith, remove-Distinct d k, get-remove d k j)

  pub All-insert {κ} :
      (P : K × V → Type κ) (d : Dict K V) (k : K) (v : V)
      → P (k, v)
      → All P d
      → All P (insert d k v)
  unfolding insert
  All-insert P [] k v p h = (p, tt)
  All-insert P ((j, w) ∷ d) k v p h = ground (arith, All-insert P d k v p)

  pub All-remove {κ} : (P : K × V → Type κ) (d : Dict K V) (k : K) → All P d → All P (remove d k)
  unfolding remove
  All-remove P [] k h = tt
  All-remove P ((j, w) ∷ d) k h = ground (arith, All-remove P d k)

  pub All-get {κ} :
      (P : K × V → Type κ) (d : Dict K V) (k : K) (v : V) → All P d → get d k ≡ some v → P (k, v)
  unfolding get
  All-get P [] k v h e = cc
  All-get P ((j, w) ∷ d) k v h e = ground (arith, All-get P d k v h.1, s.same_iff j k)

  pub length-insert :
      (d : Dict K V) (k : K) (v : V)
      → length (insert d k v) ≡ (elim (get d k) [ none ↦ length d + 1 | some _ ↦ length d ])
  unfolding get insert
  length-insert [] k v = omega arith
  length-insert ((j, w) ∷ d) k v = ground (arith, length-insert d k v)

  pub get_head : (d : Dict K V) (k : K) (v : V) → get ((k, v) ∷ d) k ≡ some v
  unfolding get
  get_head d k v = rw (same_refl k)

  -- A new key goes to the end.
  pub insert_new : (d : Dict K V) (k : K) (v : V) → get d k ≡ none → insert d k v ≡ d ++ (k, v) ∷ []
  unfolding get insert
  insert_new [] k v e = refl
  insert_new ((j, w) ∷ d) k v e = ground (arith, insert_new d k v)

  pub contains_key-insert :
      (d : Dict K V) (k j : K) (v : V)
      → contains_key (insert d k v) j ≡ (if k == j then true else contains_key d j)
  contains_key-insert d k j v =
      ground (arith, contains_key-get d j, contains_key-get (insert d k v) j, get-insert d k j v)

module _ {ℓ} {K V W : Type ℓ} ⦃s : Same K⦄ where
  pub get-map :
      (f : V → W) (d : Dict K V) (k : K)
      → get (map (λ p. (p.0, f p.1)) d) k ≡ Option.map f (get d k)
  unfolding get
  get-map f [] k = refl
  get-map f ((j, v) ∷ d) k = ground (arith, get-map f d k)
