-- ===== src/Wallets/Derived.antt =====
-- crates/wallets/src/wallets/hd_wallet.rs: the addresses of the wallet are those of its mnemonic, whatever is
-- done to it, and it signs by the address that it lists.
use ethui.Common.{
  ℕ, zero, suc, ◌+◌, ◌≡◌, ◌⊎◌, inl, inr, refl, sym, ap, ◌∙◌, String, Bool, Option, none, some, List,
  [], ◌∷◌, find, any, All, arith, nat_Same, list_Same, list_same_iff, find_holds, find-All,
  find-any, any-find, Bool-cases, Option-cases,
}
use mathlib.Core.Path.{subst}
use ethui.Common.Exec.{continue, Result, ok, err, panic, ◌>>=◌, lift}
use ethui.Common.Radix.{Text}
use ethui.Common.Json.{at, as_str}
use ethui.Types.{Address}
use ethui.Rpc.Method.{DialogMsg, payload, close}
use ethui.Wallets.Secrets.{SecretCache, read, store, is_unlocked, attempts, unlock_with_dialog}
use ethui.Wallets.Hd.{
  Keys, HdWallet, HdWalletParams, HdUpdate, Signer, path_at, derive_from, derive_addresses,
  from_params, unlock, read_secret, update_derived_addresses, with_secret, with_addresses,
  signer_at, renamed, update_derivation_path, update_count, update, has_path, set_current_path,
  get_address, build_signer,
}

abbrev pub Elem : Text × Address → List (Text × Address) → Type 0
Elem x [] = ⊥
Elem x (y ∷ ys) = (x ≡ y) ⊎ Elem x ys

find-Elem :
    (p : Text × Address → Bool) (xs : List (Text × Address)) (x : Text × Address)
    → find p xs ≡ some x
    → Elem x xs
find-Elem p [] x e = cc
find-Elem p (y ∷ ys) x e = elim (Bool-cases (p y)) [
  | inl here ↦ inl (ground (arith, here, e))
  | inr other ↦ inr (find-Elem p ys x (ground (arith, other, e)))
]

-- A cache has no other secret than the mnemonic.
abbrev pub Holds : Text → SecretCache → Type 0
Holds m c = (s : Text) → read c ≡ ok s → s ≡ m

store-Holds : (m s : Text) (c : SecretCache) → s ≡ m → Holds m (store s c)
unfolding store read
store-Holds m s c e t k = ground (arith, e, k)

attempts-Holds :
    (m : Text) (n : ℕ) (try_decrypt : String → Option Text) (msgs : List DialogMsg)
    (c : SecretCache)
    → ((p : String) (s : Text) → try_decrypt p ≡ some s → s ≡ m)
    → Holds m c
    → Holds m (attempts n try_decrypt msgs c).1
unfolding attempts
attempts-Holds m zero try_decrypt msgs c f h = h
attempts-Holds m (suc n) try_decrypt [] c f h = h
attempts-Holds m (suc n) try_decrypt (close ∷ msgs) c f h = h
attempts-Holds m (suc n) try_decrypt (payload j ∷ msgs) c f h =
    elim (Option-cases (as_str (at j "password"))) [
      | inl e ↦ λ s k. h s (ground (arith, e, k))
      | inr (password, e) ↦ elim (Option-cases (try_decrypt password)) [
        | inl d ↦ λ s k. attempts-Holds m n try_decrypt msgs c f h s (ground (arith, e, d, k))
        | inr (secret, d) ↦
            λ s k. store-Holds m secret c (f password secret d) s (ground (arith, e, d, k))
      ]
    ]

unlock-Holds :
    (m : Text) (try_decrypt : String → Option Text) (msgs : List DialogMsg) (c : SecretCache)
    → ((p : String) (s : Text) → try_decrypt p ≡ some s → s ≡ m)
    → Holds m c
    → Holds m (unlock_with_dialog try_decrypt msgs c).1
unfolding unlock_with_dialog
unlock-Holds m try_decrypt msgs c f h = elim (Bool-cases (is_unlocked c)) [
  | inl open_already ↦ rw (open_already, unlock_with_dialog) h
  | inr locked ↦ rw (locked, unlock_with_dialog) (attempts-Holds m 3 try_decrypt msgs c f h)
]

module _ {Cipher : Type 0} (keys : Keys Cipher) (m : Text) where
  abbrev Derives : Text × Address → Type 0
  Derives x = keys.derive m x.0 ≡ some x.1

  -- The wallet is one of the mnemonic: its addresses are those of its path and its count, one of them is
  -- current, and its ciphertext opens to the mnemonic or not at all.
  pub record IsOf (w : HdWallet Cipher) : Type 0 where
    pub derived : derive_addresses keys m w.derivation_path w.count ≡ ok w.addresses
    pub listed : Elem w.current w.addresses
    pub opens : (p : String) (s : Text) → keys.decrypt w.ciphertext p ≡ some s → s ≡ m

  derive_from-Derives :
      (n i : ℕ) (dp : Text) (xs : List (Text × Address))
      → derive_from keys m dp i n ≡ ok xs
      → All Derives xs
  unfolding derive_from
  derive_from-Derives zero i dp [] e = tt
  derive_from-Derives zero i dp (x ∷ xs) e = cc
  derive_from-Derives (suc n) i dp xs e = elim (Option-cases (keys.derive m (path_at dp i))) [
    | inl fails ↦ absurd (ground (arith, fails, e))
    | inr (a, d) ↦
        of_rest a d (derive_from keys m dp (i + 1) n) refl (derive_from-Derives n (i + 1) dp)
  ]
    where
      of_rest :
          (a : Address)
          → keys.derive m (path_at dp i) ≡ some a
          → (r : Result (List (Text × Address))) → derive_from keys m dp (i + 1) n ≡ r
          → ((ys : List (Text × Address))
              → derive_from keys m dp (i + 1) n ≡ ok ys
              → All Derives ys)
          → All Derives xs
      of_rest a d (ok ys) q ih =
          let k : (path_at dp i, a) ∷ ys ≡ xs = ground (arith, d, q, e) in
          subst (All Derives) k (d, ih ys q)
      of_rest a d (err x) q ih = absurd (ground (arith, d, q, e))
      of_rest a d panic q ih = absurd (ground (arith, d, q, e))

  IsOf-Derives : (w : HdWallet Cipher) → IsOf w → All Derives w.addresses
  unfolding derive_addresses
  IsOf-Derives w h = derive_from-Derives w.count 0 w.derivation_path w.addresses h.derived

  pub set_current_path-IsOf :
      (path : Text) (w v : HdWallet Cipher) → IsOf w → set_current_path keys path w ≡ ok v → IsOf v
  unfolding set_current_path
  set_current_path-IsOf path w v h e = elim (Option-cases (find (has_path keys path) w.addresses)) [
    | inl unknown ↦ absurd (ground (arith, unknown, e))
    | inr (x, found) ↦
        let k : record w { current = x } ≡ v = ground (arith, found, e) in
        subst IsOf k (record {
          derived = h.derived;
          listed = find-Elem (has_path keys path) w.addresses x found;
          opens = h.opens;
        })
  ]

  -- What an action that ends with a wallet leaves: a wallet of the mnemonic, if it succeeds, and a cache with
  -- no other secret.
  abbrev pub Leaves : Result (HdWallet Cipher) × SecretCache → Type 0
  Leaves (r, c) = ((v : HdWallet Cipher) → r ≡ ok v → IsOf v) × Holds m c

  -- What is done with the secret is done with the mnemonic.
  abbrev Uses : {A : Type 0} → (Text → Result A) → Result A × SecretCache → Type 0
  Uses {A} f (r, c) = ((a : A) → r ≡ ok a → f m ≡ ok a) × Holds m c

  after_unlock :
      {A : Type 0} (f : Text → Result A) (r : Result (Unit {0})) (c : SecretCache)
      → Holds m c
      → Uses f (continue r (λ (u : Unit {0}). read_secret keys >>= (λ (s : Text). lift (f s))) c)
  after_unlock f (ok u) c h = of_read (read c) refl
    where
      of_read :
          (o : Result Text)
          → read c ≡ o
          → Uses f ((read_secret keys >>= (λ (s : Text). lift (f s))) c)
      of_read (ok s) e =
          ((λ a k. ground (arith, e, k, ap f (h s e))), λ t k. h t (ground (arith, e, k)))
      of_read (err x) e =
          ((λ a k. absurd (ground (arith, e, k))), λ t k. h t (ground (arith, e, k)))
      of_read panic e = ((λ a k. absurd (ground (arith, e, k))), λ t k. h t (ground (arith, e, k)))
  after_unlock f (err x) c h = ((λ a e. cc), h)
  after_unlock f panic c h = ((λ a e. cc), h)

  pub with_secret-Uses :
      {A : Type 0} (f : Text → Result A) (msgs : List DialogMsg) (w : HdWallet Cipher)
      (c : SecretCache)
      → ((p : String) (s : Text) → keys.decrypt w.ciphertext p ≡ some s → s ≡ m)
      → Holds m c
      → Uses f (with_secret keys msgs w f c)
  unfolding with_secret
  with_secret-Uses f msgs w c opens h =
      after_unlock f (unlock keys msgs w c).0 (unlock keys msgs w c).1
        (unlock-Holds m (keys.decrypt w.ciphertext) msgs c opens h)

  with_addresses-IsOf :
      (w v : HdWallet Cipher)
      → ((p : String) (s : Text) → keys.decrypt w.ciphertext p ≡ some s → s ≡ m)
      → with_addresses keys w (derive_addresses keys m w.derivation_path w.count) ≡ ok v
      → IsOf v
  with_addresses-IsOf w v opens e =
      of_addresses (derive_addresses keys m w.derivation_path w.count) refl
    where
      of_addresses :
          (r : Result (List (Text × Address)))
          → derive_addresses keys m w.derivation_path w.count ≡ r
          → IsOf v
      of_addresses (ok (x ∷ xs)) d =
          let k : record w { current = x; addresses = x ∷ xs } ≡ v = ground (arith, d, e) in
          subst IsOf k (record { derived = d; listed = inl refl; opens = opens })
      of_addresses (ok []) d = absurd (ground (arith, d, e))
      of_addresses (err x) d = absurd (ground (arith, d, e))
      of_addresses panic d = absurd (ground (arith, d, e))

  update_derived_addresses-Leaves :
      (msgs : List DialogMsg) (w : HdWallet Cipher) (c : SecretCache)
      → ((p : String) (s : Text) → keys.decrypt w.ciphertext p ≡ some s → s ≡ m)
      → Holds m c
      → Leaves (update_derived_addresses keys msgs w c)
  unfolding update_derived_addresses
  update_derived_addresses-Leaves msgs w c opens h =
      let (f, d) =
        with_secret-Uses
          (λ (s : Text). with_addresses keys w (derive_addresses keys s w.derivation_path w.count))
          msgs w c opens h in
      ((λ v e. with_addresses-IsOf w v opens (f v e)), d)

  renamed-IsOf : (name : Option String) (w : HdWallet Cipher) → IsOf w → IsOf (renamed keys name w)
  renamed-IsOf none w h = h
  renamed-IsOf (some n) w h = record { derived = h.derived; listed = h.listed; opens = h.opens }

  update_derivation_path-Leaves :
      (msgs : List DialogMsg) (path : Option Text) (w : HdWallet Cipher) (c : SecretCache)
      → IsOf w
      → Holds m c
      → Leaves (update_derivation_path keys msgs path w c)
  unfolding update_derivation_path
  update_derivation_path-Leaves msgs none w c h k = ((λ v e. subst IsOf (ground (arith, e)) h), k)
  update_derivation_path-Leaves msgs (some path) w c h k =
      update_derived_addresses-Leaves msgs (record w { derivation_path = path }) c h.opens k

  update_count-Leaves :
      (msgs : List DialogMsg) (count : Option ℕ) (w : HdWallet Cipher) (c : SecretCache)
      → IsOf w
      → Holds m c
      → Leaves (update_count keys msgs count w c)
  unfolding update_count
  update_count-Leaves msgs none w c h k = ((λ v e. subst IsOf (ground (arith, e)) h), k)
  update_count-Leaves msgs (some count) w c h k =
      update_derived_addresses-Leaves msgs (record w { count = count }) c h.opens k

  then_count-Leaves :
      (msgs : List DialogMsg) (count : Option ℕ) (r : Result (HdWallet Cipher)) (c : SecretCache)
      → Leaves (r, c)
      → Leaves (continue r (λ (v : HdWallet Cipher). update_count keys msgs count v) c)
  then_count-Leaves msgs count (ok v) c (f, k) = update_count-Leaves msgs count v c (f v refl) k
  then_count-Leaves msgs count (err x) c (f, k) = ((λ v e. cc), k)
  then_count-Leaves msgs count panic c (f, k) = ((λ v e. cc), k)

  pub update-Leaves :
      (path_msgs count_msgs : List DialogMsg) (params : HdUpdate) (w : HdWallet Cipher)
      (c : SecretCache)
      → IsOf w
      → Holds m c
      → Leaves (update keys path_msgs count_msgs params w c)
  unfolding update
  update-Leaves path_msgs count_msgs params w c h k =
      let v : HdWallet Cipher = renamed keys params.name w in
      then_count-Leaves count_msgs params.count
        (update_derivation_path keys path_msgs params.derivation_path v c).0
        (update_derivation_path keys path_msgs params.derivation_path v c).1
        (update_derivation_path-Leaves path_msgs params.derivation_path v c
          (renamed-IsOf params.name w h) k)

  pub from_params-IsOf :
      (params : HdWalletParams) (c : SecretCache) (w : HdWallet Cipher)
      → params.mnemonic ≡ m
      → ((x : Cipher) (p q : String) (s : Text)
          → keys.encrypt m p ≡ some x
          → keys.decrypt x q ≡ some s
          → s ≡ m)
      → (from_params keys params c).0 ≡ ok w
      → IsOf w
  unfolding from_params
  from_params-IsOf params c w same law e =
      of_addresses (derive_addresses keys m params.derivation_path params.count) refl
    where
      of_cipher :
          (x : Text × Address) (xs : List (Text × Address))
          → derive_addresses keys m params.derivation_path params.count ≡ ok (x ∷ xs)
          → (o : Option Cipher) → keys.encrypt m params.password ≡ o
          → IsOf w
      of_cipher x xs d none k = absurd (ground (arith, same, d, k, e))
      of_cipher x xs d (some y) k =
          let made : record {
            name = params.name;
            derivation_path = params.derivation_path;
            count = params.count;
            current = x;
            addresses = x ∷ xs;
            ciphertext = y;
          }
              ≡ w =
            ground (arith, same, d, k, e) in
          subst IsOf made
            (record { derived = d; listed = inl refl; opens = λ q s. law y params.password q s k })

      of_addresses :
          (r : Result (List (Text × Address)))
          → derive_addresses keys m params.derivation_path params.count ≡ r
          → IsOf w
      of_addresses (ok (x ∷ xs)) d = of_cipher x xs d (keys.encrypt m params.password) refl
      of_addresses (ok []) d = absurd (ground (arith, same, d, e))
      of_addresses (err x) d = absurd (ground (arith, same, d, e))
      of_addresses panic d = absurd (ground (arith, same, d, e))

  -- The signer that a wallet of the mnemonic builds for a path has the address that it lists there.
  pub build_signer-IsOf :
      (msgs : List DialogMsg) (chain_id : ℕ) (path : Text) (w : HdWallet Cipher) (c : SecretCache)
      (s : Signer)
      → IsOf w
      → Holds m c
      → (build_signer keys msgs chain_id path w c).0 ≡ ok s
      → (get_address keys path w ≡ ok s.address)
        × (keys.derive m path ≡ some s.address)
        × (s.chain_id ≡ chain_id)
  unfolding build_signer get_address
  build_signer-IsOf msgs chain_id path w c s h k e =
      elim (Option-cases (find (has_path keys path) w.addresses)) [
        | inl unknown ↦
            absurd (ground (arith, e, any-find (has_path keys path) w.addresses unknown))
        | inr (x, found) ↦ elim (Bool-cases (any (has_path keys path) w.addresses)) [
          | inr no_path ↦
              absurd (ground (arith, found, find-any (has_path keys path) w.addresses no_path))
          | inl has ↦
              let built : signer_at keys chain_id path m ≡ ok s =
                (with_secret-Uses (signer_at keys chain_id path) msgs w c h.opens k).0 s
                  (ground (arith, has, e)) in
              let same : x.0 ≡ path =
                (list_same_iff x.0 path).0 (find_holds (has_path keys path) w.addresses x found) in
              let derives : keys.derive m x.0 ≡ some x.1 =
                find-All Derives (has_path keys path) w.addresses x (IsOf-Derives w h) found in
              let at_path : keys.derive m path ≡ some x.1 =
                ap (keys.derive m) (sym same) ∙ derives in
              ground (arith, found, built, at_path)
        ]
      ]
