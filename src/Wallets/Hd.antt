-- ===== src/Wallets/Hd.antt =====
-- crates/wallets/src/wallets/hd_wallet.rs, with the derivation of utils.rs: a wallet of the addresses that a
-- mnemonic gives, which it keeps encrypted. A text is its bytes, and so is a secret.
use ethui.Common.{
  ℕ, zero, suc, ◌+◌, String, Bool, not, Option, none, some, List, [], ◌∷◌, ◌++◌, find, any, ◌==◌,
  nat_Same, list_Same, if◌then◌else◌,
}
use ethui.Common.Exec.{Exec, Result, ok, err, panic, ◌>>=◌, ◌>>◌, pure, raise, lift}
use ethui.Common.Radix.{Text, to_text}
use ethui.Types.{Address}
use ethui.Rpc.Method.{DialogMsg}
use ethui.Wallets.Secrets.{SecretCache, read, unlock_with_dialog}

-- The derivation of an address from a mnemonic and a path, and the encryption under a password.
pub record Keys (Cipher : Type 0) : Type 0 where
  pub derive : Text → Text → Option Address
  pub encrypt : Text → String → Option Cipher
  pub decrypt : Cipher → String → Option Text

pub record HdWallet (Cipher : Type 0) : Type 0 where
  pub name : String
  pub derivation_path : Text
  pub count : ℕ
  pub current : Text × Address
  pub addresses : List (Text × Address)
  pub ciphertext : Cipher

pub record HdWalletParams : Type 0 where
  pub mnemonic : Text
  pub derivation_path : Text
  pub password : String
  pub name : String
  pub count : ℕ

-- The JSON of an update, as far as it is read.
pub record HdUpdate : Type 0 where
  pub name : Option String
  pub derivation_path : Option Text
  pub count : Option ℕ

-- A local signer: its address, and the chain that it signs for.
pub record Signer : Type 0 where
  pub address : Address
  pub chain_id : ℕ

-- `format!("{derivation_path}/{idx}")`
abbrev pub path_at : Text → ℕ → Text
path_at derivation_path idx = derivation_path ++ b'/' ∷ to_text 10 idx

abbrev pub consed : Text × Address → Result (List (Text × Address)) → Result (List (Text × Address))
consed x (ok xs) = ok (x ∷ xs)
consed x (err e) = err e
consed x panic = panic

module _ {Cipher : Type 0} (keys : Keys Cipher) where
  -- `derive_addresses`, from an index on; an address that cannot be derived panics.
  unfoldable pub derive_from : Text → Text → ℕ → ℕ → Result (List (Text × Address))
  derive_from mnemonic derivation_path idx zero = ok []
  derive_from mnemonic derivation_path idx (suc count) =
      let rest = derive_from mnemonic derivation_path (idx + 1) count in
      elim (keys.derive mnemonic (path_at derivation_path idx)) [
        | none ↦ panic
        | some address ↦ consed (path_at derivation_path idx, address) rest
      ]

  unfoldable pub derive_addresses : Text → Text → ℕ → Result (List (Text × Address))
  unfolding derive_from
  derive_addresses mnemonic derivation_path count = derive_from mnemonic derivation_path 0 count

  -- `addresses.first().unwrap()`
  abbrev pub first : List (Text × Address) → Result (Text × Address)
  first [] = panic
  first (x ∷ xs) = ok x

  abbrev or_panic : Option Cipher → Result Cipher
  or_panic none = panic
  or_panic (some c) = ok c

  unfoldable pub from_params : HdWalletParams → Exec SecretCache (HdWallet Cipher)
  from_params params = do
    addresses ← lift (derive_addresses params.mnemonic params.derivation_path params.count)
    current ← lift (first addresses)
    ciphertext ← lift (or_panic (keys.encrypt params.mnemonic params.password))
    pure (record {
      name = params.name;
      derivation_path = params.derivation_path;
      count = params.count;
      current = current;
      addresses = addresses;
      ciphertext = ciphertext;
    })

  -- `unlock`, with the messages of its dialog.
  abbrev pub unlock : List DialogMsg → HdWallet Cipher → Exec SecretCache (Unit {0})
  unlock msgs w = unlock_with_dialog (keys.decrypt w.ciphertext) msgs

  abbrev pub read_secret : Exec SecretCache Text
  read_secret c = (read c, c)

  -- What is done with the secret of an unlocked wallet.
  unfoldable pub with_secret :
      {A : Type 0} → List DialogMsg → HdWallet Cipher → (Text → Result A) → Exec SecretCache A
  with_secret msgs w f = do unlock msgs w; secret ← read_secret; lift (f secret)

  abbrev pub with_addresses :
      HdWallet Cipher → Result (List (Text × Address)) → Result (HdWallet Cipher)
  with_addresses w (ok (x ∷ xs)) = ok (record w { current = x; addresses = x ∷ xs })
  with_addresses w (ok []) = panic
  with_addresses w (err e) = err e
  with_addresses w panic = panic

  unfoldable pub update_derived_addresses :
      List DialogMsg → HdWallet Cipher → Exec SecretCache (HdWallet Cipher)
  update_derived_addresses msgs w =
      with_secret msgs w
        (λ mnemonic. with_addresses w (derive_addresses mnemonic w.derivation_path w.count))

  abbrev pub renamed : Option String → HdWallet Cipher → HdWallet Cipher
  renamed none w = w
  renamed (some name) w = record w { name = name }

  unfoldable pub update_derivation_path :
      List DialogMsg → Option Text → HdWallet Cipher → Exec SecretCache (HdWallet Cipher)
  update_derivation_path msgs none w = pure w
  update_derivation_path msgs (some path) w =
      update_derived_addresses msgs (record w { derivation_path = path })

  unfoldable pub update_count :
      List DialogMsg → Option ℕ → HdWallet Cipher → Exec SecretCache (HdWallet Cipher)
  update_count msgs none w = pure w
  update_count msgs (some count) w = update_derived_addresses msgs (record w { count = count })

  -- `update` takes the wallet, so that after an error there is none.
  unfoldable pub update :
      List DialogMsg
      → List DialogMsg
      → HdUpdate
      → HdWallet Cipher
      → Exec SecretCache (HdWallet Cipher)
  update path_msgs count_msgs params w = do
    v ← update_derivation_path path_msgs params.derivation_path (renamed params.name w)
    update_count count_msgs params.count v

  abbrev pub has_path : Text → Text × Address → Bool
  has_path path x = x.0 == path

  unfoldable pub set_current_path : Text → HdWallet Cipher → Result (HdWallet Cipher)
  set_current_path path w = elim (find (has_path path) w.addresses) [
    | none ↦ err "unknown wallet key"
    | some x ↦ ok (record w { current = x })
  ]

  unfoldable pub get_address : Text → HdWallet Cipher → Result Address
  get_address path w = elim (find (has_path path) w.addresses) [
    | none ↦ err "unknown wallet key"
    | some x ↦ ok x.1
  ]

  abbrev pub signer_at : ℕ → Text → Text → Result Signer
  signer_at chain_id path mnemonic = elim (keys.derive mnemonic path) [
    | none ↦ err "invalid derivation path"
    | some address ↦ ok (record { address = address; chain_id = chain_id })
  ]

  unfoldable pub build_signer :
      List DialogMsg → ℕ → Text → HdWallet Cipher → Exec SecretCache Signer
  build_signer msgs chain_id path w =
      if not (any (has_path path) w.addresses)
      then raise "unknown wallet key"
      else with_secret msgs w (signer_at chain_id path)
