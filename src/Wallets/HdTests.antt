-- ===== src/Wallets/HdTests.antt =====
-- crates/wallets/src/wallets/hd_wallet.rs: the theorem at a wallet that is updated, locked again and asked for a
-- signer. The address of a path is the sum of its bytes, and a text is encrypted by the side of its password.
use ethui.Common.{
  ℕ, ◌+◌, ◌≡◌, refl, String, Option, none, some, List, [], ◌∷◌, arith, ◌==◌, text_Same, inl, inr,
  if◌then◌else◌, Bool-cases,
}
use ethui.Common.Exec.{ok}
use ethui.Common.Json.{object, str}
use ethui.Common.Radix.{Text, to_text, digits, digit_char}
use ethui.Rpc.Method.{DialogMsg, payload}
use ethui.Wallets.Secrets.{
  store, is_unlocked, attempts, unlock_with_dialog, read, expire, empty_cache,
}
use ethui.Wallets.Hd.{
  Keys, HdWallet, HdWalletParams, Signer, from_params, derive_from, derive_addresses, with_secret,
  update_derived_addresses, update_derivation_path, update_count, update, set_current_path,
  get_address, build_signer,
}
use ethui.Wallets.Derived.{Elem}
use ethui.Wallets.Kept.{Use, updates, chooses, signs, lapses, step, run, run-signs}

abbrev sum : Text → ℕ
sum [] = 0
sum (b ∷ bs) = b + sum bs

abbrev decrypt : String × Text → String → Option Text
decrypt (password, text) typed = if password == typed then some text else none

abbrev keys : Keys (String × Text)
keys = record {
  derive = λ mnemonic path. some (sum mnemonic + sum path);
  encrypt = λ text password. some (password, text);
  decrypt = decrypt;
}

decrypt-encrypt :
    (m : Text) (x : String × Text) (p q : String) (s : Text)
    → keys.encrypt m p ≡ some x
    → keys.decrypt x q ≡ some s
    → s ≡ m
decrypt-encrypt m (y, z) p q s e d = elim (Bool-cases (y == q)) [
  | inl right ↦ ground (arith, right, e, d)
  | inr wrong ↦ absurd (ground (arith, wrong, d))
]

abbrev params : HdWalletParams
params = record {
  mnemonic = 1 ∷ [];
  derivation_path = b'm' ∷ [];
  password = "right";
  name = "hd";
  count = 1;
}

abbrev made : HdWallet (String × Text)
made = record {
  name = "hd";
  derivation_path = b'm' ∷ [];
  count = 1;
  current = (b'm' ∷ b'/' ∷ b'0' ∷ [], 205);
  addresses = (b'm' ∷ b'/' ∷ b'0' ∷ [], 205) ∷ [];
  ciphertext = ("right", 1 ∷ []);
}

abbrev typed : List DialogMsg
typed = payload (object (("password", str "right") ∷ [])) ∷ []

abbrev second : Text
second = b'm' ∷ b'/' ∷ b'1' ∷ []

abbrev uses : List Use
uses =
    updates typed typed (record { name = none; derivation_path = none; count = some 2 })
    ∷ chooses second
    ∷ lapses 100
    ∷ signs [] 5 second
    ∷ []

abbrev signer : Signer
signer = record { address = 206; chain_id = 5 }

made_by : (from_params keys params empty_cache).0 ≡ ok made
unfolding from_params derive_addresses derive_from to_text digits digit_char
made_by = refl

signed :
    (build_signer keys typed 5 second
      (run keys uses (made, empty_cache)).0
      (run keys uses (made, empty_cache)).1).0
    ≡ ok signer
unfolding from_params derive_addresses derive_from to_text digits digit_char run step update
    update_count update_derivation_path update_derived_addresses with_secret set_current_path
    build_signer unlock_with_dialog attempts is_unlocked store read expire
signed = refl

run-signs_example :
    (get_address keys second (run keys uses (made, empty_cache)).0 ≡ ok 206)
    × (keys.derive (1 ∷ []) second ≡ some 206)
    × (signer.chain_id ≡ 5)
    × Elem
        (run keys uses (made, empty_cache)).0.current
        (run keys uses (made, empty_cache)).0.addresses
run-signs_example =
    run-signs keys params made uses typed 5 second signer (decrypt-encrypt (1 ∷ [])) made_by signed
