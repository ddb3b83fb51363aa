-- ===== src/Walletconnect/Envelopes.antt =====
-- crates/walletconnect/src/crypto.rs: the envelopes.
use ethui.Common.{◌≡◌, ◌≤◌, ◌+◌, refl, some, [], ◌∷◌, ◌++◌, arith, length, take, drop, nat_Same}
use ethui.Common.Radix.{Text}
use ethui.Walletconnect.{Key, Env, decrypt_type0, encrypt_type0}

take-append : (xs ys : Text) → take (length xs) (xs ++ ys) ≡ xs
take-append [] ys = refl
take-append (x ∷ xs) ys = ground (arith, take-append xs ys)

drop-append : (xs ys : Text) → drop (length xs) (xs ++ ys) ≡ ys
drop-append [] ys = refl
drop-append (x ∷ xs) ys = drop-append xs ys

length-append : (xs ys : Text) → length (xs ++ ys) ≡ length xs + length ys
length-append [] ys = omega arith
length-append (x ∷ xs) ys = omega (arith, length-append xs ys)

-- If the nonce has twelve bytes, the sealed text has sixteen bytes or more, and the cipher opens
-- under a key and a nonce what it sealed under them, then an envelope that is decrypted under the key of
-- its encryption gives the plaintext again.
pub decrypt_type0-encrypt_type0 :
    (env : Env) (seal : Key → Text → Text → Text) (iv plaintext : Text) (key : Key)
    → length iv ≡ 12
    → 16 ≤ length (seal key iv plaintext)
    → ((k : Key) (n t : Text) → env.open_box k n (seal k n t) ≡ some t)
    → decrypt_type0 env (encrypt_type0 seal iv plaintext key) key ≡ some plaintext
unfolding decrypt_type0 encrypt_type0
decrypt_type0-encrypt_type0 env seal iv plaintext key twelve tag opens =
    let c = seal key iv plaintext in
    ground (
      arith,
      length-append iv c,
      drop-append iv c,
      take-append iv c,
      opens key iv plaintext,
      twelve,
    )
