-- ===== src/Wallets/Kept.antt =====
-- crates/wallets/src/wallets/hd_wallet.rs: a wallet from its making on, through the uses of it.
use ethui.Common.{ℕ, ◌+◌, ◌≡◌, inl, inr, refl, String, some, List, [], ◌∷◌, any, arith, Bool-cases}
use ethui.Common.Exec.{Result, ok, err, panic}
use ethui.Common.Radix.{Text}
use ethui.Rpc.Method.{DialogMsg}
use ethui.Wallets.Secrets.{SecretCache, read, empty_cache, expire}
use ethui.Wallets.Hd.{
  Keys, HdWallet, HdWalletParams, HdUpdate, Signer, from_params, signer_at, update, has_path,
  set_current_path, get_address, build_signer,
}
use ethui.Wallets.Derived.{
  Elem, Holds, IsOf, with_secret-Uses, set_current_path-IsOf, update-Leaves, build_signer-IsOf,
  from_params-IsOf,
}

-- What is done to a wallet after it was made: it is updated, an address is chosen, a signer is built, or time
-- passes after which the expirer gets its turn. What fails leaves the wallet as it was.
pub data Use : Type 0 where
  updates : List DialogMsg → List DialogMsg → HdUpdate → Use
  chooses : Text → Use
  signs : List DialogMsg → ℕ → Text → Use
  lapses : ℕ → Use

abbrev pub kept {ℓ} : {A : Type ℓ} → A → Result A → A
kept w (ok v) = v
kept w (err e) = w
kept w panic = w

module _ {Cipher : Type 0} (keys : Keys Cipher) where
  unfoldable pub step : Use → HdWallet Cipher × SecretCache → HdWallet Cipher × SecretCache
  step (updates path_msgs count_msgs params) (w, c) =
      let (r, d) = update keys path_msgs count_msgs params w c in (kept w r, d)
  step (chooses path) (w, c) = (kept w (set_current_path keys path w), c)
  step (signs msgs chain_id path) (w, c) = (w, (build_signer keys msgs chain_id path w c).1)
  step (lapses seconds) (w, c) = (w, expire (record c { now = c.now + seconds }))

  unfoldable pub run : List Use → HdWallet Cipher × SecretCache → HdWallet Cipher × SecretCache
  run [] s = s
  run (use_of ∷ uses) s = run uses (step use_of s)

  module _ (m : Text) where
    abbrev IsKept : HdWallet Cipher × SecretCache → Type 0
    IsKept (w, c) = IsOf keys m w × Holds m c

    kept-IsOf :
        (w : HdWallet Cipher) (r : Result (HdWallet Cipher))
        → IsOf keys m w
        → ((v : HdWallet Cipher) → r ≡ ok v → IsOf keys m v)
        → IsOf keys m (kept w r)
    kept-IsOf w (ok v) h f = f v refl
    kept-IsOf w (err e) h f = h
    kept-IsOf w panic h f = h

    signs-Holds :
        (msgs : List DialogMsg) (chain_id : ℕ) (path : Text) (w : HdWallet Cipher) (c : SecretCache)
        → IsOf keys m w
        → Holds m c
        → Holds m (build_signer keys msgs chain_id path w c).1
    unfolding build_signer
    signs-Holds msgs chain_id path w c h k =
        elim (Bool-cases (any (has_path keys path) w.addresses)) [
          | inl has ↦
              rw (has, build_signer)
                (with_secret-Uses keys m (signer_at keys chain_id path) msgs w c h.opens k).1
          | inr lacks ↦ rw (lacks, build_signer) k
        ]

    lapses-Holds :
        (c : SecretCache) (n : ℕ) → Holds m c → Holds m (expire (record c { now = c.now + n }))
    unfolding expire read
    lapses-Holds c n h s e = h s (ground (arith, e))

    step-IsKept :
        (use_of : Use) (w : HdWallet Cipher) (c : SecretCache)
        → IsKept (w, c)
        → IsKept (step use_of (w, c))
    unfolding step
    step-IsKept (updates path_msgs count_msgs params) w c (h, k) =
        let (f, d) = update-Leaves keys m path_msgs count_msgs params w c h k in
        (kept-IsOf w (update keys path_msgs count_msgs params w c).0 h f, d)
    step-IsKept (chooses path) w c (h, k) = (
      kept-IsOf w (set_current_path keys path w) h (λ v. set_current_path-IsOf keys m path w v h),
      k,
    )
    step-IsKept (signs msgs chain_id path) w c (h, k) = (h, signs-Holds msgs chain_id path w c h k)
    step-IsKept (lapses seconds) w c (h, k) = (h, lapses-Holds c seconds k)

    run-IsKept :
        (uses : List Use) (w : HdWallet Cipher) (c : SecretCache)
        → IsKept (w, c)
        → IsKept (run uses (w, c))
    unfolding run
    run-IsKept [] w c h = h
    run-IsKept (use_of ∷ uses) w c h =
        run-IsKept uses (step use_of (w, c)).0 (step use_of (w, c)).1 (step-IsKept use_of w c h)

  empty-Holds : (m : Text) → Holds m empty_cache
  unfolding read
  empty-Holds m s e = cc

  -- A signer that a wallet builds, whatever was done to the wallet since it was made of a mnemonic, has the
  -- address that the wallet lists under the path, which is the mnemonic's at that path, and the chain id asked
  -- for; and the current address of the wallet is one that it lists. Decryption of what the mnemonic was
  -- encrypted to gives the mnemonic or fails.
  pub run-signs :
      (params : HdWalletParams) (w : HdWallet Cipher) (uses : List Use) (msgs : List DialogMsg)
      (chain_id : ℕ) (path : Text) (s : Signer)
      → ((x : Cipher) (p q : String) (t : Text)
          → keys.encrypt params.mnemonic p ≡ some x
          → keys.decrypt x q ≡ some t
          → t ≡ params.mnemonic)
      → (from_params keys params empty_cache).0 ≡ ok w
      → (build_signer keys msgs chain_id path
          (run uses (w, empty_cache)).0
          (run uses (w, empty_cache)).1).0
        ≡ ok s
      → (get_address keys path (run uses (w, empty_cache)).0 ≡ ok s.address)
        × (keys.derive params.mnemonic path ≡ some s.address)
        × (s.chain_id ≡ chain_id)
        × Elem (run uses (w, empty_cache)).0.current (run uses (w, empty_cache)).0.addresses
  run-signs params w uses msgs chain_id path s law made built =
      let (h, k) = run-IsKept params.mnemonic uses w empty_cache (
        from_params-IsOf keys params.mnemonic params empty_cache w refl law made,
        empty-Holds params.mnemonic,
      ) in
      let (a, d, n) =
        build_signer-IsOf keys params.mnemonic msgs chain_id path (run uses (w, empty_cache)).0
          (run uses (w, empty_cache)).1 s h k built in
      (a, d, n, h.listed)
