-- ===== src/Wallets/Selection.antt =====
-- crates/wallets/src/lib.rs: the index of the current wallet.
use ethui.Common.{
  remove_at, ℕ, zero, suc, ◌+◌, ◌<◌, ◌≤◌, String, ◌≡◌, refl, ap, Bool, some, List, [], ◌∷◌, arith,
  text_Same, length, length-append, get_elem?, Option-cases, inl, inr,
}
use ethui.Common.Exec.{Result}
use ethui.Common.Radix.{Text}
use ethui.Wallets.{
  WalletControl, Wallets, set, position, send_all, save, notify_peers, on_wallet_changed,
  ensure_current, set_current_path, set_current_wallet, create, update, remove,
}

module _ {ℓ} {A : Type ℓ} where
  pub length-set : (xs : List A) (i : ℕ) (v : A) → length (set xs i v) ≡ length xs
  length-set [] i v = refl
  length-set (x ∷ xs) zero v = refl
  length-set (x ∷ xs) (suc i) v = ap suc (length-set xs i v)

  pub length-remove_at :
      (xs : List A) (i : ℕ) → i < length xs → length (remove_at xs i) + 1 ≡ length xs
  length-remove_at [] i h = elim h [ ]
  length-remove_at (x ∷ xs) zero h = omega arith
  length-remove_at (x ∷ xs) (suc i) h = omega (arith, length-remove_at xs i (omega arith))

  pub get_elem?-remove_at_lt :
      (xs : List A) (i j : ℕ) → j < i → get_elem? (remove_at xs i) j ≡ get_elem? xs j
  get_elem?-remove_at_lt [] i j h = refl
  get_elem?-remove_at_lt (x ∷ xs) zero j h = elim h [ ]
  get_elem?-remove_at_lt (x ∷ xs) (suc i) zero h = refl
  get_elem?-remove_at_lt (x ∷ xs) (suc i) (suc j) h = get_elem?-remove_at_lt xs i j (omega arith)

  pub get_elem?-remove_at_le :
      (xs : List A) (i j : ℕ) → i ≤ j → get_elem? (remove_at xs i) j ≡ get_elem? xs (suc j)
  get_elem?-remove_at_le [] i j h = refl
  get_elem?-remove_at_le (x ∷ xs) zero j h = refl
  get_elem?-remove_at_le (x ∷ xs) (suc i) zero h = elim h [ ]
  get_elem?-remove_at_le (x ∷ xs) (suc i) (suc j) h = get_elem?-remove_at_le xs i j (omega arith)

  pub position-lt : (p : A → Bool) (xs : List A) (i : ℕ) → position p xs ≡ some i → i < length xs
  position-lt p [] i e = cc
  position-lt p (x ∷ xs) i e = elim (Option-cases (position p xs)) [
    | inl nowhere ↦ ground arith
    | inr (j, there) ↦ ground (arith, position-lt p xs j there)
  ]

-- The current index points to a wallet.
abbrev pub IsValid : {W : Type 0} → Wallets W → Type 0
IsValid s = s.current < length s.wallets

-- The methods that change the wallets.
pub data Request (Json : Type 0) : Type 0 where
  set_current_path_request : Text → Request Json
  set_current_wallet_request : ℕ → Request Json
  create_request : Json → Request Json
  update_request : String → Json → Request Json
  remove_request : String → Request Json

module _ {Json W : Type 0} (control : WalletControl Json W) (can_write : Bool) where
  unfoldable pub handle : Request Json → Wallets W → Result (Unit {0}) × Wallets W
  handle (set_current_path_request key) s = set_current_path control can_write key s
  handle (set_current_wallet_request id) s = set_current_wallet control can_write id s
  handle (create_request params) s = create control can_write params s
  handle (update_request name params) s = update control can_write name params s
  handle (remove_request name) s = remove control can_write name s

  ensure_current-IsValid : (s : Wallets W) → IsValid (ensure_current control can_write s)
  unfolding ensure_current
  ensure_current-IsValid s = ground arith

  pub on_wallet_changed-keeps :
      (s : Wallets W)
      → let t = (on_wallet_changed control can_write s).1 in
        (t.wallets ≡ s.wallets) × (t.current ≡ s.current)
  unfolding on_wallet_changed notify_peers
  on_wallet_changed-keeps s = ground arith

  pub notify_peers-keeps :
      (s : Wallets W)
      → let t = (notify_peers control can_write s).1 in
        (t.wallets ≡ s.wallets) × (t.current ≡ s.current)
  unfolding notify_peers
  notify_peers-keeps s = ground arith

  pub save-keeps :
      (s : Wallets W)
      → let t = (save control can_write s).1 in (t.wallets ≡ s.wallets) × (t.current ≡ s.current)
  unfolding save
  save-keeps s = ground arith

  set_current_path-IsValid :
      (key : Text) (s : Wallets W)
      → IsValid s
      → IsValid (set_current_path control can_write key s).1
  unfolding set_current_path
  set_current_path-IsValid key s h = grind (arith, length-set, on_wallet_changed-keeps, save-keeps)

  create-IsValid :
      (params : Json) (s : Wallets W) → IsValid s → IsValid (create control can_write params s).1
  unfolding create send_all
  create-IsValid params s h = grind (arith, length-append, on_wallet_changed-keeps, save-keeps)

  update-IsValid :
      (name : String) (params : Json) (s : Wallets W)
      → IsValid s
      → IsValid (update control can_write name params s).1
  unfolding update send_all
  update-IsValid name params s h = grind (
    arith, ensure_current-IsValid, on_wallet_changed-keeps, notify_peers-keeps, save-keeps,
    length-set,
  )

  remove-IsValid :
      (name : String) (s : Wallets W) → IsValid s → IsValid (remove control can_write name s).1
  unfolding remove send_all
  remove-IsValid name s h =
      grind (arith, ensure_current-IsValid, on_wallet_changed-keeps, save-keeps)

  -- If the current index is on a wallet, then every method leaves it on one, whether the method
  -- succeeds, fails or panics.
  pub handle-IsValid : (r : Request Json) (s : Wallets W) → IsValid s → IsValid (handle r s).1
  unfolding handle set_current_wallet on_wallet_changed notify_peers save
  handle-IsValid (set_current_path_request key) s h = set_current_path-IsValid key s h
  handle-IsValid (set_current_wallet_request id) s h = ground arith
  handle-IsValid (create_request params) s h = create-IsValid params s h
  handle-IsValid (update_request name params) s h = update-IsValid name params s h
  handle-IsValid (remove_request name) s h = remove-IsValid name s h
