-- ===== src/Wallets/Names.antt =====
-- crates/wallets/src/lib.rs: the names of the wallets, by which the methods find them.
use ethui.Common.{
  remove_at, ℕ, zero, suc, ◌<◌, String, ◌≡◌, ◌≢◌, refl, ap, Bool, true, false, some, List, [], ◌∷◌,
  ◌++◌, arith, ◌==◌, text_Same, length, get_elem?, Option-cases, inl, inr, All, All-append, any,
  eq_iff,
}
use ethui.Common.Exec.{Result, ok, err, panic}
use ethui.Common.Radix.{Text}
use ethui.Wallets.{
  WalletControl, Wallets, set, position, send_all, ensure_current, create, update, remove,
  set_current_path, set_current_wallet, WalletLaws,
}
use ethui.Wallets.Selection.{
  on_wallet_changed-keeps, notify_peers-keeps, save-keeps, length-set, position-lt, IsValid,
  Request, set_current_path_request, set_current_wallet_request, create_request, update_request,
  remove_request, handle,
}
use ethui.Wallets.Removal.{remove-state}

module _ {ℓ} {A : Type ℓ} where
  get_elem?-set_self :
      (xs : List A) (i : ℕ) (v : A) → i < length xs → get_elem? (set xs i v) i ≡ some v
  get_elem?-set_self [] i v h = elim h [ ]
  get_elem?-set_self (x ∷ xs) zero v h = refl
  get_elem?-set_self (x ∷ xs) (suc i) v h = get_elem?-set_self xs i v (omega arith)

  get_elem?-set_ne :
      (xs : List A) (i j : ℕ) (v : A) → i ≢ j → get_elem? (set xs i v) j ≡ get_elem? xs j
  get_elem?-set_ne [] i j v h = refl
  get_elem?-set_ne (x ∷ xs) zero zero v h = absurd (h refl)
  get_elem?-set_ne (x ∷ xs) zero (suc j) v h = refl
  get_elem?-set_ne (x ∷ xs) (suc i) zero v h = refl
  get_elem?-set_ne (x ∷ xs) (suc i) (suc j) v h = get_elem?-set_ne xs i j v (λ e. h (ap suc e))

  All-remove_at {κ} : (P : A → Type κ) (xs : List A) (i : ℕ) → All P xs → All P (remove_at xs i)
  All-remove_at P [] i h = tt
  All-remove_at P (x ∷ xs) zero h = h.1
  All-remove_at P (x ∷ xs) (suc i) h = (h.0, All-remove_at P xs i h.1)

-- Whether a method can give a wallet another name.
abbrev pub is_renaming : {Json : Type 0} → Request Json → Bool
is_renaming (update_request name params) = true
is_renaming _ = false

module _ {Json W : Type 0} (control : WalletControl Json W) (can_write : Bool) where
  abbrev Unnamed : String → List W → Type 0
  Unnamed name = All (λ w. control.name w ≢ name)

  -- No two wallets have one name.
  abbrev pub UniqueNames : List W → Type 0
  UniqueNames [] = Unit
  UniqueNames (w ∷ ws) = Unnamed (control.name w) ws × UniqueNames ws

  any-Unnamed :
      (name : String) (ws : List W) → any (λ w. control.name w == name) ws ≡ false → Unnamed name ws
  any-Unnamed name [] e = tt
  any-Unnamed name (w ∷ ws) e =
      ((λ q. ground (arith, eq_iff (control.name w) name)), any-Unnamed name ws (ground arith))

  append-UniqueNames :
      (ws : List W) (v : W)
      → Unnamed (control.name v) ws
      → UniqueNames ws
      → UniqueNames (ws ++ v ∷ [])
  append-UniqueNames [] v n u = (tt, tt)
  append-UniqueNames (w ∷ ws) v n u = (
    All-append (λ x. control.name x ≢ control.name w) ws (v ∷ []) u.0
        ((λ q. n.0 (ground arith)), tt),
    append-UniqueNames ws v n.1 u.1,
  )

  remove_at-UniqueNames : (ws : List W) (i : ℕ) → UniqueNames ws → UniqueNames (remove_at ws i)
  remove_at-UniqueNames [] i u = tt
  remove_at-UniqueNames (w ∷ ws) zero u = u.1
  remove_at-UniqueNames (w ∷ ws) (suc i) u = (
    All-remove_at (λ x. control.name x ≢ control.name w) ws i u.0,
    remove_at-UniqueNames ws i u.1,
  )

  ensure_current-UniqueNames :
      (s : Wallets W)
      → UniqueNames s.wallets
      → UniqueNames (ensure_current control can_write s).wallets
  unfolding ensure_current
  ensure_current-UniqueNames s u = ground arith

  create-UniqueNames :
      (params : Json) (s : Wallets W)
      → UniqueNames s.wallets
      → UniqueNames (create control can_write params s).1.wallets
  unfolding create send_all
  create-UniqueNames params s u =
      grind (arith, any-Unnamed, append-UniqueNames, on_wallet_changed-keeps, save-keeps)

  remove-UniqueNames :
      (name : String) (s : Wallets W)
      → UniqueNames s.wallets
      → UniqueNames (remove control can_write name s).1.wallets
  unfolding remove
  remove-UniqueNames name s u =
      elim (Option-cases (position (λ w. control.name w == name) s.wallets)) [
        | inl nowhere ↦ rw (nowhere, remove) u
        | inr (i, e) ↦ rw (remove-state control can_write s name i e).0 (
            ensure_current-UniqueNames (record s { wallets = remove_at s.wallets i })
              (remove_at-UniqueNames s.wallets i u))
      ]

  set_current_wallet-keeps :
      (id : ℕ) (s : Wallets W) → (set_current_wallet control can_write id s).1.wallets ≡ s.wallets
  unfolding set_current_wallet
  set_current_wallet-keeps id s = grind (arith, on_wallet_changed-keeps, save-keeps)

  update-state :
      (name : String) (params : Json) (s : Wallets W) (i : ℕ) (w w' : W)
      → IsValid s
      → position (λ x. control.name x == name) s.wallets ≡ some i
      → get_elem? s.wallets i ≡ some w
      → control.update w params ≡ ok w'
      → (update control can_write name params s).1.wallets ≡ set s.wallets i w'
  unfolding update send_all ensure_current
  update-state name params s i w w' valid at here e =
      grind
        (arith, length-set s.wallets i w', on_wallet_changed-keeps, notify_peers-keeps, save-keeps)

  module _ (laws : WalletLaws control) where
    set-Unnamed :
        (ws : List W) (i : ℕ) (w w' : W) (name : String)
        → get_elem? ws i ≡ some w
        → control.name w' ≡ control.name w
        → Unnamed name ws
        → Unnamed name (set ws i w')
    set-Unnamed [] i w w' name e n h = tt
    set-Unnamed (x ∷ ws) zero w w' name e n h = ((λ q. h.0 (ground arith)), h.1)
    set-Unnamed (x ∷ ws) (suc i) w w' name e n h = (h.0, set-Unnamed ws i w w' name e n h.1)

    set-UniqueNames :
        (ws : List W) (i : ℕ) (w w' : W)
        → get_elem? ws i ≡ some w
        → control.name w' ≡ control.name w
        → UniqueNames ws
        → UniqueNames (set ws i w')
    set-UniqueNames [] i w w' e n u = tt
    set-UniqueNames (x ∷ ws) zero w w' e n u = ground arith
    set-UniqueNames (x ∷ ws) (suc i) w w' e n u =
        (set-Unnamed ws i w w' (control.name x) e n u.0, set-UniqueNames ws i w w' e n u.1)

    set_current_path-UniqueNames :
        (key : Text) (s : Wallets W)
        → UniqueNames s.wallets
        → UniqueNames (set_current_path control can_write key s).1.wallets
    unfolding set_current_path
    set_current_path-UniqueNames key s u = elim (Option-cases (get_elem? s.wallets s.current)) [
      | inl outside ↦ ground arith
      | inr (w, here) ↦ chosen w here (control.set_current_path w key) refl
    ]
      where
        chosen :
            (w : W)
            → get_elem? s.wallets s.current ≡ some w
            → (r : Result W) → control.set_current_path w key ≡ r
            → UniqueNames (set_current_path control can_write key s).1.wallets
        chosen w here (ok w') e =
            let kept =
              set-UniqueNames s.wallets s.current w w' here (laws.name_of_path w w' key e) u in
            grind (arith, on_wallet_changed-keeps, save-keeps)
        chosen w here (err x) e = ground arith
        chosen w here panic e = ground arith

    -- If choosing an address of a wallet does not rename it, every method but `update` keeps the names of
    -- the wallets distinct, whether it succeeds, fails or panics.
    pub handle-UniqueNames :
        (r : Request Json) (s : Wallets W)
        → is_renaming r ≡ false
        → UniqueNames s.wallets
        → UniqueNames (handle control can_write r s).1.wallets
    unfolding handle
    handle-UniqueNames (set_current_path_request key) s f u = set_current_path-UniqueNames key s u
    handle-UniqueNames (set_current_wallet_request id) s f u = rw (set_current_wallet-keeps id s) u
    handle-UniqueNames (create_request params) s f u = create-UniqueNames params s u
    handle-UniqueNames (update_request name params) s f u = cc
    handle-UniqueNames (remove_request name) s f u = remove-UniqueNames name s u

  -- `update` does not look for the new name: if the current index is on a wallet and the update gives the
  -- wallet `w` that it finds the name of another wallet `v`, both are in the list under one name, whether
  -- or not the method then fails.
  pub update-shares_name :
      (name : String) (params : Json) (s : Wallets W) (i j : ℕ) (w w' v : W)
      → IsValid s
      → position (λ x. control.name x == name) s.wallets ≡ some i
      → get_elem? s.wallets i ≡ some w
      → get_elem? s.wallets j ≡ some v
      → i ≢ j
      → control.update w params ≡ ok w'
      → control.name w' ≡ control.name v
      → let t = (update control can_write name params s).1 in
        (get_elem? t.wallets i ≡ some w')
        × (get_elem? t.wallets j ≡ some v)
        × (control.name w' ≡ control.name v)
  update-shares_name name params s i j w w' v valid at here there ne e n =
      let t = update-state name params s i w w' valid at here e in
      rw t (
        get_elem?-set_self s.wallets i w'
            (position-lt (λ x. control.name x == name) s.wallets i at),
        rw (get_elem?-set_ne s.wallets i j w' ne) there,
        n,
      )
