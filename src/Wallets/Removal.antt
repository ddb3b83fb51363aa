-- ===== src/Wallets/Removal.antt =====
-- crates/wallets/src/lib.rs: which wallet is current after `remove`.
use ethui.Common.{
  remove_at, ℕ, zero, suc, ◌<◌, ◌≤◌, String, ◌≡◌, refl, Bool, some, List, [], ◌∷◌, arith, ◌==◌,
  text_Same, length, get_elem?,
}
use ethui.Wallets.{WalletControl, Wallets, position, send_all, ensure_current, remove}
use ethui.Wallets.Selection.{
  on_wallet_changed-keeps, save-keeps, length-remove_at, get_elem?-remove_at_lt,
  get_elem?-remove_at_le, position-lt, IsValid,
}

get_elem?-some :
    {W : Type 0} (xs : List W) (i : ℕ) → i < length xs → (x : W) × (get_elem? xs i ≡ some x)
get_elem?-some [] i h = elim h [ ]
get_elem?-some (x ∷ xs) zero h = (x, refl)
get_elem?-some (x ∷ xs) (suc i) h = get_elem?-some xs i (omega arith)

module _ {Json W : Type 0} (control : WalletControl Json W) (can_write : Bool) where
  pub ensure_current-inside :
      (s : Wallets W) → s.current < length s.wallets → ensure_current control can_write s ≡ s
  unfolding ensure_current
  ensure_current-inside s h = ground arith

  ensure_current-outside :
      (s : Wallets W)
      → 0 < length s.wallets
      → length s.wallets ≤ s.current
      → ensure_current control can_write s ≡ record s { current = 0 }
  unfolding ensure_current
  ensure_current-outside s h k = ground arith

  -- What `remove` leaves, whatever the messages and the file do: the wallet taken out, and the current
  -- index put in bounds.
  pub remove-state :
      (s : Wallets W) (name : String) (i : ℕ)
      → position (λ w. control.name w == name) s.wallets ≡ some i
      → let t = (remove control can_write name s).1 in
        let u = ensure_current control can_write (record s { wallets = remove_at s.wallets i }) in
        (t.wallets ≡ u.wallets) × (t.current ≡ u.current)
  unfolding remove send_all ensure_current
  remove-state s name i e =
      let (w, there) =
        get_elem?-some s.wallets i (position-lt (λ w. control.name w == name) s.wallets i e) in
      grind (arith, on_wallet_changed-keeps, save-keeps)

  -- If the current index is on a wallet and a wallet has the name, then removing a wallet behind the
  -- current one leaves the current one selected. Removing one before it does not move the index: the
  -- wallet behind the current one is selected in its place, or the index becomes 0 if the current one
  -- was last. All of it holds whether or not the method then fails.
  pub remove-selects :
      (s : Wallets W) (name : String) (i : ℕ)
      → IsValid s
      → position (λ w. control.name w == name) s.wallets ≡ some i
      → let t = (remove control can_write name s).1 in
        (s.current < i → get_elem? t.wallets t.current ≡ get_elem? s.wallets s.current)
        × (i < s.current
            → suc s.current < length s.wallets
            → get_elem? t.wallets t.current ≡ get_elem? s.wallets (suc s.current))
        × (i < s.current → suc s.current ≡ length s.wallets → t.current ≡ 0)
  remove-selects s name i v e =
      let p : W → Bool = λ w. control.name w == name in
      let u : Wallets W = record s { wallets = remove_at s.wallets i } in
      let shorter = length-remove_at s.wallets i (position-lt p s.wallets i e) in
      let st = remove-state s name i e in
      rw (st.0, st.1)
        (
          (λ lt.
              rw (ensure_current-inside u (omega (arith, shorter, position-lt p s.wallets i e)))
                (get_elem?-remove_at_lt s.wallets i s.current lt)),
          (λ lt more.
              rw (ensure_current-inside u (omega (arith, shorter)))
                (get_elem?-remove_at_le s.wallets i s.current (omega arith))),
          (λ lt last.
              rw (ensure_current-outside u (omega (arith, shorter)) (omega (arith, shorter))) refl),
        )
