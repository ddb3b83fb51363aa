-- ===== src/Wallets.antt =====
-- crates/wallets/src/lib.rs: the list of wallets and the current one, over the interface of a wallet
-- (wallet.rs). The proofs are in the modules below.
pub mod Selection
pub mod Removal
pub mod Names
pub mod Secrets
pub mod Hd
pub mod Derived
pub mod Kept
pub mod Impersonator
mod Tests
mod HdTests
mod SecretTests
use ethui.Common.{
  remove_at, ℕ, zero, suc, ◌+◌, ◌≡◌, String, Bool, true, false, not, Option, none, some, List, [],
  ◌∷◌, ◌++◌, ◌==◌, nat_Same, text_Same, pair_Same, Same, ltb, leb, length, get_elem?, find, any,
  filter, map, if◌then◌else◌,
}
use ethui.Common.Exec.{
  Exec, Result, ok, err, panic, ◌>>=◌, ◌>>◌, pure, raise, lift, gets, modify, or_raise, unwrap,
}
use ethui.Common.Radix.{Text}
use ethui.Types.{Address}
use ethui.Broadcast.{
  Message, accounts_changed, current_address_changed, address_added, address_removed,
  wallet_created, wallet_connected, ui_notify, wallets_changed,
}

-- The trait `WalletControl`, with `Wallet::create` and the default wallet. A path is the list of its
-- bytes. An operation may panic, as an index out of bounds does.
pub record WalletControl (Json W : Type 0) : Type 0 where
  pub name : W → String
  pub update : W → Json → Result W
  pub get_current_address : W → Result Address
  pub set_current_path : W → Text → Result W
  pub get_all_addresses : W → List (Text × Address)
  pub wallet_type : W → String
  pub create : Json → Result W
  pub default_wallet : W

-- What the methods rely on in a wallet: choosing another address of it does not rename it.
pub record WalletLaws {Json W : Type 0} (control : WalletControl Json W) : Type 0 where
  pub name_of_path :
      (w w' : W) (path : Text)
      → control.set_current_path w path ≡ ok w'
      → control.name w' ≡ control.name w

-- `Iterator::find_map` as `WalletControl::find` uses it.
pub path_of : List (Text × Address) → Address → Option Text
path_of [] address = none
path_of ((path, a) ∷ rest) address = if a == address then some path else path_of rest address

-- `Wallets`, with the contents of its file (the wallets and the current index) and the messages sent.
pub record Wallets (W : Type 0) : Type 0 where
  pub wallets : List W
  pub current : ℕ
  pub file : Option (List W × ℕ)
  pub sent : List Message

module _ {ℓ} {A : Type ℓ} where
  abbrev pub set : List A → ℕ → A → List A
  set [] i v = []
  set (x ∷ xs) zero v = v ∷ xs
  set (x ∷ xs) (suc i) v = x ∷ set xs i v

  -- `Iterator::position`
  abbrev pub position : (A → Bool) → List A → Option ℕ
  position p [] = none
  position p (x ∷ xs) =
      let rest : Option ℕ = elim (position p xs) [ none ↦ none | some i ↦ some (suc i) ] in
      if p x then some 0 else rest

-- Lists of bytes are equal as texts.
abbrev pub bytes_same : Text → Text → Bool
bytes_same [] [] = true
bytes_same (a ∷ as') (b ∷ bs) = if a == b then bytes_same as' bs else false
bytes_same _ _ = false

abbrev entry_same : Text × Address → Text × Address → Bool
entry_same (p, a) (q, b) = if a == b then bytes_same p q else false

-- `HashSet::difference`
abbrev difference : List (Text × Address) → List (Text × Address) → List (Text × Address)
difference xs ys = filter (λ x. not (any (entry_same x) ys)) xs

module _ {Json W : Type 0} (control : WalletControl Json W) (can_write : Bool) where
  abbrev send : Message → Exec (Wallets W) (Unit {0})
  send m = modify (λ s. record s { sent = s.sent ++ m ∷ [] })

  pub send_all : (Address → Message) → List (Text × Address) → Exec (Wallets W) (Unit {0})
  send_all f xs = modify (λ s. record s { sent = s.sent ++ map (λ x. f x.1) xs })

  unfoldable pub save : Exec (Wallets W) (Unit {0})
  save s =
      if can_write
      then modify (λ t. record t { file = some (t.wallets, t.current) }) s
      else raise "io error" s

  -- `get_current_wallet`, which panics where `current` is out of bounds.
  abbrev pub current_wallet : Exec (Wallets W) W
  current_wallet s = unwrap (get_elem? s.wallets s.current) s

  abbrev current_address : Exec (Wallets W) Address
  current_address = do w ← current_wallet; lift (control.get_current_address w)

  unfoldable pub notify_peers : Exec (Wallets W) (Unit {0})
  notify_peers = do addr ← current_address; send (accounts_changed (addr ∷ []))

  unfoldable pub on_wallet_changed : Exec (Wallets W) (Unit {0})
  unfolding notify_peers
  on_wallet_changed = do
    addr ← current_address
    notify_peers
    send (ui_notify wallets_changed)
    send (current_address_changed addr)

  unfoldable pub ensure_current : Wallets W → Wallets W
  ensure_current s =
      let ws : List W = elim s.wallets [ [] ↦ control.default_wallet ∷ [] | w ∷ rest ↦ w ∷ rest ] in
      record s { wallets = ws; current = if leb (length ws) s.current then 0 else s.current }

  unfoldable pub get : Wallets W → String → Option W
  get s name = find (λ w. control.name w == name) s.wallets

  -- `Wallets::find`: the first wallet that has the address, with its path there.
  find_in : List W → Address → Option (W × Text)
  find_in [] address = none
  find_in (w ∷ ws) address = elim (path_of (control.get_all_addresses w) address) [
    | some path ↦ some (w, path)
    | none ↦ find_in ws address
  ]

  unfoldable pub find_address : Wallets W → Address → Option (W × Text)
  unfolding find_in path_of
  find_address s address = find_in s.wallets address

  unfoldable pub set_current_path : Text → Exec (Wallets W) (Unit {0})
  set_current_path key = do
    w ← current_wallet
    w' ← lift (control.set_current_path w key)
    modify (λ s. record s { wallets = set s.wallets s.current w' })
    on_wallet_changed
    save

  unfoldable pub set_current_wallet : ℕ → Exec (Wallets W) (Unit {0})
  set_current_wallet id = do
    ws ← gets (λ s. s.wallets)
    if leb (length ws) id then raise "invalid wallet index" else do
      modify (λ s. record s { current = id })
      on_wallet_changed
      w ← (λ s. unwrap (get_elem? s.wallets id) s)
      send (wallet_connected (control.wallet_type w))
      save

  unfoldable pub create : Json → Exec (Wallets W) (Unit {0})
  unfolding send_all
  create params = do
    wallet ← lift (control.create params)
    ws ← gets (λ s. s.wallets)
    if any (λ w. control.name w == control.name wallet) ws
        then raise "duplicate wallet names"
        else do
          modify (λ s. record s { wallets = s.wallets ++ wallet ∷ [] })
          on_wallet_changed
          save
          send wallet_created
          send_all address_added (control.get_all_addresses wallet)

  -- The address messages of `update` are sent by a task of its own; here, where it is spawned.
  unfoldable pub update : String → Json → Exec (Wallets W) (Unit {0})
  unfolding send_all
  update name params = do
    ws ← gets (λ s. s.wallets)
    i ← or_raise (position (λ w. control.name w == name) ws) "invalid wallet name"
    w ← (λ s. unwrap (get_elem? s.wallets i) s)
    w' ← lift (control.update w params)
    modify (λ s. record s { wallets = set s.wallets i w' })
    send_all address_added (difference (control.get_all_addresses w') (control.get_all_addresses w))
    send_all address_removed
        (difference (control.get_all_addresses w) (control.get_all_addresses w'))
    modify ensure_current
    notify_peers
    on_wallet_changed
    save

  unfoldable pub remove : String → Exec (Wallets W) (Unit {0})
  unfolding send_all
  remove name s = elim (position (λ w. control.name w == name) s.wallets) [
    | none ↦ pure tt s
    | some i ↦
        (do
          removed ← (λ t. unwrap (get_elem? t.wallets i) t)
          modify (λ t. record t { wallets = remove_at t.wallets i })
          send_all address_removed (control.get_all_addresses removed)
          modify ensure_current
          on_wallet_changed
          save)
          s
  ]
