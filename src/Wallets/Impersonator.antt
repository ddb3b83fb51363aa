-- ===== src/Wallets/Impersonator.antt =====
-- crates/wallets/src/wallets/impersonator.rs: a wallet of addresses that it cannot sign for. Its paths
-- are the indices of the addresses, written in decimal.
use ethui.Common.{
  ℕ, zero, suc, ◌+◌, ◌<◌, String, ◌≡◌, refl, Option, none, some, List, [], ◌∷◌, arith, get_elem?,
}
use ethui.Common.Exec.{Result, ok, err, panic}
use ethui.Common.Radix.{Text, from_str_radix, to_text, from_str_radix-to_text, u64_mod}
use ethui.Types.{Address}
use ethui.Wallets.{WalletControl, WalletLaws}

pub record Impersonator : Type 0 where
  pub name : String
  pub addresses : List Address
  pub current : ℕ

-- The JSON of an update, as far as it is read: the fields that are there, and for the addresses whether
-- they parse.
pub record Params : Type 0 where
  pub name : Option String
  pub addresses : Option (Result (List Address))
  pub current : Option ℕ

abbrev or_old {ℓ} : {A : Type ℓ} → Option A → A → A
or_old none a = a
or_old (some b) a = b

unfoldable pub update : Impersonator → Params → Result Impersonator
update w params = with_addresses (record w { name = or_old params.name w.name }) params.addresses
  where
    with_addresses : Impersonator → Option (Result (List Address)) → Result Impersonator
    with_addresses v none = ok (record v { current = or_old params.current v.current })
    with_addresses v (some (ok as')) =
        ok (record v { addresses = as'; current = or_old params.current v.current })
    with_addresses v (some (err e)) = err e
    with_addresses v (some panic) = panic

abbrev at_index : List Address → ℕ → Result Address
at_index as' i = elim (get_elem? as' i) [ none ↦ panic | some a ↦ ok a ]

unfoldable pub get_current_address : Impersonator → Result Address
get_current_address w = at_index w.addresses w.current

-- `usize::from_str` on the path.
unfoldable pub set_current_path : Impersonator → Text → Result Impersonator
set_current_path w path = elim (from_str_radix 10 path) [
  | none ↦ err "invalid digit found in string"
  | some i ↦ ok (record w { current = i })
]

unfoldable pub get_address : Impersonator → Text → Result Address
get_address w path = elim (from_str_radix 10 path) [
  | none ↦ err "invalid digit found in string"
  | some i ↦ at_index w.addresses i
]

pub enumerate : ℕ → List Address → List (Text × Address)
enumerate i [] = []
enumerate i (a ∷ as') = (to_text 10 i, a) ∷ enumerate (i + 1) as'

unfoldable pub get_all_addresses : Impersonator → List (Text × Address)
unfolding enumerate
get_all_addresses w = enumerate 0 w.addresses

-- The parse of the JSON of a new wallet is an argument of `create`.
abbrev pub impersonator_control : (Params → Result Impersonator) → WalletControl Params Impersonator
impersonator_control create = record {
  name = λ w. w.name;
  update = update;
  get_current_address = get_current_address;
  set_current_path = set_current_path;
  get_all_addresses = get_all_addresses;
  wallet_type = λ w. "Impersonator";
  create = create;
  default_wallet = record { name = ""; addresses = []; current = 0 };
}

name-set_current_path :
    (w w' : Impersonator) (path : Text) → set_current_path w path ≡ ok w' → w'.name ≡ w.name
unfolding set_current_path
name-set_current_path w w' path e = ground arith

-- An impersonator meets what the list of wallets relies on.
pub impersonator_control-WalletLaws :
    (create : Params → Result Impersonator) → WalletLaws (impersonator_control create)
impersonator_control-WalletLaws create = record { name_of_path = name-set_current_path }

get_elem?-enumerate :
    (k i : ℕ) (as' : List Address)
    → get_elem? (enumerate k as') i
      ≡ (elim (get_elem? as' i) [ none ↦ none | some a ↦ some (to_text 10 (k + i), a) ])
unfolding enumerate
get_elem?-enumerate k i [] = refl
get_elem?-enumerate k zero (a ∷ as') = ground arith
get_elem?-enumerate k (suc i) (a ∷ as') = ground (arith, get_elem?-enumerate (k + 1) i as')

-- Choosing the written form of an index below 2 ^ 64 always succeeds. If a listed address has that path,
-- it is then the current one, and `get_address` gives it too; if none has, asking for the current
-- address panics from then on.
pub set_current_path-listed :
    (w : Impersonator) (i : ℕ)
    → i < u64_mod
    → (w' : Impersonator) × (set_current_path w (to_text 10 i) ≡ ok w')
      × (get_current_address w' ≡ get_address w (to_text 10 i))
      × (get_elem? (get_all_addresses w) i
          ≡ (elim (get_elem? w.addresses i) [ none ↦ none | some a ↦ some (to_text 10 i, a) ]))
      × (get_elem? (get_all_addresses w) i ≡ none → get_current_address w' ≡ panic)
unfolding set_current_path get_current_address get_address get_all_addresses
set_current_path-listed w i u =
    let read = from_str_radix-to_text 10 (omega arith) (omega arith) i u in
    (
      record w { current = i },
      rw (read, set_current_path),
      rw (read, get_address),
      ground (arith, get_elem?-enumerate 0 i w.addresses),
      λ e. ground (arith, get_elem?-enumerate 0 i w.addresses),
    )
