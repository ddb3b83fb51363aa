-- ===== src/Rpc/Signing.antt =====
-- crates/rpc/src/methods/sign_message.rs: the signing of a message. What the node and the settings say is a
-- parameter, and the wallet is the one that was current when the method was built.
pub mod Agreement
pub mod Panics
use ethui.Common.{
  ℕ, ◌≡◌, String, Bool, true, false, ◌&&◌, Option, none, some, List, [], ◌∷◌, ◌++◌, get_elem?,
  first?, if◌then◌else◌,
}
use ethui.Common.Exec.{Result, ok, err, panic}
use ethui.Common.Radix.{Text}
use ethui.Common.Json.{Json, as_str}
use ethui.Types.{Address, Network, Node, chain_id, is_dev}
use ethui.Rpc.{
  Error, parse_error, serde, tx_dialog_rejected, signer_build, signer_error, ethui_report,
}
use ethui.Rpc.Method.{
  Call, done, failed, panicked, ◌>>=◌, ◌>>◌, answer, fail, or_fail, expect, writes, DialogMsg,
  payload, close, is_accept,
}

-- `SignData`: a message as it was given, or typed data.
pub data SignData (TypedData : Type 0) : Type 0 where
  raw : String → SignData TypedData
  typed : TypedData → SignData TypedData

-- `Wallet`, as far as it is asked: the address of the signer that it builds for a chain and a path.
pub record Wallet : Type 0 where
  pub is_dev : Bool
  pub current_path : Text
  pub build_signer : ℕ → Text → Option Address

pub record SignMessage (TypedData : Type 0) : Type 0 where
  pub wallet : Wallet
  pub wallet_path : Text
  pub network : Network
  pub data_to_sign : SignData TypedData

-- What is shown to the user, and what a signer signs.
pub data Effect (TypedData : Type 0) : Type 0 where
  opened : String → SignData TypedData → Effect TypedData
  signed : Address → List ℕ → Effect TypedData
  signed_typed : Address → TypedData → Effect TypedData

pub record Env (TypedData : Type 0) : Type 0 where
  pub node : Node
  pub fast_mode : Option Bool
  pub delivers : List DialogMsg
  pub parse_address : String → Option Address
  pub parse_typed : String → Option TypedData
  pub parse_bytes : String → Option (List ℕ)
  pub sign : Address → List ℕ → Option (List ℕ)
  pub sign_typed : Address → TypedData → Option (List ℕ)

module _ {TypedData : Type 0} (env : Env TypedData) where
  abbrev Trace : Type 0
  Trace = List (Effect TypedData)

  abbrev text_at : List (Option String) → ℕ → Option String
  text_at params i = elim (get_elem? params i) [ none ↦ none | some v ↦ v ]

  abbrev address_in : Option String → Option Address
  address_in none = none
  address_in (some t) = env.parse_address t

  -- `EthSign::build`, on parameters that are texts or null.
  unfoldable pub build_eth_sign :
      Wallet → Network → List (Option String) → Call Trace (SignMessage TypedData)
  build_eth_sign wallet network params = do
    message ← or_fail (text_at params 0) parse_error
    address ← or_fail (address_in (text_at params 1)) parse_error
    answer (record {
      wallet = wallet;
      wallet_path = wallet.current_path;
      network = network;
      data_to_sign = raw message;
    })

  -- `EthSignTypedData::build`
  unfoldable pub build_eth_sign_typed :
      Wallet → Network → List (Option String) → Call Trace (SignMessage TypedData)
  build_eth_sign_typed wallet network params = do
    text ← or_fail (text_at params 1) parse_error
    data_read ← or_fail (env.parse_typed text) serde
    answer (record {
      wallet = wallet;
      wallet_path = wallet.current_path;
      network = network;
      data_to_sign = typed data_read;
    })

  abbrev emit : Effect TypedData → Call Trace (Unit {0})
  emit e = writes (λ es. es ++ e ∷ [])

  abbrev lift_result : Result Bool → Call Trace Bool
  lift_result (ok b) es = (done b, es)
  lift_result (err e) es = (failed (ethui_report []), es)
  lift_result panic es = (panicked, es)

  -- The first message decides; one that ends the channel is a refusal.
  abbrev pub first_message : List DialogMsg → Call Trace (Unit {0})
  first_message [] = fail tx_dialog_rejected
  first_message (close ∷ msgs) = fail tx_dialog_rejected
  first_message (payload j ∷ msgs) = if is_accept j then answer tt else fail tx_dialog_rejected

  unfoldable pub spawn_dialog : SignMessage TypedData → Call Trace (Unit {0})
  spawn_dialog self = do emit (opened "msg-sign" self.data_to_sign); first_message env.delivers

  unfoldable pub build_signer : SignMessage TypedData → Call Trace Address
  build_signer self =
      or_fail (self.wallet.build_signer (chain_id self.network) self.wallet_path) signer_build

  -- `Bytes::from_str(msg).unwrap()` panics where the message is not hexadecimal.
  abbrev sign_data : Address → SignData TypedData → Call Trace (List ℕ)
  sign_data signer (raw msg) = do
    bytes ← expect (env.parse_bytes msg)
    emit (signed signer bytes)
    or_fail (env.sign signer bytes) signer_error
  sign_data signer (typed d) = do
    emit (signed_typed signer d)
    or_fail (env.sign_typed signer d) signer_error

  unfoldable pub sign : SignMessage TypedData → Call Trace (List ℕ)
  unfolding build_signer
  sign self = do signer ← build_signer self; sign_data signer self.data_to_sign

  -- The settings are read only where the rest holds.
  unfoldable pub may_skip : SignMessage TypedData → Call Trace Bool
  may_skip self = do
    dev ← lift_result (is_dev env.node self.network)
    if dev && self.wallet.is_dev then expect env.fast_mode else answer false

  unfoldable pub finish : SignMessage TypedData → Call Trace (List ℕ)
  unfolding may_skip
  finish self = do skip ← may_skip self; if skip then answer tt else spawn_dialog self; sign self

  -- The method, from its parameters.
  unfoldable pub eth_sign : Wallet → Network → List (Option String) → Call Trace (List ℕ)
  unfolding build_eth_sign
  eth_sign wallet network params = do self ← build_eth_sign wallet network params; finish self
