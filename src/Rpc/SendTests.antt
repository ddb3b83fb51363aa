-- ===== src/Rpc/SendTests.antt =====
-- crates/rpc: sending and signing at concrete requests.
use ethui.Common.{
  ◌↔◌, ℕ, ◌≡◌, refl, String, true, false, Option, none, some, List, [], ◌∷◌, ◌==◌, text_Same,
  if◌then◌else◌,
}
use ethui.Common.Json.{str, object}
use ethui.Types.{mainnet, Node, is_dev}
use ethui.Rpc.Method.{panicked, DialogMsg, payload}
use ethui.Rpc.Sending
use ethui.Rpc.Sending.{
  TransactionRequest, SendTransaction, State, ResolvedWallet, dialog_and_send, estimate_gas, run,
}
use ethui.Rpc.Reviewing.{sends}
use ethui.Rpc.Consenting.{IsConsented, run-IsConsented}
use ethui.Rpc.Creating.{CannotGoOn, dialog_and_send-creation}
use ethui.Rpc.Signing
use ethui.Rpc.Signing.{SignMessage, raw, opened, finish, eth_sign}
use ethui.Rpc.Signing.Agreement.{IsAgreed, finish-IsAgreed}
use ethui.Rpc.Signing.Panics.{Panics, finish-panics_iff}

abbrev node : Node
node = record { connects = λ n. true; has_metadata = λ n. false }

abbrev event : String → DialogMsg
event name = payload (object (("event", str name) ∷ []))

abbrev wallet : Sending.Wallet
wallet = record {
  name = "test";
  is_dev = true;
  wallet_type = "plaintext";
  get_address = λ path. some 7;
  build_signer = λ chain path. some 7;
}

abbrev env : List DialogMsg → Sending.Env
env msgs = record {
  node = λ trace. node;
  estimate_gas = λ r. some 50000;
  find_wallet = λ a. some (wallet, []);
  get_wallet = λ trace name. some wallet;
  fast_mode = some false;
  delivers = msgs;
  simulates = λ r. true;
  parse_bytes = λ t. some (1 ∷ 2 ∷ []);
  parse_u256 = λ t. some 3;
  connects = true;
  impersonates = λ a. true;
  send = λ r. some 99;
}

abbrev request : Option ℕ → TransactionRequest
request to = record { from = some 7; to = to; value = some 1; input = none; gas = none }

abbrev state : Option ℕ → State
state to = record {
  tx = record { network = mainnet 0; from = 7; request = request to };
  trace = [];
}

abbrev reviewed : List DialogMsg
reviewed =
    event "simulate"
    ∷ payload (object (("event", str "update") ∷ ("value", str "3") ∷ []))
    ∷ event "accept"
    ∷ []

-- What was updated and accepted is sent, with the gas limit.
reviewed_sent :
    sends (run (env reviewed) (state (some 8))).1.trace
    ≡ record (request (some 8)) { value = some 3; gas = some 60000 } ∷ []
unfolding run Sending.finish Sending.build_provider Sending.send_transaction Sending.send
    Sending.check_and_send Sending.ask_or_send Sending.dialog_and_send Sending.review
    Sending.on_event Sending.simulate Sending.update Sending.with_buffer Sending.may_skip is_dev
reviewed_sent = refl

run-IsConsented_example :
    IsConsented
      (env reviewed)
      (estimate_gas (env reviewed) (state (some 8)))
      (sends (run (env reviewed) (state (some 8))).1.trace)
run-IsConsented_example = run-IsConsented (env reviewed) (state (some 8)) refl

abbrev resolved : ResolvedWallet
resolved = record { name = "test"; path = []; wallet_type = "plaintext" }

dialog_and_send-creation_example :
    CannotGoOn (dialog_and_send (env reviewed) resolved (state none)).0
dialog_and_send-creation_example =
    dialog_and_send-creation (env reviewed) resolved (state none)
      (object (("event", str "simulate") ∷ []))
      (payload (object (("event", str "update") ∷ ("value", str "3") ∷ [])) ∷ event "accept" ∷ [])
      refl refl refl

abbrev sign_env : Signing.Env (List ℕ)
sign_env = record {
  node = node;
  fast_mode = some false;
  delivers = payload (str "accept") ∷ [];
  parse_address = λ t. if t == "0x07" then some 7 else none;
  parse_typed = λ t. none;
  parse_bytes = λ t. if t == "0x0102" then some (1 ∷ 2 ∷ []) else none;
  sign = λ a bytes. some bytes;
  sign_typed = λ a d. some d;
}

abbrev signer : Signing.Wallet
signer = record { is_dev = false; current_path = []; build_signer = λ chain path. some 7 }

abbrev message : String → SignMessage (List ℕ)
message msg = record {
  wallet = signer;
  wallet_path = [];
  network = mainnet 0;
  data_to_sign = raw msg;
}

finish-IsAgreed_example :
    IsAgreed sign_env (message "0x0102") (finish sign_env (message "0x0102") []).1
finish-IsAgreed_example = finish-IsAgreed sign_env (message "0x0102")

finish-panics_iff_example :
    ((finish sign_env (message "hello") []).0 ≡ panicked) ↔ Panics sign_env (message "hello")
finish-panics_iff_example = finish-panics_iff sign_env (message "hello")
