-- ===== src/Rpc/Sending.antt =====
-- crates/rpc/src/methods: send_transaction.rs, and the parameters of send_call.rs. What a node, the wallets
-- and the settings say may depend on what has happened so far, which is the trace.
use ethui.Common.{
  ℕ, ◌-◌, ◌*◌, ◌/◌, ◌%◌, String, Bool, false, ◌&&◌, Option, none, some, List, [], ◌∷◌, ◌++◌, ◌==◌,
  text_Same, min, if◌then◌else◌,
}
use ethui.Common.Exec.{Result, ok, err, panic}
use ethui.Common.Radix.{Text, u64_mod}
use ethui.Common.Json.{Json, at, as_str}
use ethui.Types.{Address, Network, Node, chain_id, is_dev}
use ethui.Rpc.{
  Error, tx_dialog_rejected, wallet_name_not_found, wallet_not_found, ethui_report, transport,
  cannot_simulate,
}
use ethui.Rpc.Method.{
  Call, done, failed, panicked, ◌>>=◌, ◌>>◌, answer, fail, reads, or_fail, expect, writes,
  DialogMsg, payload, close,
}

-- `CallParams` of send_call.rs. Data is a list of bytes, and values and gas are numbers below 2 ^ 256.
pub record CallParams : Type 0 where
  pub from : Option Address
  pub to : Option Address
  pub value : Option ℕ
  pub input : Option (List ℕ)
  pub gas : Option ℕ

-- `TransactionRequest`, as far as it is set and read.
pub record TransactionRequest : Type 0 where
  pub from : Option Address
  pub to : Option Address
  pub value : Option ℕ
  pub input : Option (List ℕ)
  pub gas : Option ℕ

-- `gas.saturating_to::<u64>()`
abbrev pub saturated : Option ℕ → Option ℕ
saturated none = none
saturated (some gas) = some (min gas (u64_mod - 1))

-- `From<CallParams> for TransactionRequest`
unfoldable pub to_request : CallParams → TransactionRequest
to_request params = record {
  from = params.from;
  to = params.to;
  value = params.value;
  input = params.input;
  gas = saturated params.gas;
}

-- `into_request_with_from`, with the address of the current wallet.
unfoldable pub into_request_with_from : Address → CallParams → Address × TransactionRequest
unfolding to_request
into_request_with_from current params = elim params.from [
  | some addr ↦ (addr, to_request params)
  | none ↦ (current, record (to_request params) { from = some current })
]

-- `WalletControl`, as far as it is asked: `get_address`, and `build_signer` with the address of the signer.
pub record Wallet : Type 0 where
  pub name : String
  pub is_dev : Bool
  pub wallet_type : String
  pub get_address : Text → Option Address
  pub build_signer : ℕ → Text → Option Address

-- What happens outside: a dialog is opened with a request, events are sent to it, the node is asked to
-- impersonate an account, the submission is broadcast, and a transaction is sent.
pub data Effect : Type 0 where
  opened : String → TransactionRequest → ℕ → String → Effect
  told : String → Effect
  impersonated : Address → Effect
  submitted : ℕ → Effect
  sent : TransactionRequest → Effect

pub record SendTransaction : Type 0 where
  pub network : Network
  pub from : Address
  pub request : TransactionRequest

pub record State : Type 0 where
  pub tx : SendTransaction
  pub trace : List Effect

pub record Env : Type 0 where
  pub node : List Effect → Node
  pub estimate_gas : TransactionRequest → Option ℕ
  pub find_wallet : Address → Option (Wallet × Text)
  pub get_wallet : List Effect → String → Option Wallet
  pub fast_mode : Option Bool
  pub delivers : List DialogMsg
  pub simulates : TransactionRequest → Bool
  pub parse_bytes : String → Option (List ℕ)
  pub parse_u256 : String → Option ℕ
  pub connects : Bool
  pub impersonates : Address → Bool
  pub send : TransactionRequest → Option ℕ

pub record ResolvedWallet : Type 0 where
  pub name : String
  pub path : Text
  pub wallet_type : String

-- `SendTransaction::build`, once the parameters are read.
unfoldable pub build : Network → Address → CallParams → SendTransaction
unfolding into_request_with_from
build network current params =
    let (from, request) = into_request_with_from current params in
    record { network = network; from = from; request = request }

abbrev set_request : TransactionRequest → State → State
set_request r s = record s { tx = record s.tx { request = r } }

abbrev emit : Effect → Call State (Unit {0})
emit e = writes (λ s. record s { trace = s.trace ++ e ∷ [] })

-- A report whose text is not modelled.
abbrev report : Error
report = ethui_report []

abbrev lift_result : Result Bool → Call State Bool
lift_result (ok b) s = (done b, s)
lift_result (err e) s = (failed report, s)
lift_result panic s = (panicked, s)

abbrev network_is_dev : Env → Call State Bool
network_is_dev env s = lift_result (is_dev (env.node s.trace) s.tx.network) s

-- The estimate, or the default where there is no provider or the node refuses.
abbrev pub estimate_or_default : Env → State → ℕ
estimate_or_default env s =
    if (env.node s.trace).connects s.tx.network
    then elim (env.estimate_gas s.tx.request) [ none ↦ 1000000 | some e ↦ e ]
    else 1000000

-- 20% are added in 64 bits.
unfoldable pub with_buffer : ℕ → ℕ
with_buffer estimate = estimate * 120 % u64_mod / 100

unfoldable pub estimate_gas : Env → State → State
estimate_gas env s = elim s.tx.request.gas [
  | some gas ↦ s
  | none ↦
      set_request (record s.tx.request { gas = some (with_buffer (estimate_or_default env s)) }) s
]

unfoldable pub resolve_wallet : Env → Call State ResolvedWallet
resolve_wallet env s =
    (do
      found ← or_fail (env.find_wallet s.tx.from) wallet_not_found
      answer (record { name = found.0.name; path = found.1; wallet_type = found.0.wallet_type }))
      s

abbrev named_wallet : Env → ResolvedWallet → Call State Wallet
named_wallet env resolved s = or_fail (env.get_wallet s.trace resolved.name) wallet_name_not_found s

unfoldable pub get_from_address : Env → ResolvedWallet → Call State Address
get_from_address env resolved = do
  wallet ← named_wallet env resolved
  or_fail (wallet.get_address resolved.path) cannot_simulate

-- `simulation_request`: it is asked for the sender, and whether there are a receiver and gas.
unfoldable pub simulation_request : Env → ResolvedWallet → Call State TransactionRequest
unfolding get_from_address
simulation_request env resolved = do
  from ← get_from_address env resolved
  request ← reads (λ s. s.tx.request)
  to ← or_fail request.to cannot_simulate
  gas ← or_fail request.gas cannot_simulate
  answer (record request { from = some from; to = some to; gas = some gas })

unfoldable pub simulate : Env → ResolvedWallet → Call State (Unit {0})
unfolding simulation_request
simulate env resolved = do
  request ← simulation_request env resolved
  if env.simulates request
      then (do emit (told "foo"); emit (told "simulation-result"))
      else answer tt

abbrev set_input : List ℕ → Call State (Unit {0})
set_input b = writes (λ s. set_request (record s.tx.request { input = some b }) s)

abbrev set_value : ℕ → Call State (Unit {0})
set_value v = writes (λ s. set_request (record s.tx.request { value = some v }) s)

abbrev update_input : Env → Option String → Call State (Unit {0})
update_input env none = answer tt
update_input env (some t) = do b ← expect (env.parse_bytes t); set_input b

abbrev update_value : Env → Option String → Call State (Unit {0})
update_value env none = answer tt
update_value env (some t) = do v ← expect (env.parse_u256 t); set_value v

-- Text that does not parse panics.
unfoldable pub update : Env → Json → Call State (Unit {0})
update env j = do update_input env (as_str (at j "data")); update_value env (as_str (at j "value"))

-- What a message of the dialog asks for.
pub data Event : Type 0 where
  simulates accepts updates other : Event

abbrev event_named : String → Event
event_named e =
    if e == "simulate"
    then simulates
    else if e == "accept"
    then accepts
    else if e == "update"
    then updates
    else other

abbrev pub event_of : Json → Event
event_of j = elim (as_str (at j "event")) [ none ↦ other | some e ↦ event_named e ]

-- A message of the loop of `dialog_and_send`, with the rest of the loop.
unfoldable pub on_event :
    Env → ResolvedWallet → Call State (Unit {0}) → Event → Json → Call State (Unit {0})
on_event env resolved rest simulates j = do emit (told "trying"); simulate env resolved; rest
on_event env resolved rest accepts j = answer tt
on_event env resolved rest updates j = do update env j; simulate env resolved; rest
on_event env resolved rest other j = fail tx_dialog_rejected

-- The loop, over the messages that the dialog receives until its channel ends.
unfoldable pub review : Env → ResolvedWallet → List DialogMsg → Call State (Unit {0})
review env resolved [] = answer tt
review env resolved (close ∷ msgs) = fail tx_dialog_rejected
review env resolved (payload j ∷ msgs) =
    on_event env resolved (review env resolved msgs) (event_of j) j

unfoldable pub build_provider : Env → ResolvedWallet → Call State (Unit {0})
build_provider env resolved = do
  wallet ← named_wallet env resolved
  dev ← network_is_dev env
  chain ← reads (λ s. chain_id s.tx.network)
  if dev
      then (do
        if env.connects then answer tt else fail transport
        signer ← or_fail (wallet.build_signer chain resolved.path) report
        emit (impersonated signer)
        if env.impersonates signer then answer tt else fail transport)
      else (do
        signer ← or_fail (wallet.build_signer chain resolved.path) report
        if env.connects then answer tt else fail transport)

-- What `send` does with the provider; the answer is the hash.
unfoldable pub send_transaction : Env → Call State ℕ
send_transaction env = do
  chain ← reads (λ s. chain_id s.tx.network)
  emit (submitted chain)
  request ← reads (λ s. s.tx.request)
  emit (sent request)
  or_fail (env.send request) transport

unfoldable pub send : Env → ResolvedWallet → Call State ℕ
send env resolved = do build_provider env resolved; send_transaction env

abbrev show_dialog : ResolvedWallet → Call State (Unit {0})
show_dialog resolved s =
    emit (opened "tx-review" s.tx.request (chain_id s.tx.network) resolved.wallet_type) s

abbrev check_ledger : ResolvedWallet → Call State (Unit {0})
check_ledger resolved =
    if resolved.wallet_type == "ledger" then emit (told "check-ledger") else answer tt

-- The part of `dialog_and_send` after its loop.
unfoldable pub check_and_send : Env → ResolvedWallet → Call State ℕ
check_and_send env resolved = do check_ledger resolved; send env resolved

unfoldable pub dialog_and_send : Env → ResolvedWallet → Call State ℕ
dialog_and_send env resolved = do
  show_dialog resolved
  review env resolved env.delivers
  check_and_send env resolved

-- The condition for no dialog; the settings are read only where the rest holds.
unfoldable pub may_skip : Env → Bool → Call State Bool
may_skip env wallet_is_dev = do
  dev ← network_is_dev env
  if dev && wallet_is_dev then or_fail env.fast_mode report else answer false

-- The end of `finish`, which asks the user or not.
unfoldable pub ask_or_send : Env → ResolvedWallet → Wallet → Call State ℕ
ask_or_send env resolved wallet = do
  skip ← may_skip env wallet.is_dev
  if skip then send env resolved else dialog_and_send env resolved

unfoldable pub finish : Env → Call State ℕ
unfolding resolve_wallet
finish env = do
  resolved ← resolve_wallet env
  wallet ← named_wallet env resolved
  ask_or_send env resolved wallet

-- `SendTransaction::run`
unfoldable pub run : Env → Call State ℕ
unfolding estimate_gas
run env s = finish env (estimate_gas env s)
