-- ===== src/Rpc/Creating.antt =====
-- crates/rpc/src/methods/send_transaction.rs: the transactions that create a contract.
use ethui.Common.{◌≡◌, ◌⊎◌, inl, inr, ap, ◌∙◌, none, List, [], ◌∷◌, ◌++◌, arith, sym, text_Same}
use mathlib.Core.Path.{subst}
use ethui.Common.Json.{Json}
use ethui.Types.{chain_id}
use ethui.Rpc.{cannot_simulate, wallet_name_not_found}
use ethui.Rpc.Method.{continue, Outcome, done, failed, panicked, DialogMsg, payload}
use ethui.Rpc.Sending.{
  opened, told, State, Env, ResolvedWallet, Event, simulates, event_of, simulation_request,
  get_from_address, simulate, on_event, review, check_and_send, dialog_and_send,
}

-- A method has failed for want of a receiver, or of the wallet.
abbrev pub CannotGoOn {ℓ} : {A : Type ℓ} → Outcome A → Type ℓ
CannotGoOn r = (r ≡ failed cannot_simulate) ⊎ (r ≡ failed wallet_name_not_found)

simulate-CannotGoOn :
    (env : Env) (resolved : ResolvedWallet) (s : State)
    → s.tx.request.to ≡ none
    → CannotGoOn (simulate env resolved s).0
unfolding simulate simulation_request get_from_address
simulate-CannotGoOn env resolved s t = ground (arith, t)

continue-CannotGoOn :
    {A B : Type 0} (r : Outcome A) (f : A → State → Outcome B × State) (t : State)
    → CannotGoOn r
    → CannotGoOn (continue r f t).0
continue-CannotGoOn (done a) f t (inl e) = cc
continue-CannotGoOn (done a) f t (inr e) = cc
continue-CannotGoOn (failed x) f t h = ground (arith, h)
continue-CannotGoOn panicked f t (inl e) = cc
continue-CannotGoOn panicked f t (inr e) = cc

-- If the request creates a contract, which has no receiver, and the first message of the dialog asks for a
-- simulation, then `dialog_and_send` fails for want of the receiver, or of the wallet, whatever the user does
-- afterwards.
pub dialog_and_send-creation :
    (env : Env) (resolved : ResolvedWallet) (s : State) (j : Json) (msgs : List DialogMsg)
    → s.tx.request.to ≡ none
    → env.delivers ≡ payload j ∷ msgs
    → event_of j ≡ simulates
    → CannotGoOn (dialog_and_send env resolved s).0
unfolding dialog_and_send review on_event
dialog_and_send-creation env resolved s j msgs t d e =
    let shown : State = record s {
      trace =
          s.trace
          ++ opened "tx-review" s.tx.request (chain_id s.tx.network) resolved.wallet_type ∷ [];
    } in
    let trying : State = record shown { trace = shown.trace ++ told "trying" ∷ [] } in
    let first_message : review env resolved env.delivers shown
        ≡ on_event env resolved (review env resolved msgs) simulates j shown =
      ap (λ (ms : List DialogMsg). review env resolved ms shown) d
      ∙ ap (λ (x : Event). on_event env resolved (review env resolved msgs) x j shown) e in
    subst
      (λ (x : Outcome (Unit {0}) × State).
        CannotGoOn (continue x.0 (λ (u : Unit {0}). check_and_send env resolved) x.1).0)
      (sym first_message)
      (continue-CannotGoOn _ (λ (u : Unit {0}). check_and_send env resolved) _
        (continue-CannotGoOn (simulate env resolved trying).0
          (λ (u : Unit {0}). review env resolved msgs) (simulate env resolved trying).1
          (simulate-CannotGoOn env resolved trying t)))
