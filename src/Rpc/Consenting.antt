-- ===== src/Rpc/Consenting.antt =====
-- crates/rpc/src/methods/send_transaction.rs: which transactions are sent.
use ethui.Common.{
  ℕ, ◌+◌, ◌*◌, ◌/◌, ◌<◌, ◌≡◌, ◌⊎◌, inl, inr, refl, ap, ◌∙◌, Bool, true, false, Option, none, some,
  List, [], ◌∷◌, ◌++◌, arith, text_Same, if◌then◌else◌,
}
use mathlib.Core.Path.{subst}
use ethui.Common.Exec.{ok}
use ethui.Common.Radix.{u64_mod, Text}
use ethui.Types.{Address, is_dev, chain_id}
use ethui.Rpc.Method.{continue, Outcome, done, failed, panicked}
use ethui.Rpc.Sending.{
  TransactionRequest, Wallet, Effect, opened, told, impersonated, submitted, sent, SendTransaction,
  State, Env, ResolvedWallet, estimate_or_default, with_buffer, estimate_gas, review,
  build_provider, send_transaction, send, check_and_send, dialog_and_send, resolve_wallet, may_skip,
  ask_or_send, finish, run,
}
use ethui.Rpc.Reviewing.{sends, sends-append, sends_nil, Consents, IsQuiet, Reviews, review-Reviews}

sends_impersonated : (es : List Effect) (a : Address) → sends (es ++ impersonated a ∷ []) ≡ sends es
sends_impersonated es a = sends-append es (impersonated a ∷ []) ∙ sends_nil es

build_provider-IsQuiet :
    (env : Env) (resolved : ResolvedWallet) (s : State)
    → IsQuiet s (build_provider env resolved s).1
unfolding build_provider
build_provider-IsQuiet env resolved s = grind (arith, sends_impersonated)

-- The transactions after `send` are those before, and at most the request.
abbrev SendsOnly : TransactionRequest → State → State → Type 0
SendsOnly q s s' = (sends s'.trace ≡ sends s.trace) ⊎ (sends s'.trace ≡ sends s.trace ++ q ∷ [])

-- Once there is a provider, exactly the request is handed over.
sends-send_transaction :
    (env : Env) (s : State)
    → sends (send_transaction env s).1.trace ≡ sends s.trace ++ s.tx.request ∷ []
unfolding send_transaction
sends-send_transaction env s = ground (
  arith,
  sends-append (s.trace ++ submitted (chain_id s.tx.network) ∷ []) (sent s.tx.request ∷ []),
  sends-append s.trace (submitted (chain_id s.tx.network) ∷ []),
  sends_nil s.trace,
)

after_provider :
    (env : Env) (s : State) (r : Outcome (Unit {0})) (t : State)
    → IsQuiet s t
    → SendsOnly s.tx.request s (continue r (λ (u : Unit {0}). send_transaction env) t).1
after_provider env s (done u) t (e, k) = inr (
    sends-send_transaction env t
    ∙ ap (λ (qs : List TransactionRequest). qs ++ t.tx.request ∷ []) e
    ∙ ap (λ (x : SendTransaction). sends s.trace ++ x.request ∷ []) k)
after_provider env s (failed x) t (e, k) = inl e
after_provider env s panicked t (e, k) = inl e

send-SendsOnly :
    (env : Env) (resolved : ResolvedWallet) (s : State)
    → SendsOnly s.tx.request s (send env resolved s).1
unfolding send
send-SendsOnly env resolved s =
    after_provider env s (build_provider env resolved s).0 (build_provider env resolved s).1
      (build_provider-IsQuiet env resolved s)

-- The conditions for a transaction without a dialog.
abbrev pub MaySkip : Env → State → Type 0
MaySkip env s =
    (found : Wallet × Text) × (wallet : Wallet) × (env.find_wallet s.tx.from ≡ some found)
    × (env.get_wallet s.trace found.0.name ≡ some wallet)
    × (wallet.is_dev ≡ true)
    × (is_dev (env.node s.trace) s.tx.network ≡ ok true)
    × (env.fast_mode ≡ some true)

-- What may be handed to the node by a method that begins at `s`: nothing, or one transaction, which is the
-- request itself if no dialog is needed, and otherwise what the user has let through.
abbrev pub IsConsented : Env → State → List TransactionRequest → Type 0
IsConsented env s qs =
    (qs ≡ [])
    ⊎ ((q : TransactionRequest) × (qs ≡ q ∷ [])
        × ((MaySkip env s × (q ≡ s.tx.request)) ⊎ Consents env env.delivers s.tx.request q))

check_and_send-SendsOnly :
    (env : Env) (resolved : ResolvedWallet) (s : State)
    → SendsOnly s.tx.request s (check_and_send env resolved s).1
unfolding check_and_send
check_and_send-SendsOnly env resolved s =
    let asked : State = record s { trace = s.trace ++ told "check-ledger" ∷ [] } in
    ground (
      arith,
      send-SendsOnly env resolved s,
      send-SendsOnly env resolved asked,
      sends-append s.trace (told "check-ledger" ∷ []),
      sends_nil s.trace,
    )

-- What was let through is all that is sent.
consented :
    (env : Env) (s t v : State)
    → sends t.trace ≡ []
    → (MaySkip env s × (t.tx.request ≡ s.tx.request))
      ⊎ Consents env env.delivers s.tx.request t.tx.request
    → SendsOnly t.tx.request t v
    → IsConsented env s (sends v.trace)
consented env s t v e c (inl same) = inl (same ∙ e)
consented env s t v e c (inr one) =
    inr (t.tx.request, one ∙ ap (λ (qs : List TransactionRequest). qs ++ t.tx.request ∷ []) e, c)

after_review :
    (env : Env) (resolved : ResolvedWallet) (s shown : State) (r : Outcome (Unit {0})) (t : State)
    → sends shown.trace ≡ []
    → shown.tx.request ≡ s.tx.request
    → Reviews env env.delivers shown (r, t)
    → IsConsented env s
        (sends (continue r (λ (u : Unit {0}). check_and_send env resolved) t).1.trace)
after_review env resolved s shown (done u) t h q (e, c) =
    consented env s t (check_and_send env resolved t).1 (e ∙ h)
      (inr
        (subst (λ (x : TransactionRequest). Consents env env.delivers x t.tx.request) q (c refl)))
      (check_and_send-SendsOnly env resolved t)
after_review env resolved s shown (failed x) t h q (e, c) = inl (e ∙ h)
after_review env resolved s shown panicked t h q (e, c) = inl (e ∙ h)

dialog_and_send-IsConsented :
    (env : Env) (resolved : ResolvedWallet) (s : State)
    → sends s.trace ≡ []
    → IsConsented env s (sends (dialog_and_send env resolved s).1.trace)
unfolding dialog_and_send
dialog_and_send-IsConsented env resolved s h =
    let shown : State = record s {
      trace =
          s.trace
          ++ opened "tx-review" s.tx.request (chain_id s.tx.network) resolved.wallet_type ∷ [];
    } in
    let reviewed = review env resolved env.delivers shown in
    after_review env resolved s shown reviewed.0 reviewed.1
      (sends-append s.trace
          (opened "tx-review" s.tx.request (chain_id s.tx.network) resolved.wallet_type ∷ [])
        ∙ sends_nil s.trace
        ∙ h)
      refl (review-Reviews env resolved env.delivers shown)

skips_if_dev :
    (env : Env) (d : Bool) (s t : State)
    → may_skip env d s ≡ (done true, t)
    → (d ≡ true) × (is_dev (env.node s.trace) s.tx.network ≡ ok true) × (env.fast_mode ≡ some true)
unfolding may_skip
skips_if_dev env d s t e = ground (arith, e)

skipping_keeps : (env : Env) (d : Bool) (s : State) → (may_skip env d s).1 ≡ s
unfolding may_skip
skipping_keeps env d s = ground arith

after_skip :
    (env : Env) (resolved : ResolvedWallet) (s : State) (r : Outcome Bool) (t : State)
    → sends s.trace ≡ []
    → t ≡ s
    → (r ≡ done true → MaySkip env s)
    → IsConsented env s (
        sends
          (continue r
            (λ (b : Bool). if b then send env resolved else dialog_and_send env resolved)
            t).1.trace)
after_skip env resolved s (done true) t h k m = rw k (
    consented env s s (send env resolved s).1 h (inl (m refl, refl))
      (send-SendsOnly env resolved s))
after_skip env resolved s (done false) t h k m = rw k (dialog_and_send-IsConsented env resolved s h)
after_skip env resolved s (failed x) t h k m = inl (ap (λ (v : State). sends v.trace) k ∙ h)
after_skip env resolved s panicked t h k m = inl (ap (λ (v : State). sends v.trace) k ∙ h)

module _ (env : Env) (s : State) (h : s.trace ≡ []) where
  ask_or_send-IsConsented :
      (found : Wallet × Text) (wallet : Wallet) (resolved : ResolvedWallet)
      → env.find_wallet s.tx.from ≡ some found
      → env.get_wallet s.trace found.0.name ≡ some wallet
      → IsConsented env s (sends (ask_or_send env resolved wallet s).1.trace)
  unfolding ask_or_send
  ask_or_send-IsConsented found wallet resolved f g =
      let asked = may_skip env wallet.is_dev s in
      after_skip env resolved s asked.0 asked.1 (ap sends h) (skipping_keeps env wallet.is_dev s)
        (λ e.
          let (d, n, m) =
            skips_if_dev env wallet.is_dev s asked.1 (ap (λ (r : Outcome Bool). (r, asked.1)) e) in
          (found, wallet, f, g, d, n, m))

  -- The transactions, where the wallet of the sender is resolved and found by its name.
  after_found :
      (found : Wallet × Text) (o : Option Wallet)
      → env.find_wallet s.tx.from ≡ some found
      → env.get_wallet s.trace found.0.name ≡ o
      → IsConsented env s (sends (finish env s).1.trace)
  unfolding finish resolve_wallet
  after_found found none f g = inl (ground (arith, f, g, ap sends h))
  after_found found (some wallet) f g =
      let resolved : ResolvedWallet = record {
        name = found.0.name;
        path = found.1;
        wallet_type = found.0.wallet_type;
      } in
      let e : finish env s ≡ ask_or_send env resolved wallet s =
        rw (f, finish, resolve_wallet) (rw (g, finish) refl) in
      rw e (ask_or_send-IsConsented found wallet resolved f g)

-- However the user answers and whatever the node says, a method that begins at `s` hands at most one
-- transaction to the node: the request itself, if the network and the wallet are development ones and the
-- fast mode is on, and otherwise a request that the messages of the dialog let through.
pub finish-IsConsented :
    (env : Env) (s : State) → s.trace ≡ [] → IsConsented env s (sends (finish env s).1.trace)
unfolding finish resolve_wallet
finish-IsConsented env s h = of_wallet (env.find_wallet s.tx.from) refl
  where
    of_wallet :
        (o : Option (Wallet × Text))
        → env.find_wallet s.tx.from ≡ o
        → IsConsented env s (sends (finish env s).1.trace)
    of_wallet none f = inl (ground (arith, f, ap sends h))
    of_wallet (some found) f =
        after_found env s h found (env.get_wallet s.trace found.0.name) f refl

estimate_gas-trace : (env : Env) (s : State) → (estimate_gas env s).trace ≡ s.trace
unfolding estimate_gas
estimate_gas-trace env s = ground arith

-- However the user answers and whatever the node says, the method hands at most one transaction to the node:
-- the request with its gas limit, if the network and the wallet are development ones and the fast mode is
-- on, and otherwise what the messages of the dialog make of that request and let through.
pub run-IsConsented :
    (env : Env) (s : State)
    → s.trace ≡ []
    → IsConsented env (estimate_gas env s) (sends (run env s).1.trace)
unfolding run
run-IsConsented env s h = finish-IsConsented env (estimate_gas env s) (estimate_gas-trace env s ∙ h)

with_buffer_lem : (e : ℕ) → e * 120 < u64_mod → with_buffer e ≡ e + e / 5
unfolding with_buffer
with_buffer_lem e h = omega (arith, h)

-- The gas limit is the one of the request. If it has none, and a fifth more than what the node estimates, or
-- than a million where it does not, fits 64 bits with a factor of 100 to spare, then it is that.
pub estimate_gas-buffer :
    (env : Env) (s : State)
    → estimate_or_default env s * 120 < u64_mod
    → (estimate_gas env s).tx.request.gas ≡ (elim s.tx.request.gas [
      | none ↦ some (estimate_or_default env s + estimate_or_default env s / 5)
      | some gas ↦ some gas
    ])
unfolding estimate_gas
estimate_gas-buffer env s h = ground (arith, with_buffer_lem (estimate_or_default env s) h)
