-- ===== src/Rpc/Signing/Agreement.antt =====
-- crates/rpc/src/methods/sign_message.rs: what is signed, and after which answer of the user.
use ethui.Common.{
  ◌≡◌, ◌⊎◌, inl, inr, refl, sym, ap, ◌∙◌, String, Bool, true, false, Option, none, some, List, [],
  ◌∷◌, ◌++◌, arith, if◌then◌else◌, Option-cases,
}
use mathlib.Core.Path.{subst}
use ethui.Common.Exec.{ok}
use ethui.Types.{Address, Network, chain_id, is_dev}
use ethui.Rpc.{parse_error}
use ethui.Rpc.Method.{
  ◌>>◌, Outcome, done, failed, panicked, continue, DialogMsg, payload, close, is_accept, answer,
}
use ethui.Rpc.Signing.{
  SignData, raw, typed, Wallet, SignMessage, Effect, opened, signed, signed_typed, Env,
  build_eth_sign, spawn_dialog, build_signer, sign, may_skip, finish, eth_sign,
}

module _ {TypedData : Type 0} (env : Env TypedData) where
  -- A signature by the address of the data: of the bytes that a message stands for, or of typed data.
  abbrev pub Signs : SignData TypedData → Address → Effect TypedData → Type 0
  Signs (raw msg) a (signed b bytes) = (b ≡ a) × (env.parse_bytes msg ≡ some bytes)
  Signs (typed d) a (signed_typed b e) = (b ≡ a) × (e ≡ d)
  Signs _ a _ = ⊥

  -- The first message of the dialog accepts.
  abbrev pub Accepts : List DialogMsg → Type 0
  Accepts [] = ⊥
  Accepts (close ∷ msgs) = ⊥
  Accepts (payload j ∷ msgs) = is_accept j ≡ true

  module _ (self : SignMessage TypedData) where
    abbrev pub IsSignature : Effect TypedData → Type 0
    IsSignature e =
        (a : Address) × (self.wallet.build_signer (chain_id self.network) self.wallet_path ≡ some a)
        × Signs self.data_to_sign a e

    abbrev pub MaySkip : Type 0
    MaySkip =
        (is_dev env.node self.network ≡ ok true)
        × (self.wallet.is_dev ≡ true)
        × (env.fast_mode ≡ some true)

    -- What happens in a run: a signature without a dialog where there is no need of one; otherwise what is
    -- to be signed is shown, and is signed only if the first answer accepts.
    abbrev pub IsAgreed : List (Effect TypedData) → Type 0
    IsAgreed es =
        (es ≡ [])
        ⊎ (es ≡ opened "msg-sign" self.data_to_sign ∷ [])
        ⊎ ((e : Effect TypedData) × (es ≡ e ∷ []) × IsSignature e × MaySkip)
        ⊎ ((e : Effect TypedData) × (es ≡ opened "msg-sign" self.data_to_sign ∷ e ∷ [])
            × IsSignature e
            × Accepts env.delivers)

    -- The signing does nothing, or signs once.
    abbrev SignsOnce : List (Effect TypedData) → List (Effect TypedData) → Type 0
    SignsOnce es fs = (fs ≡ es) ⊎ ((e : Effect TypedData) × (fs ≡ es ++ e ∷ []) × IsSignature e)

  sign-SignsOnce :
      (self : SignMessage TypedData) (es : List (Effect TypedData))
      → SignsOnce self es (sign env self es).1
  unfolding sign build_signer
  sign-SignsOnce self es =
      of_signer (self.wallet.build_signer (chain_id self.network) self.wallet_path)
        self.data_to_sign refl refl
    where
      of_signer :
          (o : Option Address) (d : SignData TypedData)
          → self.wallet.build_signer (chain_id self.network) self.wallet_path ≡ o
          → self.data_to_sign ≡ d
          → SignsOnce self es (sign env self es).1
      of_signer none d p q = inl (ground (arith, p))
      of_signer (some a) (raw msg) p q = elim (Option-cases (env.parse_bytes msg)) [
        | inl no_bytes ↦ inl (ground (arith, p, q, no_bytes))
        | inr (bytes, k) ↦ inr (
          signed a bytes,
          ground (arith, p, q, k),
          (a, p, subst (λ (x : SignData TypedData). Signs x a (signed a bytes)) (sym q) (refl, k)),
        )
      ]
      of_signer (some a) (typed d) p q = inr (
        signed_typed a d,
        ground (arith, p, q),
        (
          a,
          p,
          subst (λ (x : SignData TypedData). Signs x a (signed_typed a d)) (sym q) (refl, refl),
        ),
      )

  dialog-Accepts :
      (self : SignMessage TypedData) (es : List (Effect TypedData)) (u : Unit {0})
      → (spawn_dialog env self es).0 ≡ done u
      → Accepts env.delivers
  unfolding spawn_dialog
  dialog-Accepts self es u e = of_messages env.delivers refl
    where
      of_messages : (msgs : List DialogMsg) → env.delivers ≡ msgs → Accepts env.delivers
      of_messages [] d = absurd (ground (arith, d, e))
      of_messages (close ∷ msgs) d = absurd (ground (arith, d, e))
      of_messages (payload j ∷ msgs) d = subst Accepts (sym d) (ground (arith, d, e))

  dialog_shows :
      (self : SignMessage TypedData) (es : List (Effect TypedData))
      → (spawn_dialog env self es).1 ≡ es ++ opened "msg-sign" self.data_to_sign ∷ []
  unfolding spawn_dialog
  dialog_shows self es = of_messages env.delivers refl
    where
      of_messages :
          (msgs : List DialogMsg)
          → env.delivers ≡ msgs
          → (spawn_dialog env self es).1 ≡ es ++ opened "msg-sign" self.data_to_sign ∷ []
      of_messages [] d = ground (arith, d)
      of_messages (close ∷ msgs) d = ground (arith, d)
      of_messages (payload j ∷ msgs) d = ground (arith, d)

  skips_if_dev :
      (self : SignMessage TypedData) (es fs : List (Effect TypedData))
      → may_skip env self es ≡ (done true, fs)
      → MaySkip self
  unfolding may_skip
  skips_if_dev self es fs e = ground (arith, e)

  skipping_keeps :
      (self : SignMessage TypedData) (es : List (Effect TypedData)) → (may_skip env self es).1 ≡ es
  unfolding may_skip
  skipping_keeps self es = ground arith

  module _ (self : SignMessage TypedData) where
    after_dialog :
        (r : Outcome (Unit {0})) (es : List (Effect TypedData))
        → es ≡ opened "msg-sign" self.data_to_sign ∷ []
        → ((u : Unit {0}) → r ≡ done u → Accepts env.delivers)
        → IsAgreed self (continue r (λ (u : Unit {0}). sign env self) es).1
    after_dialog (done u) es k c = of_sign (sign-SignsOnce self es)
      where
        of_sign : SignsOnce self es (sign env self es).1 → IsAgreed self (sign env self es).1
        of_sign (inl e) = inr (inl (e ∙ k))
        of_sign (inr (e, p, q)) =
            inr
              (inr (inr (e, p ∙ ap (λ (x : List (Effect TypedData)). x ++ e ∷ []) k, q, c u refl)))
    after_dialog (failed x) es k c = inr (inl k)
    after_dialog panicked es k c = inr (inl k)

    after_skip :
        (r : Outcome Bool) (es : List (Effect TypedData))
        → es ≡ []
        → (r ≡ done true → MaySkip self)
        → IsAgreed self
            (continue r
              (λ (b : Bool). (if b then answer tt else spawn_dialog env self) >> sign env self)
              es).1
    after_skip (done true) es k c = of_sign (sign-SignsOnce self es)
      where
        of_sign : SignsOnce self es (sign env self es).1 → IsAgreed self (sign env self es).1
        of_sign (inl e) = inl (e ∙ k)
        of_sign (inr (e, p, q)) =
            inr (inr (inl (e, p ∙ ap (λ (x : List (Effect TypedData)). x ++ e ∷ []) k, q, c refl)))
    after_skip (done false) es k c =
        after_dialog (spawn_dialog env self es).0 (spawn_dialog env self es).1
          (dialog_shows self es
            ∙ ap (λ (x : List (Effect TypedData)). x ++ opened "msg-sign" self.data_to_sign ∷ []) k)
          (dialog-Accepts self es)
    after_skip (failed x) es k c = inl k
    after_skip panicked es k c = inl k

    agreement : IsAgreed self (finish env self []).1
    unfolding finish
    agreement =
        after_skip (may_skip env self []).0 (may_skip env self []).1 (skipping_keeps self []) (λ e.
          skips_if_dev self [] (may_skip env self []).1
            (ap (λ (r : Outcome Bool). (r, (may_skip env self []).1)) e))

-- Whatever the user answers and the node says, at most one signature is made, by the address of the
-- wallet's path on the network's chain, and of the data alone: without a dialog only on a development
-- network, by a development wallet and in fast mode, and otherwise only after the data was shown and the
-- first answer accepted.
pub finish-IsAgreed :
    {TypedData : Type 0} (env : Env TypedData) (self : SignMessage TypedData)
    → IsAgreed env self (finish env self []).1
finish-IsAgreed env self = agreement env self

-- A request `eth_sign` whose parameters stand in the order of its standard, the address first, is answered
-- by a parse error if the message is not itself an address, and the user is shown nothing.
pub eth_sign-standard_order :
    {TypedData : Type 0} (env : Env TypedData) (wallet : Wallet) (network : Network)
    (address message : String)
    → env.parse_address message ≡ none
    → eth_sign env wallet network (some address ∷ some message ∷ []) [] ≡ (failed parse_error, [])
unfolding eth_sign build_eth_sign
eth_sign-standard_order env wallet network address message e = ground (arith, e)
