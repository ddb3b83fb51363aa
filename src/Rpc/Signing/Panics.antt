-- ===== src/Rpc/Signing/Panics.antt =====
-- crates/rpc/src/methods/sign_message.rs: the runs of `finish` that panic.
use ethui.Common.{
  ℕ, String, ◌≡◌, ◌↔◌, ◌⊎◌, inl, inr, refl, sym, ap, ◌∙◌, Bool, true, false, Option, none, some,
  List, [], ◌∷◌, arith, Bool-cases, Option-cases,
}
use mathlib.Core.Path.{subst}
use ethui.Common.Exec.{Result, ok, err, panic}
use ethui.Types.{Address, chain_id, is_dev}
use ethui.Rpc.Method.{Outcome, panicked, DialogMsg, payload, close, is_accept, ◌>>◌}
use ethui.Rpc.Signing.{
  SignData, raw, typed, SignMessage, Effect, opened, Env, spawn_dialog, build_signer, sign,
  may_skip, finish,
}
use ethui.Rpc.Signing.Agreement.{Accepts, MaySkip}

module _ {TypedData : Type 0} (env : Env TypedData) (self : SignMessage TypedData) where
  -- The user is asked: the network or the wallet is no development one, or the fast mode is off.
  abbrev pub Asks : Type 0
  Asks =
      (is_dev env.node self.network ≡ ok false)
      ⊎ ((is_dev env.node self.network ≡ ok true) × (self.wallet.is_dev ≡ false))
      ⊎ ((is_dev env.node self.network ≡ ok true)
          × (self.wallet.is_dev ≡ true)
          × (env.fast_mode ≡ some false))

  -- The wallet has a signer, and the data is a message that is not hexadecimal.
  abbrev pub IsUnreadable : Type 0
  IsUnreadable =
      ((a : Address) × (self.wallet.build_signer (chain_id self.network) self.wallet_path ≡ some a))
      × ((msg : String) × (self.data_to_sign ≡ raw msg) × (env.parse_bytes msg ≡ none))

  abbrev pub Panics : Type 0
  Panics =
      (is_dev env.node self.network ≡ panic)
      ⊎ ((is_dev env.node self.network ≡ ok true)
          × (self.wallet.is_dev ≡ true)
          × (env.fast_mode ≡ none))
      ⊎ ((MaySkip env self ⊎ (Asks × Accepts env env.delivers)) × IsUnreadable)

  sign-panicked : (es : List (Effect TypedData)) → (sign env self es).0 ≡ panicked → IsUnreadable
  unfolding sign build_signer
  sign-panicked es e =
      of_signer (self.wallet.build_signer (chain_id self.network) self.wallet_path)
        self.data_to_sign refl refl
    where
      of_signer :
          (o : Option Address) (d : SignData TypedData)
          → self.wallet.build_signer (chain_id self.network) self.wallet_path ≡ o
          → self.data_to_sign ≡ d
          → IsUnreadable
      of_signer none d p q = absurd (ground (arith, p, e))
      of_signer (some a) (raw msg) p q = elim (Option-cases (env.parse_bytes msg)) [
        | inl unread ↦ ((a, p), (msg, q, unread))
        | inr (bytes, k) ↦ elim (Option-cases (env.sign a bytes)) [
          | inl fails ↦ absurd (ground (arith, p, q, k, fails, e))
          | inr (s, signed) ↦ absurd (ground (arith, p, q, k, signed, e))
        ]
      ]
      of_signer (some a) (typed d) p q = elim (Option-cases (env.sign_typed a d)) [
        | inl fails ↦ absurd (ground (arith, p, q, fails, e))
        | inr (s, signed) ↦ absurd (ground (arith, p, q, signed, e))
      ]

  unreadable-panicked :
      (es : List (Effect TypedData)) → IsUnreadable → (sign env self es).0 ≡ panicked
  unfolding sign build_signer
  unreadable-panicked es ((a, p), (msg, q, k)) = ground (arith, p, q, k)

  skipped : MaySkip env self → finish env self [] ≡ sign env self []
  unfolding finish may_skip
  skipped (d, w, f) = rw (d, w, f) refl

  asked-may_skip : Asks → finish env self [] ≡ (spawn_dialog env self >> sign env self) []
  unfolding finish may_skip
  asked-may_skip (inl d) = rw d refl
  asked-may_skip (inr (inl (d, w))) = rw (d, w) refl
  asked-may_skip (inr (inr (d, w, f))) = rw (d, w, f) refl

  accepted :
      Accepts env env.delivers
      → (spawn_dialog env self >> sign env self) []
        ≡ sign env self (opened "msg-sign" self.data_to_sign ∷ [])
  unfolding spawn_dialog
  accepted c = of_messages env.delivers refl
    where
      of_messages :
          (msgs : List DialogMsg)
          → env.delivers ≡ msgs
          → (spawn_dialog env self >> sign env self) []
            ≡ sign env self (opened "msg-sign" self.data_to_sign ∷ [])
      of_messages [] d = absurd (subst (Accepts env) d c)
      of_messages (close ∷ msgs) d = absurd (subst (Accepts env) d c)
      of_messages (payload j ∷ msgs) d =
          let k : is_accept j ≡ true = subst (Accepts env) d c in rw (d, k) refl

  panicked_if_accepted :
      ((spawn_dialog env self >> sign env self) []).0 ≡ panicked → Accepts env env.delivers
  unfolding spawn_dialog
  panicked_if_accepted e = of_messages env.delivers refl
    where
      of_messages : (msgs : List DialogMsg) → env.delivers ≡ msgs → Accepts env env.delivers
      of_messages [] d = absurd (ground (arith, d, e))
      of_messages (close ∷ msgs) d = absurd (ground (arith, d, e))
      of_messages (payload j ∷ msgs) d = elim (Bool-cases (is_accept j)) [
        | inl yes_said ↦ subst (Accepts env) (sym d) yes_said
        | inr refused ↦ absurd (ground (arith, d, refused, e))
      ]

  signing_after_dialog : Asks → (finish env self []).0 ≡ panicked → Panics
  signing_after_dialog a e =
      let f : ((spawn_dialog env self >> sign env self) []).0 ≡ panicked =
        ap (λ (x : Outcome (List ℕ) × List (Effect TypedData)). x.0) (sym (asked-may_skip a)) ∙ e in
      let c : Accepts env env.delivers = panicked_if_accepted f in
      inr (
        inr (
          inr (a, c),
          sign-panicked (opened "msg-sign" self.data_to_sign ∷ [])
              (ap (λ (x : Outcome (List ℕ) × List (Effect TypedData)). x.0) (sym (accepted c)) ∙ f),
        ))

  finish-panicked : (finish env self []).0 ≡ panicked → Panics
  unfolding finish may_skip
  finish-panicked e =
      of_node (is_dev env.node self.network) self.wallet.is_dev env.fast_mode refl refl refl
    where
      of_node :
          (o : Result Bool) (b : Bool) (f : Option Bool)
          → is_dev env.node self.network ≡ o
          → self.wallet.is_dev ≡ b
          → env.fast_mode ≡ f
          → Panics
      of_node panic b f d w m = inl d
      of_node (err x) b f d w m = absurd (ground (arith, d, e))
      of_node (ok false) b f d w m = signing_after_dialog (inl d) e
      of_node (ok true) false f d w m = signing_after_dialog (inr (inl (d, w))) e
      of_node (ok true) true none d w m = inr (inl (d, w, m))
      of_node (ok true) true (some false) d w m = signing_after_dialog (inr (inr (d, w, m))) e
      of_node (ok true) true (some true) d w m = inr (
          inr (
            inl (d, w, m),
            sign-panicked [] (
                ap (λ (x : Outcome (List ℕ) × List (Effect TypedData)). x.0)
                  (sym (skipped (d, w, m)))
                ∙ e),
          ))

  panics-finish : Panics → (finish env self []).0 ≡ panicked
  unfolding finish may_skip
  panics-finish (inl d) = rw d refl
  panics-finish (inr (inl (d, w, f))) = rw (d, w, f) refl
  panics-finish (inr (inr (inl s, u))) =
      ap (λ (x : Outcome (List ℕ) × List (Effect TypedData)). x.0) (skipped s)
      ∙ unreadable-panicked [] u
  panics-finish (inr (inr (inr (a, c), u))) =
      ap (λ (x : Outcome (List ℕ) × List (Effect TypedData)). x.0) (asked-may_skip a ∙ accepted c)
      ∙ unreadable-panicked (opened "msg-sign" self.data_to_sign ∷ []) u

-- The method panics exactly if the test of the network does, if the fast mode matters and cannot be read, or
-- if signing goes on, by the fast mode or by the first answer of the user, while the wallet has a signer and
-- the message is not hexadecimal. Every other failure is an error.
pub finish-panics_iff :
    {TypedData : Type 0} (env : Env TypedData) (self : SignMessage TypedData)
    → ((finish env self []).0 ≡ panicked) ↔ Panics env self
finish-panics_iff env self = (finish-panicked env self, panics-finish env self)
