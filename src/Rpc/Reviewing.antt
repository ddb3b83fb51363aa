-- ===== src/Rpc/Reviewing.antt =====
-- crates/rpc/src/methods/send_transaction.rs: what the messages of its dialog make of a request.
use ethui.Common.{
  ◌≡◌, refl, ap, ◌∙◌, none, some, List, [], ◌∷◌, ◌++◌, arith, String, sym, text_Same,
}
use mathlib.Core.List.{append-nil}
use mathlib.Core.Path.{subst}
use ethui.Common.Json.{Json, at, as_str}
use ethui.Rpc.Method.{continue, ◌>>◌, Outcome, done, failed, panicked, DialogMsg, payload, close}
use ethui.Rpc.Sending.{
  TransactionRequest, Effect, opened, told, impersonated, submitted, sent, SendTransaction, State,
  Env, ResolvedWallet, Event, simulates, accepts, updates, other, event_of, simulation_request,
  get_from_address, simulate, update, on_event, review,
}

-- The transactions that were handed to the node.
abbrev pub sends : List Effect → List TransactionRequest
sends [] = []
sends (sent q ∷ es) = q ∷ sends es
sends (_ ∷ es) = sends es

pub sends-append : (es fs : List Effect) → sends (es ++ fs) ≡ sends es ++ sends fs
sends-append [] fs = refl
sends-append (sent q ∷ es) fs = ap (λ (qs : List TransactionRequest). q ∷ qs) (sends-append es fs)
sends-append (opened p q c t ∷ es) fs = sends-append es fs
sends-append (told e ∷ es) fs = sends-append es fs
sends-append (impersonated a ∷ es) fs = sends-append es fs
sends-append (submitted c ∷ es) fs = sends-append es fs

pub sends_nil : (es : List Effect) → sends es ++ [] ≡ sends es
sends_nil es = append-nil (sends es)

-- An update sets the data and the value that parse, and nothing else.
abbrev pub IsEdit : Env → Json → TransactionRequest → TransactionRequest → Type 0
IsEdit env j r q =
    (q ≡ record r { input = q.input; value = q.value })
    × ((t : String) → as_str (at j "data") ≡ some t → (q.input ≡ env.parse_bytes t))
    × (as_str (at j "data") ≡ none → q.input ≡ r.input)
    × ((t : String) → as_str (at j "value") ≡ some t → (q.value ≡ env.parse_u256 t))
    × (as_str (at j "value") ≡ none → q.value ≡ r.value)

-- The messages of a dialog let a request through as another one: the user accepts, or the channel ends,
-- after nothing but simulations and the updates that lead from the one to the other.
pub data Consents (env : Env)
    : List DialogMsg → TransactionRequest → TransactionRequest → Type 0 where
  on_end : {r : TransactionRequest} → Consents env [] r r
  on_accept :
      {r : TransactionRequest} {j : Json} {msgs : List DialogMsg}
      → event_of j ≡ accepts
      → Consents env (payload j ∷ msgs) r r
  on_simulate :
      {r q : TransactionRequest} {j : Json} {msgs : List DialogMsg}
      → event_of j ≡ simulates
      → Consents env msgs r q
      → Consents env (payload j ∷ msgs) r q
  on_update :
      {r p q : TransactionRequest} {j : Json} {msgs : List DialogMsg}
      → event_of j ≡ updates
      → IsEdit env j r p
      → Consents env msgs p q
      → Consents env (payload j ∷ msgs) r q

abbrev pub IsQuiet : State → State → Type 0
IsQuiet s s' = (sends s'.trace ≡ sends s.trace) × (s'.tx ≡ s.tx)

pub simulate-IsQuiet :
    (env : Env) (resolved : ResolvedWallet) (s : State) → IsQuiet s (simulate env resolved s).1
unfolding simulate simulation_request get_from_address
simulate-IsQuiet env resolved s = ground (
  arith,
  sends-append s.trace (told "foo" ∷ []),
  sends-append (s.trace ++ told "foo" ∷ []) (told "simulation-result" ∷ []),
  sends_nil s.trace,
)

update-IsEdit :
    (env : Env) (j : Json) (s : State)
    → (update env j s).0 ≡ done tt
    → IsEdit env j s.tx.request (update env j s).1.tx.request
unfolding update
update-IsEdit env j s e = (
  ground (arith, e),
  (λ t h. ground (arith, e, h)),
  (λ h. ground (arith, e, h)),
  (λ t h. ground (arith, e, h)),
  λ h. ground (arith, e, h),
)

update-trace : (env : Env) (j : Json) (s : State) → (update env j s).1.trace ≡ s.trace
unfolding update
update-trace env j s = ground arith

-- What is shown about a review that begins with `s`.
abbrev pub Reviews : Env → List DialogMsg → State → Outcome (Unit {0}) × State → Type 0
Reviews env msgs s (r, s') =
    (sends s'.trace ≡ sends s.trace) × (r ≡ done tt → Consents env msgs s.tx.request s'.tx.request)

-- One message, where the rest of the loop is as it should be.
module _ (env : Env) (resolved : ResolvedWallet) (msgs : List DialogMsg)
    (rest : State → Outcome (Unit {0}) × State) (ih : (t : State) → Reviews env msgs t (rest t))
    (j : Json) (s : State) where
  after_simulate :
      (r : Outcome (Unit {0})) (t : State)
      → sends t.trace ≡ sends s.trace
      → ((q : TransactionRequest)
          → Consents env msgs t.tx.request q
          → Consents env (payload j ∷ msgs) s.tx.request q)
      → Reviews env (payload j ∷ msgs) s (continue r (λ (u : Unit {0}). rest) t)
  after_simulate (done u) t e f = ((ih t).0 ∙ e, λ h. f _ ((ih t).1 h))
  after_simulate (failed x) t e f = (e, λ h. cc)
  after_simulate panicked t e f = (e, λ h. cc)

  after_update :
      (r : Outcome (Unit {0})) (t : State)
      → event_of j ≡ updates
      → update env j s ≡ (r, t)
      → Reviews env
          (payload j ∷ msgs)
          s
          (continue r (λ (u : Unit {0}). simulate env resolved >> rest) t)
  after_update (done u) t k e =
      let v : State = (simulate env resolved t).1 in
      let quiet : IsQuiet t v = simulate-IsQuiet env resolved t in
      after_simulate (simulate env resolved t).0 v
        (quiet.0
          ∙ ap (λ (x : Outcome (Unit {0}) × State). sends x.1.trace) (sym e)
          ∙ ap sends (update-trace env j s))
        (λ q c.
          on_update k
            (subst (λ (x : Outcome (Unit {0}) × State). IsEdit env j s.tx.request x.1.tx.request) e
              (update-IsEdit env j s (ap (λ (x : Outcome (Unit {0}) × State). x.0) e)))
            (subst (λ (x : SendTransaction). Consents env msgs x.request q) quiet.1 c))
  after_update (failed x) t k e = (
    ap (λ (x : Outcome (Unit {0}) × State). sends x.1.trace) (sym e)
        ∙ ap sends (update-trace env j s),
    λ h. cc,
  )
  after_update panicked t k e = (
    ap (λ (x : Outcome (Unit {0}) × State). sends x.1.trace) (sym e)
        ∙ ap sends (update-trace env j s),
    λ h. cc,
  )

  on_event-Reviews :
      (e : Event)
      → event_of j ≡ e
      → Reviews env (payload j ∷ msgs) s (on_event env resolved rest e j s)
  unfolding on_event
  on_event-Reviews accepts k = (refl, λ h. on_accept k)
  on_event-Reviews other k = (refl, λ h. cc)
  on_event-Reviews updates k = after_update (update env j s).0 (update env j s).1 k refl
  on_event-Reviews simulates k =
      let t : State = record s { trace = s.trace ++ told "trying" ∷ [] } in
      let quiet : IsQuiet t (simulate env resolved t).1 = simulate-IsQuiet env resolved t in
      after_simulate (simulate env resolved t).0 (simulate env resolved t).1
        (quiet.0 ∙ sends-append s.trace (told "trying" ∷ []) ∙ sends_nil s.trace)
        (λ q c.
          on_simulate k (subst (λ (x : SendTransaction). Consents env msgs x.request q) quiet.1 c))

pub review-Reviews :
    (env : Env) (resolved : ResolvedWallet) (msgs : List DialogMsg) (s : State)
    → Reviews env msgs s (review env resolved msgs s)
unfolding review
review-Reviews env resolved [] s = (refl, λ e. on_end)
review-Reviews env resolved (close ∷ msgs) s = (refl, λ e. cc)
review-Reviews env resolved (payload j ∷ msgs) s =
    on_event-Reviews env resolved msgs (review env resolved msgs) (review-Reviews env resolved msgs)
      j s (event_of j) refl
