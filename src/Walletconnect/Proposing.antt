-- ===== src/Walletconnect/Proposing.antt =====
-- crates/walletconnect: at most one proposal of a pairing is handled at a time (pairing.rs,
-- `start_proposal` and `finish_proposal`).
use ethui.Common.{
  ℕ, zero, suc, ◌+◌, ◌≤◌, ◌≡◌, refl, true, false, not, String, some, List, [], ◌∷◌, ◌++◌, arith,
  ◌==◌, nat_Same, text_Same, eq_iff, Option-cases, inl, inr, filter, get_elem?, remove_at, map,
  if◌then◌else◌,
}
use ethui.Common.Dict.{values}
use ethui.Common.Exec.{Result, ok, err, panic}
use ethui.Common.Json.{Json}
use ethui.Common.Radix.{Text}
use ethui.Types.{Address}
use ethui.Walletconnect.{
  Topic, Key, Session, DappMetadata, Task, proposal, request, ping, deletion, World, Env, member,
  remove_pairing, start_proposal, finish_proposal, pair,
}
use ethui.Walletconnect.Proposals.{
  Filtered, approved, unsupported, settle_session, answer_proposal, handle_proposal,
}
use ethui.Walletconnect.Requests.{disconnect, disconnect_each, disconnect_all, switch_account}
use ethui.Walletconnect.Dispatch.{
  dispatch, dispatch_pairing, dispatch_session, open_payload, end_proposal, run_task, Event,
  message, turn, pair_call, disconnect_call, switch_account_call, shutdown, step, run, new_world,
}
use ethui.Walletconnect.Serving.{
  publish-keeps, next_msg_id-keeps, handle_request-KeepsTables, send_ping_response-KeepsTables,
}

abbrev is_proposal : Topic → Task → ℕ
is_proposal t (proposal topic key payload) = if topic == t then 1 else 0
is_proposal t _ = 0

-- The proposals of a pairing that are being handled.
abbrev pub proposals : Topic → List Task → ℕ
proposals t [] = 0
proposals t (task ∷ tasks) = is_proposal t task + proposals t tasks

-- The tasks of a pairing's proposals that panicked.
abbrev pub panics : Topic → List Topic → ℕ
panics t [] = 0
panics t (u ∷ us) = (if u == t then 1 else 0) + panics t us

-- A proposal is being handled or has panicked exactly if the topic is marked, and then one.
abbrev IsMarked : Topic → World → Type 0
IsMarked t w = proposals t w.pending + panics t w.panicked ≡ (if member t w.in_flight then 1 else 0)

abbrev KeepsTasks : World → World → Type 0
KeepsTasks w v = (v.pending ≡ w.pending) × (v.in_flight ≡ w.in_flight) × (v.panicked ≡ w.panicked)

settle_session-KeepsTasks :
    (env : Env) (topic : Topic) (key : Key) (id : ℕ) (proposer : String) (peer : DappMetadata)
    (chains methods : List String) (w : World)
    → KeepsTasks w (settle_session env topic key id proposer peer chains methods w).1
unfolding settle_session remove_pairing
settle_session-KeepsTasks env topic key id proposer peer chains methods w =
    grind (arith, publish-keeps, next_msg_id-keeps)

answer_proposal-KeepsTasks :
    (env : Env) (topic : Topic) (key : Key) (id : ℕ) (proposer : String) (peer : DappMetadata)
    (chains : List String) (f : Filtered) (w : World)
    → KeepsTasks w (answer_proposal env topic key id proposer peer chains f w).1
unfolding answer_proposal remove_pairing
answer_proposal-KeepsTasks env topic key id proposer peer chains (unsupported ms) w =
    grind (arith, publish-keeps)
answer_proposal-KeepsTasks env topic key id proposer peer chains (approved ms) w =
    grind (arith, publish-keeps, settle_session-KeepsTasks)

handle_proposal-KeepsTasks :
    (env : Env) (topic : Topic) (key : Key) (payload : Json) (w : World)
    → KeepsTasks w (handle_proposal env topic key payload w).1
unfolding handle_proposal
handle_proposal-KeepsTasks env topic key payload w = grind (arith, answer_proposal-KeepsTasks)

disconnect-KeepsTasks :
    (env : Env) (topic : Topic) (w : World) → KeepsTasks w (disconnect env topic w).1
unfolding disconnect
disconnect-KeepsTasks env topic w = grind (arith, publish-keeps, next_msg_id-keeps)

disconnect_each-KeepsTasks :
    (env : Env) (topics : List Topic) (w : World) → KeepsTasks w (disconnect_each env topics w)
unfolding disconnect_each
disconnect_each-KeepsTasks env [] w = (refl, refl, refl)
disconnect_each-KeepsTasks env (topic ∷ topics) w =
    grind (arith, disconnect_each-KeepsTasks env topics, disconnect-KeepsTasks)

switch_account-KeepsTasks :
    (env : Env) (topic : Topic) (address : Address) (w : World)
    → KeepsTasks w (switch_account env topic address w).1
unfolding switch_account
switch_account-KeepsTasks env topic address w = grind (arith, publish-keeps, next_msg_id-keeps)

proposals-append :
    (t : Topic) (tasks : List Task) (task : Task)
    → proposals t (tasks ++ task ∷ []) ≡ proposals t tasks + is_proposal t task
proposals-append t [] task = omega arith
proposals-append t (x ∷ tasks) task = omega (arith, proposals-append t tasks task)

proposals-remove_at :
    (t : Topic) (tasks : List Task) (i : ℕ) (task : Task)
    → get_elem? tasks i ≡ some task
    → proposals t tasks ≡ proposals t (remove_at tasks i) + is_proposal t task
proposals-remove_at t [] i task e = cc
proposals-remove_at t (x ∷ tasks) zero task e = ground arith
proposals-remove_at t (x ∷ tasks) (suc i) task e =
    omega (arith, proposals-remove_at t tasks i task e)

member-append_self :
    (t u : Topic) (ts : List Topic)
    → member t (ts ++ u ∷ []) ≡ (if u == t then true else member t ts)
member-append_self t u [] = ground arith
member-append_self t u (x ∷ ts) = ground (arith, member-append_self t u ts)

member-filter_out :
    (t u : Topic) (ts : List Topic)
    → member t (filter (λ x. not (x == u)) ts) ≡ (if u == t then false else member t ts)
member-filter_out t u [] = ground arith
member-filter_out t u (x ∷ ts) =
    ground (arith, member-filter_out t u ts, eq_iff x u, eq_iff x t, eq_iff u t)

dispatch_pairing-IsMarked :
    (t : Topic) (env : Env) (topic : Topic) (tag : ℕ) (key : Key) (envelope : Text) (w : World)
    → IsMarked t w
    → IsMarked t (dispatch_pairing env topic tag key envelope w)
unfolding dispatch_pairing start_proposal
dispatch_pairing-IsMarked t env topic tag key envelope w h =
    elim (Option-cases (open_payload env envelope key)) [
      | inl closed ↦ ground arith
      | inr (payload, opened) ↦ ground (
        arith,
        proposals-append t w.pending (proposal topic key payload),
        member-append_self t topic w.in_flight,
        eq_iff topic t,
      )
    ]

dispatch_session-IsMarked :
    (t : Topic) (env : Env) (topic : Topic) (tag : ℕ) (s : Session) (envelope : Text) (w : World)
    → IsMarked t w
    → IsMarked t (dispatch_session env topic tag s envelope w)
unfolding dispatch_session
dispatch_session-IsMarked t env topic tag s envelope w h =
    elim (Option-cases (open_payload env envelope s.sym_key)) [
      | inl closed ↦ ground arith
      | inr (payload, opened) ↦ ground (
        arith,
        proposals-append t w.pending (request topic s.sym_key payload),
        proposals-append t w.pending (ping topic s.sym_key payload),
        proposals-append t w.pending (deletion topic),
      )
    ]

dispatch-IsMarked :
    (t : Topic) (env : Env) (topic : Topic) (tag : ℕ) (raw : String) (w : World)
    → IsMarked t w
    → IsMarked t (dispatch env topic tag raw w)
unfolding dispatch
dispatch-IsMarked t env topic tag raw w h =
    grind (arith, dispatch_pairing-IsMarked, dispatch_session-IsMarked)

panics-append :
    (t u : Topic) (us : List Topic)
    → panics t (us ++ u ∷ []) ≡ panics t us + (if u == t then 1 else 0)
panics-append t u [] = omega arith
panics-append t u (x ∷ us) = omega (arith, panics-append t u us)

-- The end of a task whose proposal is counted no more.
end_proposal-IsMarked :
    (t topic : Topic) (r : Result (Unit {0})) (v : World)
    → proposals t v.pending + (if topic == t then 1 else 0) + panics t v.panicked
      ≡ (if member t v.in_flight then 1 else 0)
    → IsMarked t (end_proposal topic (r, v))
unfolding finish_proposal
end_proposal-IsMarked t topic (ok u) v h =
    ground (arith, h, member-filter_out t topic v.in_flight, eq_iff topic t)
end_proposal-IsMarked t topic (err e) v h =
    ground (arith, h, member-filter_out t topic v.in_flight, eq_iff topic t)
end_proposal-IsMarked t topic panic v h = ground (arith, h, panics-append t topic v.panicked)

turn-IsMarked :
    (t : Topic) (env : Env) (i : ℕ) (task : Task) (w : World)
    → get_elem? w.pending i ≡ some task
    → IsMarked t w
    → IsMarked t (run_task env task (record w { pending = remove_at w.pending i }))
unfolding run_task finish_proposal
turn-IsMarked t env i (proposal topic key payload) w e h =
    let v : World = record w { pending = remove_at w.pending i } in
    let k = handle_proposal-KeepsTasks env topic key payload v in
    end_proposal-IsMarked t topic (handle_proposal env topic key payload v).0
      (handle_proposal env topic key payload v).1
      (rw (k.0, k.1, k.2)
        (ground (arith, h, proposals-remove_at t w.pending i (proposal topic key payload) e)))
turn-IsMarked t env i (request topic key payload) w e h =
    let v : World = record w { pending = remove_at w.pending i } in
    let k = handle_request-KeepsTables env topic key payload v in
    ground (arith, proposals-remove_at t w.pending i (request topic key payload), k.2, k.3, k.4)
turn-IsMarked t env i (ping topic key payload) w e h =
    let v : World = record w { pending = remove_at w.pending i } in
    let k = send_ping_response-KeepsTables env topic key payload v in
    ground (arith, proposals-remove_at t w.pending i (ping topic key payload), k.2, k.3, k.4)
turn-IsMarked t env i (deletion topic) w e h =
    ground (arith, proposals-remove_at t w.pending i (deletion topic))

step-IsMarked :
    (t : Topic) (env : Env) (event : Event) (w : World)
    → IsMarked t w
    → IsMarked t (step env event w)
unfolding step pair disconnect_all
step-IsMarked t env (message topic tag raw) w h = dispatch-IsMarked t env topic tag raw w h
step-IsMarked t env (turn i) w h = elim (Option-cases (get_elem? w.pending i)) [
  | inl nothing ↦ rw (nothing, step) h
  | inr (task, e) ↦ rw (e, step) (turn-IsMarked t env i task w e h)
]
step-IsMarked t env (pair_call uri) w h = ground arith
step-IsMarked t env (disconnect_call topic) w h =
    let k = disconnect-KeepsTasks env topic w in rw (k.0, k.1, k.2) h
step-IsMarked t env (switch_account_call topic address) w h =
    let k = switch_account-KeepsTasks env topic address w in rw (k.0, k.1, k.2) h
step-IsMarked t env shutdown w h =
    let k = disconnect_each-KeepsTasks env (map (λ s. s.topic) (values w.sessions)) w in
    rw (k.0, k.1, k.2) h

run-step-IsMarked :
    (t : Topic) (events : List (Env × Event)) (w : World) → IsMarked t w → IsMarked t (run events w)
unfolding run
run-step-IsMarked t [] w h = h
run-step-IsMarked t ((env, event) ∷ rest) w h =
    run-step-IsMarked t rest (step env event w) (step-IsMarked t env event w h)

-- However often a proposal is delivered, and whatever else happens in between, at most one proposal of
-- a pairing is being handled at any time. The pairing is marked as in flight exactly if one is being handled
-- or the task of one has panicked; it is never both, so that after a panic the mark stands and none is being
-- handled.
pub run-one_proposal :
    (events : List (Env × Event)) (t : Topic)
    → let w = run events new_world in
      (proposals t w.pending ≤ 1)
      × (proposals t w.pending + panics t w.panicked ≡ (if member t w.in_flight then 1 else 0))
run-one_proposal events t =
    let h = run-step-IsMarked t events new_world refl in (ground (arith, h), h)
