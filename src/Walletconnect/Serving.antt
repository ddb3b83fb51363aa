-- ===== src/Walletconnect/Serving.antt =====
-- crates/walletconnect/src/session.rs: what the handlers leave alone, and that every session has a
-- handler.
use ethui.Common.{
  ℕ, ◌≡◌, true, String, List, [], ◌∷◌, arith, text_Same, eq_iff, Option-cases, inl, inr, get_elem?,
  remove_at, map,
}
use ethui.Common.Dict
use ethui.Common.Dict.{contains_key-insert, contains_key-remove, contains_key-get, values}
use ethui.Common.Exec.{Result, ok, err, panic}
use ethui.Common.Json.{Json}
use ethui.Types.{Address}
use ethui.Walletconnect.{
  Topic, Key, Session, DappMetadata, Envelope, Task, proposal, request, ping, deletion, World, Env,
  publish, next_msg_id, remove_pairing, start_proposal, finish_proposal, pair,
}
use ethui.Walletconnect.Proposals.{
  Filtered, approved, unsupported, settle_session, answer_proposal, handle_proposal,
}
use ethui.Walletconnect.Requests.{
  serve, handle_request, send_ping_response, disconnect, disconnect_each, disconnect_all,
  switch_account,
}
use ethui.Walletconnect.Dispatch.{
  dispatch, end_proposal, run_task, Event, message, turn, pair_call, disconnect_call,
  switch_account_call, shutdown, step, run, new_world,
}

-- Publishing changes neither the tables nor the tasks.
pub publish-keeps :
    (env : Env) (e : Envelope) (w : World)
    → let v = (publish env e w).1 in
      (v.sessions ≡ w.sessions)
      × (v.handlers ≡ w.handlers)
      × (v.pending ≡ w.pending)
      × (v.in_flight ≡ w.in_flight)
      × (v.calls ≡ w.calls)
      × (v.panicked ≡ w.panicked)
unfolding publish
publish-keeps env e w = ground arith

pub next_msg_id-keeps :
    (w : World)
    → let v = (next_msg_id w).1 in
      (v.sessions ≡ w.sessions)
      × (v.handlers ≡ w.handlers)
      × (v.pending ≡ w.pending)
      × (v.in_flight ≡ w.in_flight)
      × (v.calls ≡ w.calls)
      × (v.panicked ≡ w.panicked)
unfolding next_msg_id
next_msg_id-keeps w = ground arith

-- If there is a session on the topic then there is a handler.
abbrev pub IsServed : Topic → World → Type 0
IsServed t w = Dict.contains_key w.sessions t ≡ true → Dict.contains_key w.handlers t ≡ true

settle_session-IsServed :
    (t : Topic) (env : Env) (topic : Topic) (key : Key) (id : ℕ) (proposer : String)
    (peer : DappMetadata) (chains methods : List String) (w : World)
    → IsServed t w
    → IsServed t (settle_session env topic key id proposer peer chains methods w).1
unfolding settle_session remove_pairing
settle_session-IsServed t env topic key id proposer peer chains methods w h =
    grind (arith, publish-keeps, next_msg_id-keeps, contains_key-insert)

answer_proposal-IsServed :
    (t : Topic) (env : Env) (topic : Topic) (key : Key) (id : ℕ) (proposer : String)
    (peer : DappMetadata) (chains : List String) (f : Filtered) (w : World)
    → IsServed t w
    → IsServed t (answer_proposal env topic key id proposer peer chains f w).1
unfolding answer_proposal remove_pairing
answer_proposal-IsServed t env topic key id proposer peer chains (unsupported ms) w h =
    grind (arith, publish-keeps)
answer_proposal-IsServed t env topic key id proposer peer chains (approved ms) w h =
    grind (arith, publish-keeps, settle_session-IsServed)

handle_proposal-IsServed :
    (t : Topic) (env : Env) (topic : Topic) (key : Key) (payload : Json) (w : World)
    → IsServed t w
    → IsServed t (handle_proposal env topic key payload w).1
unfolding handle_proposal
handle_proposal-IsServed t env topic key payload w h = grind (arith, answer_proposal-IsServed)

-- A request and a ping leave the tables and the tasks alone.
abbrev pub KeepsTables : World → World → Type 0
KeepsTables w v =
    (v.sessions ≡ w.sessions)
    × (v.handlers ≡ w.handlers)
    × (v.pending ≡ w.pending)
    × (v.in_flight ≡ w.in_flight)
    × (v.panicked ≡ w.panicked)

pub serve-KeepsTables :
    (env : Env) (topic : Topic) (key : Key) (id : ℕ) (method : String) (params : Json) (s : Session)
    (w : World)
    → KeepsTables w (serve env topic key id method params s w).1
unfolding serve
serve-KeepsTables env topic key id method params s w = grind (arith, publish-keeps)

pub handle_request-KeepsTables :
    (env : Env) (topic : Topic) (key : Key) (payload : Json) (w : World)
    → KeepsTables w (handle_request env topic key payload w).1
unfolding handle_request
handle_request-KeepsTables env topic key payload w = grind (arith, serve-KeepsTables)

pub send_ping_response-KeepsTables :
    (env : Env) (topic : Topic) (key : Key) (payload : Json) (w : World)
    → KeepsTables w (send_ping_response env topic key payload w).1
unfolding send_ping_response
send_ping_response-KeepsTables env topic key payload w =
    grind (arith, publish-keeps, next_msg_id-keeps)

disconnect-IsServed :
    (t : Topic) (env : Env) (topic : Topic) (w : World)
    → IsServed t w
    → IsServed t (disconnect env topic w).1
unfolding disconnect
disconnect-IsServed t env topic w h =
    grind (arith, publish-keeps, next_msg_id-keeps, contains_key-remove)

disconnect_each-IsServed :
    (t : Topic) (env : Env) (topics : List Topic) (w : World)
    → IsServed t w
    → IsServed t (disconnect_each env topics w)
unfolding disconnect_each
disconnect_each-IsServed t env [] w h = h
disconnect_each-IsServed t env (topic ∷ topics) w h =
    disconnect_each-IsServed t env topics (disconnect env topic w).1
      (disconnect-IsServed t env topic w h)

switch_account-IsServed :
    (t : Topic) (env : Env) (topic : Topic) (address : Address) (w : World)
    → IsServed t w
    → IsServed t (switch_account env topic address w).1
unfolding switch_account
switch_account-IsServed t env topic address w h =
    grind (
      arith,
      publish-keeps,
      next_msg_id-keeps,
      contains_key-insert,
      contains_key-get,
      eq_iff topic t,
    )

end_proposal-IsServed :
    (t topic : Topic) (r : Result (Unit {0})) (w : World)
    → IsServed t w
    → IsServed t (end_proposal topic (r, w))
unfolding finish_proposal
end_proposal-IsServed t topic (ok u) w h = h
end_proposal-IsServed t topic (err e) w h = h
end_proposal-IsServed t topic panic w h = h

run_task-IsServed :
    (t : Topic) (env : Env) (task : Task) (w : World)
    → IsServed t w
    → IsServed t (run_task env task w)
unfolding run_task
run_task-IsServed t env (proposal topic key payload) w h =
    end_proposal-IsServed t topic (handle_proposal env topic key payload w).0
      (handle_proposal env topic key payload w).1
      (handle_proposal-IsServed t env topic key payload w h)
run_task-IsServed t env (request topic key payload) w h =
    let k = handle_request-KeepsTables env topic key payload w in rw (k.0, k.1) h
run_task-IsServed t env (ping topic key payload) w h =
    let k = send_ping_response-KeepsTables env topic key payload w in rw (k.0, k.1) h
run_task-IsServed t env (deletion topic) w h =
    ground (arith, contains_key-remove w.sessions topic t, contains_key-remove w.handlers topic t)

dispatch-IsServed :
    (t : Topic) (env : Env) (topic : Topic) (tag : ℕ) (raw : String) (w : World)
    → IsServed t w
    → IsServed t (dispatch env topic tag raw w)
unfolding dispatch start_proposal
dispatch-IsServed t env topic tag raw w h = ground arith

step-IsServed :
    (t : Topic) (env : Env) (event : Event) (w : World)
    → IsServed t w
    → IsServed t (step env event w)
unfolding step pair disconnect_all
step-IsServed t env (message topic tag raw) w h = dispatch-IsServed t env topic tag raw w h
step-IsServed t env (turn i) w h = elim (Option-cases (get_elem? w.pending i)) [
  | inl nothing ↦ rw (nothing, step) h
  | inr (task, e) ↦
      rw (e, step) (run_task-IsServed t env task (record w { pending = remove_at w.pending i }) h)
]
step-IsServed t env (pair_call uri) w h = ground arith
step-IsServed t env (disconnect_call topic) w h = disconnect-IsServed t env topic w h
step-IsServed t env (switch_account_call topic address) w h =
    switch_account-IsServed t env topic address w h
step-IsServed t env shutdown w h =
    disconnect_each-IsServed t env (map (λ s. s.topic) (values w.sessions)) w h

run-step-IsServed :
    (t : Topic) (events : List (Env × Event)) (w : World) → IsServed t w → IsServed t (run events w)
unfolding run
run-step-IsServed t [] w h = h
run-step-IsServed t ((env, event) ∷ rest) w h =
    run-step-IsServed t rest (step env event w) (step-IsServed t env event w h)

-- After any sequence of messages, tasks and calls, whichever of them fail, each session has its request
-- handler.
pub run-IsServed :
    (events : List (Env × Event)) (t : Topic)
    → Dict.contains_key (run events new_world).sessions t ≡ true
    → Dict.contains_key (run events new_world).handlers t ≡ true
unfolding Dict.contains_key
run-IsServed events t = run-step-IsServed t events new_world (λ e. cc)
