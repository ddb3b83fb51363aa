-- ===== src/Walletconnect/Requests.antt =====
-- crates/walletconnect/src/session.rs: the handling of a request, and the calls of the interface on a
-- session.
use ethui.Common.{
  ℕ, String, true, not, Option, none, some, List, [], ◌∷◌, ◌++◌, map, nat_Same, text_Same, append,
  first?, ltb, if◌then◌else◌,
}
use ethui.Common.Dict
use ethui.Common.Dict.{Dict, values}
use ethui.Common.Exec.{Exec, ◌>>=◌, ◌>>◌, pure, raise, lift, gets, modify, or_raise}
use ethui.Common.Json.{Json, object, strings, str, num, bool, at, as_str, as_u64}
use ethui.Types.{Address}
use ethui.Walletconnect.{Topic, Key, Session, World, Env, member, next_msg_id, publish}
use ethui.Walletconnect.Bodies.{
  build_eip155_accounts, json_rpc, error_body, on_session, notify, namespaces_body, or_text,
}

abbrev call_handler : Env → Topic → Key → String → Json → Option String → Exec World (Unit {0})
call_handler env topic key method request domain = do
  modify (λ w. record w { calls = w.calls ++ (topic, method) ∷ [] })
  response ← lift (env.handle domain request)
  (λ w. elim response [
    | none ↦ pure tt w
    | some body ↦ publish env (on_session topic key 1109 300 body) w
  ])

abbrev rpc_request : ℕ → String → Json → Json
rpc_request id method params =
    object
      (("jsonrpc", str "2.0") ∷ ("id", num id) ∷ ("method", str method) ∷ ("params", params) ∷ [])

unfoldable pub serve : Env → Topic → Key → ℕ → String → Json → Session → Exec World (Unit {0})
unfolding publish
serve env topic key id method params s w =
    if ltb s.expiry env.now
    then publish env (on_session topic key 1109 300 (error_body id 5000 "Session expired")) w
    else if not (member method s.allowed_methods)
    then publish env
        (on_session topic key 1109 300 (error_body id 5001 (append "Unauthorized method: " method)))
        w
    else if not (env.is_request (rpc_request id method params))
    then raise "json error" w
    else elim (Dict.get w.handlers topic) [
      | none ↦ pure tt w
      | some domain ↦ call_handler env topic key method (rpc_request id method params) domain w
    ]

unfoldable pub handle_request : Env → Topic → Key → Json → Exec World (Unit {0})
unfolding serve
handle_request env topic key payload = do
  id ← or_raise (as_u64 (at payload "id")) "missing field: request id"
  let inner = at (at payload "params") "request"
  method ← or_raise (as_str (at inner "method")) "missing field: request.method"
  (λ w. elim (Dict.get w.sessions topic) [
    | none ↦ pure tt w
    | some s ↦ serve env topic key id method (at inner "params") s w
  ])

unfoldable pub send_ping_response : Env → Topic → Key → Json → Exec World (Unit {0})
unfolding publish next_msg_id
send_ping_response env topic key payload = do
  id ← (λ w. elim (as_u64 (at payload "id")) [ none ↦ next_msg_id w | some id ↦ pure id w ])
  publish env (on_session topic key 1115 60 (json_rpc id (("result", bool true) ∷ [])))

abbrev pub drop_session : Topic → World → World
drop_session topic w = record w {
  sessions = Dict.remove w.sessions topic;
  handlers = Dict.remove w.handlers topic;
}

abbrev delete_body : ℕ → Json
delete_body id = json_rpc id (
    ("method", str "wc_sessionDelete")
    ∷ ("params", object (("code", num 6000) ∷ ("message", str "User disconnected") ∷ []))
    ∷ [])

unfoldable pub disconnect : Env → Topic → Exec World (Unit {0})
unfolding publish next_msg_id
disconnect env topic = do
  sessions ← gets (λ w. w.sessions)
  s ← or_raise (Dict.get sessions topic) "session not found"
  id ← next_msg_id
  publish env (on_session topic s.sym_key 1112 60 (delete_body id))
  (λ w. if env.can_unsubscribe topic then pure tt w else raise "relay error" w)
  modify (drop_session topic)
  notify

-- The loop of `disconnect_all`, which goes on after an error.
unfoldable pub disconnect_each : Env → List Topic → World → World
disconnect_each env [] w = w
disconnect_each env (topic ∷ topics) w = disconnect_each env topics (disconnect env topic w).1

unfoldable pub disconnect_all : Env → World → World
disconnect_all env w = disconnect_each env (map (λ s. s.topic) (values w.sessions)) w

unfoldable pub list_sessions : World → List Session
list_sessions w = values w.sessions

abbrev update_body : ℕ → List String → List String → Json
update_body id accounts methods = json_rpc id (
    ("method", str "wc_sessionUpdate")
    ∷ ("params", object (("namespaces", namespaces_body accounts methods) ∷ []))
    ∷ [])

abbrev event_body : ℕ → String → String → Json
event_body id address chain = json_rpc id (
    ("method", str "wc_sessionEvent")
    ∷ (
      "params",
      object (
          (
            "event",
            object (("name", str "accountsChanged") ∷ ("data", strings (address ∷ [])) ∷ []),
          )
          ∷ ("chainId", str chain)
          ∷ []),
    )
    ∷ [])

unfoldable pub switch_account : Env → Topic → Address → Exec World (Unit {0})
unfolding publish next_msg_id
switch_account env topic new_address = do
  sessions ← gets (λ w. w.sessions)
  s ← or_raise (Dict.get sessions topic) "session not found"
  let accounts = build_eip155_accounts env s.chains new_address
  update_id ← next_msg_id
  publish env
      (on_session topic s.sym_key 1104 300 (update_body update_id accounts s.allowed_methods))
  let chain = or_text "eip155:1" (first? s.chains)
  event_id ← next_msg_id
  publish env (
      on_session topic s.sym_key 1110 300
        (event_body event_id (env.show_address new_address) chain))
  now_there ← gets (λ w. w.sessions)
  t ← or_raise (Dict.get now_there topic) "session not found"
  modify (λ w. record w {
    sessions = Dict.insert w.sessions topic (record t { address = new_address });
  })
  notify
