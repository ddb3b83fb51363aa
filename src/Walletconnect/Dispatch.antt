-- ===== src/Walletconnect/Dispatch.antt =====
-- crates/walletconnect/src/session.rs: `dispatch`, the tasks that it spawns, and the crate as a sequence
-- of messages, tasks and calls. A task runs whole when its turn comes; other messages come before it.
use ethui.Common.{
  ℕ, String, Option, none, some, List, [], ◌∷◌, ◌++◌, ◌==◌, nat_Same, text_Same, get_elem?,
  remove_at, if◌then◌else◌,
}
use ethui.Common.Dict
use ethui.Common.Exec.{Result, ok, err, panic}
use ethui.Common.Json.{Json}
use ethui.Common.Radix.{Text}
use ethui.Types.{Address}
use ethui.Walletconnect.{
  Topic, Key, Session, Task, proposal, request, ping, deletion, World, Env, decrypt_type0,
  start_proposal, finish_proposal, pair,
}
use ethui.Walletconnect.Bodies.{notify}
use ethui.Walletconnect.Proposals.{handle_proposal}
use ethui.Walletconnect.Requests.{
  handle_request, send_ping_response, drop_session, disconnect, disconnect_all, switch_account,
}

abbrev spawn : Task → World → World
spawn task w = record w { pending = w.pending ++ task ∷ [] }

-- The decrypted and parsed payload of an envelope.
unfoldable pub open_payload : Env → Text → Key → Option Json
unfolding decrypt_type0
open_payload env envelope key = elim (decrypt_type0 env envelope key) [
  | none ↦ none
  | some plaintext ↦ env.parse_json plaintext
]

-- A message on a pairing topic: a proposal that is not being handled yet.
unfoldable pub dispatch_pairing : Env → Topic → ℕ → Key → Text → World → World
unfolding open_payload start_proposal
dispatch_pairing env topic tag key envelope w =
    if tag == 1100
    then (elim (open_payload env envelope key) [
      | none ↦ w
      | some payload ↦
          let (fresh, v) = start_proposal topic w in
          if fresh then spawn (proposal topic key payload) v else v
    ])
    else w

unfoldable pub dispatch_session : Env → Topic → ℕ → Session → Text → World → World
unfolding open_payload
dispatch_session env topic tag s envelope w = elim (open_payload env envelope s.sym_key) [
  | none ↦ w
  | some payload ↦
      if tag == 1108
      then spawn (request topic s.sym_key payload) w
      else if tag == 1114
      then spawn (ping topic s.sym_key payload) w
      else if tag == 1112
      then spawn (deletion topic) w
      else w
]

-- The two decodings are of the trimmed message.
abbrev decoded : Env → String → Option Text
decoded env raw = elim (env.decode raw) [ none ↦ env.decode_url_safe raw | some b ↦ some b ]

unfoldable pub dispatch : Env → Topic → ℕ → String → World → World
unfolding dispatch_pairing dispatch_session
dispatch env topic tag raw w = elim (decoded env raw) [
  | none ↦ w
  | some envelope ↦ elim (Dict.get w.pairings topic) [
    | some key ↦ dispatch_pairing env topic tag key envelope w
    | none ↦ elim (Dict.get w.sessions topic) [
      | none ↦ w
      | some s ↦ dispatch_session env topic tag s envelope w
    ]
  ]
]

-- The end of a proposal's task: a panic, which ends the task, skips `finish_proposal`.
abbrev pub end_proposal : Topic → Result (Unit {0}) × World → World
end_proposal topic (ok u, w) = finish_proposal topic w
end_proposal topic (err e, w) = finish_proposal topic w
end_proposal topic (panic, w) = record w { panicked = w.panicked ++ topic ∷ [] }

unfoldable pub run_task : Env → Task → World → World
run_task env (proposal topic key payload) w =
    end_proposal topic (handle_proposal env topic key payload w)
run_task env (request topic key payload) w = (handle_request env topic key payload w).1
run_task env (ping topic key payload) w = (send_ping_response env topic key payload w).1
run_task env (deletion topic) w = (notify (drop_session topic w)).1

-- What can happen: a message comes in, the task at a place runs, or the interface makes a call.
pub data Event : Type 0 where
  message : Topic → ℕ → String → Event
  turn : ℕ → Event
  pair_call : String → Event
  disconnect_call : Topic → Event
  switch_account_call : Topic → Address → Event
  shutdown : Event

unfoldable pub step : Env → Event → World → World
step env (message topic tag raw) w = dispatch env topic tag raw w
step env (turn i) w = elim (get_elem? w.pending i) [
  | none ↦ w
  | some task ↦ run_task env task (record w { pending = remove_at w.pending i })
]
step env (pair_call uri) w = (pair env uri w).1
step env (disconnect_call topic) w = (disconnect env topic w).1
step env (switch_account_call topic address) w = (switch_account env topic address w).1
step env shutdown w = disconnect_all env w

unfoldable pub run : List (Env × Event) → World → World
run [] w = w
run ((env, event) ∷ rest) w = run rest (step env event w)

abbrev pub new_world : World
new_world = record {
  pairings = [];
  in_flight = [];
  sessions = [];
  handlers = [];
  next_id = 1;
  published = [];
  subscribed = [];
  sent = [];
  calls = [];
  pending = [];
  panicked = [];
}
