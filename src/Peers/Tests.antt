-- ===== src/Peers/Tests.antt =====
-- crates/ws: the theorems at concrete connections.
use ethui.Common.{◌≡◌, refl, true, false, none, some, List, [], ◌∷◌, nat_Same, text_Same}
use ethui.Common.Dict
use ethui.Common.Dict.{values}
use ethui.Types.{NetworkId, sticky}
use ethui.Peers.{
  Peer, new_peer, Env, Conn, data_error, Event, accepts, text, tick, step, run, no_peers,
  broadcast_chain_changed,
}
use ethui.Peers.Tended.{life, Stays}
use ethui.Peers.Lives.{run-life}
use ethui.Peers.Reached.{Notified, broadcast_chain_changed-Notified}

-- Every text is a request for nothing, and a URL is its host.
abbrev env : Env (Unit {0})
env = record {
  host = λ u. some u;
  affinities = [];
  is_chain = λ c. true;
  show_chain = λ c. "1";
  show_address = λ a. "0x";
  parse = λ t. data_error;
  handle = λ d r. some none;
}

-- Two connections, of which one says something and the other only answers a ping.
abbrev events : List Event
events =
    accepts 4 (("url", "app.org") ∷ []) ∷ accepts 5 [] ∷ text 4 "{}" ∷ text 5 "pong" ∷ tick 4 ∷ []

abbrev peer : Peer
peer = record { origin = "unknown"; url = some "app.org"; socket = 4; alive = true }

abbrev main_id : NetworkId
main_id = record { chain_id = 1; dedup_id = 0 }

alive_peer : Dict.get (run env events no_peers).peers 4 ≡ some peer
unfolding Dict.get Dict.insert run step
alive_peer = refl

silent_peer : Dict.get (run env events no_peers).peers 5 ≡ some (new_peer 5 [])
unfolding Dict.get Dict.insert run step new_peer
silent_peer = refl

run-life_example :
    Stays 4
      (life env 4 events none)
      (Dict.get (run env events no_peers).peers 4)
      (Dict.get (run env events no_peers).conns 4)
run-life_example = run-life env events 4

abbrev just_accepted : List Event
just_accepted = accepts 4 (("url", "app.org") ∷ []) ∷ []

abbrev new_one : Peer
new_one = record { origin = "unknown"; url = some "app.org"; socket = 4; alive = false }

abbrev idle : Conn
idle = record { peer = new_one; liveness_checker = some new_one; waiting = []; written = [] }

accepted_peer : Dict.get (run env just_accepted no_peers).peers 4 ≡ some new_one
unfolding Dict.get Dict.insert run step
accepted_peer = refl

accepted_task : Dict.get (run env just_accepted no_peers).conns 4 ≡ some idle
unfolding Dict.get Dict.insert run step
accepted_task = refl

broadcast_chain_changed-Notified_example :
    (d : Conn) × (Dict.get
        (broadcast_chain_changed env main_id
          (some "app.org")
          (sticky main_id)
          (run env just_accepted no_peers)).conns
        4
      ≡ some d)
    × Notified env main_id (some "app.org") (sticky main_id) new_one idle d
broadcast_chain_changed-Notified_example =
    broadcast_chain_changed-Notified env just_accepted main_id (some "app.org") (sticky main_id) 4
      new_one idle accepted_peer accepted_task
