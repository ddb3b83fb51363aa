-- ===== src/Peers.antt =====
-- crates/ws: the peers that are connected (peers.rs), the task of each connection (server.rs), and the receiver
-- of the broadcasts (init.rs). What a task has to write, a reply, a message of its channel or a ping, is
-- written; a failure to write ends the task, as a closing frame does.
pub mod Tended
pub mod Lives
pub mod Shares
pub mod Reached
pub mod Domains
mod Tests
use ethui.Common.{
  ℕ, String, append, Bool, true, false, not, ◌&&◌, Option, none, some, List, [], ◌∷◌, ◌++◌, map,
  filter, ◌==◌, nat_Same, text_Same, length, if◌then◌else◌,
}
use mathlib.Core.Option
use ethui.Common.Dict
use ethui.Common.Dict.{Dict, values}
use ethui.Common.Json.{Json, null, number, str, array, object}
use ethui.Types.{Address, NetworkId, Affinity}
use ethui.Broadcast.{Message, chain_changed, accounts_changed, peer_added, ui_notify, peers_updated}
use ethui.Connections.{affinity_matches}

-- A socket address is a number. The channel of a peer is the one of the task of its socket.
pub record Peer : Type 0 where
  pub origin : String
  pub url : Option String
  pub socket : ℕ
  pub alive : Bool

abbrev or_unknown : Option String → String
or_unknown none = "unknown"
or_unknown (some t) = t

-- `Peer::new`
unfoldable pub new_peer : ℕ → Dict String String → Peer
new_peer socket params = record {
  origin = or_unknown (Dict.get params "origin");
  url = Dict.get params "url";
  socket = socket;
  alive = false;
}

-- What the text of a frame parses to.
pub data Parsed (Request : Type 0) : Type 0 where
  request : Request → Parsed Request
  data_error other_error : Parsed Request

-- The host of a URL that parses, the affinities, which chains there are, and the RPC of a peer, which panics
-- where it gives nothing.
pub record Env (Request : Type 0) : Type 0 where
  pub host : String → Option String
  pub affinities : Dict String Affinity
  pub is_chain : ℕ → Bool
  pub show_chain : ℕ → String
  pub show_address : Address → String
  pub parse : String → Parsed Request
  pub handle : Option String → Request → Option (Option Json)

-- What a task writes to its web socket: a value as text, or a ping.
pub data Frame : Type 0 where
  value : Json → Frame
  ping : Frame

-- The task of a connection: its liveness checker, what waits in its channel, and what it has written.
pub record Conn : Type 0 where
  pub peer : Peer
  pub liveness_checker : Option Peer
  pub waiting : List Json
  pub written : List Frame

-- `Peers`, the tasks by their sockets, and what was broadcast.
pub record World : Type 0 where
  pub peers : Dict ℕ Peer
  pub conns : Dict ℕ Conn
  pub sent : List Message

abbrev tell : Message → World → World
tell m w = record w { sent = w.sent ++ m ∷ [] }

unfoldable pub add_peer : Peer → World → World
add_peer peer w =
    tell (ui_notify peers_updated)
      (tell peer_added (record w { peers = Dict.insert w.peers peer.socket peer }))

unfoldable pub remove_peer : ℕ → World → World
remove_peer peer w = tell (ui_notify peers_updated) (record w { peers = Dict.remove w.peers peer })

-- `peer_alive`, where `none` is the panic on a peer that is not there.
unfoldable pub peer_alive : Peer → World → Option World
peer_alive peer w = elim (Dict.get w.peers peer.socket) [
  | none ↦ none
  | some p ↦ some (
      tell (ui_notify peers_updated)
        (record w { peers = Dict.insert w.peers peer.socket (record p { alive = true }) }))
]

-- `peer.sender.send(msg)`; where the task is gone the message is lost.
unfoldable pub push : Json → Peer → Dict ℕ Conn → Dict ℕ Conn
push msg peer conns = elim (Dict.get conns peer.socket) [
  | none ↦ conns
  | some c ↦ Dict.insert conns peer.socket (record c { waiting = c.waiting ++ msg ∷ [] })
]

pub push_all : Json → List Peer → Dict ℕ Conn → Dict ℕ Conn
push_all msg [] conns = conns
push_all msg (peer ∷ peers) conns = push_all msg peers (push msg peer conns)

-- What happens: a connection is accepted, a task gets a text, another frame or an error, its channel or
-- its clock, or it ends, and a message is broadcast. An address that has a task is not accepted again.
pub data Event : Type 0 where
  accepts : ℕ → Dict String String → Event
  text : ℕ → String → Event
  other_frame channel tick ends : ℕ → Event
  broadcasts : Message → Event

module _ {Request : Type 0} (env : Env Request) where
  -- `Peer::domain`
  unfoldable pub domain : Peer → Option String
  domain peer = elim peer.url [ none ↦ none | some url ↦ env.host url ]

  unfoldable pub broadcast_accounts_changed : List Address → World → World
  unfolding push_all
  broadcast_accounts_changed new_accounts w = record w {
    conns =
        push_all
          (object (
            ("method", str "accountsChanged")
            ∷ ("params", array (map (λ a. str (env.show_address a)) new_accounts))
            ∷ []))
          (values w.peers) w.conns;
  }

  abbrev pub chain_message : ℕ → Json
  chain_message chain_id = object (
      ("method", str "chainChanged")
      ∷ ("params", object (("chainId", str (append "0x" (env.show_chain chain_id))) ∷ []))
      ∷ [])

  -- Whether a chain change is for a peer.
  abbrev pub is_for : Option String → Affinity → Peer → Bool
  is_for other affinity peer = affinity_matches env.affinities (domain peer) other affinity

  unfoldable pub broadcast_chain_changed : NetworkId → Option String → Affinity → World → World
  unfolding push_all domain
  broadcast_chain_changed id other affinity w =
      if env.is_chain id.chain_id
      then record w {
        conns =
            push_all (chain_message id.chain_id) (filter (is_for other affinity) (values w.peers))
              w.conns;
      }
      else w

  -- The body of the receiver's loop.
  unfoldable pub receive : Message → World → World
  receive (chain_changed id other affinity) w = broadcast_chain_changed id other affinity w
  receive (accounts_changed accounts) w = broadcast_accounts_changed accounts w
  receive _ w = w

  unfoldable pub json_rpc_error : String → String → Json
  json_rpc_error code message = object (
      ("jsonrpc", str "2.0")
      ∷ ("error", object (("code", number code) ∷ ("message", str message) ∷ []))
      ∷ ("id", null)
      ∷ [])

  abbrev or_null : Option Json → Json
  or_null none = null
  or_null (some r) = r

  -- The reply to a text, or none where the RPC panics: a request without an answer is replied to with null.
  unfoldable pub reply : Peer → String → Option Json
  unfolding json_rpc_error
  reply peer t = elim (env.parse t) [
    | request r ↦ Option.map or_null (env.handle (domain peer) r)
    | data_error ↦ some (json_rpc_error "-32600" "Invalid Request")
    | other_error ↦ some (json_rpc_error "-32700" "Parse error")
  ]

  abbrev put_conn : ℕ → Conn → World → World
  put_conn socket c w = record w { conns = Dict.insert w.conns socket c }

  -- A panic ends the task, and the peer stays.
  abbrev end_by_panic : ℕ → World → World
  end_by_panic socket w = record w { conns = Dict.remove w.conns socket }

  -- The liveness checker is used once.
  abbrev pub check_liveness : ℕ → Conn → World → Option World
  check_liveness socket c w = elim c.liveness_checker [ none ↦ some w | some p ↦ peer_alive p w ]

  unfoldable pub handle_message : ℕ → Conn → String → World → World
  unfolding reply peer_alive
  handle_message socket c t w = if t == "pong" then w else elim (check_liveness socket c w) [
    | none ↦ end_by_panic socket w
    | some v ↦ elim (reply c.peer t) [
      | none ↦ end_by_panic socket v
      | some r ↦
          put_conn socket
            (record c { liveness_checker = none; written = c.written ++ value r ∷ [] }) v
    ]
  ]

  -- The message of the channel that waits first is written.
  abbrev forward : ℕ → Conn → List Json → World → World
  forward socket c [] w = w
  forward socket c (msg ∷ msgs) w =
      put_conn socket (record c { waiting = msgs; written = c.written ++ value msg ∷ [] }) w

  abbrev at_task : ℕ → (Conn → World → World) → World → World
  at_task socket f w = elim (Dict.get w.conns socket) [ none ↦ w | some c ↦ f c w ]

  abbrev start_task : Peer → World → World
  start_task peer =
      put_conn peer.socket
        (record { peer = peer; liveness_checker = some peer; waiting = []; written = [] })

  unfoldable pub step : Event → World → World
  unfolding add_peer remove_peer handle_message new_peer
  step (accepts socket params) w = elim (Dict.get w.conns socket) [
    | none ↦ start_task (new_peer socket params) (add_peer (new_peer socket params) w)
    | some c ↦ w
  ]
  step (text socket t) w = at_task socket (λ c. handle_message socket c t) w
  step (other_frame socket) w = w
  step (channel socket) w = at_task socket (λ c. forward socket c c.waiting) w
  step (tick socket) w =
      at_task socket (λ c. put_conn socket (record c { written = c.written ++ ping ∷ [] })) w
  step (ends socket) w =
      at_task socket (λ c v. remove_peer socket (record v { conns = Dict.remove v.conns socket })) w
  step (broadcasts m) w = receive m w

  unfoldable pub run : List Event → World → World
  run [] w = w
  run (event ∷ events) w = run events (step event w)

  -- `by_domain`: the peers that are alive, by their domains.
  abbrev pub add_to : Dict String (List Peer) → Peer → Dict String (List Peer)
  add_to acc p =
      let key : String = elim (domain p) [ none ↦ "" | some d ↦ d ] in
      let entry : List Peer = elim (Dict.get acc key) [ none ↦ [] | some ps ↦ ps ] in
      Dict.insert acc key (entry ++ p ∷ [])

  pub by_domain_from : Dict String (List Peer) → List Peer → Dict String (List Peer)
  unfolding domain
  by_domain_from acc [] = acc
  by_domain_from acc (p ∷ ps) = by_domain_from (if not p.alive then acc else add_to acc p) ps

  unfoldable pub by_domain : World → Dict String (List Peer)
  unfolding by_domain_from
  by_domain w = by_domain_from [] (values w.peers)

unfoldable pub count : World → ℕ
count w = length w.peers

abbrev pub no_peers : World
no_peers = record { peers = []; conns = []; sent = [] }
