-- ===== src/Peers/Tended.antt =====
-- crates/ws: the history of a socket, and the tasks that belong to the peers.
use ethui.Common.{
  ℕ, String, Bool, true, false, ap, ◌∙◌, not, ◌&&◌, ◌≡◌, inl, inr, refl, sym, Option, none, some,
  List, [], ◌∷◌, ◌++◌, arith, ◌==◌, nat_Same, text_Same, nat_same_iff, Option-cases, Bool-cases,
  if◌then◌else◌,
}
use mathlib.Core.Path.{subst}
use ethui.Common.Dict
use ethui.Common.Dict.{Dict, values}
use ethui.Common.Json.{Json}
use ethui.Broadcast.{Message}
use ethui.Peers.{
  Peer, new_peer, Env, Conn, World, push, push_all, broadcast_accounts_changed,
  broadcast_chain_changed, receive, Event, accepts, text, ends, Parsed, request, data_error,
  other_error, domain, reply,
}

-- What is at a socket: a peer, and whether its task goes on. A task ends by itself, and then its peer goes
-- too, or by a panic.
abbrev pub At : Type 0
At = Option (Peer × Bool)

abbrev pub at : Option Peer → Option Conn → At
at none c = none
at (some p) none = some (p, false)
at (some p) (some c) = some (p, true)

abbrev pub opened : ℕ → Dict String String → At → At
opened s params none = some (new_peer s params, true)
opened s params (some (p, true)) = some (p, true)
opened s params (some (p, false)) = some (new_peer s params, true)

abbrev pub closed : At → At
closed none = none
closed (some (p, true)) = none
closed (some (p, false)) = some (p, false)

abbrev pub is_none {ℓ} : {A : Type ℓ} → Option A → Bool
is_none none = true
is_none (some a) = false

module _ {Request : Type 0} (env : Env Request) where
  -- Whether the RPC panics at a text of a peer.
  abbrev pub panics : Peer → String → Bool
  panics p t = elim (env.parse t) [
    | request r ↦ is_none (env.handle (domain env p) r)
    | data_error ↦ false
    | other_error ↦ false
  ]

  abbrev pub spoken : String → At → At
  spoken t none = none
  spoken t (some (p, true)) = some (record p { alive = true }, not (panics p t))
  spoken t (some (p, false)) = some (p, false)

  -- What an event makes of what is at a socket.
  abbrev pub lives_on : ℕ → Event → At → At
  lives_on k (accepts s params) o = if s == k then opened s params o else o
  lives_on k (text s t) o = if not (t == "pong") && s == k then spoken t o else o
  lives_on k (ends s) o = if s == k then closed o else o
  lives_on k _ o = o

  -- What is at a socket, from the history of the socket alone: a peer from an accepted connection to the end
  -- of its task, alive once a text other than "pong" has come; after a text at which the RPC panics, a peer
  -- without a task, until the socket is accepted again.
  abbrev pub life : ℕ → List Event → At → At
  life k [] o = o
  life k (event ∷ events) o = life k events (lives_on k event o)

  pub reply-panics :
      (p q : Peer) (t : String) → q.url ≡ p.url → is_none (reply env q t) ≡ panics p t
  unfolding reply domain
  reply-panics p q t e = of_parsed (env.parse t) refl
    where
      of_handled :
          (r : Request) (o : Option (Option Json))
          → env.parse t ≡ request r
          → env.handle (domain env p) r ≡ o
          → is_none (reply env q t) ≡ panics p t
      of_handled r none f g = ground (arith, e, f, g)
      of_handled r (some x) f g = ground (arith, e, f, g)

      of_parsed : (x : Parsed Request) → env.parse t ≡ x → is_none (reply env q t) ≡ panics p t
      of_parsed (request r) f = of_handled r (env.handle (domain env p) r) f refl
      of_parsed data_error f = ground (arith, f)
      of_parsed other_error f = ground (arith, f)

pub closes_idle : (o : Option Peer) → closed (at o none) ≡ at o none
closes_idle none = refl
closes_idle (some p) = refl

-- A task has a peer, whose liveness checker is unused as long as the peer is not alive.
abbrev pub Tended : ℕ → Option Peer → Option Conn → Type 0
Tended k o none = Unit
Tended k none (some c) = ⊥
Tended k (some p) (some c) = (p.socket ≡ k) × (c.peer.url ≡ p.url) × (elim c.liveness_checker [
  | none ↦ p.alive ≡ true
  | some q ↦ (q.socket ≡ k) × (p.alive ≡ false)
])

abbrev pub IsTended : World → Type 0
IsTended w = (k : ℕ) → Tended k (Dict.get w.peers k) (Dict.get w.conns k)

-- The task is tended, and with the peer it is what is said to be at the socket.
abbrev pub Stays : ℕ → At → Option Peer → Option Conn → Type 0
Stays k l o c = Tended k o c × (at o c ≡ l)

-- What waits, and what is written, does not matter.
pub same-Stays :
    (k : ℕ) (l : At) (o : Option Peer) (c d : Conn)
    → d.liveness_checker ≡ c.liveness_checker
    → d.peer ≡ c.peer
    → Stays k l o (some c)
    → Stays k l o (some d)
same-Stays k l none c d e f h = h
same-Stays k l (some p) c d e f ((i, u, h), g) = (
  (
    i,
    ap (λ (x : Peer). x.url) f ∙ u,
    subst
        (λ (x : Option Peer). elim x as (λ y. Type 0) [
          | none ↦ p.alive ≡ true
          | some q ↦ (q.socket ≡ k) × (p.alive ≡ false)
        ])
        (sym e) h,
  ),
  g,
)

-- A task is replaced by another one with the same liveness checker.
pub put-Stays :
    (conns : Dict ℕ Conn) (s k : ℕ) (c d : Conn) (l : At) (o : Option Peer)
    → Dict.get conns s ≡ some c
    → d.liveness_checker ≡ c.liveness_checker
    → d.peer ≡ c.peer
    → Stays k l o (Dict.get conns k)
    → Stays k l o (Dict.get (Dict.insert conns s d) k)
put-Stays conns s k c d l o found e f h = elim (Bool-cases (s == k)) [
  | inr other ↦ subst (Stays k l o) (sym (ground (arith, other, Dict.get-insert conns s k d))) h
  | inl here ↦
      let there : Dict.get conns k ≡ some c = ground (arith, found, nat_same_iff s k, here) in
      subst (Stays k l o) (sym (ground (arith, here, Dict.get-insert conns s k d)))
        (same-Stays k l o c d e f (subst (Stays k l o) there h))
]

pub push_lost :
    (msg : Json) (peer : Peer) (conns : Dict ℕ Conn)
    → Dict.get conns peer.socket ≡ none
    → push msg peer conns ≡ conns
unfolding push
push_lost msg peer conns e = ground (arith, e)

pub push_taken :
    (msg : Json) (peer : Peer) (conns : Dict ℕ Conn) (c : Conn)
    → Dict.get conns peer.socket ≡ some c
    → push msg peer conns
      ≡ Dict.insert conns peer.socket (record c { waiting = c.waiting ++ msg ∷ [] })
unfolding push
push_taken msg peer conns c e = ground (arith, e)

pub push-Stays :
    (msg : Json) (peer : Peer) (conns : Dict ℕ Conn) (k : ℕ) (l : At) (o : Option Peer)
    → Stays k l o (Dict.get conns k)
    → Stays k l o (Dict.get (push msg peer conns) k)
push-Stays msg peer conns k l o h = elim (Option-cases (Dict.get conns peer.socket)) [
  | inl lost ↦ rw (push_lost msg peer conns lost) h
  | inr (c, found) ↦ rw (push_taken msg peer conns c found) (
      put-Stays conns peer.socket k c (record c { waiting = c.waiting ++ msg ∷ [] }) l o found refl
        refl h)
]

pub push_all-Stays :
    (msg : Json) (peers : List Peer) (conns : Dict ℕ Conn) (k : ℕ) (l : At) (o : Option Peer)
    → Stays k l o (Dict.get conns k)
    → Stays k l o (Dict.get (push_all msg peers conns) k)
unfolding push_all
push_all-Stays msg [] conns k l o h = h
push_all-Stays msg (peer ∷ peers) conns k l o h =
    push_all-Stays msg peers (push msg peer conns) k l o (push-Stays msg peer conns k l o h)

pub tended_by :
    (k : ℕ) (o p : Option Peer) (c d : Option Conn) → p ≡ o → d ≡ c → Tended k o c → Tended k p d
tended_by k o p c d e f h = rw (e, f) h

module _ {Request : Type 0} (env : Env Request) where
  pub receive-peers : (m : Message) (w : World) → (receive env m w).peers ≡ w.peers
  unfolding receive broadcast_chain_changed broadcast_accounts_changed
  receive-peers (Message.chain_changed id other affinity) w = ground arith
  receive-peers _ w = refl
