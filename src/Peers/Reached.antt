-- ===== src/Peers/Reached.antt =====
-- crates/ws/src/peers.rs: which peers a broadcast reaches.
use ethui.Common.{
  ℕ, String, true, false, ◌≡◌, ◌⊎◌, inl, inr, refl, ◌∙◌, Option, none, some, List, [], ◌∷◌, ◌++◌,
  All, arith, ◌==◌, nat_Same, text_Same, Option-cases, Bool-cases,
}
use mathlib.Core.List.{append-nil}
use mathlib.Core.Path.{subst}
use ethui.Common.Dict
use ethui.Common.Dict.{
  Dict, values, Distinct, insert-Distinct, remove-Distinct, All-insert, All-remove, All-get,
}
use ethui.Types.{NetworkId, Affinity}
use ethui.Connections.Affinities.{Reaches, affinity_matches-Reaches}
use ethui.Peers.{
  Peer, new_peer, Env, Conn, World, add_peer, remove_peer, peer_alive, check_liveness, is_for,
  domain, chain_message, broadcast_chain_changed, handle_message, Event, accepts, text, other_frame,
  channel, tick, ends, broadcasts, step, run, no_peers, reply,
}
use ethui.Peers.Tended.{receive-peers}
use ethui.Peers.Shares.{share, IsKeyed, get-push_all}

-- The table of peers is well-formed.
abbrev IsTable : Dict ℕ Peer → Type 0
IsTable d = Distinct d × All IsKeyed d

insert-IsTable :
    (d : Dict ℕ Peer) (k : ℕ) (p : Peer) → p.socket ≡ k → IsTable d → IsTable (Dict.insert d k p)
insert-IsTable d k p e (h, u) = (insert-Distinct d k p h, All-insert IsKeyed d k p e u)

remove-IsTable : (d : Dict ℕ Peer) (k : ℕ) → IsTable d → IsTable (Dict.remove d k)
remove-IsTable d k (h, u) = (remove-Distinct d k h, All-remove IsKeyed d k u)

module _ {Request : Type 0} (env : Env Request) where
  peer_alive-IsTable :
      (q : Peer) (w v : World) → IsTable w.peers → peer_alive q w ≡ some v → IsTable v.peers
  unfolding peer_alive
  peer_alive-IsTable q w v h e = elim (Option-cases (Dict.get w.peers q.socket)) [
    | inl lost ↦ absurd (ground (arith, lost, e))
    | inr (p, found) ↦
        let keyed : p.socket ≡ q.socket = All-get IsKeyed w.peers q.socket p h.1 found in
        let k : v.peers ≡ Dict.insert w.peers q.socket (record p { alive = true }) =
          ground (arith, found, e) in
        rw k (insert-IsTable w.peers q.socket (record p { alive = true }) keyed h)
  ]

  checked-IsTable :
      (s : ℕ) (c : Conn) (w v : World)
      → IsTable w.peers
      → check_liveness env s c w ≡ some v
      → IsTable v.peers
  checked-IsTable s c w v h e = of_checker c.liveness_checker refl
    where
      of_checker : (o : Option Peer) → c.liveness_checker ≡ o → IsTable v.peers
      of_checker none l =
          let k : w ≡ v = ground (arith, l, e) in subst (λ (x : World). IsTable x.peers) k h
      of_checker (some q) l = peer_alive-IsTable q w v h (ground (arith, l, e))

  text-IsTable :
      (s : ℕ) (c : Conn) (t : String) (w : World)
      → IsTable w.peers
      → IsTable (handle_message env s c t w).peers
  unfolding handle_message
  text-IsTable s c t w h = of_checked (Bool-cases (t == "pong")) (check_liveness env s c w) refl
    where
      of_checked :
          ((t == "pong") ≡ true) ⊎ ((t == "pong") ≡ false)
          → (o : Option World) → check_liveness env s c w ≡ o
          → IsTable (handle_message env s c t w).peers
      of_checked (inl pong) o e =
          let k : (handle_message env s c t w).peers ≡ w.peers = ground (arith, pong) in rw k h
      of_checked (inr n) none e =
          let k : (handle_message env s c t w).peers ≡ w.peers = ground (arith, n, e) in rw k h
      of_checked (inr n) (some v) e =
          let k : (handle_message env s c t w).peers ≡ v.peers =
            elim (Option-cases (reply env c.peer t)) [
              | inl panicked ↦ ground (arith, n, e, panicked)
              | inr (r, replied) ↦ ground (arith, n, e, replied)
            ] in
          rw k (checked-IsTable s c w v h e)

  step-IsTable : (event : Event) (w : World) → IsTable w.peers → IsTable (step env event w).peers
  unfolding step add_peer remove_peer new_peer
  step-IsTable (accepts s params) w h = elim (Option-cases (Dict.get w.conns s)) [
    | inl e ↦
        let k : (step env (accepts s params) w).peers ≡ Dict.insert w.peers s (new_peer s params) =
          ground (arith, e) in
        rw k (insert-IsTable w.peers s (new_peer s params) refl h)
    | inr (c, e) ↦
        let k : (step env (accepts s params) w).peers ≡ w.peers = ground (arith, e) in rw k h
  ]
  step-IsTable (text s t) w h = elim (Option-cases (Dict.get w.conns s)) [
    | inl e ↦ let k : (step env (text s t) w).peers ≡ w.peers = ground (arith, e) in rw k h
    | inr (c, e) ↦
        let k : (step env (text s t) w).peers ≡ (handle_message env s c t w).peers =
          ground (arith, e) in
        rw k (text-IsTable s c t w h)
  ]
  step-IsTable (other_frame s) w h = h
  step-IsTable (channel s) w h =
      let k : (step env (channel s) w).peers ≡ w.peers = ground arith in rw k h
  step-IsTable (tick s) w h = let k : (step env (tick s) w).peers ≡ w.peers = ground arith in rw k h
  step-IsTable (ends s) w h = elim (Option-cases (Dict.get w.conns s)) [
    | inl e ↦ let k : (step env (ends s) w).peers ≡ w.peers = ground (arith, e) in rw k h
    | inr (c, e) ↦
        let k : (step env (ends s) w).peers ≡ Dict.remove w.peers s = ground (arith, e) in
        rw k (remove-IsTable w.peers s h)
  ]
  step-IsTable (broadcasts m) w h = rw (receive-peers env m w) h

  run-IsTable :
      (events : List Event) (w : World) → IsTable w.peers → IsTable (run env events w).peers
  unfolding run
  run-IsTable [] w h = h
  run-IsTable (event ∷ events) w h = run-IsTable events (step env event w) (step-IsTable event w h)

-- What the channel of a task gets of a chain change: the message, if the chain is known and the change is for
-- its peer, and nothing otherwise.
abbrev pub Notified :
    {Request : Type 0}
    → Env Request
    → NetworkId
    → Option String
    → Affinity
    → Peer
    → Conn
    → Conn
    → Type 0
Notified env id other affinity p c d =
    ((env.is_chain id.chain_id ≡ true)
      × Reaches env.affinities (domain env p) other affinity
      × (d ≡ record c { waiting = c.waiting ++ chain_message env id.chain_id ∷ [] }))
    ⊎ (((env.is_chain id.chain_id ≡ true × Reaches env.affinities (domain env p) other affinity)
          → ⊥)
        × (d ≡ c))

module _ {Request : Type 0} (env : Env Request) (id : NetworkId) (other : Option String)
    (affinity : Affinity) (k : ℕ) (p : Peer) (c : Conn) (w : World) (table : IsTable w.peers)
    (e : Dict.get w.peers k ≡ some p) (f : Dict.get w.conns k ≡ some c) where
  abbrev Told : Type 0
  Told =
      (d : Conn) × (Dict.get (broadcast_chain_changed env id other affinity w).conns k ≡ some d)
      × Notified env id other affinity p c d

  notified_known : env.is_chain id.chain_id ≡ true → Told
  unfolding broadcast_chain_changed
  notified_known known = of_match (Bool-cases (is_for env other affinity p))
    where
      told :
          Dict.get (broadcast_chain_changed env id other affinity w).conns k
          ≡ some (record c {
            waiting =
                c.waiting
                ++ share
                    (is_for env other affinity)
                    (chain_message env id.chain_id)
                    (Dict.get w.peers k);
          })
      told =
          rw (known, broadcast_chain_changed)
            (get-push_all (is_for env other affinity) (chain_message env id.chain_id) w.peers k
              table.0 table.1 w.conns c f)

      of_match : (is_for env other affinity p ≡ true) ⊎ (is_for env other affinity p ≡ false) → Told
      of_match (inl yes_it_is) = (
        record c { waiting = c.waiting ++ chain_message env id.chain_id ∷ [] },
        told ∙ ground (arith, e, yes_it_is),
        inl (
          known,
          (affinity_matches-Reaches env.affinities (domain env p) other affinity).0 yes_it_is,
          refl,
        ),
      )
      of_match (inr is_not) = (
        c,
        told ∙ ground (arith, e, is_not, append-nil c.waiting),
        inr (
          (λ h. absurd (
              ground (
                arith,
                is_not,
                (affinity_matches-Reaches env.affinities (domain env p) other affinity).1 h.1,
              ))),
          refl,
        ),
      )

  unknown_told :
      env.is_chain id.chain_id ≡ false
      → Dict.get (broadcast_chain_changed env id other affinity w).conns k ≡ some c
  unfolding broadcast_chain_changed
  unknown_told unknown = ground (arith, unknown, f)

  notified : Told
  notified = elim (Bool-cases (env.is_chain id.chain_id)) [
    | inl known ↦ notified_known known
    | inr unknown ↦
        (c, unknown_told unknown, inr ((λ h. absurd (ground (arith, unknown, h.0))), refl))
  ]

-- Whatever has happened before, a change of the chain is put, once, into the channel of each peer that it is
-- for, if the chain is known, and into no other channel.
pub broadcast_chain_changed-Notified :
    {Request : Type 0} (env : Env Request) (events : List Event) (id : NetworkId)
    (other : Option String) (affinity : Affinity) (k : ℕ) (p : Peer) (c : Conn)
    → let w = run env events no_peers in
      Dict.get w.peers k ≡ some p
      → Dict.get w.conns k ≡ some c
      → (d : Conn) × (Dict.get (broadcast_chain_changed env id other affinity w).conns k ≡ some d)
        × Notified env id other affinity p c d
broadcast_chain_changed-Notified env events id other affinity k p c e f =
    notified env id other affinity k p c (run env events no_peers)
      (run-IsTable env events no_peers (tt, tt)) e f
