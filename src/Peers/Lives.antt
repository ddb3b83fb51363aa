-- ===== src/Peers/Lives.antt =====
-- crates/ws: which peers are there, and which of them are alive.
use ethui.Common.{
  ℕ, String, true, false, ◌≡◌, ◌⊎◌, inl, inr, refl, sym, ap, ◌∙◌, Option, none, some, List, [], ◌∷◌,
  ◌++◌, arith, filter, if◌then◌else◌, ◌==◌, nat_Same, text_Same, nat_same_iff, Bool-cases,
}
use mathlib.Core.Path.{subst}
use ethui.Common.Dict
use ethui.Common.Dict.{Dict, values}
use ethui.Common.Json.{Json}
use ethui.Broadcast.{Message}
use ethui.Peers.{
  Peer, new_peer, Env, Conn, World, add_peer, remove_peer, peer_alive, is_for, value, ping, reply,
  broadcast_accounts_changed, broadcast_chain_changed, receive, handle_message, Event, accepts,
  text, other_frame, channel, tick, ends, broadcasts, step, run, no_peers,
}
use ethui.Peers.Tended.{
  At, at, opened, closed, is_none, panics, spoken, lives_on, life, reply-panics, closes_idle,
  Tended, IsTended, Stays, put-Stays, push_all-Stays, tended_by, receive-peers,
}

module _ {Request : Type 0} (env : Env Request) (w : World) (tended : IsTended w) where
  task :
      (s : ℕ) (c : Conn)
      → Dict.get w.conns s ≡ some c
      → (p : Peer) × (Dict.get w.peers s ≡ some p) × Tended s (some p) (some c)
  task s c e = of_peer (Dict.get w.peers s) refl
    where
      of_peer :
          (o : Option Peer)
          → Dict.get w.peers s ≡ o
          → (p : Peer) × (Dict.get w.peers s ≡ some p) × Tended s (some p) (some c)
      of_peer none f = absurd (
          tended_by s (Dict.get w.peers s) none (Dict.get w.conns s) (some c) (sym f) (sym e)
            (tended s))
      of_peer (some p) f = (
        p,
        f,
        tended_by s (Dict.get w.peers s) (some p) (Dict.get w.conns s) (some c) (sym f) (sym e)
            (tended s),
      )

  -- What is at a socket.
  abbrev here_at : World → ℕ → At
  here_at v k = at (Dict.get v.peers k) (Dict.get v.conns k)

  -- What has to hold at a socket after an event.
  abbrev Goes : ℕ → Event → World → Type 0
  Goes k event v =
      Stays k (lives_on env k event (here_at w k)) (Dict.get v.peers k) (Dict.get v.conns k)

  Goes-by :
      (k : ℕ) (event : Event) (v : World) (o : Option Peer) (c : Option Conn)
      → Dict.get v.peers k ≡ o
      → Dict.get v.conns k ≡ c
      → at o c ≡ lives_on env k event (here_at w k)
      → Tended k o c
      → Goes k event v
  Goes-by k event v o c e f g h = rw (e, f) (h, g)

  -- Nothing has happened at the socket.
  stays :
      (k : ℕ) (event : Event) (v : World)
      → Dict.get v.peers k ≡ Dict.get w.peers k
      → Dict.get v.conns k ≡ Dict.get w.conns k
      → lives_on env k event (here_at w k) ≡ here_at w k
      → Goes k event v
  stays k event v e f g =
      Goes-by k event v (Dict.get w.peers k) (Dict.get w.conns k) e f (sym g) (tended k)

  -- What a socket without a task makes of the events.
  keeps_idle :
      (f : At → At) (s k : ℕ)
      → ((o : Option Peer) → f (at o none) ≡ at o none)
      → Dict.get w.conns s ≡ none
      → (if s == k then f (here_at w k) else here_at w k) ≡ here_at w k
  keeps_idle f s k h e = elim (Bool-cases (s == k)) [
    | inl here ↦
        let there : Dict.get w.conns k ≡ none =
          ap (Dict.get w.conns) (sym ((nat_same_iff s k).0 here)) ∙ e in
        rw (here, there) (h (Dict.get w.peers k))
    | inr other ↦ rw other refl
  ]

  -- And a socket with one.
  tends_there :
      (s k : ℕ) (c : Conn) (p : Peer)
      → Dict.get w.conns s ≡ some c
      → Dict.get w.peers s ≡ some p
      → (s == k) ≡ true
      → here_at w k ≡ some (p, true)
  tends_there s k c p e f here =
      let same : s ≡ k = (nat_same_iff s k).0 here in
      subst (λ (x : ℕ). here_at w x ≡ some (p, true)) same (rw (e, f) refl)

  ends-Goes : (s k : ℕ) → Goes k (ends s) (step env (ends s) w)
  unfolding step remove_peer
  ends-Goes s k = of_task (Dict.get w.conns s) refl (Bool-cases (s == k))
    where
      of_task :
          (o : Option Conn)
          → Dict.get w.conns s ≡ o
          → ((s == k) ≡ true) ⊎ ((s == k) ≡ false)
          → Goes k (ends s) (step env (ends s) w)
      of_task none e same =
          stays k (ends s) (step env (ends s) w) (ground (arith, e)) (ground (arith, e))
            (keeps_idle closed s k closes_idle e)
      of_task (some c) e (inl here) =
          let (p, found, t) = task s c e in
          Goes-by k (ends s) (step env (ends s) w) none none
            (ground (arith, e, here, Dict.get-remove w.peers s k))
            (ground (arith, e, here, Dict.get-remove w.conns s k))
            (rw (here, tends_there s k c p e found here) refl) tt
      of_task (some c) e (inr other) =
          stays k (ends s) (step env (ends s) w)
            (ground (arith, e, other, Dict.get-remove w.peers s k))
            (ground (arith, e, other, Dict.get-remove w.conns s k)) (rw other refl)

  opens_idle :
      (s : ℕ) (params : Dict String String) (o : Option Peer)
      → opened s params (at o none) ≡ some (new_peer s params, true)
  opens_idle s params none = refl
  opens_idle s params (some p) = refl

  accepts-Goes :
      (s k : ℕ) (params : Dict String String)
      → Goes k (accepts s params) (step env (accepts s params) w)
  unfolding step add_peer new_peer
  accepts-Goes s k params = of_task (Dict.get w.conns s) refl (Bool-cases (s == k))
    where
      v : World
      v = step env (accepts s params) w

      new_conn : Conn
      new_conn = record {
        peer = new_peer s params;
        liveness_checker = some (new_peer s params);
        waiting = [];
        written = [];
      }

      of_task :
          (o : Option Conn)
          → Dict.get w.conns s ≡ o
          → ((s == k) ≡ true) ⊎ ((s == k) ≡ false)
          → Goes k (accepts s params) v
      of_task (some c) e (inl here) =
          let (p, found, t) = task s c e in
          stays k (accepts s params) v (ground (arith, e)) (ground (arith, e))
            (rw (here, tends_there s k c p e found here) refl)
      of_task (some c) e (inr other) =
          stays k (accepts s params) v (ground (arith, e)) (ground (arith, e)) (rw other refl)
      of_task none e (inl here) =
          let there : Dict.get w.conns k ≡ none =
            ap (Dict.get w.conns) (sym ((nat_same_iff s k).0 here)) ∙ e in
          Goes-by k (accepts s params) v (some (new_peer s params)) (some new_conn)
            (ground (arith, e, here, Dict.get-insert w.peers s k (new_peer s params)))
            (ground (arith, e, here, Dict.get-insert w.conns s k new_conn))
            (rw (here, there) (sym (opens_idle s params (Dict.get w.peers k))))
            ((nat_same_iff s k).0 here, refl, ((nat_same_iff s k).0 here, refl))
      of_task none e (inr other) =
          stays k (accepts s params) v
            (ground (arith, e, other, Dict.get-insert w.peers s k (new_peer s params)))
            (ground (arith, e, other, Dict.get-insert w.conns s k new_conn)) (rw other refl)

  receive-Stays :
      (m : Message) (k : ℕ)
      → Stays k (here_at w k) (Dict.get w.peers k) (Dict.get (receive env m w).conns k)
  unfolding receive broadcast_chain_changed broadcast_accounts_changed
  receive-Stays (Message.chain_changed id other affinity) k =
      elim (Bool-cases (env.is_chain id.chain_id)) [
        | inl known ↦
            rw (known, broadcast_chain_changed)
              (push_all-Stays _ (filter (is_for env other affinity) (values w.peers)) w.conns k
                (here_at w k) (Dict.get w.peers k) (tended k, refl))
        | inr unknown ↦ rw (unknown, broadcast_chain_changed) (tended k, refl)
      ]
  receive-Stays (Message.accounts_changed accounts) k =
      push_all-Stays _ (values w.peers) w.conns k (here_at w k) (Dict.get w.peers k)
        (tended k, refl)
  receive-Stays _ k = (tended k, refl)

  broadcasts-Goes : (m : Message) (k : ℕ) → Goes k (broadcasts m) (step env (broadcasts m) w)
  unfolding step
  broadcasts-Goes m k = rw (receive-peers env m w) (receive-Stays m k)

  -- The events at which a task goes on with the same liveness checker.
  put-Goes :
      (k s : ℕ) (event : Event) (c d : Conn) (v : World)
      → Dict.get w.conns s ≡ some c
      → d.liveness_checker ≡ c.liveness_checker
      → d.peer ≡ c.peer
      → v.peers ≡ w.peers
      → v.conns ≡ Dict.insert w.conns s d
      → lives_on env k event (here_at w k) ≡ here_at w k
      → Goes k event v
  put-Goes k s event c d v found e f p q g =
      rw (p, q, g)
        (put-Stays w.conns s k c d (here_at w k) (Dict.get w.peers k) found e f (tended k, refl))

  tick-Goes : (s k : ℕ) → Goes k (tick s) (step env (tick s) w)
  unfolding step
  tick-Goes s k = of_task (Dict.get w.conns s) refl
    where
      of_task : (o : Option Conn) → Dict.get w.conns s ≡ o → Goes k (tick s) (step env (tick s) w)
      of_task none e =
          stays k (tick s) (step env (tick s) w) (ground (arith, e)) (ground (arith, e)) refl
      of_task (some c) e =
          put-Goes k s (tick s) c (record c { written = c.written ++ ping ∷ [] })
            (step env (tick s) w) e refl refl (ground (arith, e)) (ground (arith, e)) refl

  channel-Goes : (s k : ℕ) → Goes k (channel s) (step env (channel s) w)
  unfolding step
  channel-Goes s k = of_task (Dict.get w.conns s) refl
    where
      of_waiting :
          (c : Conn) (msgs : List Json)
          → Dict.get w.conns s ≡ some c
          → c.waiting ≡ msgs
          → Goes k (channel s) (step env (channel s) w)
      of_waiting c [] e q =
          stays k (channel s) (step env (channel s) w) (ground (arith, e, q)) (ground (arith, e, q))
            refl
      of_waiting c (msg ∷ msgs) e q =
          put-Goes k s (channel s) c
            (record c { waiting = msgs; written = c.written ++ value msg ∷ [] })
            (step env (channel s) w) e refl refl (ground (arith, e, q)) (ground (arith, e, q)) refl

      of_task :
          (o : Option Conn) → Dict.get w.conns s ≡ o → Goes k (channel s) (step env (channel s) w)
      of_task none e =
          stays k (channel s) (step env (channel s) w) (ground (arith, e)) (ground (arith, e)) refl
      of_task (some c) e = of_waiting c c.waiting e refl

  -- What a text at which a task is makes of the socket: the peer is alive, and the task goes on without its
  -- liveness checker, or is gone.
  answered : (s : ℕ) (c : Conn) (t : String) → Option Json → Dict ℕ Conn
  answered s c t none = Dict.remove w.conns s
  answered s c t (some r) =
      Dict.insert w.conns s
        (record c { liveness_checker = none; written = c.written ++ value r ∷ [] })

  answered-Goes :
      (s k : ℕ) (t : String) (c : Conn) (p : Peer) (o : Option Json) (v : World)
      → Dict.get w.conns s ≡ some c
      → Dict.get w.peers s ≡ some p
      → p.socket ≡ s
      → c.peer.url ≡ p.url
      → (t == "pong") ≡ false
      → reply env c.peer t ≡ o
      → Dict.get v.peers k ≡ Dict.get (Dict.insert w.peers s (record p { alive = true })) k
      → v.conns ≡ answered s c t o
      → ((s == k) ≡ true) ⊎ ((s == k) ≡ false)
      → Goes k (text s t) v
  unfolding answered
  answered-Goes s k t c p (some r) v e f i u n a g h (inl here) =
      let goes_on : panics env p t ≡ false = sym (reply-panics env p c.peer t u) ∙ ap is_none a in
      Goes-by k (text s t) v (some (record p { alive = true }))
        (some (record c { liveness_checker = none; written = c.written ++ value r ∷ [] }))
        (ground (arith, g, here, Dict.get-insert w.peers s k (record p { alive = true })))
        (ground (
          arith,
          h,
          here,
          Dict.get-insert w.conns s k
              (record c { liveness_checker = none; written = c.written ++ value r ∷ [] }),
        ))
        (rw (here, n, tends_there s k c p e f here, goes_on) refl)
        (i ∙ (nat_same_iff s k).0 here, u, refl)
  answered-Goes s k t c p none v e f i u n a g h (inl here) =
      let stops : panics env p t ≡ true = sym (reply-panics env p c.peer t u) ∙ ap is_none a in
      Goes-by k (text s t) v (some (record p { alive = true })) none
        (ground (arith, g, here, Dict.get-insert w.peers s k (record p { alive = true })))
        (ground (arith, h, here, Dict.get-remove w.conns s k))
        (rw (here, n, tends_there s k c p e f here, stops) refl) tt
  answered-Goes s k t c p (some r) v e f i u n a g h (inr other) =
      stays k (text s t) v
        (ground (arith, g, other, Dict.get-insert w.peers s k (record p { alive = true })))
        (ground (
          arith,
          h,
          other,
          Dict.get-insert w.conns s k
              (record c { liveness_checker = none; written = c.written ++ value r ∷ [] }),
        ))
        (rw (n, other) refl)
  answered-Goes s k t c p none v e f i u n a g h (inr other) =
      stays k (text s t) v
        (ground (arith, g, other, Dict.get-insert w.peers s k (record p { alive = true })))
        (ground (arith, h, other, Dict.get-remove w.conns s k)) (rw (n, other) refl)

  speaks_idle : (t : String) (o : Option Peer) → spoken env t (at o none) ≡ at o none
  speaks_idle t none = refl
  speaks_idle t (some p) = refl

  text-Goes : (s k : ℕ) (t : String) → Goes k (text s t) (step env (text s t) w)
  unfolding step handle_message peer_alive answered
  text-Goes s k t = of_task (Dict.get w.conns s) refl (Bool-cases (t == "pong"))
    where
      v : World
      v = step env (text s t) w

      of_alive :
          (c : Conn) (p : Peer) (o : Option Json)
          → Dict.get w.conns s ≡ some c
          → Dict.get w.peers s ≡ some p
          → (t == "pong") ≡ false
          → c.liveness_checker ≡ none
          → reply env c.peer t ≡ o
          → (v.peers ≡ w.peers) × (v.conns ≡ answered s c t o)
      of_alive c p none e f n l a = (ground (arith, e, n, l, a), ground (arith, e, n, l, a))
      of_alive c p (some r) e f n l a = (ground (arith, e, n, l, a), ground (arith, e, n, l, a))

      of_first :
          (c : Conn) (p q : Peer) (o : Option Json)
          → Dict.get w.conns s ≡ some c
          → Dict.get w.peers q.socket ≡ some p
          → (t == "pong") ≡ false
          → c.liveness_checker ≡ some q
          → reply env c.peer t ≡ o
          → (v.peers ≡ Dict.insert w.peers q.socket (record p { alive = true }))
            × (v.conns ≡ answered s c t o)
      of_first c p q none e f n l a = (ground (arith, e, f, n, l, a), ground (arith, e, f, n, l, a))
      of_first c p q (some r) e f n l a =
          (ground (arith, e, f, n, l, a), ground (arith, e, f, n, l, a))

      of_checker :
          (c : Conn) (p : Peer) (o : Option Peer)
          → Dict.get w.conns s ≡ some c
          → Dict.get w.peers s ≡ some p
          → (t == "pong") ≡ false
          → c.liveness_checker ≡ o
          → Tended s (some p) (some c)
          → Goes k (text s t) v
      of_checker c p none e f n l (i, u, h) =
          let (x, y) = of_alive c p (reply env c.peer t) e f n l refl in
          let awake : p.alive ≡ true = ground (arith, l, h) in
          answered-Goes s k t c p (reply env c.peer t) v e f i u n refl
            (ground (
              arith,
              x,
              f,
              awake,
              nat_same_iff s k,
              Dict.get-insert w.peers s k (record p { alive = true }),
            ))
            y (Bool-cases (s == k))
      of_checker c p (some q) e f n l (i, u, h) =
          let j : q.socket ≡ s = ground (arith, l, h) in
          let (x, y) = of_first c p q (reply env c.peer t) e (rw j f) n l refl in
          answered-Goes s k t c p (reply env c.peer t) v e f i u n refl
            (ap (λ (d : Dict ℕ Peer). Dict.get d k) x
              ∙ ap (λ (z : ℕ). Dict.get (Dict.insert w.peers z (record p { alive = true })) k) j)
            y (Bool-cases (s == k))

      of_task :
          (o : Option Conn)
          → Dict.get w.conns s ≡ o
          → ((t == "pong") ≡ true) ⊎ ((t == "pong") ≡ false)
          → Goes k (text s t) v
      of_task none e (inr n) =
          stays k (text s t) v (ground (arith, e)) (ground (arith, e))
            (rw n (keeps_idle (spoken env t) s k (speaks_idle t) e))
      of_task none e (inl pong) =
          stays k (text s t) v (ground (arith, e)) (ground (arith, e)) (ground (arith, pong))
      of_task (some c) e (inl pong) =
          stays k (text s t) v (ground (arith, e, pong)) (ground (arith, e, pong))
            (ground (arith, pong))
      of_task (some c) e (inr n) =
          let (p, found, h) = task s c e in of_checker c p c.liveness_checker e found n refl h

  other_frame-Goes : (s k : ℕ) → Goes k (other_frame s) (step env (other_frame s) w)
  unfolding step
  other_frame-Goes s k = (tended k, refl)

  step-Goes : (event : Event) (k : ℕ) → Goes k event (step env event w)
  step-Goes (accepts s params) k = accepts-Goes s k params
  step-Goes (text s t) k = text-Goes s k t
  step-Goes (other_frame s) k = other_frame-Goes s k
  step-Goes (channel s) k = channel-Goes s k
  step-Goes (tick s) k = tick-Goes s k
  step-Goes (ends s) k = ends-Goes s k
  step-Goes (broadcasts m) k = broadcasts-Goes m k

run-Goes :
    {Request : Type 0} (env : Env Request) (events : List Event) (w : World)
    → IsTended w
    → (k : ℕ)
    → Stays k
        (life env k events (at (Dict.get w.peers k) (Dict.get w.conns k)))
        (Dict.get (run env events w).peers k)
        (Dict.get (run env events w).conns k)
unfolding run
run-Goes env [] w h k = (h k, refl)
run-Goes env (event ∷ events) w h k =
    let (t, e) = run-Goes env events (step env event w) (λ j. (step-Goes env w h event j).0) k in
    (t, e ∙ ap (life env k events) (step-Goes env w h event k).1)

-- Whatever happens, the tables of peers and tasks have at each socket what the history of that socket says: a
-- peer and its task from the accepted connection to the end of the task, and the peer is alive once a text
-- other than "pong" has come. A text at which the RPC panics ends the task and leaves the peer, until a
-- connection is accepted at the socket again. No task is without a peer, so that none panics for want of it.
pub run-life :
    {Request : Type 0} (env : Env Request) (events : List Event) (k : ℕ)
    → Stays k
        (life env k events none)
        (Dict.get (run env events no_peers).peers k)
        (Dict.get (run env events no_peers).conns k)
unfolding Dict.get
run-life env events k = run-Goes env events no_peers (λ j. tt) k
