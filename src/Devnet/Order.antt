-- ===== src/Devnet/Order.antt =====
-- crates/sync/devnet/src/tracker/worker.rs: in which order a run sends the blocks.
use ethui.Common.{
  ℕ, ◌+◌, ◌≤◌, ◌≡◌, refl, sym, ◌∙◌, Bool, true, false, Option, none, some, List, [], ◌∷◌, ◌++◌, map,
  length, arith, if◌then◌else◌, All,
}
use mathlib.Core.List.{append_assoc, append-nil}
use ethui.Devnet.{
  Header, Hash, Msg, reset, caught_up, of_header, Node, validate_checkpoint, Loop, Event, quit,
  tick, next, silence, Next, go_on, stop, restart, step, run_loop, start,
}

abbrev pub IsPrefix : List Msg → List Msg → Type 0
IsPrefix xs ys = (rest : List Msg) × (ys ≡ xs ++ rest)

-- What is left to send.
abbrev remaining : Loop → List Msg
remaining l =
    map of_header l.backfill
    ++ ((if l.catching_up then caught_up ∷ [] else []) ++ map of_header l.live)

-- What a run has to send, in this order.
abbrev pub plan : List Header → List Header → List Msg
plan headers live = reset ∷ (map of_header headers ++ caught_up ∷ map of_header live)

-- A step that goes on has sent the first of what was left, or nothing; one that ends has sent nothing.
abbrev Follows : Loop → Next → Type 0
Follows l (go_on v) = l.sent ++ remaining l ≡ v.sent ++ remaining v
Follows l (stop v) = v.sent ≡ l.sent
Follows l (restart v) = v.sent ≡ l.sent

next-Follows :
    (node : Node) (checkpoint : Option Hash) (headers : List Header) (catching_up : Bool)
    (live : List Header) (sent : List Msg)
    → let l : Loop = record {
      checkpoint = checkpoint;
      backfill = headers;
      catching_up = catching_up;
      live = live;
      sent = sent;
    } in
      Follows l (step (next node) l)
unfolding step
next-Follows node checkpoint (h ∷ hs) catching_up live sent =
    let rest =
      map of_header hs ++ ((if catching_up then caught_up ∷ [] else []) ++ map of_header live) in
    ground (arith, append_assoc sent (of_header h ∷ []) rest)
next-Follows node checkpoint [] true live sent =
    ground (arith, append_assoc sent (caught_up ∷ []) (map of_header live))
next-Follows node checkpoint [] false [] sent = refl
next-Follows node checkpoint [] false (h ∷ hs) sent =
    ground (arith, append_assoc sent (of_header h ∷ []) (map of_header hs))

step-Follows : (event : Event) (l : Loop) → Follows l (step event l)
unfolding step
step-Follows quit l = refl
step-Follows (tick node) l = ground arith
step-Follows silence l = refl
step-Follows (next node) l = next-Follows node l.checkpoint l.backfill l.catching_up l.live l.sent

run_loop-IsPrefix :
    (events : List Event) (l : Loop) → IsPrefix (run_loop events l) (l.sent ++ remaining l)
unfolding run_loop
run_loop-IsPrefix [] l = (remaining l, refl)
run_loop-IsPrefix (event ∷ events) l =
    split (run_loop-IsPrefix events) (step event l) (step-Follows event l)
  where
    split :
        ((v : Loop) → IsPrefix (run_loop events v) (v.sent ++ remaining v))
        → (n : Next) → Follows l n
        → IsPrefix
            (elim n [ go_on v ↦ run_loop events v | stop v ↦ v.sent | restart v ↦ v.sent ])
            (l.sent ++ remaining l)
    split later (go_on v) e = rw e (later v)
    split later (stop v) e = (remaining l, rw e refl)
    split later (restart v) e = (remaining l, rw e refl)

-- Whatever happens in a run, it has sent an initial part of this: the reset, the blocks of the backfill
-- in order, the caught up message, and then the live blocks in order.
pub run_loop-start_ordered :
    (headers live : List Header) (events : List Event)
    → IsPrefix (run_loop events (start headers live)) (plan headers live)
run_loop-start_ordered headers live events = run_loop-IsPrefix events (start headers live)

-- The node knows every block, and no quit signal comes.
abbrev pub IsQuiet : Event → Type 0
IsQuiet quit = ⊥
IsQuiet (tick node) = (h : Hash) → node h ≡ some true
IsQuiet (next node) = (h : Hash) → node h ≡ some true
IsQuiet silence = Unit

abbrev pub items_taken : List Event → ℕ
items_taken [] = 0
items_taken (next node ∷ events) = 1 + items_taken events
items_taken (event ∷ events) = items_taken events

abbrev items_left : Loop → ℕ
items_left l = length (remaining l)

known :
    (node : Node) (checkpoint : Option Hash)
    → ((h : Hash) → node h ≡ some true)
    → validate_checkpoint node checkpoint ≡ true
unfolding validate_checkpoint
known node none k = refl
known node (some h) k = ground (arith, k h)

-- A quiet step goes on, and with one item fewer where it takes one; only at the end of the stream does
-- the run end.
abbrev GoesOn : Loop → Event → Next → Type 0
GoesOn l event (go_on v) =
    (l.sent ++ remaining l ≡ v.sent ++ remaining v)
    × (items_left v + items_taken (event ∷ []) ≤ items_left l)
GoesOn l event (stop v) = ⊥
GoesOn l event (restart v) = (remaining l ≡ []) × (v.sent ≡ l.sent)

next-GoesOn :
    (node : Node) (checkpoint : Option Hash) (headers : List Header) (catching_up : Bool)
    (live : List Header) (sent : List Msg)
    → ((h : Hash) → node h ≡ some true)
    → let l : Loop = record {
      checkpoint = checkpoint;
      backfill = headers;
      catching_up = catching_up;
      live = live;
      sent = sent;
    } in
      GoesOn l (next node) (step (next node) l)
unfolding step
next-GoesOn node checkpoint (h ∷ hs) catching_up live sent k =
    let rest =
      map of_header hs ++ ((if catching_up then caught_up ∷ [] else []) ++ map of_header live) in
    ground (arith, known node checkpoint k, append_assoc sent (of_header h ∷ []) rest)
next-GoesOn node checkpoint [] true live sent k =
    ground (arith, append_assoc sent (caught_up ∷ []) (map of_header live))
next-GoesOn node checkpoint [] false [] sent k = (refl, refl)
next-GoesOn node checkpoint [] false (h ∷ hs) sent k =
    ground (arith, known node checkpoint k, append_assoc sent (of_header h ∷ []) (map of_header hs))

step-GoesOn : (event : Event) (l : Loop) → IsQuiet event → GoesOn l event (step event l)
unfolding step
step-GoesOn quit l q = q
step-GoesOn (tick node) l q = ground (arith, known node l.checkpoint q)
step-GoesOn silence l q = (refl, omega arith)
step-GoesOn (next node) l q = next-GoesOn node l.checkpoint l.backfill l.catching_up l.live l.sent q

nothing_left : (xs ys : List Msg) → length ys ≤ 0 → xs ≡ xs ++ ys
nothing_left xs [] h = sym (append-nil xs)
nothing_left xs (y ∷ ys) h = absurd (ground (arith, h))

items_taken-event :
    (event : Event) (events : List Event)
    → items_taken (event ∷ events) ≡ items_taken (event ∷ []) + items_taken events
items_taken-event quit events = omega arith
items_taken-event (tick node) events = omega arith
items_taken-event (next node) events = omega arith
items_taken-event silence events = omega arith

run_loop-sends :
    (events : List Event) (l : Loop)
    → All IsQuiet events
    → items_left l ≤ items_taken events
    → run_loop events l ≡ l.sent ++ remaining l
unfolding run_loop
run_loop-sends [] l q h = nothing_left l.sent (remaining l) h
run_loop-sends (event ∷ events) l q h =
    split (λ v. run_loop-sends events v q.1) (step event l) (step-GoesOn event l q.0)
  where
    split :
        ((v : Loop) → items_left v ≤ items_taken events → run_loop events v ≡ v.sent ++ remaining v)
        → (n : Next) → GoesOn l event n
        → elim n [ go_on v ↦ run_loop events v | stop v ↦ v.sent | restart v ↦ v.sent ]
          ≡ l.sent ++ remaining l
    split later (go_on v) g =
        later v (omega (arith, h, g.1, items_taken-event event events)) ∙ sym g.0
    split later (stop v) g = absurd g
    split later (restart v) g =
        g.1 ∙ nothing_left l.sent (remaining l) (rw (g.0, length) (omega arith))

length-blocks : (live : List Header) → length (map of_header live) ≡ length live
length-blocks [] = refl
length-blocks (h ∷ hs) = omega (arith, length-blocks hs)

items_left-start :
    (headers live : List Header)
    → items_left (start headers live) ≡ length headers + 1 + length live
items_left-start [] live = omega (arith, length-blocks live)
items_left-start (h ∷ hs) live = omega (arith, items_left-start hs live)

-- If no quit signal comes, the node always knows every block, and the items of the stream are asked for
-- as often as there are any, then everything is sent: the reset, the blocks of the backfill, the caught
-- up message and the live blocks.
pub run_loop-start_complete :
    (headers live : List Header) (events : List Event)
    → All IsQuiet events
    → length headers + 1 + length live ≤ items_taken events
    → run_loop events (start headers live) ≡ plan headers live
run_loop-start_complete headers live events q h =
    run_loop-sends events (start headers live) q (omega (arith, h, items_left-start headers live))
