-- ===== src/Devnet/Tests.antt =====
-- crates/sync/devnet: the theorems at a node with two blocks.
use ethui.Common.{
  ℕ, ◌≡◌, refl, true, false, Option, none, some, List, [], ◌∷◌, ◌++◌, ◌==◌, map, arith, All,
  if◌then◌else◌, nat_Same,
}
use ethui.Common.Dict
use ethui.Types.{Address, anvil, id_Same, Node}
use ethui.Broadcast.{Message, network_added, network_removed}
use ethui.Devnet
use ethui.Devnet.{
  Hash, Header, SyncInfo, Msg, reset, block, Event, tick, next, quit, silence, run_loop, start,
  Turn, unavailable, available, wait, backfill_http, backfill_ws, backfill_blocks, Provider,
}
use ethui.Devnet.Backoff.{backfill_blocks-InRange, InRange, Elem}
use ethui.Devnet.Order.{IsQuiet, plan, run_loop-start_complete}
use ethui.Devnet.Watching
use ethui.Devnet.Watching.{last_said, run-last_said}
use ethui.Devnet.Consumer.{World, Row, consume}
use ethui.Devnet.Following.{Works, env_of, completed, followed, run_loop-consume}

abbrev first : Header
first = record { hash = 101; number = 1 }

abbrev second : Header
second = record { hash = 102; number = 2 }

abbrev by_number : ℕ → Option Header
by_number n = if n == 1 then some first else if n == 2 then some second else none

abbrev info : SyncInfo
info = record { number = 2; hash = 102; fork_block_number = none }

abbrev node : Devnet.Node
node h = some true

abbrev events : List Event
events = next node ∷ tick node ∷ next node ∷ silence ∷ next node ∷ []

abbrev quiet : All IsQuiet events
quiet = ((λ h. refl), ((λ h. refl), ((λ h. refl), (tt, ((λ h. refl), tt)))))

backfill_blocks-InRange_example :
    All (InRange by_number info) (backfill_blocks Provider.http by_number info)
    × ((h : Header)
        → InRange by_number info h
        → Elem h (backfill_blocks Provider.http by_number info))
backfill_blocks-InRange_example = backfill_blocks-InRange Provider.http by_number info

run_loop-start_complete_example :
    run_loop events (start (first ∷ []) (second ∷ [])) ≡ plan (first ∷ []) (second ∷ [])
run_loop-start_complete_example =
    run_loop-start_complete (first ∷ []) (second ∷ []) events quiet (omega arith)

-- A database that keeps the events and the tokens with metadata, of which one is without.
abbrev good : Works (List Row × List Address)
good = record {
  traces = λ n. "trace" ∷ [];
  logs = λ h. "log" ∷ [];
  truncated = λ d. ([], []);
  with_events = λ rows d. (d.0 ++ rows, d.1);
  missing = λ d. elim d.1 [ [] ↦ 7 ∷ [] | a ∷ more ↦ [] ];
  with_metadata = λ a d. (d.0, d.1 ++ a ∷ []);
}

abbrev world : World (List Row × List Address)
world = record { caught_up = false; database = ("stale" ∷ [], []); sent = [] }

run_loop-consume_example :
    (consume
      (map (λ m. (env_of good, m)) (run_loop events (start (first ∷ []) (second ∷ []))))
      world).database
    ≡ followed good
        (second ∷ [])
        (completed good (followed good (first ∷ []) (completed good ([], []))))
run_loop-consume_example =
    run_loop-consume good (first ∷ []) (second ∷ []) events world quiet (omega arith)

abbrev dev_node : Node
dev_node = record { connects = λ n. true; has_metadata = λ n. false }

-- A network is added, another of the same id too, and the first is removed.
abbrev messages : List (Node × Message)
messages =
    (dev_node, network_added (anvil 0))
    ∷ (dev_node, network_added (record (anvil 0) { name = "Fork" }))
    ∷ (dev_node, network_removed (anvil 0))
    ∷ []

run-last_said_example :
    Dict.get (Watching.run messages []) (anvil 0).id ≡ last_said (anvil 0).id messages none
run-last_said_example = run-last_said messages (anvil 0).id
