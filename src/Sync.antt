-- ===== src/Sync.antt =====
-- crates/sync/src/lib.rs and worker.rs: the worker that keeps a task for each tracked pair of an address
-- and a chain. A task is its place in the list of all tasks that were spawned.
pub mod Alchemy
pub mod Spawning
pub mod Pairs
mod Tests
use ethui.Common.{
  ℕ, Bool, not, Option, none, some, List, [], ◌∷◌, ◌++◌, map, any, filter, length, ◌==◌, nat_Same,
  pair_Same, if◌then◌else◌,
}
use ethui.Common.Dict
use ethui.Common.Dict.{Dict}
use ethui.Common.Exec.{Result, ok, err, panic}
use ethui.Types.{Address, Network, chain_id}
use ethui.Broadcast.{
  Message, address_added, address_removed, current_address_changed, network_added, network_removed,
  network_selected, ui_notify, balances_updated,
}
use ethui.Sync.Alchemy.{supports_network}

pub data Msg : Type 0 where
  fetch_full_tx_sync : ℕ → ℕ → Msg
  track_address untrack_address : Address → Msg
  track_network untrack_network : ℕ → Msg
  poll_address : Address → Msg
  poll_network : ℕ → Msg

-- `Msg::try_from`. The broadcasts of a transaction's fetch are not among the modelled messages.
unfoldable pub try_from : Message → Option Msg
try_from (address_added addr) = some (track_address addr)
try_from (address_removed addr) = some (untrack_address addr)
try_from (current_address_changed addr) = some (poll_address addr)
try_from (network_added network) = some (track_network (chain_id network))
try_from (network_removed network) = some (untrack_network (chain_id network))
try_from (network_selected network) = some (poll_network (chain_id network))
try_from _ = none

-- `Worker`, with what it has caused: the tasks spawned for pairs, the tasks that were asked to poll, the
-- transactions and the tokens that it has had fetched, and the messages sent.
pub record Worker : Type 0 where
  pub addresses : List Address
  pub chain_ids : List ℕ
  pub current : Option Address × Option ℕ
  pub workers : Dict (Address × ℕ) ℕ
  pub tasks : List (Address × ℕ)
  pub polled : List ℕ
  pub fetched_txs : List (ℕ × ℕ)
  pub fetched_tokens : List (ℕ × Address)
  pub sent : List Message

abbrev pub new_worker : Worker
new_worker = record {
  addresses = [];
  chain_ids = [];
  current = (none, none);
  workers = [];
  tasks = [];
  polled = [];
  fetched_txs = [];
  fetched_tokens = [];
  sent = [];
}

-- `HashSet` of numbers: membership, `insert` and `remove`.
abbrev pub member : ℕ → List ℕ → Bool
member x xs = any (λ y. y == x) xs

abbrev pub set_insert : ℕ → List ℕ → List ℕ
set_insert x xs = if member x xs then xs else xs ++ x ∷ []

abbrev pub set_remove : ℕ → List ℕ → List ℕ
set_remove x xs = filter (λ y. not (y == x)) xs

-- `spawn` and the insertion of the task, whose older one of the same pair is dropped, not stopped.
unfoldable pub spawn : Address × ℕ → Worker → Worker
spawn pair w = record w {
  workers = Dict.insert w.workers pair (length w.tasks);
  tasks = w.tasks ++ pair ∷ [];
}

unfoldable pub spawn_all : List (Address × ℕ) → Worker → Worker
spawn_all [] w = w
spawn_all (pair ∷ pairs) w = spawn_all pairs (spawn pair w)

unfoldable pub track_addr : Address → Worker → Worker
track_addr addr w =
    spawn_all (map (λ c. (addr, c)) w.chain_ids)
      (record w { addresses = set_insert addr w.addresses })

unfoldable pub untrack_addr : Address → Worker → Worker
untrack_addr addr w = record w {
  addresses = set_remove addr w.addresses;
  workers = filter (λ e. not (e.0.0 == addr)) w.workers;
}

unfoldable pub track_chain : ℕ → Worker → Worker
track_chain c w =
    if supports_network c
    then spawn_all (map (λ a. (a, c)) w.addresses)
        (record w { chain_ids = set_insert c w.chain_ids })
    else w

unfoldable pub untrack_chain : ℕ → Worker → Worker
untrack_chain c w = record w {
  chain_ids = set_remove c w.chain_ids;
  workers = filter (λ e. not (e.0.1 == c)) w.workers;
}

-- The task of a pair, if it has one, is asked to poll.
unfoldable pub poll_pair : Option Address → Option ℕ → Worker → Worker
poll_pair (some a) (some c) w = elim (Dict.get w.workers (a, c)) [
  | none ↦ w
  | some task ↦ record w { polled = w.polled ++ task ∷ [] }
]
poll_pair _ _ w = w

abbrev poll_current : Worker → Worker
poll_current w = poll_pair w.current.0 w.current.1 w

unfoldable pub prioritize_addr : Address → Worker → Worker
prioritize_addr addr w = poll_current (record w { current = (some addr, w.current.1) })

unfoldable pub prioritize_network : ℕ → Worker → Worker
prioritize_network c w =
    if supports_network c then poll_current (record w { current = (w.current.0, some c) }) else w

-- `fetch_full_tx_sync`, up to the task that it spawns.
unfoldable pub fetch_full_tx : ℕ → ℕ → Worker → Worker
fetch_full_tx c hash w =
    if supports_network c then record w { fetched_txs = w.fetched_txs ++ (c, hash) ∷ [] } else w

-- `update_erc20_metadata`: `missing` is what the database answers for a chain.
unfoldable pub update_chains : (ℕ → Result (List Address)) → List ℕ → Worker → Worker
update_chains missing [] w = w
update_chains missing (c ∷ cs) w =
    update_chains missing cs (if supports_network c then notified (asked (missing c)) else w)
  where
    asked : Result (List Address) → Worker
    asked (ok tokens) = record w { fetched_tokens = w.fetched_tokens ++ map (λ a. (c, a)) tokens }
    asked _ = w

    notified : Worker → Worker
    notified v = record v { sent = v.sent ++ ui_notify balances_updated ∷ [] }

unfoldable pub update_erc20_metadata : (ℕ → Result (List Address)) → Worker → Worker
update_erc20_metadata missing w = update_chains missing w.chain_ids w

unfoldable pub receive : Msg → Worker → Worker
receive (track_address addr) w = track_addr addr w
receive (untrack_address addr) w = untrack_addr addr w
receive (track_network c) w = track_chain c w
receive (untrack_network c) w = untrack_chain c w
receive (poll_address addr) w = prioritize_addr addr w
receive (poll_network c) w = prioritize_network c w
receive (fetch_full_tx_sync c hash) w = fetch_full_tx c hash w

-- `Worker::run`, on the messages so far; the database can answer each of them differently.
unfoldable pub run : List (Msg × (ℕ → Result (List Address))) → Worker → Worker
run [] w = w
run ((msg, missing) ∷ rest) w = run rest (update_erc20_metadata missing (receive msg w))
