-- ===== src/Devnet.antt =====
-- crates/sync/devnet/src/tracker: the worker of a development network (worker.rs, http.rs, ws.rs,
-- utils.rs), which follows the blocks of a node. The node is a parameter of each step.
pub mod Consumer
pub mod Watching
pub mod Order
pub mod Backoff
pub mod Following
mod Tests
use ethui.Common.{
  ℕ, zero, suc, ◌+◌, ◌-◌, ◌*◌, ◌%◌, ◌/◌, ◌^◌, min, Bool, true, false, not, Option, none, some, List,
  [], ◌∷◌, ◌++◌, map, ltb, leb, if◌then◌else◌,
}
use ethui.Types.{Network}

abbrev pub Hash : Type 0
Hash = ℕ

pub record SyncInfo : Type 0 where
  pub number : ℕ
  pub hash : Hash
  pub fork_block_number : Option ℕ

pub record Header : Type 0 where
  pub hash : Hash
  pub number : ℕ

pub data Msg : Type 0 where
  reset caught_up : Msg
  block : Hash → ℕ → Msg

abbrev pub of_header : Header → Msg
of_header h = block h.hash h.number

-- The delay before a retry, in milliseconds, and its jitter: a hash, modulo a quarter of the delay.
unfoldable pub delay : ℕ → ℕ
delay retry_count = 100 * (2 ^ min retry_count 6)

unfoldable pub random_jitter : ℕ → ℕ → ℕ
random_jitter hash max_jitter = hash % max_jitter

-- One turn of `wait`: the quit signal, an answer of the node, or none; the last is followed by a pause,
-- whose jitter comes from a hash and which the quit signal may end.
pub data Turn : Type 0 where
  quit_first : Turn
  available : SyncInfo → Turn
  unavailable : (hash : ℕ) → (quit_in_pause : Bool) → Turn

-- How `wait` ends, if it does, and the pauses that it made.
pub data Waited : Type 0 where
  synced : SyncInfo → Waited
  quitted waiting : Waited

unfoldable pub wait : ℕ → List Turn → Waited × List ℕ
unfolding delay random_jitter
wait retry_count [] = (waiting, [])
wait retry_count (quit_first ∷ turns) = (quitted, [])
wait retry_count (available info ∷ turns) = (synced info, [])
wait retry_count (unavailable hash quit_in_pause ∷ turns) =
    let n = retry_count + 1 in
    let pause = delay n + random_jitter hash (delay n / 4) in
    let (end, pauses) = wait n turns in
    if quit_in_pause then (quitted, pause ∷ []) else (end, pause ∷ pauses)

-- The numbers from `start` on, so many of them.
abbrev pub numbers : ℕ → ℕ → List ℕ
numbers start zero = []
numbers start (suc count) = start ∷ numbers (start + 1) count

abbrev pub start_block : SyncInfo → ℕ
start_block info = elim info.fork_block_number [ none ↦ 1 | some fb ↦ fb + 1 ]

-- The blocks that the node has, of these numbers.
abbrev pub blocks : (ℕ → Option Header) → List ℕ → List Header
blocks by_number [] = []
blocks by_number (n ∷ ns) = elim (by_number n) [
  | none ↦ blocks by_number ns
  | some h ↦ h ∷ blocks by_number ns
]

-- `start..=end` is empty where the end comes first.
abbrev pub range : ℕ → ℕ → List ℕ
range start end = numbers start ((end + 1) - start)

-- `AnvilHttp::backfill_blocks`
unfoldable pub backfill_http : (ℕ → Option Header) → SyncInfo → List Header
backfill_http by_number info =
    if ltb info.number (start_block info)
    then []
    else blocks by_number (range (start_block info) info.number)

-- `AnvilWs::backfill_blocks`
unfoldable pub backfill_ws : (ℕ → Option Header) → SyncInfo → List Header
backfill_ws by_number info = blocks by_number (range (start_block info) info.number)

-- `AnvilProviderType`
pub data Provider : Type 0 where
  http ws : Provider

unfoldable pub create_worker : Network → Provider
create_worker network = elim network.ws_url [ none ↦ http | some url ↦ ws ]

unfoldable pub backfill_blocks : Provider → (ℕ → Option Header) → SyncInfo → List Header
unfolding backfill_http backfill_ws
backfill_blocks http by_number info = backfill_http by_number info
backfill_blocks ws by_number info = backfill_ws by_number info

-- Whether the node has a block with the hash; nothing where the request fails.
abbrev pub Node : Type 0
Node = Hash → Option Bool

-- `validate_checkpoint`, by whether it succeeds.
unfoldable pub validate_checkpoint : Node → Option Hash → Bool
validate_checkpoint node none = true
validate_checkpoint node (some h) = elim (node h) [ none ↦ false | some known ↦ known ]

-- The loop of `run_once`: the checkpoint, the stream that is left (the headers of the backfill, the caught
-- up message, and the headers that the subscription gives until it ends), and what was sent to the
-- consumer.
pub record Loop : Type 0 where
  pub checkpoint : Option Hash
  pub backfill : List Header
  pub catching_up : Bool
  pub live : List Header
  pub sent : List Msg

-- What `select!` takes: the quit signal, a tick of the interval, the next item of the stream, or nothing
-- for three seconds.
pub data Event : Type 0 where
  quit : Event
  tick next : Node → Event
  silence : Event

pub data Next : Type 0 where
  go_on stop restart : Loop → Next

-- A header moves the checkpoint if the last one is still known.
abbrev pub take_header : Node → Header → Loop → Next
take_header node h l =
    if validate_checkpoint node l.checkpoint
    then go_on (record l { checkpoint = some h.hash; sent = l.sent ++ of_header h ∷ [] })
    else restart l

abbrev pub take_live : Node → List Header → Loop → Next
take_live node [] l = restart l
take_live node (h ∷ hs) l = take_header node h (record l { live = hs })

abbrev pub take_item : Node → List Header → Loop → Next
take_item node (h ∷ hs) l = take_header node h (record l { backfill = hs })
take_item node [] l =
    if l.catching_up
    then go_on (record l { catching_up = false; sent = l.sent ++ caught_up ∷ [] })
    else take_live node l.live l

unfoldable pub step : Event → Loop → Next
unfolding validate_checkpoint
step quit l = stop l
step (tick node) l = if validate_checkpoint node l.checkpoint then go_on l else restart l
step (next node) l = take_item node l.backfill l
step silence l = go_on l

-- What is sent when the loop ends, or so far.
unfoldable pub run_loop : List Event → Loop → List Msg
run_loop [] l = l.sent
run_loop (event ∷ events) l = elim (step event l) [
  | go_on v ↦ run_loop events v
  | stop v ↦ v.sent
  | restart v ↦ v.sent
]

-- The loop as `run_once` enters it, after the reset message.
abbrev pub start : List Header → List Header → Loop
start headers live = record {
  checkpoint = none;
  backfill = headers;
  catching_up = true;
  live = live;
  sent = reset ∷ [];
}
