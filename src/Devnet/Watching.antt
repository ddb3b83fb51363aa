-- ===== src/Devnet/Watching.antt =====
-- crates/sync/devnet/src: the table of workers (tracker/mod.rs) and the receiver that starts and stops
-- them (init.rs). A worker is the network that it follows: its task ends with its entry.
use ethui.Common.{
  ◌≡◌, refl, ap, ◌∙◌, Bool, false, Option, none, some, List, [], ◌∷◌, ◌==◌, arith, if◌then◌else◌,
  same_refl,
}
use ethui.Common.Dict
use ethui.Common.Dict.{Dict, get-insert, get-remove, contains_key-get}
use ethui.Common.Exec.{Result, ok, err}
use ethui.Types.{NetworkId, id_Same, Network, Node, is_dev}
use ethui.Broadcast.{Message, network_added, network_updated, network_removed}

abbrev pub Workers : Type 0
Workers = Dict NetworkId Network

unfoldable pub watch : Network → Workers → Workers
watch n w = if Dict.contains_key w n.id then w else Dict.insert w n.id n

unfoldable pub unwatch : Network → Workers → Workers
unwatch n w = Dict.remove w n.id

-- `Ok(true) = network.is_dev().await`
abbrev pub is_known_dev : Node → Network → Bool
is_known_dev node n = elim (is_dev node n) [ ok b ↦ b | err e ↦ false | Result.panic ↦ false ]

abbrev restart_if_dev : Node → Network → Workers → Workers
restart_if_dev node n w = if is_known_dev node n then watch n (unwatch n w) else w

unfoldable pub receive : Node → Message → Workers → Workers
unfolding watch unwatch
receive node (network_removed n) w = unwatch n w
receive node (network_added n) w = restart_if_dev node n w
receive node (network_updated n) w = restart_if_dev node n w
receive node _ w = w

unfoldable pub run : List (Node × Message) → Workers → Workers
run [] w = w
run ((node, msg) ∷ rest) w = run rest (receive node msg w)

-- What one message says of an id: another network to follow, none, or nothing.
abbrev said : NetworkId → Node → Message → Option Network → Option Network
said i node (network_removed n) before = if n.id == i then none else before
said i node (network_added n) before =
    if n.id == i then (if is_known_dev node n then some n else before) else before
said i node (network_updated n) before =
    if n.id == i then (if is_known_dev node n then some n else before) else before
said i node _ before = before

-- What the messages say of an id, the last of them that says something.
abbrev pub last_said : NetworkId → List (Node × Message) → Option Network → Option Network
last_said i [] before = before
last_said i ((node, msg) ∷ rest) before = last_said i rest (said i node msg before)

get-restart :
    (i : NetworkId) (node : Node) (n : Network) (w : Workers)
    → Dict.get (restart_if_dev node n w) i
      ≡ (if n.id == i then (if is_known_dev node n then some n else Dict.get w i) else Dict.get w i)
unfolding watch unwatch
get-restart i node n w = ground (
  arith,
  get-remove w n.id n.id,
  get-remove w n.id i,
  get-insert (Dict.remove w n.id) n.id i n,
  contains_key-get (Dict.remove w n.id) n.id,
  same_refl n.id,
)

get-receive :
    (i : NetworkId) (node : Node) (msg : Message) (w : Workers)
    → Dict.get (receive node msg w) i ≡ said i node msg (Dict.get w i)
unfolding receive unwatch
get-receive i node (network_removed n) w = get-remove w n.id i
get-receive i node (network_added n) w = get-restart i node n w
get-receive i node (network_updated n) w = get-restart i node n w
get-receive i node _ w = refl

get-run :
    (i : NetworkId) (messages : List (Node × Message)) (w : Workers)
    → Dict.get (run messages w) i ≡ last_said i messages (Dict.get w i)
unfolding run
get-run i [] w = refl
get-run i ((node, msg) ∷ rest) w =
    get-run i rest (receive node msg w) ∙ ap (last_said i rest) (get-receive i node msg w)

-- Whatever messages come, an id is followed exactly as the last message that concerns it says: with the
-- data of the development network that was added or updated last, and not at all after a removal.
pub run-last_said :
    (messages : List (Node × Message)) (i : NetworkId)
    → Dict.get (run messages []) i ≡ last_said i messages none
unfolding Dict.get
run-last_said messages i = get-run i messages []
