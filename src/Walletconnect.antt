-- ===== src/Walletconnect.antt =====
-- crates/walletconnect: the sessions (store.rs), the envelopes (crypto.rs), the pairings (pairing.rs) and
-- what is published. The ciphers, the relay, the URL parser and the JSON printer are parameters.
pub mod Bodies
pub mod Proposals
pub mod Requests
pub mod Dispatch
pub mod Serving
pub mod Methods
pub mod Proposing
pub mod Envelopes
mod Tests
use ethui.Common.{
  ℕ, zero, suc, ◌+◌, ◌%◌, String, Bool, true, false, not, Option, none, some, List, [], ◌∷◌, ◌++◌,
  ◌==◌, nat_Same, text_Same, any, filter, take, drop, length, leb, ltb, first?, if◌then◌else◌,
  starts_with, append,
}
use ethui.Common.Dict
use ethui.Common.Dict.{Dict}
use ethui.Common.Exec.{Exec, Result, ok, err, ◌>>=◌, ◌>>◌, pure, raise, gets, modify}
use ethui.Common.Json.{Json}
use ethui.Common.Radix.{Text, u64_mod}
use ethui.Types.{Address}
use ethui.Broadcast.{Message}

abbrev pub Topic : Type 0
Topic = String

-- A symmetric key of 32 bytes.
abbrev pub Key : Type 0
Key = List ℕ

pub record DappMetadata : Type 0 where
  pub name : String
  pub url : String
  pub icons : List String

pub record Session : Type 0 where
  pub topic : Topic
  pub sym_key : Key
  pub peer : DappMetadata
  pub allowed_methods : List String
  pub chains : List String
  pub address : Address
  pub expiry : ℕ

-- One message on the relay, before its encryption.
pub record Envelope : Type 0 where
  pub topic : Topic
  pub key : Key
  pub body : Json
  pub tag : ℕ
  pub ttl_secs : ℕ
  pub prompt : Bool

-- The tasks that `dispatch` spawns.
pub data Task : Type 0 where
  proposal : Topic → Key → Json → Task
  request : Topic → Key → Json → Task
  ping : Topic → Key → Json → Task
  deletion : Topic → Task

-- The statics of the crate, with what it has caused: the envelopes published, the topics subscribed to,
-- the messages sent, the requests given to a session's handler, the tasks that have not run yet, and the
-- pairings whose proposal's task has panicked. A handler is the domain that it was made for.
pub record World : Type 0 where
  pub pairings : Dict Topic Key
  pub in_flight : List Topic
  pub sessions : Dict Topic Session
  pub handlers : Dict Topic (Option String)
  pub next_id : ℕ
  pub published : List Envelope
  pub subscribed : List Topic
  pub sent : List Message
  pub calls : List (Topic × String)
  pub pending : List Task
  pub panicked : List Topic

-- What the URL parser gives.
pub record ParsedUrl : Type 0 where
  pub username : String
  pub host : Option String
  pub query_pairs : List (String × String)

-- What the crate calls, and what the user answers to a dialog: nothing where it cannot be opened, and
-- otherwise what is received, which is nothing where the dialog is closed. The address of the current wallet
-- is nothing where asking for it panics.
pub record Env : Type 0 where
  pub decode : String → Option Text
  pub decode_url_safe : String → Option Text
  pub open_box : Key → Text → Text → Option Text
  pub parse_json : Text → Option Json
  pub initialised : Bool
  pub can_encrypt : Key → Json → Bool
  pub can_publish : Envelope → Bool
  pub can_subscribe : Topic → Bool
  pub can_unsubscribe : Topic → Bool
  pub supported : List String
  pub host_of : String → Option String
  pub now : ℕ
  pub answer : Option (Option Json)
  pub derive_keys : String → Result (Key × Topic × String)
  pub current_address : Option Address
  pub show_address : Address → String
  pub show_methods : List String → String
  pub is_request : Json → Bool
  pub handle : Option String → Json → Result (Option Json)
  pub parse_url : String → Option ParsedUrl
  pub decode_key : String → Option Key

abbrev pub member : String → List String → Bool
member x xs = any (λ y. y == x) xs

-- `next_msg_id`: the atomic counter wraps.
unfoldable pub next_msg_id : Exec World ℕ
next_msg_id w = (ok w.next_id, record w { next_id = (w.next_id + 1) % u64_mod })

-- `decrypt_type0`: a zero, twelve bytes of the nonce, and at least the sixteen of the tag.
unfoldable pub decrypt_type0 : Env → Text → Key → Option Text
decrypt_type0 env [] key = none
decrypt_type0 env (b ∷ rest) key =
    if not (b == 0)
    then none
    else if ltb (length (b ∷ rest)) 29
    then none
    else env.open_box key (take 12 rest) (drop 12 rest)

-- `encrypt_type0`, with the cipher and the random nonce.
unfoldable pub encrypt_type0 : (Key → Text → Text → Text) → Text → Text → Key → Text
encrypt_type0 seal iv plaintext key = 0 ∷ (iv ++ seal key iv plaintext)

-- `publish`, and `publish_raw` on the printed body.
unfoldable pub publish : Env → Envelope → Exec World (Unit {0})
publish env e w =
    if not (env.can_encrypt e.key e.body)
    then raise "crypto error" w
    else if not env.initialised
    then raise "walletconnect not initialised" w
    else if not (env.can_publish e)
    then raise "relay error" w
    else modify (λ v. record v { published = v.published ++ e ∷ [] }) w

unfoldable pub sym_key_for : World → Topic → Option Key
sym_key_for w topic = Dict.get w.pairings topic

unfoldable pub remove_pairing : Topic → World → World
remove_pairing topic w = record w { pairings = Dict.remove w.pairings topic }

-- `start_proposal`, by whether the topic had none in flight.
unfoldable pub start_proposal : Topic → World → Bool × World
start_proposal topic w =
    if member topic w.in_flight
    then (false, w)
    else (true, record w { in_flight = w.in_flight ++ topic ∷ [] })

unfoldable pub finish_proposal : Topic → World → World
finish_proposal topic w = record w { in_flight = filter (λ t. not (t == topic)) w.in_flight }

-- `uri.replacen("wc:", "wc://", 1)`
abbrev pub normalized : String → String
normalized String.[] = ""
normalized (String.◌∷◌ c rest) =
    let later = normalized rest in
    if starts_with (String.◌∷◌ c rest) "wc:"
    then append "wc://" (after 2 rest)
    else String.◌∷◌ c later
  where
    after : ℕ → String → String
    after zero t = t
    after (suc n) String.[] = ""
    after (suc n) (String.◌∷◌ c t) = after n t

-- The user name of the URL, or its host where that is empty.
abbrev topic_of : ParsedUrl → Option Topic
topic_of url = if url.username == "" then url.host else some url.username

unfoldable pub parse_uri : Env → String → Result (Topic × Key)
parse_uri env uri = elim (env.parse_url (normalized uri)) [
  | none ↦ err "url error"
  | some url ↦ elim (topic_of url) [
    | none ↦ err "missing field: pairing topic"
    | some topic ↦ elim (Dict.get url.query_pairs "symKey") [
      | none ↦ err "missing field: symKey"
      | some hex ↦ elim (env.decode_key hex) [ none ↦ err "hex error" | some key ↦ ok (topic, key) ]
    ]
  ]
]

-- `pair`, without the task that fetches the messages from before the subscription: these reach
-- `dispatch` as any others do.
unfoldable pub pair : Env → String → Exec World (Unit {0})
unfolding remove_pairing parse_uri
pair env uri w = elim (parse_uri env uri) [
  | ok (topic, key) ↦ subscribe topic key
  | err e ↦ raise e w
  | Result.panic ↦ (Result.panic, w)
]
  where
    subscribe : Topic → Key → Result (Unit {0}) × World
    subscribe topic key =
        let v : World = record w { pairings = Dict.insert w.pairings topic key } in
        if not env.initialised
        then raise "walletconnect not initialised" (remove_pairing topic v)
        else if not (env.can_subscribe topic)
        then raise "relay error" (remove_pairing topic v)
        else pure tt (record v { subscribed = v.subscribed ++ topic ∷ [] })
