-- ===== src/Walletconnect/Proposals.antt =====
-- crates/walletconnect/src/session.rs: the handling of a session proposal, to its settlement.
use ethui.Common.{
  ℕ, ◌+◌, String, Bool, true, false, not, Option, none, some, List, [], ◌∷◌, ◌++◌, nat_Same,
  text_Same, filter, append, if◌then◌else◌,
}
use ethui.Common.Dict
use ethui.Common.Dict.{Dict, values}
use ethui.Common.Exec.{Exec, ◌>>=◌, ◌>>◌, pure, raise, lift, modify, or_raise, unwrap}
use ethui.Common.Json.{Json, object, strings, str, num, at, items, texts, as_str, as_u64, as_bool}
use ethui.Walletconnect.{
  Topic, Key, DappMetadata, Session, World, Env, member, next_msg_id, publish, remove_pairing,
}
use ethui.Walletconnect.Bodies.{
  build_eip155_accounts, json_rpc, error_body, on_pairing, on_session, notify, namespaces_body,
  or_text,
}

-- The strings of `ns["eip155"][field]`.
unfoldable pub collect_strings : Json → String → List String
collect_strings namespaces name = texts (items (at (at namespaces "eip155") name))

-- `filter(|m| seen.insert(m.clone()))`, after those that were seen.
abbrev pub unseen : List String → List String → List String
unseen seen [] = []
unseen seen (m ∷ ms) = elim (member m seen) [
  | true ↦ unseen seen ms
  | false ↦ m ∷ unseen (m ∷ seen) ms
]

pub data Filtered : Type 0 where
  approved unsupported : List String → Filtered

unfoldable pub filter_methods : List String → List String → List String → Filtered
filter_methods required optional supported =
    elim (filter (λ m. not (member m supported)) required) [
      | [] ↦ approved (unseen [] (filter (λ m. member m supported) (required ++ optional)))
      | m ∷ ms ↦ unsupported (m ∷ ms)
    ]

abbrev relay_body : Json
relay_body = object (("protocol", str "irn") ∷ [])

-- The user approves by `approved: true`, and in no other way.
abbrev pub approves : Option Json → Bool
approves none = false
approves (some answer) = elim (as_bool (at answer "approved")) [ none ↦ false | some b ↦ b ]

unfoldable pub open_dialog : Env → Exec World Bool
open_dialog env w = elim env.answer [
  | none ↦ raise "dialog error" w
  | some answer ↦ pure (approves answer) w
]

abbrev settle_body : ℕ → String → List String → List String → ℕ → Json
settle_body id public_key accounts methods expiry = json_rpc id (
    ("method", str "wc_sessionSettle")
    ∷ (
      "params",
      object (
          ("relay", relay_body)
          ∷ ("namespaces", namespaces_body accounts methods)
          ∷ (
            "controller",
            object (
                ("publicKey", str public_key)
                ∷ (
                  "metadata",
                  object (
                      ("name", str "ethui")
                      ∷ ("description", str "ethui developer wallet")
                      ∷ ("url", str "https://ethui.dev")
                      ∷ ("icons", strings [])
                      ∷ []),
                )
                ∷ []),
          )
          ∷ ("expiry", num expiry)
          ∷ []),
    )
    ∷ [])

-- The handler before the session, as the code has it.
abbrev store_session : Env → Session → Exec World (Unit {0})
store_session env s = modify (λ w. record w {
  handlers = Dict.insert w.handlers s.topic (env.host_of s.peer.url);
  sessions = Dict.insert w.sessions s.topic s;
})

abbrev subscribe : Env → Topic → Exec World (Unit {0})
subscribe env topic w =
    if not env.initialised
    then raise "walletconnect not initialised" w
    else if not (env.can_subscribe topic)
    then raise "relay error" w
    else pure tt (record w { subscribed = w.subscribed ++ topic ∷ [] })

unfoldable pub settle_session :
    Env
    → Topic
    → Key
    → ℕ
    → String
    → DappMetadata
    → List String
    → List String
    → Exec World (Unit {0})
unfolding publish next_msg_id
settle_session env pairing_topic pairing_key proposal_id proposer peer chains methods = do
  (key, topic, public_key) ← lift (env.derive_keys proposer)
  subscribe env topic
  address ← unwrap env.current_address
  let expiry = env.now + 604800
  let accounts = build_eip155_accounts env chains address
  publish env (
      on_pairing pairing_topic pairing_key (
        json_rpc proposal_id (
          ("result", object (("relay", relay_body) ∷ ("responderPublicKey", str public_key) ∷ []))
          ∷ [])))
  id ← next_msg_id
  publish env
      (record (on_session topic key 1102 300 (settle_body id public_key accounts methods expiry)) {
        prompt = true;
      })
  store_session env (record {
    topic = topic;
    sym_key = key;
    peer = peer;
    allowed_methods = methods;
    chains = chains;
    address = address;
    expiry = expiry;
  })
  notify
  modify (remove_pairing pairing_topic)

abbrev peer_of : Json → DappMetadata
peer_of metadata = record {
  name = or_text "Unknown" (as_str (at metadata "name"));
  url = or_text "" (as_str (at metadata "url"));
  icons = texts (items (at metadata "icons"));
}

-- The proposal is refused on its pairing topic, and the pairing is dropped.
abbrev refuse : Env → Topic → Key → Json → Exec World (Unit {0})
refuse env topic key body = do
  publish env (on_pairing topic key body)
  modify (remove_pairing topic)

unfoldable pub answer_proposal :
    Env → Topic → Key → ℕ → String → DappMetadata → List String → Filtered → Exec World (Unit {0})
unfolding publish open_dialog settle_session
answer_proposal env topic key id proposer peer chains (unsupported ms) = refuse env topic key (
    error_body id 5003
      (append "Non conforming namespaces: unsupported required methods " (env.show_methods ms)))
answer_proposal env topic key id proposer peer chains (approved methods) = do
  yes_said ← open_dialog env
  if yes_said
      then settle_session env topic key id proposer peer chains methods
      else refuse env topic key (error_body id 5000 "User rejected the session proposal")

unfoldable pub handle_proposal : Env → Topic → Key → Json → Exec World (Unit {0})
unfolding answer_proposal filter_methods collect_strings
handle_proposal env topic key payload = do
  id ← or_raise (as_u64 (at payload "id")) "missing field: proposal id"
  let params = at payload "params"
  let proposer = at params "proposer"
  public_key ← or_raise (as_str (at proposer "publicKey")) "missing field: proposer.publicKey"
  let required = at params "requiredNamespaces"
  let optional = at params "optionalNamespaces"
  let chains = unseen [] (collect_strings required "chains" ++ collect_strings optional "chains")
  answer_proposal env topic key id public_key (peer_of (at proposer "metadata")) chains (
      filter_methods (collect_strings required "methods") (collect_strings optional "methods")
        env.supported)
