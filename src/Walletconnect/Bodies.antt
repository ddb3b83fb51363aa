-- ===== src/Walletconnect/Bodies.antt =====
-- crates/walletconnect/src/session.rs: the messages that more than one handler publishes.
use ethui.Common.{
  ℕ, String, false, Option, none, some, List, [], ◌∷◌, ◌++◌, map, nat_Same, text_Same, filter,
  append, starts_with,
}
use ethui.Common.Exec.{Exec, modify}
use ethui.Common.Json.{Json, object, strings, str, num}
use ethui.Types.{Address}
use ethui.Broadcast.{ui_notify, wc_sessions_updated}
use ethui.Walletconnect.{Topic, Key, Envelope, World, Env}

abbrev pub account : Env → Address → String → String
account env address chain = append chain (append ":" (env.show_address address))

unfoldable pub build_eip155_accounts : Env → List String → Address → List String
build_eip155_accounts env chains address =
    elim (map (account env address) (filter (λ c. starts_with c "eip155:") chains)) [
      | [] ↦ account env address "eip155:1" ∷ []
      | a ∷ as' ↦ a ∷ as'
    ]

abbrev pub json_rpc : ℕ → List (String × Json) → Json
json_rpc id rest = object (("id", num id) ∷ ("jsonrpc", str "2.0") ∷ rest)

abbrev pub error_body : ℕ → ℕ → String → Json
error_body id code message =
    json_rpc id (("error", object (("code", num code) ∷ ("message", str message) ∷ [])) ∷ [])

abbrev pub on_pairing : Topic → Key → Json → Envelope
on_pairing topic key body = record {
  topic = topic;
  key = key;
  body = body;
  tag = 1101;
  ttl_secs = 300;
  prompt = false;
}

abbrev pub on_session : Topic → Key → ℕ → ℕ → Json → Envelope
on_session topic key tag ttl body = record {
  topic = topic;
  key = key;
  body = body;
  tag = tag;
  ttl_secs = ttl;
  prompt = false;
}

abbrev pub notify : Exec World (Unit {0})
notify = modify (λ w. record w { sent = w.sent ++ ui_notify wc_sessions_updated ∷ [] })

abbrev pub namespaces_body : List String → List String → Json
namespaces_body accounts methods = object (
    (
      "eip155",
      object (
          ("accounts", strings accounts)
          ∷ ("methods", strings methods)
          ∷ ("events", strings ("chainChanged" ∷ "accountsChanged" ∷ []))
          ∷ []),
    )
    ∷ [])

abbrev pub or_text : String → Option String → String
or_text other none = other
or_text other (some t) = t
