-- ===== src/Walletconnect/Tests.antt =====
-- crates/walletconnect: the theorems at a pairing, a proposal, and a request on the session.
use ethui.Common.{
  ◌+◌, ◌≤◌, ◌⊎◌, ◌≡◌, refl, true, none, some, List, [], ◌∷◌, text_Same, if◌then◌else◌, drop, arith,
}
use ethui.Common.Dict
use ethui.Common.Exec.{ok}
use ethui.Common.Json.{Json, object, strings, str, num, bool, null}
use ethui.Common.Radix.{Text}
use ethui.Walletconnect.{Key, Env, member, pair, finish_proposal, decrypt_type0, encrypt_type0}
use ethui.Walletconnect.Proposals.{handle_proposal}
use ethui.Walletconnect.Requests.{handle_request}
use ethui.Walletconnect.Dispatch.{
  Event, message, turn, pair_call, run, new_world, step, dispatch, run_task,
}
use ethui.Walletconnect.Serving.{run-IsServed}
use ethui.Walletconnect.Methods.{Authorised, handle_request-calls}
use ethui.Walletconnect.Envelopes.{decrypt_type0-encrypt_type0}
use ethui.Walletconnect.Proposing.{proposals, panics, run-one_proposal}

-- An envelope of 29 bytes, the least that is opened.
abbrev envelope : Text
envelope =
    0 ∷ 0 ∷ 0 ∷ 0 ∷ 0 ∷ 0 ∷ 0 ∷ 0 ∷ 0 ∷ 0 ∷ 0 ∷ 0 ∷ 0 ∷ 0 ∷ 0 ∷ 0 ∷ 0 ∷ 0 ∷ 0 ∷ 0 ∷ 0 ∷ 0 ∷ 0 ∷ 0
    ∷ 0 ∷ 0 ∷ 0 ∷ 0 ∷ 0 ∷ []

-- A relay that takes everything, a user who approves, and messages whose payload is the given one.
abbrev env_of : Json → Env
env_of payload = record {
  decode = λ raw. some envelope;
  decode_url_safe = λ raw. none;
  open_box = λ key nonce text. some [];
  parse_json = λ text. some payload;
  initialised = true;
  can_encrypt = λ key body. true;
  can_publish = λ e. true;
  can_subscribe = λ t. true;
  can_unsubscribe = λ t. true;
  supported = "eth_sendTransaction" ∷ "personal_sign" ∷ [];
  host_of = λ url. some url;
  now = 1000;
  answer = some (some (object (("approved", bool true) ∷ [])));
  derive_keys = λ proposer. ok (7 ∷ [], "session", "public");
  current_address = some 7;
  show_address = λ a. "0x07";
  show_methods = λ ms. "";
  is_request = λ request. true;
  handle = λ domain request. ok (some null);
  parse_url = λ uri.
      some (record { username = "pairing"; host = some "2"; query_pairs = ("symKey", "05") ∷ [] });
  decode_key = λ hex. some (5 ∷ []);
}

abbrev proposal_body : Json
proposal_body = object (
    ("id", num 41)
    ∷ (
      "params",
      object (
          ("proposer", object (("publicKey", str "key") ∷ []))
          ∷ (
            "requiredNamespaces",
            object (
                (
                  "eip155",
                  object (
                      ("methods", strings ("personal_sign" ∷ []))
                      ∷ ("chains", strings ("eip155:1" ∷ []))
                      ∷ []),
                )
                ∷ []),
          )
          ∷ []),
    )
    ∷ [])

abbrev request_body : Json
request_body = object (
    ("id", num 42)
    ∷ ("params", object (("request", object (("method", str "personal_sign") ∷ [])) ∷ []))
    ∷ [])

abbrev env : Env
env = env_of proposal_body

-- The proposal is delivered twice before it is answered, and the request comes on the settled session.
abbrev events : List (Env × Event)
events =
    (env, pair_call "wc:uri")
    ∷ (env, message "pairing" 1100 "raw")
    ∷ (env, message "pairing" 1100 "raw")
    ∷ (env, turn 0)
    ∷ (env_of request_body, message "session" 1108 "raw")
    ∷ []

settled : Dict.contains_key (run events new_world).sessions "session" ≡ true
unfolding Dict.contains_key run step dispatch Dict.get pair Dict.insert run_task finish_proposal
    handle_proposal Dict.remove
settled = refl

run-IsServed_example : Dict.contains_key (run events new_world).handlers "session" ≡ true
run-IsServed_example = run-IsServed events "session" settled

run-one_proposal_example :
    let w = run events new_world in
    (proposals "pairing" w.pending ≤ 1)
    × (proposals "pairing" w.pending + panics "pairing" w.panicked
        ≡ (if member "pairing" w.in_flight then 1 else 0))
run-one_proposal_example = run-one_proposal events "pairing"

handle_request-calls_example :
    let w = run events new_world in
    let v = (handle_request env "session" (7 ∷ []) request_body w).1 in
    (v.calls ≡ w.calls) ⊎ Authorised env "session" w v
handle_request-calls_example =
    handle_request-calls env "session" (7 ∷ []) request_body (run events new_world)

-- A tag of sixteen bytes before the text, which takes the place of a cipher.
abbrev seal : Key → Text → Text → Text
seal key nonce text = 1 ∷ 1 ∷ 1 ∷ 1 ∷ 1 ∷ 1 ∷ 1 ∷ 1 ∷ 1 ∷ 1 ∷ 1 ∷ 1 ∷ 1 ∷ 1 ∷ 1 ∷ 1 ∷ text

abbrev nonce : Text
nonce = 1 ∷ 2 ∷ 3 ∷ 4 ∷ 5 ∷ 6 ∷ 7 ∷ 8 ∷ 9 ∷ 10 ∷ 11 ∷ 12 ∷ []

abbrev opening : Env
opening = record env { open_box = λ key nonce text. some (drop 16 text) }

decrypt_type0-encrypt_type0_example :
    decrypt_type0 opening (encrypt_type0 seal nonce (104 ∷ 105 ∷ []) (5 ∷ [])) (5 ∷ [])
    ≡ some (104 ∷ 105 ∷ [])
decrypt_type0-encrypt_type0_example =
    decrypt_type0-encrypt_type0 opening seal nonce (104 ∷ 105 ∷ []) (5 ∷ []) refl (omega arith)
      (λ k n t. refl)
