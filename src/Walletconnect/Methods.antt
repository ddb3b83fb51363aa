-- ===== src/Walletconnect/Methods.antt =====
-- crates/walletconnect/src/session.rs: which methods a session is settled with, and which requests reach
-- a handler.
use ethui.Common.{
  ℕ, ◌≤◌, ◌⊎◌, ◌≡◌, ◌≢◌, refl, ap, Bool, true, false, not, ◌&&◌, ◌||◌, String, some, List, [], ◌∷◌,
  ◌++◌, arith, text_Same, eq_iff, Option-cases, inl, inr, filter,
}
use ethui.Common.Dict
use ethui.Common.Json.{Json, at, as_str, as_u64}
use ethui.Walletconnect.{Topic, Key, Session, World, Env, member}
use ethui.Walletconnect.Proposals.{Filtered, approved, unsupported, filter_methods, unseen}
use ethui.Walletconnect.Requests.{serve, handle_request}
use ethui.Walletconnect.Serving.{publish-keeps}

member-filter :
    (p : String → Bool) (x : String) (xs : List String)
    → member x (filter p xs) ≡ (p x && member x xs)
member-filter p x [] = ground arith
member-filter p x (y ∷ ys) = ground (arith, member-filter p x ys, eq_iff y x, ap p {x = y} {y = x})

member-append :
    (x : String) (xs ys : List String) → member x (xs ++ ys) ≡ (member x xs || member x ys)
member-append x [] ys = refl
member-append x (y ∷ xs) ys = ground (arith, member-append x xs ys)

member-unseen :
    (x : String) (seen xs : List String)
    → member x (unseen seen xs) ≡ (not (member x seen) && member x xs)
member-unseen x seen [] = ground arith
member-unseen x seen (y ∷ ys) = ground (
  arith,
  member-unseen x seen ys,
  member-unseen x (y ∷ seen) ys,
  eq_iff y x,
  ap (λ (z : String). member z seen) {x = y} {y = x},
)

-- No text stands twice.
abbrev pub IsDistinct : List String → Type 0
IsDistinct [] = Unit
IsDistinct (x ∷ xs) = (member x xs ≡ false) × IsDistinct xs

unseen-IsDistinct : (seen xs : List String) → IsDistinct (unseen seen xs)
unseen-IsDistinct seen [] = tt
unseen-IsDistinct seen (x ∷ xs) = ground (
  arith,
  unseen-IsDistinct seen xs,
  unseen-IsDistinct (x ∷ seen) xs,
  member-unseen x (x ∷ seen) xs,
  eq_iff x x,
)

-- What the approved and the refused methods of a proposal have to be.
abbrev pub Answers : List String → List String → List String → Filtered → Type 0
Answers required optional supported (approved ms) =
    IsDistinct ms
    × ((m : String) → member m required ≡ true → member m supported ≡ true)
    × ((m : String)
        → member m ms ≡ ((member m required || member m optional) && member m supported))
Answers required optional supported (unsupported ms) =
    (ms ≢ []) × ((m : String) → member m ms ≡ (member m required && not (member m supported)))

unsupported-member :
    (supported required : List String) (m : String)
    → filter (λ x. not (member x supported)) required ≡ []
    → member m required ≡ true
    → member m supported ≡ true
unsupported-member supported required m e h =
    ground (arith, member-filter (λ x. not (member x supported)) m required, ap (member m) e)

-- A proposal's methods are approved exactly if all that it requires are supported: approved are then,
-- each once, the required and optional ones that are supported. Otherwise the required ones that are not
-- supported are given, of which there are some.
pub filter_methods-Answers :
    (required optional supported : List String)
    → Answers required optional supported (filter_methods required optional supported)
unfolding filter_methods
filter_methods-Answers required optional supported =
    split (filter (λ m. not (member m supported)) required) refl
  where
    kept : List String
    kept = filter (λ m. member m supported) (required ++ optional)

    split :
        (bad : List String)
        → filter (λ m. not (member m supported)) required ≡ bad
        → Answers required optional supported (filter_methods required optional supported)
    split [] e =
        rw (e, filter_methods)
          (
            unseen-IsDistinct [] kept,
            (λ m h. unsupported-member supported required m e h),
            λ m. ground (
              arith,
              member-unseen m [] kept,
              member-filter (λ x. member x supported) m (required ++ optional),
              member-append m required optional,
            ),
          )
    split (b ∷ bs) e =
        rw (e, filter_methods)
          (
            (λ q. cc),
            λ m.
                ground (
                  arith,
                  member-filter (λ x. not (member x supported)) m required,
                  ap (member m) e,
                ),
          )

-- At most one request reaches a handler, and only one on a live session that allows its method.
abbrev pub Authorised : Env → Topic → World → World → Type 0
Authorised env topic w v =
    (s : Session) × (method : String) × (Dict.get w.sessions topic ≡ some s)
    × (env.now ≤ s.expiry)
    × (member method s.allowed_methods ≡ true)
    × (v.calls ≡ w.calls ++ (topic, method) ∷ [])

serve-calls :
    (env : Env) (topic : Topic) (key : Key) (id : ℕ) (method : String) (params : Json) (s : Session)
    (w : World)
    → let v = (serve env topic key id method params s w).1 in
      (v.calls ≡ w.calls)
      ⊎ ((env.now ≤ s.expiry)
          × (member method s.allowed_methods ≡ true)
          × (v.calls ≡ w.calls ++ (topic, method) ∷ []))
unfolding serve
serve-calls env topic key id method params s w = grind (arith, publish-keeps)

-- A request reaches the handler of its session only if there is a session on the topic, it has not
-- expired, and it allows the method; otherwise no handler is called. No request reaches more than one.
pub handle_request-calls :
    (env : Env) (topic : Topic) (key : Key) (payload : Json) (w : World)
    → let v = (handle_request env topic key payload w).1 in
      (v.calls ≡ w.calls) ⊎ Authorised env topic w v
unfolding handle_request
handle_request-calls env topic key payload w = elim (Option-cases (as_u64 (at payload "id"))) [
  | inl no_id ↦ inl (ground arith)
  | inr (id, has_id) ↦
      let inner = at (at payload "params") "request" in
      elim (Option-cases (as_str (at inner "method"))) [
        | inl no_method ↦ inl (ground arith)
        | inr (method, has_method) ↦ elim (Option-cases (Dict.get w.sessions topic)) [
          | inl no_session ↦ inl (ground arith)
          | inr (s, found) ↦ elim (serve-calls env topic key id method (at inner "params") s w) [
            | inl none_called ↦ inl (ground arith)
            | inr (live, allowed, called) ↦ inr (s, method, found, live, allowed, ground arith)
          ]
        ]
      ]
]
