-- ===== src/Wallets/Secrets.antt =====
-- crates/wallets/src/secret_cache.rs: the cache of a secret that expires, and its unlocking by a dialog.
-- Time is in seconds; the expirer runs some time after its sleep.
use ethui.Common.{
  ℕ, zero, suc, ◌+◌, ◌≤◌, ◌<◌, ◌≡◌, ◌⊎◌, ◌↔◌, take, refl, String, Bool, true, false, Option, none,
  some, List, [], ◌∷◌, arith, leb, if◌then◌else◌, inl, inr, Bool-cases,
}
use ethui.Common.Exec.{Result, ok, err, pure, raise}
use ethui.Common.Json.{at, as_str}
use ethui.Rpc.Method.{DialogMsg, payload, close}

-- A secret is its bytes. The expirer is the time at which its sleep ends, and whether it has run since.
pub record SecretCache : Type 0 where
  pub secret : Option (List ℕ)
  pub expirer : Option (ℕ × Bool)
  pub now : ℕ

unfoldable pub is_unlocked : SecretCache → Bool
is_unlocked c = elim c.secret [ none ↦ false | some s ↦ true ]

-- The expirer before is aborted.
unfoldable pub store : List ℕ → SecretCache → SecretCache
store secret c = record c { secret = some secret; expirer = some (c.now + 60, false) }

unfoldable pub read : SecretCache → Result (List ℕ)
read c = elim c.secret [ none ↦ err "secret cache is empty; wallet may be locked" | some s ↦ ok s ]

-- The expirer clears the secret once its sleep is over.
unfoldable pub expire : SecretCache → SecretCache
expire c = elim c.expirer [
  | none ↦ c
  | some (deadline, ran) ↦ elim ran [
    | true ↦ c
    | false ↦
        if leb deadline c.now
        then record c { secret = none; expirer = some (deadline, true) }
        else c
  ]
]

-- What can happen: a secret is stored, time passes, or the expirer gets its turn.
pub data Event : Type 0 where
  stores : List ℕ → Event
  passes : ℕ → Event
  wakes : Event

unfoldable pub step : Event → SecretCache → SecretCache
unfolding store expire
step (stores secret) c = store secret c
step (passes seconds) c = record c { now = c.now + seconds }
step wakes c = expire c

unfoldable pub run : List Event → SecretCache → SecretCache
run [] c = c
run (event ∷ events) c = run events (step event c)

abbrev pub empty_cache : SecretCache
empty_cache = record { secret = none; expirer = none; now = 0 }

-- The secret that was stored last, with the time since.
abbrev pub last_stored : List Event → Option (List ℕ × ℕ) → Option (List ℕ × ℕ)
last_stored [] last = last
last_stored (stores secret ∷ events) last = last_stored events (some (secret, 0))
last_stored (passes seconds ∷ events) last =
    last_stored events (elim last [ none ↦ none | some (s, age) ↦ some (s, age + seconds) ])
last_stored (wakes ∷ events) last = last_stored events last

-- What was stored last, some time ago, is there with an expirer that has yet to run, whose sleep ends 60
-- seconds after the storing, or it is at least 60 seconds old and gone, and the expirer has run.
abbrev Explained : Option (List ℕ × ℕ) → SecretCache → Type 0
Explained none c = (c.secret ≡ none) × (c.expirer ≡ none)
Explained (some (s, age)) c =
    (d : ℕ) × (d + age ≡ c.now + 60)
    × (((c.secret ≡ some s) × (c.expirer ≡ some (d, false)))
        ⊎ ((c.secret ≡ none) × (c.expirer ≡ some (d, true)) × (60 ≤ age)))

step-Explained :
    (event : Event) (last : Option (List ℕ × ℕ)) (c : SecretCache)
    → Explained last c
    → Explained (last_stored (event ∷ []) last) (step event c)
unfolding step store expire
step-Explained (stores secret) last c h = (c.now + 60, omega arith, inl (refl, refl))
step-Explained (passes seconds) none c h = h
step-Explained (passes seconds) (some (s, age)) c (d, e, inl k) = (d, omega (arith, e), inl k)
step-Explained (passes seconds) (some (s, age)) c (d, e, inr k) =
    (d, omega (arith, e), inr (k.0, k.1, omega (arith, k.2)))
step-Explained wakes none c h = ground (arith, h)
step-Explained wakes (some (s, age)) c (d, e, inl k) = elim (Bool-cases (leb d c.now)) [
  | inl over ↦ (
    d,
    ground (arith, e, k),
    inr (ground (arith, k, over), ground (arith, k, over), ground (arith, over, e)),
  )
  | inr early ↦ (d, ground (arith, e, k), inl (ground (arith, k, early), ground (arith, k, early)))
]
step-Explained wakes (some (s, age)) c (d, e, inr k) =
    (d, ground (arith, e, k), inr (ground (arith, k), ground (arith, k), k.2))

last_stored-cons :
    (event : Event) (events : List Event) (last : Option (List ℕ × ℕ))
    → last_stored (event ∷ events) last ≡ last_stored events (last_stored (event ∷ []) last)
last_stored-cons (stores secret) events last = refl
last_stored-cons (passes seconds) events last = refl
last_stored-cons wakes events last = refl

run-Explained :
    (events : List Event) (last : Option (List ℕ × ℕ)) (c : SecretCache)
    → Explained last c
    → Explained (last_stored events last) (run events c)
unfolding run
run-Explained [] last c h = h
run-Explained (event ∷ events) last c h = rw (last_stored-cons event events last) (
    run-Explained events (last_stored (event ∷ []) last) (step event c)
      (step-Explained event last c h))

-- What the cache has to do with the secret that was stored last: it can be read if it is younger than 60
-- seconds, it cannot be read once it is 60 seconds old and the expirer gets its turn, and no other secret
-- can be read.
abbrev pub Keeps60 : Option (List ℕ × ℕ) → SecretCache → Type 0
Keeps60 none c = read c ≡ err "secret cache is empty; wallet may be locked"
Keeps60 (some (s, age)) c =
    (age < 60 → read c ≡ ok s)
    × (60 ≤ age → read (expire c) ≡ err "secret cache is empty; wallet may be locked")
    × ((t : List ℕ) → read c ≡ ok t → t ≡ s)

Explained-Keeps60 :
    (last : Option (List ℕ × ℕ)) (c : SecretCache) → Explained last c → Keeps60 last c
unfolding read expire
Explained-Keeps60 none c h = ground (arith, h)
Explained-Keeps60 (some (s, age)) c (d, e, inl k) =
    ((λ young. ground (arith, k)), (λ old. ground (arith, k, e, old)), λ t r. ground (arith, k, r))
Explained-Keeps60 (some (s, age)) c (d, e, inr k) = (
  (λ young. absurd (omega (arith, young, k.2))),
  (λ old. ground (arith, k)),
  λ t r. ground (arith, k, r),
)

-- Whatever is stored, however time passes and whenever the expirer gets its turn, the secret that was stored
-- last can be read for 60 seconds, cannot be read after the expirer's next turn from then on, and no secret
-- that was stored before it can be read.
pub run-Keeps60 : (events : List Event) → Keeps60 (last_stored events none) (run events empty_cache)
run-Keeps60 events =
    Explained-Keeps60 (last_stored events none) (run events empty_cache)
      (run-Explained events none empty_cache (refl, refl))

-- The loop of `unlock_with_dialog`, with so many attempts left.
unfoldable pub attempts :
    ℕ → (String → Option (List ℕ)) → List DialogMsg → SecretCache → Result (Unit {0}) × SecretCache
unfolding store
attempts zero try_decrypt msgs c = raise "user failed to unlock the wallet" c
attempts (suc n) try_decrypt [] c = raise "wallet unlock rejected by user" c
attempts (suc n) try_decrypt (close ∷ msgs) c = raise "wallet unlock rejected by user" c
attempts (suc n) try_decrypt (payload j ∷ msgs) c =
    let rest = attempts n try_decrypt msgs c in
    elim (as_str (at j "password")) [
      | none ↦ raise "wallet unlock rejected by user" c
      | some password ↦ elim (try_decrypt password) [
        | none ↦ rest
        | some secret ↦ pure tt (store secret c)
      ]
    ]

unfoldable pub unlock_with_dialog :
    (String → Option (List ℕ)) → List DialogMsg → SecretCache → Result (Unit {0}) × SecretCache
unfolding is_unlocked attempts
unlock_with_dialog try_decrypt msgs c =
    if is_unlocked c then pure tt c else attempts 3 try_decrypt msgs c

attempts-take :
    (n : ℕ) (try_decrypt : String → Option (List ℕ)) (msgs : List DialogMsg) (c : SecretCache)
    → attempts n try_decrypt msgs c ≡ attempts n try_decrypt (take n msgs) c
unfolding attempts
attempts-take zero try_decrypt msgs c = refl
attempts-take (suc n) try_decrypt [] c = refl
attempts-take (suc n) try_decrypt (close ∷ msgs) c = refl
attempts-take (suc n) try_decrypt (payload j ∷ msgs) c =
    ground (arith, attempts-take n try_decrypt msgs c)

attempts-unlocks :
    (n : ℕ) (try_decrypt : String → Option (List ℕ)) (msgs : List DialogMsg) (c : SecretCache)
    → is_unlocked c ≡ false
    → ((attempts n try_decrypt msgs c).0 ≡ ok tt)
      ↔ (is_unlocked (attempts n try_decrypt msgs c).1 ≡ true)
unfolding attempts is_unlocked
attempts-unlocks zero try_decrypt msgs c h = ground (arith, h)
attempts-unlocks (suc n) try_decrypt [] c h = ground (arith, h)
attempts-unlocks (suc n) try_decrypt (close ∷ msgs) c h = ground (arith, h)
attempts-unlocks (suc n) try_decrypt (payload j ∷ msgs) c h =
    ground (arith, h, attempts-unlocks n try_decrypt msgs c h)

-- Unlocking looks at three messages of the dialog at most, and it succeeds exactly if the cache has a secret
-- afterwards.
pub unlock_with_dialog-three :
    (try_decrypt : String → Option (List ℕ)) (msgs : List DialogMsg) (c : SecretCache)
    → let (r, v) = unlock_with_dialog try_decrypt msgs c in
      (unlock_with_dialog try_decrypt msgs c ≡ unlock_with_dialog try_decrypt (take 3 msgs) c)
      × ((r ≡ ok tt) ↔ (is_unlocked v ≡ true))
unfolding unlock_with_dialog
unlock_with_dialog-three try_decrypt msgs c =
    ground (arith, attempts-take 3 try_decrypt msgs c, attempts-unlocks 3 try_decrypt msgs c)
