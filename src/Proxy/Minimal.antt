-- ===== src/Proxy/Minimal.antt =====
-- crates/proxy-detect/src/eip1167.rs: which codes are minimal proxies, and which ones panic.
use ethui.Common.{
  ℕ, zero, suc, ◌+◌, ◌-◌, ◌≤◌, ◌<◌, ◌≡◌, ◌↔◌, ◌⊎◌, inl, inr, refl, sym, ap, ◌∙◌, true, false, not,
  ◌&&◌, none, some, [], ◌∷◌, ◌++◌, arith, nat_Same, leb, length, length-append, take, drop,
  Bool-cases, if◌then◌else◌,
}
use mathlib.Core.Path.{subst}
use ethui.Common.Exec.{ok, panic}
use ethui.Types.{Address}
use ethui.Rpc.{is_prefix}
use ethui.Proxy.{
  Bytes, ProxyType, eip1167, Detected, from_be, prefix, suffix, read_code, after_push,
}

take-append : (xs ys : Bytes) → take (length xs) (xs ++ ys) ≡ xs
take-append [] ys = refl
take-append (x ∷ xs) ys = ap (λ (zs : Bytes). x ∷ zs) (take-append xs ys)

drop-append : (xs ys : Bytes) → drop (length xs) (xs ++ ys) ≡ ys
drop-append [] ys = refl
drop-append (x ∷ xs) ys = drop-append xs ys

append-take-drop : (n : ℕ) (xs : Bytes) → take n xs ++ drop n xs ≡ xs
append-take-drop zero xs = refl
append-take-drop (suc n) [] = refl
append-take-drop (suc n) (x ∷ xs) = ap (λ (zs : Bytes). x ∷ zs) (append-take-drop n xs)

length-take : (n : ℕ) (xs : Bytes) → n ≤ length xs → length (take n xs) ≡ n
length-take zero xs h = refl
length-take (suc n) [] h = absurd (omega arith)
length-take (suc n) (x ∷ xs) h = ap suc (length-take n xs (omega arith))

is_prefix-append : (p xs : Bytes) → is_prefix p (p ++ xs) ≡ true
is_prefix-append [] xs = refl
is_prefix-append (b ∷ p) xs = ground (arith, is_prefix-append p xs)

is_prefix-splits : (p xs : Bytes) → is_prefix p xs ≡ true → xs ≡ p ++ drop (length p) xs
is_prefix-splits [] xs h = refl
is_prefix-splits (b ∷ p) [] h = cc
is_prefix-splits (b ∷ p) (x ∷ xs) h = ground (arith, is_prefix-splits p xs)

-- The code of a minimal proxy for the address that the bytes `a` are, with anything between the address
-- and the suffix and after it.
abbrev pub minimal_code : Bytes → Bytes → Bytes → Bytes
minimal_code a middle rest = prefix ++ (0x5f + length a) ∷ (a ++ (middle ++ (suffix ++ rest)))

abbrev pub IsMinimal : Bytes → Address → Type 0
IsMinimal code address =
    (a : Bytes) × (middle : Bytes) × (rest : Bytes) × (code ≡ minimal_code a middle rest)
    × (1 ≤ length a)
    × (length a ≤ 20)
    × (length middle ≡ 11)
    × (address ≡ from_be 0 a)

-- The code that ends too early: after the prefix, or before the suffix can begin.
abbrev pub IsCut : Bytes → Type 0
IsCut code =
    (code ≡ prefix)
    ⊎ ((push : ℕ) × (rest : Bytes) × (code ≡ prefix ++ push ∷ rest)
        × (0x5f < push)
        × (push ≤ 0x73)
        × (length rest + 0x5f < push + 11))

drop_nil : (n : ℕ) → drop {A = ℕ} n [] ≡ []
drop_nil zero = refl
drop_nil (suc n) = refl

drop_add : (n m : ℕ) (xs : Bytes) → drop (n + m) xs ≡ drop m (drop n xs)
drop_add zero m xs = let e : 0 + m ≡ m = omega arith in ap (λ (k : ℕ). drop k xs) e
drop_add (suc n) m [] =
    let e : suc n + m ≡ suc (n + m) = omega arith in ap (λ (k : ℕ). drop k []) e ∙ sym (drop_nil m)
drop_add (suc n) m (x ∷ xs) =
    let e : suc n + m ≡ suc (n + m) = omega arith in
    ap (λ (k : ℕ). drop k (x ∷ xs)) e ∙ drop_add n m xs

drop_past : (m : ℕ) (a xs : Bytes) → drop (length a + m) (a ++ xs) ≡ drop m xs
drop_past m a xs = drop_add (length a) m (a ++ xs) ∙ ap (drop m) (drop-append a xs)

length-drop : (n : ℕ) (xs : Bytes) → length (drop n xs) ≡ length xs - n
length-drop zero xs = omega arith
length-drop (suc n) [] = omega arith
length-drop (suc n) (x ∷ xs) = omega (arith, length-drop n xs)

after_push_complete :
    (a middle rest : Bytes) (n : ℕ)
    → n ≡ length a
    → length middle ≡ 11
    → after_push (a ++ (middle ++ (suffix ++ rest))) n ≡ ok (some (eip1167 (from_be 0 a)))
unfolding after_push
after_push_complete a middle rest n e m = rw e (
    ground (
      arith,
      m,
      drop_past 11 a (middle ++ (suffix ++ rest)),
      ap (λ (k : ℕ). drop k (middle ++ (suffix ++ rest))) m,
      drop-append middle (suffix ++ rest),
      take-append a (middle ++ (suffix ++ rest)),
      is_prefix-append suffix rest,
      length-append a (middle ++ (suffix ++ rest)),
      length-append middle (suffix ++ rest),
    ))

after_push_sound :
    (xs : Bytes) (n : ℕ) (t : ProxyType)
    → after_push xs n ≡ ok (some t)
    → (t ≡ eip1167 (from_be 0 (take n xs)))
      × (n + 11 ≤ length xs)
      × (xs ≡ take n xs ++ (take 11 (drop n xs) ++ (suffix ++ drop 4 (drop (n + 11) xs))))
unfolding after_push
after_push_sound xs n t h = elim (Bool-cases (leb (n + 11) (length xs))) [
  | inr short ↦ absurd (ground (arith, h, short))
  | inl long ↦ elim (Bool-cases (is_prefix suffix (drop (n + 11) xs))) [
    | inr other ↦ absurd (ground (arith, h, long, other))
    | inl found ↦ (
      ground (arith, h, long, found),
      ground (arith, long),
      sym (append-take-drop n xs)
          ∙ ap (λ (zs : Bytes). take n xs ++ zs)
              (sym (append-take-drop 11 (drop n xs))
                ∙ ap (λ (zs : Bytes). take 11 (drop n xs) ++ zs)
                    (sym (drop_add n 11 xs) ∙ is_prefix-splits suffix (drop (n + 11) xs) found)),
    )
  ]
]

-- What an accepted push says of the length of the address.
abbrev IsPush : ℕ → Type 0
IsPush push = (0x5f < push) × (push ≤ 0x73)

IsPush-iff : (push : ℕ) → ((leb 1 (push - 0x5f) && leb (push - 0x5f) 20) ≡ true) ↔ IsPush push
IsPush-iff push = ground arith

abbrev of_push : Bytes → ℕ → Detected
of_push rest push =
    if not (leb 1 (push - 0x5f) && leb (push - 0x5f) 20)
    then ok none
    else after_push rest (push - 0x5f)

-- How the code is read after the prefix.
data Reading (code : Bytes) : Type 0 where
  other : read_code code ≡ ok none → is_prefix prefix code ≡ false → Reading code
  ends : code ≡ prefix → read_code code ≡ panic → Reading code
  pushes :
      (push : ℕ) (rest : Bytes)
      → code ≡ prefix ++ push ∷ rest
      → read_code code ≡ of_push rest push
      → Reading code

read_code-pushes : (push : ℕ) (rest : Bytes) → read_code (prefix ++ push ∷ rest) ≡ of_push rest push
unfolding read_code
read_code-pushes push rest = refl

read_code-Reading : (code : Bytes) → Reading code
unfolding read_code
read_code-Reading code = elim (Bool-cases (is_prefix prefix code)) [
  | inr no_prefix ↦ other (rw (no_prefix, read_code) (refl)) no_prefix
  | inl found ↦ split (drop (length prefix) code) (is_prefix-splits prefix code found)
]
  where
    split : (xs : Bytes) → code ≡ prefix ++ xs → Reading code
    split [] e = ends e (ap read_code e)
    split (push ∷ rest) e = pushes push rest e (ap read_code e ∙ read_code-pushes push rest)

after_push-panic_iff : (rest : Bytes) (n : ℕ) → (after_push rest n ≡ panic) ↔ (length rest < n + 11)
unfolding after_push
after_push-panic_iff rest n = ground arith

of_parts :
    (n push : ℕ) (rest : Bytes) (t : ProxyType)
    → push ≡ 0x5f + n
    → 1 ≤ n
    → n ≤ 20
    → after_push rest n ≡ ok (some t)
    → (address : Address) × IsMinimal (prefix ++ push ∷ rest) address × (t ≡ eip1167 address)
of_parts n push rest t p low high h =
    let (k, long, parts) = after_push_sound rest n t h in
    let size : length (take n rest) ≡ n = length-take n rest (omega (arith, long)) in
    (
      from_be 0 (take n rest),
      (
        take n rest,
        take 11 (drop n rest),
        drop 4 (drop (n + 11) rest),
        ground (arith, p, size, parts),
        omega (arith, size),
        omega (arith, size),
        length-take 11 (drop n rest) (omega (arith, long, length-drop n rest)),
        refl,
      ),
      k,
    )

module _ (t : ProxyType) where
  -- What a reading says of a code that is found to be a minimal proxy.
  abbrev Found : Bytes → Type 0
  Found code = (address : Address) × IsMinimal code address × (t ≡ eip1167 address)

  read_code_sound : (code : Bytes) → read_code code ≡ ok (some t) → Reading code → Found code
  read_code_sound code h (other e _) = absurd (ground (arith, h, e))
  read_code_sound code h (ends _ e) = absurd (ground (arith, h, e))
  read_code_sound code h (pushes push rest e r) =
      elim (Bool-cases (leb 1 (push - 0x5f) && leb (push - 0x5f) 20)) [
        | inr no_push ↦ absurd (ground (arith, h, r, no_push))
        | inl push_ok ↦ subst Found (sym e) (
            of_parts (push - 0x5f) push rest t (omega (arith, (IsPush-iff push).0 push_ok))
              (omega (arith, (IsPush-iff push).0 push_ok))
              (omega (arith, (IsPush-iff push).0 push_ok)) (ground (arith, h, r, push_ok)))
      ]

read_code_complete :
    (a middle rest : Bytes)
    → 1 ≤ length a
    → length a ≤ 20
    → length middle ≡ 11
    → read_code (minimal_code a middle rest) ≡ ok (some (eip1167 (from_be 0 a)))
read_code_complete a middle rest low high m =
    let n : ℕ = 0x5f + length a - 0x5f in
    let e : 0x5f + length a - 0x5f ≡ length a = omega arith in
    read_code-pushes (0x5f + length a) (a ++ (middle ++ (suffix ++ rest)))
    ∙ ground (
      arith,
      (IsPush-iff (0x5f + length a)).1 (omega arith, omega arith),
      after_push_complete a middle rest n e m,
    )

-- Whatever the code of a contract is, it is found to be a minimal proxy exactly if it has the form of one,
-- with an address of 1 to 20 bytes, and the implementation is then that address.
pub read_code-IsMinimal :
    (code : Bytes) (t : ProxyType)
    → (read_code code ≡ ok (some t))
      ↔ ((address : Address) × IsMinimal code address × (t ≡ eip1167 address))
read_code-IsMinimal code t = (
  (λ h. read_code_sound t code h (read_code-Reading code)),
  λ (address, (a, middle, rest, e, low, high, m, v), k).
      ap read_code e ∙ read_code_complete a middle rest low high m ∙ cc,
)

-- A reading that panics is of a code that is cut.
read_code-panics : (code : Bytes) → read_code code ≡ panic → Reading code → IsCut code
read_code-panics code h (other e _) = absurd (ground (arith, h, e))
read_code-panics code h (ends e _) = inl e
read_code-panics code h (pushes push rest e r) =
    elim (Bool-cases (leb 1 (push - 0x5f) && leb (push - 0x5f) 20)) [
      | inr no_push ↦ absurd (ground (arith, h, r, no_push))
      | inl push_ok ↦
          let short : length rest < push - 0x5f + 11 =
            (after_push-panic_iff rest (push - 0x5f)).0 (ground (arith, h, r, push_ok)) in
          let (over, under) = (IsPush-iff push).0 push_ok in
          inr (push, rest, e, over, under, omega (arith, short, over))
    ]

read_code_cut :
    (push : ℕ) (rest : Bytes)
    → IsPush push
    → length rest + 0x5f < push + 11
    → read_code (prefix ++ push ∷ rest) ≡ panic
read_code_cut push rest p short =
    read_code-pushes push rest
    ∙ ground (
      arith,
      (IsPush-iff push).1 p,
      (after_push-panic_iff rest (push - 0x5f)).1 (omega (arith, short, p)),
    )

read_code_ends : read_code prefix ≡ panic
unfolding read_code
read_code_ends = refl

-- Reading the code of a contract panics exactly if the code is the nine bytes that a minimal proxy starts
-- with, or these, a push of 1 to 20 bytes, and less than those bytes and eleven more.
pub read_code-IsCut : (code : Bytes) → (read_code code ≡ panic) ↔ IsCut code
read_code-IsCut code = ((λ h. read_code-panics code h (read_code-Reading code)), cut)
  where
    cut : IsCut code → read_code code ≡ panic
    cut (inl e) = ap read_code e ∙ read_code_ends
    cut (inr (push, rest, e, over, under, short)) =
        ap read_code e ∙ read_code_cut push rest (over, under) short
