-- ===== src/Common/Radix.antt =====
-- Numbers in texts, as the standard library reads and writes them: `u64::from_str_radix` (and
-- `usize::from_str`, at base 10) and the formats `{}` and `{:x}`. A text is the list of its bytes.
use Prim.Native.Nat.{ℕ, zero, suc, ◌+◌, ◌-◌, ◌*◌, ◌/◌, ◌%◌, ◌^◌, ◌≤◌, ◌<◌}
use mathlib.Core.Path.{◌≡◌, ◌∙◌, refl, ap}
use mathlib.Core.Logic.{◌≢◌, inl, inr}
use mathlib.Core.Bool.{◌&&◌}
use mathlib.Core.Option.{Option, none, some}
use mathlib.Core.List.{List, [], ◌∷◌, ◌++◌}
use native.Mathlib.Omega.{arith}
use native.Mathlib.Nat.{div-add-mod, pow-suc, mod-lt}
use ethui.Common.Tests.{ltb, leb, nat_same, if◌then◌else◌, Bool-cases, Option-cases}

abbrev pub Text : Type 0
Text = List ℕ

abbrev pub u64_mod : ℕ
u64_mod = 18446744073709551616

-- `char::to_digit`, before its test against the radix.
unfoldable pub digit_value : ℕ → Option ℕ
digit_value c =
    if leb b'0' c && leb c b'9'
    then some (c - 48)
    else if leb b'a' c && leb c b'z'
    then some (c - 87)
    else if leb b'A' c && leb c b'Z'
    then some (c - 55)
    else none

-- One character on an accumulator: the digit must be below the radix, and the result must fit.
unfoldable pub push_digit : ℕ → ℕ → ℕ → Option ℕ
unfolding digit_value
push_digit radix acc c = elim (digit_value c) [
  | none ↦ none
  | some d ↦
      if ltb d radix
      then (if ltb (acc * radix + d) u64_mod then some (acc * radix + d) else none)
      else none
]

unfoldable pub push_digits : ℕ → ℕ → Text → Option ℕ
unfolding push_digit
push_digits radix acc [] = some acc
push_digits radix acc (c ∷ cs) = elim (push_digit radix acc c) [
  | none ↦ none
  | some a ↦ push_digits radix a cs
]

-- A leading `+` is dropped; a text with no digit is an error.
unfoldable pub from_str_radix : ℕ → Text → Option ℕ
unfolding push_digits
from_str_radix radix [] = none
from_str_radix radix (c ∷ []) = push_digit radix 0 c
from_str_radix radix (c ∷ d ∷ cs) =
    if nat_same c b'+' then push_digits radix 0 (d ∷ cs) else push_digits radix 0 (c ∷ d ∷ cs)

unfoldable pub digit_char : ℕ → ℕ
digit_char d = if ltb d 10 then 48 + d else 87 + d

-- The digits of a number below `radix ^ fuel`.
unfoldable pub digits : ℕ → ℕ → ℕ → Text
unfolding digit_char
digits zero radix n = []
digits (suc fuel) radix n =
    let rest = digits fuel radix (n / radix) in
    if ltb n radix then digit_char n ∷ [] else rest ++ digit_char (n % radix) ∷ []

-- 64 digits are enough for a `u64` at every radix.
unfoldable pub to_text : ℕ → ℕ → Text
unfolding digits
to_text radix n = digits 64 radix n

push_digits-append :
    (radix acc : ℕ) (cs : Text) (c a : ℕ)
    → push_digits radix acc cs ≡ some a
    → push_digits radix acc (cs ++ c ∷ []) ≡ push_digit radix a c
unfolding push_digits
push_digits-append radix acc [] c a e = ground arith
push_digits-append radix acc (d ∷ cs) c a e = elim (Option-cases (push_digit radix acc d)) [
  | inl bad ↦ ground arith
  | inr (b, good) ↦ ground (arith, push_digits-append radix b cs c a)
]

push_digit-digit_char :
    (radix acc d : ℕ)
    → radix ≤ 36
    → d < radix
    → acc * radix + d < u64_mod
    → push_digit radix acc (digit_char d) ≡ some (acc * radix + d)
unfolding push_digit digit_char
push_digit-digit_char radix acc d r h fits = ground arith

div_half : (n radix p : ℕ) → 2 ≤ radix → n < 2 * p → n / radix < p
div_half n radix p r h = grind (arith, div-add-mod n radix)

push_digits-nil : (radix acc : ℕ) → push_digits radix acc [] ≡ some acc
unfolding push_digits
push_digits-nil radix acc = refl

-- The text begins with a digit, so no sign is taken off it.
abbrev StartsUnsigned : Text → Type 0
StartsUnsigned [] = ⊥
StartsUnsigned (c ∷ cs) = c ≢ b'+'

append-StartsUnsigned : (cs ds : Text) → StartsUnsigned cs → StartsUnsigned (cs ++ ds)
append-StartsUnsigned [] ds h = absurd h
append-StartsUnsigned (c ∷ cs) ds h = h

digit_char-ne-plus : (d : ℕ) → digit_char d ≢ b'+'
unfolding digit_char
digit_char-ne-plus d e = ground arith

from_str_radix-unsigned :
    (radix : ℕ) (cs : Text) → StartsUnsigned cs → from_str_radix radix cs ≡ push_digits radix 0 cs
unfolding from_str_radix push_digits
from_str_radix-unsigned radix [] h = absurd h
from_str_radix-unsigned radix (c ∷ []) h = ground arith
from_str_radix-unsigned radix (c ∷ d ∷ cs) h = ground arith

module _ (radix : ℕ) (two : 2 ≤ radix) (most : radix ≤ 36) where
  push_digits-digits :
      (fuel n : ℕ) → n < 2 ^ fuel → n < u64_mod → push_digits radix 0 (digits fuel radix n) ≡ some n
  unfolding digits
  push_digits-digits zero n h u = ground (arith, push_digits-nil radix 0)
  push_digits-digits (suc fuel) n h u = elim (Bool-cases (ltb n radix)) [
    | inl small ↦ rw small (
        push_digits-append radix 0 [] (digit_char n) 0 (push_digits-nil radix 0)
        ∙ push_digit-digit_char radix 0 n most (ground arith) (ground arith)
        ∙ ap some (omega arith))
    | inr large ↦
        let q : n / radix < 2 ^ fuel =
          div_half n radix (2 ^ fuel) two (ground (arith, pow-suc 2 fuel)) in
        let le : n / radix ≤ n = grind arith in
        let whole : n / radix * radix + n % radix ≡ n = grind (arith, div-add-mod n radix) in
        rw large (
          push_digits-append radix 0 (digits fuel radix (n / radix)) (digit_char (n % radix))
            (n / radix) (push_digits-digits fuel (n / radix) q (omega arith))
          ∙ push_digit-digit_char radix (n / radix) (n % radix) most (mod-lt n (omega arith))
              (rw whole u)
          ∙ ap some whole)
  ]

  digits-StartsUnsigned : (fuel n : ℕ) → StartsUnsigned (digits (suc fuel) radix n)
  unfolding digits
  digits-StartsUnsigned zero n = elim (Bool-cases (ltb n radix)) [
    | inl small ↦ rw small (digit_char-ne-plus n)
    | inr large ↦ rw large (digit_char-ne-plus (n % radix))
  ]
  digits-StartsUnsigned (suc fuel) n = elim (Bool-cases (ltb n radix)) [
    | inl small ↦ rw small (digit_char-ne-plus n)
    | inr large ↦ rw large (
        append-StartsUnsigned _ (digit_char (n % radix) ∷ [])
          (digits-StartsUnsigned fuel (n / radix)))
  ]

  -- Reading a written `u64` at the same radix, from 2 to 36, gives it back.
  pub from_str_radix-to_text :
      (n : ℕ) → n < u64_mod → from_str_radix radix (to_text radix n) ≡ some n
  unfolding to_text
  from_str_radix-to_text n u =
      from_str_radix-unsigned radix (digits 64 radix n) (digits-StartsUnsigned 63 n)
      ∙ push_digits-digits 64 n u u

push_digit-lt : (radix acc c n : ℕ) → push_digit radix acc c ≡ some n → n < u64_mod
unfolding push_digit
push_digit-lt radix acc c n e = ground arith

push_digits-lt :
    (radix acc : ℕ) (cs : Text) (n : ℕ)
    → acc < u64_mod
    → push_digits radix acc cs ≡ some n
    → n < u64_mod
unfolding push_digits
push_digits-lt radix acc [] n u e = ground arith
push_digits-lt radix acc (c ∷ cs) n u e = elim (Option-cases (push_digit radix acc c)) [
  | inl bad ↦ ground arith
  | inr (a, good) ↦ push_digits-lt radix a cs n (push_digit-lt radix acc c a good) (ground arith)
]

-- What is read is a `u64`.
pub from_str_radix-lt :
    (radix : ℕ) (cs : Text) (n : ℕ) → from_str_radix radix cs ≡ some n → n < u64_mod
unfolding from_str_radix
from_str_radix-lt radix [] n e = cc
from_str_radix-lt radix (c ∷ []) n e = push_digit-lt radix 0 c n e
from_str_radix-lt radix (c ∷ d ∷ cs) n e =
    ground (arith, push_digits-lt radix 0 (d ∷ cs) n, push_digits-lt radix 0 (c ∷ d ∷ cs) n)
