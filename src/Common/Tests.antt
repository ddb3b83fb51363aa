-- ===== src/Common/Tests.antt =====
-- Boolean tests: the orders of the native numbers, and equality (Rust's `PartialEq`) as an
-- instance, with the conditional.
use Prim.Native.Nat.{ℕ, compare, Ordering}
use Prim.Native.String.{String}
use mathlib.Core.Path.{◌≡◌, refl}
use mathlib.Core.Logic.{◌↔◌, ◌⊎◌, inl, inr}
use mathlib.Core.Bool.{Bool, true, false, ◌&&◌}
use mathlib.Core.Option.{Option, none, some}
use mathlib.Core.List.{List, [], ◌∷◌}
use native.Mathlib.Omega.{arith}
use text.Mathlib.Text.{◌==◌ as text_same}
use text.Mathlib.TextEquality.{eq_iff}

abbrev pub ltb : ℕ → ℕ → Bool
ltb a b = elim (compare a b) [ Ordering.lt ↦ true | _ ↦ false ]

abbrev pub leb : ℕ → ℕ → Bool
leb a b = elim (compare a b) [ Ordering.gt ↦ false | _ ↦ true ]

abbrev pub nat_same : ℕ → ℕ → Bool
nat_same a b = elim (compare a b) [ Ordering.eq ↦ true | _ ↦ false ]

infix 1 if◌then◌else◌
abbrev pub if◌then◌else◌ {ℓ} : {A : Type ℓ} → Bool → A → A → A
if true then x else y = x
if false then x else y = y

pub nat_same_iff : (a b : ℕ) → (nat_same a b ≡ true) ↔ (a ≡ b)
nat_same_iff a b = ground arith

-- A type with a decidable equality, as the source derives it by `PartialEq`.
pub record Same {ℓ} (A : Type ℓ) : Type ℓ where
  pub same : A → A → Bool
  pub same_iff : (a b : A) → (same a b ≡ true) ↔ (a ≡ b)

infix 50 ◌==◌
abbrev pub ◌==◌ {ℓ} : {A : Type ℓ} ⦃s : Same A⦄ → A → A → Bool
◌==◌ ⦃s⦄ = s.same

instance abbrev pub nat_Same : Same ℕ
nat_Same = record { same = nat_same; same_iff = nat_same_iff }

instance abbrev pub text_Same : Same String
text_Same = record { same = text_same; same_iff = eq_iff }

module _ {ℓ} {A B : Type ℓ} ⦃s : Same A⦄ ⦃t : Same B⦄ where
  abbrev pub pair_same : A × B → A × B → Bool
  pair_same (a, b) (c, d) = s.same a c && t.same b d

  pub pair_same_iff : (p q : A × B) → (pair_same p q ≡ true) ↔ (p ≡ q)
  pair_same_iff (a, b) (c, d) = ground (arith, s.same_iff a c, t.same_iff b d)

  instance abbrev pub pair_Same : Same (A × B)
  pair_Same = record { same = pair_same; same_iff = pair_same_iff }

module _ {ℓ} {A : Type ℓ} ⦃s : Same A⦄ where
  pub same_refl : (a : A) → (a == a) ≡ true
  same_refl a = (s.same_iff a a).1 refl

  pub same_sym : (a b : A) → (a == b) ≡ (b == a)
  same_sym a b = ground (arith, s.same_iff a b, s.same_iff b a)

module _ {ℓ} {A : Type ℓ} ⦃s : Same A⦄ where
  abbrev pub list_same : List A → List A → Bool
  list_same [] [] = true
  list_same [] (y ∷ ys) = false
  list_same (x ∷ xs) [] = false
  list_same (x ∷ xs) (y ∷ ys) = s.same x y && list_same xs ys

  pub list_same_iff : (xs ys : List A) → (list_same xs ys ≡ true) ↔ (xs ≡ ys)
  list_same_iff [] [] = ground arith
  list_same_iff [] (y ∷ ys) = ground arith
  list_same_iff (x ∷ xs) [] = ground arith
  list_same_iff (x ∷ xs) (y ∷ ys) = ground (arith, s.same_iff x y, list_same_iff xs ys)

  instance abbrev pub list_Same : Same (List A)
  list_Same = record { same = list_same; same_iff = list_same_iff }

-- To split on a computed value and keep the equation.
pub Bool-cases : (b : Bool) → (b ≡ true) ⊎ (b ≡ false)
Bool-cases true = inl refl
Bool-cases false = inr refl

pub Option-cases {ℓ} : {A : Type ℓ} (o : Option A) → (o ≡ none) ⊎ ((a : A) × (o ≡ some a))
Option-cases none = inl refl
Option-cases (some a) = inr (a, refl)

module _ {ℓ} {A : Type ℓ} ⦃s : Same A⦄ where
  abbrev pub option_same : Option A → Option A → Bool
  option_same none none = true
  option_same (some a) (some b) = s.same a b
  option_same _ _ = false

  pub option_same_iff : (o p : Option A) → (option_same o p ≡ true) ↔ (o ≡ p)
  option_same_iff none none = ground arith
  option_same_iff none (some b) = ground arith
  option_same_iff (some a) none = ground arith
  option_same_iff (some a) (some b) = ground (arith, s.same_iff a b)

  instance abbrev pub option_Same : Same (Option A)
  option_Same = record { same = option_same; same_iff = option_same_iff }
