-- ===== src/Common/Exec.antt =====
-- Methods on `&mut self` that may return `Err`, or panic. What was written before the error stays
-- written, so the state comes back beside the error too; a panic is caught by the actor's
-- `on_panic`, which goes on with the state that the panic left.
use mathlib.Core.Option.{Option, none, some}
use Prim.Native.String.{String}

pub data Result {ℓ} (A : Type ℓ) : Type ℓ where
  ok : A → Result A
  err : String → Result A
  panic : Result A

abbrev pub Exec {ℓ} : Type ℓ → Type ℓ → Type ℓ
Exec S A = S → Result A × S

module _ {ℓ} {S A B : Type ℓ} where
  abbrev pub continue : Result A → (A → Exec S B) → Exec S B
  continue (ok a) f s = f a s
  continue (err e) f s = (err e, s)
  continue panic f s = (panic, s)

  infixl 5 ◌>>=◌ ◌>>◌
  abbrev pub ◌>>=◌ : Exec S A → (A → Exec S B) → Exec S B
  ◌>>=◌ m f s = let (r, s') = m s in continue r f s'

  abbrev pub ◌>>◌ : Exec S A → Exec S B → Exec S B
  m >> n = m >>= λ _. n

module _ {ℓ} {S A : Type ℓ} where
  abbrev pub pure : A → Exec S A
  pure a s = (ok a, s)

  -- `return Err(eyre!(e))`
  abbrev pub raise : String → Exec S A
  raise e s = (err e, s)

  abbrev pub lift : Result A → Exec S A
  lift r s = (r, s)

  abbrev pub gets : (S → A) → Exec S A
  gets f s = (ok (f s), s)

  -- `o.with_context(|| e)?`
  abbrev pub or_raise : Option A → String → Exec S A
  or_raise (some a) e s = (ok a, s)
  or_raise none e s = (err e, s)

  -- `o.unwrap()` and `o.expect(..)`
  abbrev pub unwrap : Option A → Exec S A
  unwrap (some a) s = (ok a, s)
  unwrap none s = (panic, s)

abbrev pub modify {ℓ} : {S : Type ℓ} → (S → S) → Exec S (Unit {ℓ})
modify f s = (ok tt, f s)
