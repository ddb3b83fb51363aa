-- ===== src/Rpc/Method.antt =====
-- crates/rpc: what the methods share: their results, and the dialogs that they show and wait for
-- (crates/dialogs).
use ethui.Common.{Bool, true, false, Option, none, some, List, [], ◌∷◌, ◌==◌, text_Same}
use ethui.Common.Json.{Json, as_str}
use ethui.Rpc.{Error}

pub data Outcome {ℓ} (A : Type ℓ) : Type ℓ where
  done : A → Outcome A
  failed : Error → Outcome A
  panicked : Outcome A

abbrev pub Call {ℓ} : Type ℓ → Type ℓ → Type ℓ
Call S A = S → Outcome A × S

module _ {ℓ} {S A B : Type ℓ} where
  abbrev pub continue : Outcome A → (A → Call S B) → Call S B
  continue (done a) f s = f a s
  continue (failed e) f s = (failed e, s)
  continue panicked f s = (panicked, s)

  infixl 5 ◌>>=◌ ◌>>◌
  abbrev pub ◌>>=◌ : Call S A → (A → Call S B) → Call S B
  ◌>>=◌ m f s = let (r, s') = m s in continue r f s'

  abbrev pub ◌>>◌ : Call S A → Call S B → Call S B
  m >> n = m >>= λ _. n

module _ {ℓ} {S A : Type ℓ} where
  abbrev pub answer : A → Call S A
  answer a s = (done a, s)

  abbrev pub fail : Error → Call S A
  fail e s = (failed e, s)

  abbrev pub reads : (S → A) → Call S A
  reads f s = (done (f s), s)

  -- `o.ok_or(e)?`
  abbrev pub or_fail : Option A → Error → Call S A
  or_fail (some a) e s = (done a, s)
  or_fail none e s = (failed e, s)

  -- `o.expect(..)`
  abbrev pub expect : Option A → Call S A
  expect (some a) s = (done a, s)
  expect none s = (panicked, s)

abbrev pub writes {ℓ} : {S : Type ℓ} → (S → S) → Call S (Unit {ℓ})
writes f s = (done tt, f s)

-- `DialogMsg` of crates/dialogs.
pub data DialogMsg : Type 0 where
  payload : Json → DialogMsg
  close : DialogMsg

-- How a loop over the messages of a dialog ends: the user accepts, the dialog is closed, or its channel
-- ends.
pub data Verdict : Type 0 where
  accepted closed ended : Verdict

abbrev pub is_accept : Json → Bool
is_accept j = elim (as_str j) [ none ↦ false | some t ↦ t == "accept" ]

-- `while let Some(msg) = dialog.recv().await`: any other message is passed over.
unfoldable pub await_verdict : List DialogMsg → Verdict
await_verdict [] = ended
await_verdict (close ∷ msgs) = closed
await_verdict (payload j ∷ msgs) =
    let rest = await_verdict msgs in elim (is_accept j) [ true ↦ accepted | false ↦ rest ]
