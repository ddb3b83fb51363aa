-- ===== src/Rpc/Laws.antt =====
-- crates/rpc: the chain ids that a switch reads, and the errors that it answers with.
use ethui.Common.{ℕ, ◌<◌, ◌≡◌, ◌↔◌, ◌⊎◌, some, [], ◌∷◌, arith}
use ethui.Common.Radix.{Text, from_str_radix-to_text, from_str_radix-lt, u64_mod}
use ethui.Rpc.{
  Error, tx_dialog_rejected, signature_rejected, user_rejected_dialog, server_error, error_code,
  chain_id_hex, switch_chain_id,
}

-- The chain id that the app announces as text is read back by the switch, for every `u64`.
pub switch_chain_id-chain_id_hex : (c : ℕ) → c < u64_mod → switch_chain_id (chain_id_hex c) ≡ some c
unfolding switch_chain_id chain_id_hex
switch_chain_id-chain_id_hex c u = from_str_radix-to_text 16 (omega arith) (omega arith) c u

-- Whatever text a switch names, a chain id that it reads is a `u64`, and the text began with `0x`.
pub switch_chain_id_bounds :
    (t : Text) (c : ℕ)
    → switch_chain_id t ≡ some c
    → (c < u64_mod) × ((rest : Text) × (t ≡ b'0' ∷ b'x' ∷ rest))
unfolding switch_chain_id
switch_chain_id_bounds [] c e = cc
switch_chain_id_bounds (a ∷ []) c e = cc
switch_chain_id_bounds (a ∷ b ∷ rest) c e =
    (ground (arith, from_str_radix-lt 16 rest c), (rest, ground arith))

-- The code of a user's rejection is that of the three errors of a dialog that was turned down, and of
-- no other error.
pub rejected_iff :
    (e : Error)
    → (error_code e ≡ server_error 4001)
      ↔ ((e ≡ tx_dialog_rejected) ⊎ (e ≡ signature_rejected) ⊎ (e ≡ user_rejected_dialog))
unfolding error_code
rejected_iff e = ground arith
