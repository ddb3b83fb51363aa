-- ===== src/Proxy/Order.antt =====
-- crates/proxy-detect: what `detect_proxy` makes of the detectors, in their order, and the addresses that it
-- gives.
use ethui.Common.{
  ℕ, zero, suc, ◌+◌, ◌*◌, ◌/◌, ◌^◌, ◌<◌, ◌≡◌, ◌≢◌, ◌⊎◌, refl, sym, inl, inr, Bool-cases, ◌==◌,
  Option, none, some, arith, length, nat_Same, nat_same_iff,
}
use ethui.Common.Exec.{Result, ok, err, panic}
use ethui.Types.{Address}
use mathlib.Core.Path.{subst}
use ethui.Proxy.Minimal.{IsMinimal, read_code-IsMinimal}
use ethui.Proxy.{
  eip1967_direct, eip1967_beacon, open_zeppelin, detect_eip1167_minimal_proxy,
  detect_eip1967_beacon_proxy, Bytes, Answer, value, error_resp, broken, Provider, ProxyType,
  eip897, safe, comptroller, eip1167, Detected, from_be, u256_to_address, storage_slot_as_address,
  or_next, bytes_to_b256_fallible, read_code, by_slot, by_call, ask_beacon,
  child_implementation_call, beacon_answer, detect_proxy, beacon_slot, implementation_call,
  logic_slot, open_zeppelin_slot, master_copy_call, comptroller_call,
}

-- A beacon whose answer to `implementation()` is not of 32 bytes, as that of an account without code is,
-- makes the detection panic, if the contract is no minimal proxy and has no implementation slot.
pub detect_proxy-beacon_panics :
    (provider : Provider) (address : Address) (code : Bytes) (slot : ℕ) (answer : Bytes)
    → provider.get_code_at address ≡ value code
    → read_code code ≡ ok none
    → provider.get_storage_at address logic_slot ≡ value 0
    → provider.get_storage_at address beacon_slot ≡ value slot
    → slot ≢ 0
    → provider.call (u256_to_address slot) implementation_call ≡ value answer
    → length answer ≢ 32
    → detect_proxy address provider ≡ panic
unfolding detect_proxy storage_slot_as_address beacon_answer
detect_proxy-beacon_panics provider address code slot answer c r l b s a n =
    ground (arith, c, r, l, b, s, a, n)

-- An address is the low 160 bits of a word.
abbrev pub IsLow : ℕ → Address → Type 0
IsLow u a = (a < 2 ^ 160) × ((high : ℕ) × (u ≡ high * 2 ^ 160 + a))

u256_to_address-IsLow : (u : ℕ) → IsLow u (u256_to_address u)
unfolding u256_to_address
u256_to_address-IsLow u = (omega arith, (u / 2 ^ 160, omega arith))

module _ (provider : Provider) (address : Address) where
  -- The account has in a slot a word that is not zero.
  abbrev pub InSlot : ℕ → Address → Type 0
  InSlot slot a = (u : ℕ) × (provider.get_storage_at address slot ≡ value u) × (u ≢ 0) × IsLow u a

  -- An account answers a call with 32 bytes.
  abbrev pub Answers : Address → ℕ → Address → Type 0
  Answers to input a =
      (bs : Bytes) × (provider.call to input ≡ value bs) × (length bs ≡ 32) × IsLow (from_be 0 bs) a

  -- Where the address of an implementation stands, for each kind of proxy. A beacon is asked for its child
  -- only if it does not answer the first call.
  abbrev pub IsSaid : ProxyType → Type 0
  IsSaid (eip1167 a) =
      (code : Bytes) × (provider.get_code_at address ≡ value code) × IsMinimal code a
  IsSaid (eip1967_direct a) = InSlot logic_slot a
  IsSaid (eip1967_beacon a) =
      (beacon : Address) × InSlot beacon_slot beacon
      × (Answers beacon implementation_call a
          ⊎ (((bs : Bytes) → provider.call beacon implementation_call ≢ value bs)
              × Answers beacon child_implementation_call a))
  IsSaid (open_zeppelin a) = InSlot open_zeppelin_slot a
  IsSaid (eip897 a) = Answers address implementation_call a
  IsSaid (safe a) = Answers address master_copy_call a
  IsSaid (comptroller a) = Answers address comptroller_call a

  abbrev Says : Detected → Type 0
  Says r = (t : ProxyType) → r ≡ ok (some t) → IsSaid t

  or_next-Says : (r next : Detected) → Says r → Says next → Says (or_next r next)
  or_next-Says (ok none) next hr hn t e = hn t e
  or_next-Says (ok (some u)) next hr hn t e = hr t e
  or_next-Says (err m) next hr hn t e = hr t e
  or_next-Says panic next hr hn t e = hr t e

  some-Says : (u t : ProxyType) → IsSaid u → ok (some u) ≡ ok (some t) → IsSaid t
  some-Says u t h e = let k : u ≡ t = ground (arith, e) in subst IsSaid k h

  slot-InSlot :
      (slot : ℕ) (a : Address)
      → storage_slot_as_address provider address slot ≡ ok (some a)
      → InSlot slot a
  unfolding storage_slot_as_address
  slot-InSlot slot a e = of_answer (provider.get_storage_at address slot) refl
    where
      of_answer : (x : Answer ℕ) → provider.get_storage_at address slot ≡ x → InSlot slot a
      of_answer error_resp p = absurd (ground (arith, p, e))
      of_answer broken p = absurd (ground (arith, p, e))
      of_answer (value zero) p = absurd (ground (arith, p, e))
      of_answer (value (suc v)) p =
          let k : u256_to_address (suc v) ≡ a = ground (arith, p, e) in
          (
            suc v,
            p,
            (λ z. absurd (omega (arith, z))),
            subst (IsLow (suc v)) k (u256_to_address-IsLow (suc v)),
          )

  slot-Says :
      (kind : Address → ProxyType) (slot : ℕ)
      → ((a : Address) → InSlot slot a → IsSaid (kind a))
      → Says (by_slot kind slot address provider)
  slot-Says kind slot k t e = of_slot (storage_slot_as_address provider address slot) refl
    where
      of_slot :
          (r : Result (Option Address))
          → storage_slot_as_address provider address slot ≡ r
          → IsSaid t
      of_slot (ok none) p = absurd (ground (arith, p, e))
      of_slot (ok (some a)) p =
          some-Says (kind a) t (k a (slot-InSlot slot a p)) (ground (arith, p, e))
      of_slot (err m) p = absurd (ground (arith, p, e))
      of_slot panic p = absurd (ground (arith, p, e))

  call-Says :
      (kind : Address → ProxyType) (input : ℕ)
      → ((a : Address) → Answers address input a → IsSaid (kind a))
      → Says (by_call kind input address provider)
  unfolding bytes_to_b256_fallible
  call-Says kind input k t e = of_answer (provider.call address input) refl
    where
      of_answer : (x : Answer Bytes) → provider.call address input ≡ x → IsSaid t
      of_answer error_resp p = absurd (ground (arith, p, e))
      of_answer broken p = absurd (ground (arith, p, e))
      of_answer (value bs) p = elim (Bool-cases (length bs == 32)) [
        | inl full ↦
            some-Says (kind (u256_to_address (from_be 0 bs))) t
              (k (u256_to_address (from_be 0 bs))
                (bs, p, (nat_same_iff (length bs) 32).0 full, u256_to_address-IsLow (from_be 0 bs)))
              (ground (arith, p, full, e))
        | inr short ↦ absurd (ground (arith, p, short, e))
      ]

  minimal-Says : Says (detect_eip1167_minimal_proxy address provider)
  unfolding detect_eip1167_minimal_proxy
  minimal-Says t e = of_answer (provider.get_code_at address) refl
    where
      of_answer : (x : Answer Bytes) → provider.get_code_at address ≡ x → IsSaid t
      of_answer error_resp p = absurd (ground (arith, p, e))
      of_answer broken p = absurd (ground (arith, p, e))
      of_answer (value code) p =
          let (a, m, k) = (read_code-IsMinimal code t).0 (ground (arith, p, e)) in
          subst IsSaid (sym k) (code, p, m)

  answer-Says :
      (beacon : Address) (input : ℕ) (bytes : Bytes) (t : ProxyType)
      → provider.call beacon input ≡ value bytes
      → beacon_answer bytes ≡ ok (some t)
      → (a : Address) × (t ≡ eip1967_beacon a) × Answers beacon input a
  unfolding beacon_answer
  answer-Says beacon input bytes t p e = elim (Bool-cases (length bytes == 32)) [
    | inl full ↦ (
      u256_to_address (from_be 0 bytes),
      ground (arith, full, e),
      (bytes, p, (nat_same_iff (length bytes) 32).0 full, u256_to_address-IsLow (from_be 0 bytes)),
    )
    | inr short ↦ absurd (ground (arith, short, e))
  ]

  ask-Says : (beacon : Address) → InSlot beacon_slot beacon → Says (ask_beacon provider beacon)
  unfolding ask_beacon
  ask-Says beacon s t e =
      of_answers (provider.call beacon implementation_call)
        (provider.call beacon child_implementation_call) refl refl
    where
      child :
          (v : Bytes)
          → ((bs : Bytes) → provider.call beacon implementation_call ≢ value bs)
          → provider.call beacon child_implementation_call ≡ value v
          → beacon_answer v ≡ ok (some t)
          → IsSaid t
      child v n q k =
          let (a, f, h) = answer-Says beacon child_implementation_call v t q k in
          subst IsSaid (sym f) (beacon, s, inr (n, h))

      of_answers :
          (a b : Answer Bytes)
          → provider.call beacon implementation_call ≡ a
          → provider.call beacon child_implementation_call ≡ b
          → IsSaid t
      of_answers (value v) b p q =
          let (a, f, h) = answer-Says beacon implementation_call v t p (ground (arith, p, e)) in
          subst IsSaid (sym f) (beacon, s, inl h)
      of_answers error_resp (value v) p q =
          child v (λ bs k. absurd (ground (arith, p, k))) q (ground (arith, p, q, e))
      of_answers broken (value v) p q =
          child v (λ bs k. absurd (ground (arith, p, k))) q (ground (arith, p, q, e))
      of_answers error_resp error_resp p q = absurd (ground (arith, p, q, e))
      of_answers error_resp broken p q = absurd (ground (arith, p, q, e))
      of_answers broken error_resp p q = absurd (ground (arith, p, q, e))
      of_answers broken broken p q = absurd (ground (arith, p, q, e))

  beacon-Says : Says (detect_eip1967_beacon_proxy address provider)
  unfolding detect_eip1967_beacon_proxy
  beacon-Says t e = of_slot (storage_slot_as_address provider address beacon_slot) refl
    where
      of_slot :
          (r : Result (Option Address))
          → storage_slot_as_address provider address beacon_slot ≡ r
          → IsSaid t
      of_slot (ok none) p = absurd (ground (arith, p, e))
      of_slot (ok (some b)) p = ask-Says b (slot-InSlot beacon_slot b p) t (ground (arith, p, e))
      of_slot (err m) p = absurd (ground (arith, p, e))
      of_slot panic p = absurd (ground (arith, p, e))

-- The proxy that is detected is what the node says of the contract: a minimal proxy's address stands in the
-- code, the addresses of EIP-1967 and OpenZeppelin are the low 160 bits of the word in their slot, or of what
-- the beacon in the slot answers, and the others are the low 160 bits of what the contract answers to the
-- call of their kind.
pub detect_proxy-IsSaid :
    (provider : Provider) (address : Address) (t : ProxyType)
    → detect_proxy address provider ≡ ok (some t)
    → IsSaid provider address t
unfolding detect_proxy
detect_proxy-IsSaid provider address =
    or_next-Says provider address _ _ (minimal-Says provider address) (
      or_next-Says provider address _ _ (slot-Says provider address eip1967_direct _ (λ a h. h)) (
        or_next-Says provider address _ _ (beacon-Says provider address) (
          or_next-Says provider address _ _ (slot-Says provider address open_zeppelin _ (λ a h. h))
            (or_next-Says provider address _ _ (call-Says provider address eip897 _ (λ a h. h)) (
              or_next-Says provider address _ _ (call-Says provider address safe _ (λ a h. h))
                (call-Says provider address comptroller _ (λ a h. h)))))))
