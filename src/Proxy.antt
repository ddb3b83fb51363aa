-- ===== src/Proxy.antt =====
-- crates/proxy-detect: which kind of proxy a contract is, by its code, its storage and its answers.
-- A `B256` or `U256` is a number, `Bytes` are a list of numbers below 256.
pub mod Minimal
pub mod Order
mod Tests
use ethui.Common.{
  ℕ, zero, suc, ◌+◌, ◌-◌, ◌*◌, ◌%◌, ◌^◌, Bool, true, false, not, ◌&&◌, Option, none, some, List, [],
  ◌∷◌, ◌==◌, nat_Same, leb, length, get_elem?, take, drop, if◌then◌else◌,
}
use ethui.Common.Exec.{Result, ok, err, panic}
use ethui.Types.{Address}
use ethui.Rpc.{is_prefix}

abbrev pub Bytes : Type 0
Bytes = List ℕ

-- What a node says: a value, an error response (`is_error_resp`), or any other error.
pub data Answer (A : Type 0) : Type 0 where
  value : A → Answer A
  error_resp : Answer A
  broken : Answer A

-- `Provider`, as far as it is asked. The input of a call is 32 bytes.
pub record Provider : Type 0 where
  pub get_code_at : Address → Answer Bytes
  pub get_storage_at : Address → ℕ → Answer ℕ
  pub call : Address → ℕ → Answer Bytes

pub data ProxyType : Type 0 where
  eip1167 eip1967_direct eip1967_beacon open_zeppelin eip897 safe comptroller : Address → ProxyType

unfoldable pub implementation : ProxyType → Address
implementation (eip1167 addr) = addr
implementation (eip1967_direct addr) = addr
implementation (eip1967_beacon addr) = addr
implementation (open_zeppelin addr) = addr
implementation (eip897 addr) = addr
implementation (safe addr) = addr
implementation (comptroller addr) = addr

abbrev pub Detected : Type 0
Detected = Result (Option ProxyType)

abbrev pub rpc_error : Detected
rpc_error = err "RPC error"

-- utils.rs

unfoldable pub u256_to_address : ℕ → Address
u256_to_address u = u % 2 ^ 160

-- The number that bytes are in big-endian order: `B256::from_slice`, and `Address::left_padding_from`.
pub from_be : ℕ → Bytes → ℕ
from_be acc [] = acc
from_be acc (b ∷ bs) = from_be (acc * 256 + b) bs

unfoldable pub bytes_to_b256_fallible : Bytes → Option ℕ
unfolding from_be
bytes_to_b256_fallible bytes = if length bytes == 32 then some (from_be 0 bytes) else none

unfoldable pub storage_slot_as_address : Provider → Address → ℕ → Result (Option Address)
storage_slot_as_address provider address slot = elim (provider.get_storage_at address slot) [
  | error_resp ↦ ok none
  | broken ↦ err "RPC error"
  | value v ↦ if not (v == 0) then ok (some (u256_to_address v)) else ok none
]

-- eip1167.rs

abbrev pub prefix : Bytes
prefix = 0x36 ∷ 0x3d ∷ 0x3d ∷ 0x37 ∷ 0x3d ∷ 0x3d ∷ 0x3d ∷ 0x36 ∷ 0x3d ∷ []

abbrev pub suffix : Bytes
suffix = 0x57 ∷ 0xfd ∷ 0x5b ∷ 0xf3 ∷ []

-- `EIP1167_SUFFIX_OFFSET_FROM_ADDRESS_END`
abbrev pub suffix_offset : ℕ
suffix_offset = 11

-- What is read of the code, which comes after the prefix and the push: the slice of the suffix panics
-- where the code is too short.
unfoldable pub after_push : Bytes → ℕ → Detected
unfolding from_be
after_push rest address_len =
    if not (leb (address_len + suffix_offset) (length rest))
    then panic
    else if not (is_prefix suffix (drop (address_len + suffix_offset) rest))
    then ok none
    else ok (some (eip1167 (from_be 0 (take address_len rest))))

-- An index out of bounds panics.
unfoldable pub read_code : Bytes → Detected
unfolding after_push
read_code code =
    if not (is_prefix prefix code) then ok none else elim (get_elem? code (length prefix)) [
      | none ↦ panic
      | some push ↦
          let address_len : ℕ = push - 0x5f in
          if not (leb 1 address_len && leb address_len 20)
          then ok none
          else after_push (drop (length prefix + 1) code) address_len
    ]

unfoldable pub detect_eip1167_minimal_proxy : Address → Provider → Detected
detect_eip1167_minimal_proxy address provider = elim (provider.get_code_at address) [
  | error_resp ↦ rpc_error
  | broken ↦ rpc_error
  | value code ↦ read_code code
]

-- eip1967.rs and openzeppelin.rs

abbrev pub logic_slot : ℕ
logic_slot = 0x360894a13ba1a3210667c828492db98dca3e2076cc3735a920a3ca505d382bbc

abbrev pub beacon_slot : ℕ
beacon_slot = 0xa3f0ad74e5423aebfd80d3ef4346578335a9a72aeaee59ff6cb3582b35133d50

abbrev pub open_zeppelin_slot : ℕ
open_zeppelin_slot = 0x7050c9e0f4ca769c69bd3a8ef740bc37934f8e2c036e5a723fd8ee048ed3f8c3

-- `implementation()` and `childImplementation()`
abbrev pub implementation_call : ℕ
implementation_call = 0x5c60da1b00000000000000000000000000000000000000000000000000000000

abbrev pub child_implementation_call : ℕ
child_implementation_call = 0xda52571600000000000000000000000000000000000000000000000000000000

-- An error of the storage is as if there was nothing in it.
abbrev pub by_slot : (Address → ProxyType) → ℕ → Address → Provider → Detected
by_slot kind slot address provider = elim (storage_slot_as_address provider address slot) [
  | ok o ↦ elim o [ none ↦ ok none | some addr ↦ ok (some (kind addr)) ]
  | err e ↦ ok none
  | panic ↦ panic
]

unfoldable pub detect_eip1967_direct_proxy : Address → Provider → Detected
detect_eip1967_direct_proxy = by_slot eip1967_direct logic_slot

unfoldable pub detect_open_zeppelin_proxy : Address → Provider → Detected
detect_open_zeppelin_proxy = by_slot open_zeppelin open_zeppelin_slot

-- `B256::from_slice` panics unless there are 32 bytes.
unfoldable pub beacon_answer : Bytes → Detected
unfolding from_be
beacon_answer bytes =
    if length bytes == 32
    then ok (some (eip1967_beacon (u256_to_address (from_be 0 bytes))))
    else panic

unfoldable pub ask_beacon : Provider → Address → Detected
unfolding beacon_answer
ask_beacon provider beacon = elim (provider.call beacon implementation_call) [
  | value v ↦ beacon_answer v
  | other ↦ elim (provider.call beacon child_implementation_call) [
    | value v ↦ beacon_answer v
    | other ↦ ok none
  ]
]

unfoldable pub detect_eip1967_beacon_proxy : Address → Provider → Detected
unfolding ask_beacon
detect_eip1967_beacon_proxy address provider =
    elim (storage_slot_as_address provider address beacon_slot) [
      | ok o ↦ elim o [ none ↦ ok none | some beacon ↦ ask_beacon provider beacon ]
      | err e ↦ ok none
      | panic ↦ panic
    ]

-- eip897.rs, safe.rs and comptroller.rs

abbrev pub master_copy_call : ℕ
master_copy_call = 0xa619486e00000000000000000000000000000000000000000000000000000000

abbrev pub comptroller_call : ℕ
comptroller_call = 0xbb82aa5e00000000000000000000000000000000000000000000000000000000

abbrev pub by_call : (Address → ProxyType) → ℕ → Address → Provider → Detected
by_call kind input address provider = elim (provider.call address input) [
  | error_resp ↦ ok none
  | broken ↦ rpc_error
  | value v ↦ elim (bytes_to_b256_fallible v) [
    | none ↦ ok none
    | some b256 ↦ ok (some (kind (u256_to_address b256)))
  ]
]

unfoldable pub detect_eip897_proxy : Address → Provider → Detected
detect_eip897_proxy = by_call eip897 implementation_call

unfoldable pub detect_safe_proxy : Address → Provider → Detected
detect_safe_proxy = by_call safe master_copy_call

unfoldable pub detect_comptroller_proxy : Address → Provider → Detected
detect_comptroller_proxy = by_call comptroller comptroller_call

-- `if let Some(proxy_type) = detector? { return Ok(Some(proxy_type)); }`
abbrev pub or_next : Detected → Detected → Detected
or_next (ok none) next = next
or_next (ok (some t)) next = ok (some t)
or_next (err e) next = err e
or_next panic next = panic

unfoldable pub detect_proxy : Address → Provider → Detected
unfolding detect_eip1167_minimal_proxy detect_eip1967_direct_proxy detect_eip1967_beacon_proxy
    detect_open_zeppelin_proxy detect_eip897_proxy detect_safe_proxy detect_comptroller_proxy
detect_proxy address provider = or_next (detect_eip1167_minimal_proxy address provider) (
    or_next (detect_eip1967_direct_proxy address provider) (
      or_next (detect_eip1967_beacon_proxy address provider) (
        or_next (detect_open_zeppelin_proxy address provider) (
          or_next (detect_eip897_proxy address provider) (
            or_next (detect_safe_proxy address provider)
              (detect_comptroller_proxy address provider))))))
