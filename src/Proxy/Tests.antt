-- ===== src/Proxy/Tests.antt =====
-- crates/proxy-detect: the theorems at concrete codes and nodes.
use ethui.Common.{◌≡◌, ◌↔◌, refl, none, some, [], ◌∷◌, ◌++◌, nat_Same, if◌then◌else◌, ◌==◌}
use ethui.Common.Exec.{ok, panic}
use ethui.Types.{Address}
use ethui.Proxy.{
  Bytes, value, error_resp, Provider, eip1167, detect_proxy, read_code, prefix, beacon_slot,
}
use ethui.Proxy.Minimal.{IsMinimal, minimal_code, IsCut, read_code-IsMinimal, read_code-IsCut}
use ethui.Proxy.Order.{IsSaid, detect_proxy-IsSaid}

-- The eleven bytes between an address of two bytes and the suffix.
abbrev middle : Bytes
middle = 0x5a ∷ 0xf4 ∷ 0x3d ∷ 0x82 ∷ 0x80 ∷ 0x3e ∷ 0x90 ∷ 0x3d ∷ 0x91 ∷ 0x60 ∷ 0x19 ∷ []

abbrev vanity : Bytes
vanity = minimal_code (0x12 ∷ 0x34 ∷ []) middle []

-- A node at which every account has the code of a minimal proxy.
abbrev minimal_node : Provider
minimal_node = record {
  get_code_at = λ a. value vanity;
  get_storage_at = λ a slot. value 0;
  call = λ a input. error_resp;
}

-- A node at which every account has the code 0x00 and a beacon, which answers nothing.
abbrev beacon_node : Provider
beacon_node = record {
  get_code_at = λ a. value (0 ∷ []);
  get_storage_at = λ a slot. value (if slot == beacon_slot then 7 else 0);
  call = λ a input. value [];
}

vanity_found : read_code vanity ≡ ok (some (eip1167 0x1234))
unfolding read_code
vanity_found = refl

read_code-IsMinimal_example :
    (read_code vanity ≡ ok (some (eip1167 0x1234)))
    ↔ ((address : Address) × IsMinimal vanity address × (eip1167 0x1234 ≡ eip1167 address))
read_code-IsMinimal_example = read_code-IsMinimal vanity (eip1167 0x1234)

read_code-IsCut_example : (read_code (prefix ++ 0x73 ∷ []) ≡ panic) ↔ IsCut (prefix ++ 0x73 ∷ [])
read_code-IsCut_example = read_code-IsCut (prefix ++ 0x73 ∷ [])

not_proxy : read_code (0 ∷ []) ≡ ok none
unfolding read_code
not_proxy = refl

minimal_found : detect_proxy 1 minimal_node ≡ ok (some (eip1167 0x1234))
unfolding detect_proxy read_code
minimal_found = refl

detect_proxy-IsSaid_example : IsSaid minimal_node 1 (eip1167 0x1234)
detect_proxy-IsSaid_example = detect_proxy-IsSaid minimal_node 1 (eip1167 0x1234) minimal_found
