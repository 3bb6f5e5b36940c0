-- ===== src/Tests/Layout.antt =====
-- The theorems on encodings, descriptors and regions of memory at concrete inputs.
use guypervisor.Machine.{Call}
use guypervisor.Processor.Descriptor.{without_rpl-offset}
use guypervisor.Tests.{willing, after}
use guypervisor.Base.{
  ◌+◌, ◌*◌, ◌/◌, ◌%◌, ◌^◌, ◌≤◌, ◌≡◌, ◌≢◌, refl, ◌==◌, if◌then◌else◌, [], arith, ◌⊎◌, ◌∷◌,
}
use guypervisor.Machine.Returns.{Returns}
use guypervisor.Machine.Memory.{load}
use guypervisor.Fields.{encode, control16, host32, guest16}
use guypervisor.Fields.Control.{control_vpid}
use guypervisor.Fields.Guest.{guest_cs_selector}
use guypervisor.Fields.Host.{host_ia32_sysenter_cs}
use guypervisor.Fields.Layout.{
  field_encoding, component_value, width_value, component, width, encode-layout, reserved1-encode,
}
use guypervisor.Fields.Decode.{encode-injective}
use guypervisor.Processor.{without_rpl, gdt_entry_at, descriptor_base, read_gdt_entry}
use guypervisor.Processor.Descriptor.{descriptor_base-bytes, read_gdt_entry-bytes, base_bytes}
use guypervisor.VirtualAddr.{allocate_aligned}
use guypervisor.VirtualAddr.Aligned.{answered, allocate_aligned-outcome}

encode-injective_example : control16 control_vpid ≡ control16 control_vpid
encode-injective_example = encode-injective (control16 control_vpid) (control16 control_vpid) refl

encode-layout_example :
    let n = encode (host32 host_ia32_sysenter_cs) in
    (n / 2 ^ 10 % 4 ≡ 3)
    × (n / 2 ^ 13 ≡ 2)
    × (n / 2 ^ 12 % 2 ≡ 0)
    × ((width_value (width (host32 host_ia32_sysenter_cs)) ≡ 1) ⊎ (n % 2 ≡ 0))
encode-layout_example = encode-layout (host32 host_ia32_sysenter_cs)

reserved1-encode_example :
    (field_encoding (encode (guest16 guest_cs_selector))).reserved1
    ≡ component_value (component (guest16 guest_cs_selector)) / 2
reserved1-encode_example = reserved1-encode (guest16 guest_cs_selector)

descriptor_base-bytes_example :
    descriptor_base (gdt_entry_at (λ a. a) 16)
    ≡ 18 % 256
      + 19 % 256 * 2 ^ 8
      + 20 % 256 * 2 ^ 16
      + 23 % 256 * 2 ^ 24
      + (if 21 % 256 / 16 % 2 == 0 then load (λ a. a) 4 24 * 2 ^ 32 else 0)
descriptor_base-bytes_example = descriptor_base-bytes (λ a. a) 16

read_gdt_entry-bytes_example :
    Returns
      (λ entry w'.
        (w'.memory ≡ (after []).memory)
        × (w'.trace ≡ Call.load_access_rights 20 ∷ Call.segment_limit 20 ∷ [])
        × (entry.limit ≡ 8192)
        × (entry.base ≡ base_bytes (λ a. a) 116)
        × (entry.access ≡ 32))
      (read_gdt_entry willing (record { limit = 127; base = 96 }) 20 (after []))
read_gdt_entry-bytes_example =
    read_gdt_entry-bytes willing (record { limit = 127; base = 96 }) 20 (after []) (omega arith)

allocate_aligned-outcome_example :
    Returns
      (λ result w'.
        ((answered willing 4096 (2 ^ 12) (after []) ≡ 0)
          × (result ≡ 0)
          × (w'.memory ≡ (after []).memory))
        ⊎ ((answered willing 4096 (2 ^ 12) (after []) ≢ 0)
            × (result % 2 ^ 12 ≡ 0)
            × (8192 ≤ result)
            × (result + 4096 ≤ 8192 + (4096 + 2 ^ 12))
            × (w'.memory (result + 5) ≡ 0)))
      (allocate_aligned willing 4096 (2 ^ 12) (after []))
allocate_aligned-outcome_example =
    allocate_aligned-outcome willing 52 12 4096 5 (after []) refl (omega arith) (omega arith)

without_rpl-offset_example : without_rpl 0x2b ≡ 0x2b / 8 * 8 + 0x2b / 4 % 2 * 4
without_rpl-offset_example = without_rpl-offset 0x2b (omega arith)
