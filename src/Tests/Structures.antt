-- ===== src/Tests/Structures.antt =====
-- The theorems on the declared types and on physical memory at concrete inputs.
use mathlib.Core.List.{Memᴰ}
use guypervisor.Base.{
  ◌+◌, ◌%◌, ◌≤◌, ◌≡◌, ◌↔◌, ◌⊎◌, refl, List, [], ◌∷◌, ◌++◌, arith, ◌<◌, true, false, some,
}
use guypervisor.Machine.{Platform, map_view, unmap_view, get_physical_address}
use guypervisor.Machine.Returns.{Returns}
use guypervisor.Machine.Memory.{load}
use guypervisor.VirtualAddr.{allocate_aligned}
use guypervisor.ProcessorContext.Ept.{set_pml4_entry}
use guypervisor.Structures.{CType, struct, end, size_of}
use guypervisor.Structures.Placed.{members_of}
use guypervisor.Structures.Registers.{register32}
use guypervisor.Structures.Words.{words-roundtrip, structs_of, word_of, fields_of}
use guypervisor.Structures.Paging.{pml4_entry}
use guypervisor.Structures.Used.{values, behind, first, set_pml4_entry-values}
use guypervisor.Structures.Region.{allocate_aligned-page}
use guypervisor.VirtualAddr.Physical.{write_physical_memory}
use guypervisor.VirtualAddr.Mapped.{write_physical_memory-outcome}
use guypervisor.Tests.{wdm-IsDocumented, willing, after}

abbrev second : List CType → CType
second (_ ∷ s ∷ _) = s
second other = struct 1 end

abbrev second_struct : CType → CType
second_struct t = second (structs_of t)

-- The second struct of `Register32`, which declares bit 31 first.
reversed : Memᴰ (second_struct register32) (structs_of register32)
reversed = Memᴰ.tail (Memᴰ.head refl)

words-roundtrip_example :
    word_of
      (members_of (second_struct register32))
      (fields_of (members_of (second_struct register32)) 0x80000421)
    ≡ 0x80000421
unfolding size_of
words-roundtrip_example =
    words-roundtrip register32 (second_struct register32) 0x80000421 (Memᴰ.head refl) reversed
      (omega arith)

set_pml4_entry-values_example :
    let old = values pml4_entry (load (after []).memory 8 20480) in
    Returns
      (λ _ w'.
        (values pml4_entry (load w'.memory 8 20480)
          ≡ 1 ∷ 1 ∷ 1 ∷ first 5 (behind 3 old) ++ 2 ∷ behind 9 old)
        × (w'.trace ≡ get_physical_address 28672 ∷ [])
        × (w'.context ≡ (after []).context))
      (set_pml4_entry willing 20480 28672 (after []))
set_pml4_entry-values_example =
    set_pml4_entry-values willing 20480 28672 (after []) wdm-IsDocumented

-- A machine with the declared size of the VMCS.
abbrev sized : Platform
sized = record willing { vmcs_size = 792 }

allocate_aligned-page_example :
    Returns
      (λ region _.
        (region + 4096 ≤ 8192 + (792 + 4096)) ↔ ((8192 % 4096 ≡ 0) ⊎ (4096 ≤ 8192 % 4096 + 792)))
      (allocate_aligned sized 792 4096 (after []))
unfolding size_of
allocate_aligned-page_example =
    allocate_aligned-page sized (after []) refl (omega arith) (omega arith)

-- A kernel that maps a view at 8192.
abbrev mapping : Platform
mapping = record willing { loaded = λ _ _. some 8192 }

write_physical_memory-outcome_example :
    Returns
      (λ s w'.
        ((8 < 4) × (s ≡ 1) × (w' ≡ after []))
        ⊎ (((4 ≤ 8)
              × (true ≡ false)
              × (s ≡ 0)
              × (w'.memory ≡ (after []).memory)
              × (w'.trace ≡ map_view 5 4096 8 ∷ []))
            ⊎ ((4 ≤ 8)
                × (true ≡ true)
                × (s ≡ 1)
                × (load w'.memory 4 8192 ≡ 0x37133713)
                × (w'.trace ≡ unmap_view 8192 ∷ map_view 5 4096 8 ∷ []))))
      (write_physical_memory mapping 5 4096 8 (after []))
write_physical_memory-outcome_example =
    write_physical_memory-outcome mapping 5 4096 8 8192 (after []) wdm-IsDocumented refl
      (omega arith)
