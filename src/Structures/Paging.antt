-- ===== src/Structures/Paging.antt =====
-- The entries of the tables of EPT (Guypervisor/paging.h).
use guypervisor.Structures.{CType, bits, scalar, struct, union, whole, end, ◌▷◌}

-- `PML4E`
abbrev pub pml4_entry : CType
pml4_entry = union 16 (
    whole "fields" (
      struct 16 (
        bits "read_access" 8 1
        ▷ bits "write_access" 8 1
        ▷ bits "execute_access" 8 1
        ▷ bits "reserved1" 8 5
        ▷ bits "dirty_flag" 8 1
        ▷ bits "reserved2" 8 1
        ▷ bits "user_exec_access" 8 1
        ▷ bits "reserved3" 8 1
        ▷ bits "next_page_table" 8 40
        ▷ bits "reserved4" 8 12
        ▷ end))
    ▷ whole "all" (scalar 8)
    ▷ end)

-- `PDPTE`
abbrev pub pdpt_entry : CType
pdpt_entry = union 16 (
    whole "fields" (
      struct 16 (
        bits "read_access" 8 1
        ▷ bits "write_access" 8 1
        ▷ bits "execute_access" 8 1
        ▷ bits "reserved1" 8 5
        ▷ bits "dirty_flag" 8 1
        ▷ bits "reserved2" 8 1
        ▷ bits "user_exec_access" 8 1
        ▷ bits "reserved3" 8 1
        ▷ bits "next_page_table" 8 40
        ▷ bits "reserved4" 8 12
        ▷ end))
    ▷ whole "all" (scalar 8)
    ▷ end)

-- `PDE`
abbrev pub pd_entry : CType
pd_entry = union 16 (
    whole "fields" (
      struct 16 (
        bits "read_access" 8 1
        ▷ bits "write_access" 8 1
        ▷ bits "execute_access" 8 1
        ▷ bits "reserved1" 8 5
        ▷ bits "dirty_flag" 8 1
        ▷ bits "reserved2" 8 1
        ▷ bits "user_exec_access" 8 1
        ▷ bits "reserved3" 8 1
        ▷ bits "next_page_table" 8 40
        ▷ bits "reserved4" 8 12
        ▷ end))
    ▷ whole "all" (scalar 8)
    ▷ end)

-- `PTE`
abbrev pub pt_entry : CType
pt_entry = union 16 (
    whole "fields" (
      struct 16 (
        bits "read_access" 8 1
        ▷ bits "write_access" 8 1
        ▷ bits "execute_access" 8 1
        ▷ bits "memory_type" 8 3
        ▷ bits "ignore_memory_type" 8 1
        ▷ bits "reserved1" 8 1
        ▷ bits "dirty_flag" 8 1
        ▷ bits "reserved2" 8 1
        ▷ bits "user_exec_access" 8 1
        ▷ bits "reserved3" 8 1
        ▷ bits "final_address" 8 40
        ▷ bits "reserved4" 8 11
        ▷ bits "supress_ve" 8 1
        ▷ end))
    ▷ whole "all" (scalar 8)
    ▷ end)
