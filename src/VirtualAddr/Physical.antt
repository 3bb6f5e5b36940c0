-- ===== src/VirtualAddr/Physical.antt =====
-- The access to physical memory by a section (Guypervisor/virtual_addr_helpers.cpp). A `BOOLEAN` is a byte.
use guypervisor.Base.{ℕ, ◌%◌, ◌^◌, not, ◌==◌, ltb, if◌then◌else◌}
use guypervisor.Machine.{Platform, open_section, map_view, unmap_view}
use guypervisor.Machine.Run.{Io, crash, pure, ◌>>=◌, ◌>>◌, issue, load_field}
use guypervisor.Machine.Memory.{load, write_bytes}
use guypervisor.Machine.Status.{status_failed_to_allocate_memory}

-- The bytes 13 37 13 37 of the array `test`.
abbrev pub test_word : ℕ
test_word = 0x37133713

-- `STATUS_FAILED_TO_ALLOCATE_MEMORY` as a `BOOLEAN`.
abbrev pub failed_byte : Platform → ℕ
failed_byte p = status_failed_to_allocate_memory p.wdk % 2 ^ 8

module _ (p : Platform) where
  open p use {wdk}

  unfoldable pub write_physical_memory : (physical_memory address length : ℕ) → Io ℕ
  write_physical_memory physical_memory address length =
      if ltb length 4 then pure (failed_byte p) else do
        (status, mapped) ← load_field p (map_view physical_memory address length) 0
        if not (wdk.nt_success status) then pure 0 else do
          if mapped == 0 then crash else write_bytes 4 mapped test_word
          issue (unmap_view mapped)
          pure 1

  -- The four bytes that are copied are printed only.
  unfoldable pub read_physical_memory : (physical_memory address length : ℕ) → Io ℕ
  read_physical_memory physical_memory address length =
      if ltb length 4 then pure (failed_byte p) else do
        (status, mapped) ← load_field p (map_view physical_memory address length) 0
        if not (wdk.nt_success status)
            then pure 0
            else do if mapped == 0 then crash else pure tt; issue (unmap_view mapped); pure 1

  unfoldable pub open_physical_memory : Io ℕ
  open_physical_memory w =
      (do
        (status, physmem) ← load_field p open_section (load (p.uninitialised w.trace) 8 0)
        if wdk.nt_success status then pure physmem else pure 0)
        w
