-- ===== src/VmxMode.antt =====
-- The protocol of the VMX instructions, as the processor's manual has it and apart from the driver:
-- which of them may be executed where, and what they change.
pub mod Cooperative
pub mod Launched
use guypervisor.Base.{
  ℕ, suc, ◌+◌, ◌-◌, ◌^◌, ◌<◌, ◌≡◌, Bool, true, ◌&&◌, ◌==◌, if◌then◌else◌, [], ◌∷◌,
}
use guypervisor.Machine.{
  Call, Trace, vmxon, vmclear, vmptrld, vmptrst, vmxoff, vmlaunch, vmresume, vmread, vmwrite,
}

-- Outside VMX operation; in it, with no current VMCS, with the one at an address, or with the one at an
-- address from which a guest has been launched; and `illegal` once an instruction has been executed
-- outside VMX operation that faults there. What VMPTRLD loads counts as not launched: the VMCS of the
-- driver has been cleared before.
pub data VmxMode : Type 0 where
  outside root illegal : VmxMode
  current launched : ℕ → VmxMode

abbrev pub in_operation : VmxMode → VmxMode
in_operation outside = illegal
in_operation root = root
in_operation illegal = illegal
in_operation (current a) = current a
in_operation (launched a) = launched a

abbrev pub entered : ℕ → VmxMode → VmxMode
entered k outside = if k == 0 then root else outside
entered k root = root
entered k illegal = illegal
entered k (current a) = current a
entered k (launched a) = launched a

abbrev pub left : VmxMode → VmxMode
left outside = illegal
left root = outside
left illegal = illegal
left (current a) = outside
left (launched a) = outside

abbrev pub loaded : (k a : ℕ) → VmxMode → VmxMode
loaded k a outside = illegal
loaded k a root = if k == 0 then current a else root
loaded k a illegal = illegal
loaded k a (current b) = if k == 0 then current a else current b
loaded k a (launched b) = if k == 0 then current a else launched b

abbrev pub cleared : (k a : ℕ) → VmxMode → VmxMode
cleared k a outside = illegal
cleared k a root = root
cleared k a illegal = illegal
cleared k a (current b) = if (k == 0) && (a == b) then root else current b
cleared k a (launched b) = if (k == 0) && (a == b) then root else launched b

-- A successful VMLAUNCH gives the processor to the guest; from a VMCS already launched it is VMRESUME
-- that does, and leaves the mode as it is. A VM entry that fails while it loads the guest's state, which
-- goes to the exit handler with the VMCS not launched, is left out.
abbrev pub launch : ℕ → VmxMode → VmxMode
launch k outside = illegal
launch k root = root
launch k illegal = illegal
launch k (current a) = if k == 0 then launched a else current a
launch k (launched a) = launched a

-- What a call with its code makes of the mode.
abbrev pub advance : Call → ℕ → VmxMode → VmxMode
advance (vmxon a) k m = entered k m
advance vmxoff k m = left m
advance (vmptrld a) k m = loaded k a m
advance (vmclear a) k m = cleared k a m
advance vmptrst k m = in_operation m
advance vmlaunch k m = launch k m
advance vmresume k m = in_operation m
advance (vmread e) k m = in_operation m
advance (vmwrite e v) k m = in_operation m
advance _ k m = m

-- The mode after the calls of a trace, from outside VMX operation.
abbrev pub mode : (Trace → Call → ℕ) → Trace → VmxMode
mode code [] = outside
mode code (c ∷ t) = advance c (code t c) (mode code t)

-- Every `vmwrite` since the last one to the encoding `e`, that one included, has succeeded.
abbrev pub clean : (Trace → Call → ℕ) → (e : ℕ) → Trace → Bool
clean code e [] = true
clean code e (vmwrite f v ∷ t) =
    (code t (vmwrite f v) == 0) && (if f == e then true else clean code e t)
clean code e (_ ∷ t) = clean code e t
