-- ===== src/Tests/Start.antt =====
-- The theorems on the start of the driver and on its context at concrete inputs.
use guypervisor.Tests.{wdm-IsDocumented, willing, older, colliding, exhausted, known, after}
use guypervisor.Base.{◌/◌, ◌%◌, ◌^◌, ◌≡◌, refl, true, ltb, none, some, [], ◌∷◌, arith, ◌↔◌}
use guypervisor.Machine.Run.{◌>>=◌}
use guypervisor.Machine.Returns.{Returns}
use guypervisor.Detection.{is_cpuid_supported, vendor_is_intel, supports_vtx_operation}
use guypervisor.Detection.Answers.{vendor_is_intel-of_ne, supports_vtx_operation_iff}
use guypervisor.ProcessorContext.{initialize_processor_context, free_processor_context}
use guypervisor.ProcessorContext.Freed.{freed, free_processor_context-freed}
use guypervisor.Device.{init_device}
use guypervisor.Device.Dispatch.{init_device-dispatch}
use guypervisor.Driver.{driver_entry, set_up, entry_cleanup}
use guypervisor.Driver.Entry.{driver_entry-unsupported, set_up-of_failed_device}
use guypervisor.ProcessorContext.Failed.{initialize_processor_context-of_no_memory}
use guypervisor.ProcessorContext.Ept.{initialize_ept}
use guypervisor.ProcessorContext.Tables.{initialize_ept-Apart}
use guypervisor.Detection.Flags.{is_cpuid_supported-outcome}
use guypervisor.Base.{inr, bit_or}
use guypervisor.Machine.{
  create_device, delete_device, free_pool, allocate_pool, read_eflags, write_eflags,
}

vendor_is_intel-of_ne_example :
    Returns (λ answer _. answer ≡ true) (vendor_is_intel willing (after []))
vendor_is_intel-of_ne_example = vendor_is_intel-of_ne willing (after []) (ground arith)

supports_vtx_operation_iff_example :
    Returns
      (λ answer _. (answer ≡ true) ↔ (0x6c65746e / 2 ^ 26 % 2 ≡ 1))
      (supports_vtx_operation willing (after []))
supports_vtx_operation_iff_example = supports_vtx_operation_iff willing (after [])

free_processor_context-freed_example :
    Returns
      (λ _ w'.
        (w'.context ≡ none)
        × (w'.memory ≡ (after []).memory)
        × (freed w'.trace ≡ 12288 ∷ 4096 ∷ []))
      (free_processor_context willing (after []))
free_processor_context-freed_example = free_processor_context-freed willing known (after []) refl

init_device-dispatch_example :
    Returns
      (λ s w'.
        (s ≡ 0)
        × (w'.trace ≡ create_device ∷ [])
        × (w'.driver.unload ≡ true)
        × (w'.driver.major_function 27 ≡ none))
      (init_device willing
        (record (after []) { device = some (record { location = 96; device_object = 0 }) }))
init_device-dispatch_example =
    init_device-dispatch willing (record { location = 96; device_object = 0 })
      (record (after []) { device = some (record { location = 96; device_object = 0 }) }) 27
      wdm-IsDocumented refl

driver_entry-unsupported_example :
    Returns
      (λ s w'.
        (s ≡ 0xc00000bb)
        × (w'.device ≡ none)
        × (w'.context ≡ none)
        × (w'.driver ≡ (after []).driver)
        × (w'.memory ≡ (after []).memory))
      (driver_entry older 0 (record (after []) { context = none }))
driver_entry-unsupported_example =
    driver_entry-unsupported older 0 (record (after []) { context = none }) wdm-IsDocumented refl
      refl (λ _. refl)

set_up-of_failed_device_example :
    Returns
      (λ s w'.
        (s ≡ 0xc0000035)
        × (w'.trace ≡ free_pool 8192 ∷ delete_device 0 ∷ create_device ∷ allocate_pool 40 ∷ []))
      ((set_up colliding 1 >>= entry_cleanup colliding 1) (record (after []) { context = none }))
set_up-of_failed_device_example =
    set_up-of_failed_device colliding 1 (record (after []) { context = none }) refl (ground arith)
      refl refl

initialize_processor_context-of_no_memory_example :
    Returns
      (λ s w'.
        (s ≡ 0) × (ltb s (2 ^ 31) ≡ true) × (w'.context ≡ some (record known { vmxon_region = 0 })))
      (initialize_processor_context exhausted (after []))
initialize_processor_context-of_no_memory_example =
    initialize_processor_context-of_no_memory exhausted known (after []) wdm-IsDocumented refl refl

initialize_ept-Apart_example :
    Returns
      (λ s w'. (s ≡ 0) × (w'.context ≡ some known) × (w'.memory 400000 ≡ 400000))
      (initialize_ept willing (after []))
initialize_ept-Apart_example =
    initialize_ept-Apart willing known (after []) 400000 refl (ground arith) (ground arith)
      (ground arith) (inr (omega arith)) (inr (omega arith)) (inr (omega arith))

is_cpuid_supported-outcome_example :
    let u = write_eflags (bit_or 8192 (2 ^ 21)) ∷ read_eflags ∷ read_eflags ∷ [] in
    Returns
      (λ answer w'.
        ((answer ≡ true) ↔ (8192 / 2 ^ 21 % 2 ≡ 1))
        × (w'.trace ≡ write_eflags 8192 ∷ read_eflags ∷ u)
        × (w'.memory ≡ (after []).memory))
      (is_cpuid_supported willing (2 ^ 21) (after []))
is_cpuid_supported-outcome_example = is_cpuid_supported-outcome willing (after [])
