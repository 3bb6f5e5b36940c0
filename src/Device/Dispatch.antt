-- ===== src/Device/Dispatch.antt =====
-- The dispatch table that `InitDevice` leaves (Guypervisor/Device.cpp).
use guypervisor.Base.{
  ℕ, zero, suc, ◌+◌, ◌≡◌, refl, true, ◌==◌, leb, ltb, ◌&&◌, if◌then◌else◌, some, arith, ◌∷◌,
}
use guypervisor.Machine.{
  Platform, World, Device, DriverObject, general, create, close, write, device_control,
  create_device,
}
use guypervisor.Machine.Returns.{Returns, returns}
use guypervisor.Machine.Status.{IsDocumented}
use guypervisor.Device.{set_handler, general_loop, add_functions, init_device}

general_loop-major_function :
    (left i : ℕ) (o : DriverObject) (j : ℕ)
    → (general_loop left i o).major_function j
      ≡ (if leb i j && ltb j (i + left) then some general else o.major_function j)
unfolding general_loop
general_loop-major_function zero i o j = ground arith
general_loop-major_function (suc left) i o j =
    ground (arith, general_loop-major_function left (i + 1) (set_handler i general o) j)

pub general_loop-unload :
    (left i : ℕ) (o : DriverObject) → (general_loop left i o).unload ≡ o.unload
unfolding general_loop
general_loop-unload zero i o = refl
general_loop-unload (suc left) i o = general_loop-unload left (i + 1) _

-- The table that `AddFunctions` leaves.
pub add_functions-major_function :
    (p : Platform) (o : DriverObject) (j : ℕ)
    → IsDocumented p.wdk
    → (add_functions p o).major_function j ≡ (
        if j == 4
        then some write
        else if j == 14
        then some device_control
        else if j == 2
        then some close
        else if j == 0
        then some create
        else if ltb j 27
        then some general
        else o.major_function j)
unfolding add_functions
add_functions-major_function p o j documented =
    rw
      (
        general_loop-major_function p.wdk.irp_mj_maximum_function 0 o j,
        documented.maximum_function,
        documented.create_zero,
        documented.close_two,
        documented.write_four,
        documented.device_control_fourteen,
      )
      (ground arith)

-- On an object, `InitDevice` returns the status of IoCreateDevice, whatever that is, with the unload routine
-- and the dispatch table set: the handlers of create (0), close (2), write (4) and device control (14), the
-- general handler for the other indices below 27, and what stood there from 27, the last index, on.
pub init_device-dispatch :
    (p : Platform) (d : Device) (w : World) (j : ℕ)
    → IsDocumented p.wdk
    → w.device ≡ some d
    → Returns
        (λ s w'.
          (s ≡ p.code w.trace create_device)
          × (w'.trace ≡ create_device ∷ w.trace)
          × (w'.driver.unload ≡ true)
          × (w'.driver.major_function j ≡ (
              if j == 4
              then some write
              else if j == 14
              then some device_control
              else if j == 2
              then some close
              else if j == 0
              then some create
              else if ltb j 27
              then some general
              else w.driver.major_function j)))
        (init_device p w)
unfolding init_device add_functions
init_device-dispatch p d w j documented known =
    let o : DriverObject = record w.driver { unload = true } in
    rw known (
      returns (
        refl,
        refl,
        general_loop-unload p.wdk.irp_mj_maximum_function 0 o,
        add_functions-major_function p o j documented,
      ))
