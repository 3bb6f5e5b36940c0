-- ===== src/Device.antt =====
-- The device object and the dispatch table (Guypervisor/Device.cpp).
pub mod Dispatch
use guypervisor.Base.{ℕ, zero, suc, ◌+◌, ◌==◌, if◌then◌else◌, true, Option, none, some}
use guypervisor.Machine.{
  Platform, World, Device, DriverObject, Handler, general, create, close, write, device_control,
  create_device, delete_device, create_symbolic_link, delete_symbolic_link, allocate_pool,
  free_pool,
}
use guypervisor.Machine.Run.{Io, done, crash, pure, ◌>>=◌, ◌>>◌, ask, issue, attempt, load_field}

-- `pDriverObject->MajorFunction[i] = handler`
abbrev pub set_handler : ℕ → Handler → DriverObject → DriverObject
set_handler i handler o = record o {
  major_function = λ j. if j == i then some handler else o.major_function j;
}

-- The loop of `AddFunctions`, with `left` rounds left from index `i` on.
unfoldable pub general_loop : (left i : ℕ) → DriverObject → DriverObject
general_loop zero i o = o
general_loop (suc left) i o = general_loop left (i + 1) (set_handler i general o)

-- `this`, and a crash where that is null.
abbrev pub this_device : Io Device
this_device w = elim w.device [ none ↦ crash w | some d ↦ done d w ]

module _ (p : Platform) where
  open p use {wdk}

  unfoldable pub add_functions : DriverObject → DriverObject
  unfolding general_loop
  add_functions o = set_handler wdk.irp_mj_write write (
      set_handler wdk.irp_mj_device_control device_control (
        set_handler wdk.irp_mj_close close
          (set_handler wdk.irp_mj_create create (general_loop wdk.irp_mj_maximum_function 0 o))))

  -- `new Device(…)`, whose constructor writes through the pointer.
  unfoldable pub new_device : Io (Unit {0})
  new_device = do
    location ← ask p (allocate_pool p.device_size)
    if location == 0 then crash else λ w.
        done tt (record w { device = some (record { location = location; device_object = 0 }) })

  unfoldable pub init_device : Io ℕ
  unfolding add_functions
  init_device = do
    this ← this_device
    (status, object) ← load_field p create_device this.device_object
    λ w. done status (record w {
      device = some (record this { device_object = object });
      driver = add_functions (record w.driver { unload = true });
    })

  unfoldable pub create_symlink : Io ℕ
  create_symlink = do ignored ← attempt p delete_symbolic_link; attempt p create_symbolic_link

  -- `delete kGuypervisor`: `Device::operator delete` reads the object, and frees it by the global one.
  unfoldable pub delete_guypervisor : Io (Unit {0})
  delete_guypervisor w = elim w.device [
    | none ↦ if p.deletes_null then crash w else done tt w
    | some d ↦ (issue (delete_device d.device_object) >> issue (free_pool d.location)) w
  ]

  unfoldable pub driver_unload : Io (Unit {0})
  unfolding delete_guypervisor
  driver_unload = delete_guypervisor
