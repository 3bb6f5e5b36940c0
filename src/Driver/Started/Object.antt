-- ===== src/Driver/Started/Object.antt =====
-- The device object and the dispatch table of the starting driver (Guypervisor/Device.cpp).
use guypervisor.Base.{ℕ, ◌<◌, ◌≡◌, ◌≢◌, refl, true, false, ◌==◌, List, some, ◌∙◌, arith}
use guypervisor.Machine.{Platform, World, Device, DriverObject, allocate_pool}
use guypervisor.Machine.Returns.{Returns, returns}
use guypervisor.Machine.Frame.{completions}
use guypervisor.Machine.Status.{IsDocumented}
use guypervisor.VmxMode.{outside, mode}
use guypervisor.Device.{new_device, init_device, create_symlink, add_functions}
use guypervisor.Device.Dispatch.{general_loop-unload, add_functions-major_function}
use guypervisor.Session.{table_entry}
use guypervisor.Driver.Equipped.{IsEquipped, IsKept}

-- The driver with its device and its dispatch table, outside VMX operation, and with the requests
-- `before` completed.
pub record HasDevice (p : Platform) (before : List ℕ) (w : World) : Type 0 where
  pub device_there : (d : Device) × (w.device ≡ some d)
  pub unload : w.driver.unload ≡ true
  pub dispatches : (j : ℕ) → j < 27 → w.driver.major_function j ≡ some (table_entry j)
  pub at : mode p.code w.trace ≡ outside
  pub completed : completions w.trace ≡ before

pub HasDevice-IsKept :
    (p : Platform) {before : List ℕ} {v w : World}
    → HasDevice p before v
    → IsKept p v w
    → HasDevice p before w
HasDevice-IsKept p h k = record {
  device_there = (h.device_there.0, k.device ∙ h.device_there.1);
  unload = rw k.driver h.unload;
  dispatches = λ j below. rw k.driver (h.dispatches j below);
  at = k.at ∙ h.at;
  completed = k.completed ∙ h.completed;
}

table_entry_lem :
    (p : Platform) (o : DriverObject) (j : ℕ)
    → IsDocumented p.wdk
    → j < 27
    → (add_functions p o).major_function j ≡ some (table_entry j)
table_entry_lem p o j documented below =
    add_functions-major_function p o j documented ∙ ground arith

add_functions-unload : (p : Platform) (o : DriverObject) → (add_functions p o).unload ≡ o.unload
unfolding add_functions
add_functions-unload p o = general_loop-unload p.wdk.irp_mj_maximum_function 0 o

module _ (p : Platform) (documented : IsDocumented p.wdk) (equipped : IsEquipped p) where
  pub new_device-given :
      (w : World)
      → mode p.code w.trace ≡ outside
      → Returns
          (λ _ w'.
            (d : Device) × (w'.device ≡ some d)
            × (mode p.code w'.trace ≡ outside)
            × (completions w'.trace ≡ completions w.trace))
          (new_device p w)
  unfolding new_device
  new_device-given w at =
      let there : p.datum w.trace (allocate_pool p.device_size) ≢ 0 =
        equipped.pool_given _ _ (omega (arith, equipped.device_small)) in
      let given : (p.datum w.trace (allocate_pool p.device_size) == 0) ≡ false = ground arith in
      rw (given, new_device) (returns (_, refl, at, refl))

  pub init_device-HasDevice :
      (d : Device) (w : World)
      → w.device ≡ some d
      → mode p.code w.trace ≡ outside
      → Returns
          (λ s w'. (p.wdk.nt_success s ≡ true) × HasDevice p (completions w.trace) w')
          (init_device p w)
  unfolding init_device
  init_device-HasDevice d w known at =
      rw (known, init_device)
        (returns (
          equipped.device_created _,
          record {
            device_there = (_, refl);
            unload = add_functions-unload p _;
            dispatches = λ j below. table_entry_lem p _ j documented below;
            at = at;
            completed = refl;
          },
        ))

  pub create_symlink-success :
      (w : World)
      → Returns (λ s w'. (p.wdk.nt_success s ≡ true) × IsKept p w w') (create_symlink p w)
  unfolding create_symlink
  create_symlink-success w = returns (
    equipped.link_created _,
    record { device = refl; driver = refl; at = refl; completed = refl },
  )
