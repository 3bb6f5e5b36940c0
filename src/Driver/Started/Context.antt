-- ===== src/Driver/Started/Context.antt =====
-- The context that `InitializeProcessorContext` and `InitializeEPT` leave on an equipped machine
-- (Guypervisor/processor_context.cpp).
use guypervisor.Base.{ℕ, ◌+◌, ◌*◌, ◌%◌, ◌^◌, ◌≤◌, ◌≡◌, ◌≢◌, refl, ◌∙◌, false, ◌==◌, some, arith}
use guypervisor.Machine.{Platform, World, ProcessorContext, allocate_pool}
use guypervisor.Machine.Returns
use guypervisor.Machine.Returns.{Returns, returns}
use guypervisor.Machine.Status.{IsDocumented}
use guypervisor.VirtualAddr.{allocate_aligned, acquire_max_physical_address, align_up}
use guypervisor.VirtualAddr.Aligned.{answered, align_up-bounds}
use guypervisor.ProcessorContext.{alignment_size, initialize_processor_context}
use guypervisor.Driver.Equipped.{IsEquipped, IsKept}

-- A context with everything that VMX operation needs.
pub record IsComplete (c : ProcessorContext) : Type 0 where
  pub vmxon_there : c.vmxon_region ≢ 0
  pub vmxon_aligned : c.vmxon_region % 4096 ≡ 0
  pub vmcs_there : c.vmcs_region ≢ 0
  pub vmcs_aligned : c.vmcs_region % 4096 ≡ 0
  pub table_there : c.ept_pml4_entries ≢ 0
  pub bitmap_there : c.msr_bitmap ≢ 0
  pub guest_there : c.guest_stack ≢ 0
  pub host_there : c.host_stack ≢ 0

module _ (p : Platform) (equipped : IsEquipped p) where
  allocate_aligned-given :
      (size : ℕ) (w : World)
      → size ≤ 4096
      → Returns
          (λ r w'. (r ≢ 0) × (r % 4096 ≡ 0) × (w'.context ≡ w.context) × IsKept p w w')
          (allocate_aligned p size alignment_size w)
  unfolding allocate_aligned acquire_max_physical_address
  allocate_aligned-given size w small =
      let pointer : ℕ = answered p size 4096 w in
      let there : pointer ≢ 0 = equipped.block_given _ _ _ (omega arith) in
      let given : (pointer == 0) ≡ false = ground arith in
      let fits : pointer + (size + 4096) ≤ 2 ^ 64 = equipped.block_fits _ _ _ there in
      let bounds = align_up-bounds 52 12 refl pointer (omega (arith, fits)) in
      let aligned_there : align_up pointer 4096 ≢ 0 = omega (arith, bounds.1, there) in
      rw (given, allocate_aligned)
        (returns (
          aligned_there,
          bounds.0,
          refl,
          record { device = refl; driver = refl; at = refl; completed = refl },
        ))

  pub initialize_processor_context-IsComplete :
      (c : ProcessorContext) (w : World)
      → IsDocumented p.wdk
      → w.context ≡ some c
      → Returns
          (λ s w'.
            (k : ProcessorContext) × (s ≡ p.wdk.status_success)
            × (w'.context ≡ some k)
            × IsComplete k
            × IsKept p w w')
          (initialize_processor_context p w)
  unfolding initialize_processor_context
  initialize_processor_context-IsComplete c w documented known =
      Returns.bind (allocate_aligned-given p.vmcs_size w equipped.vmcs_small)
        λ vmxon w1 (n1, a1, c1, k1).
          let t1 : (vmxon == 0) ≡ false = ground arith in
          rw (c1 ∙ known) (
            rw t1 (
              Returns.bind (allocate_aligned-given p.vmcs_size _ equipped.vmcs_small)
                λ vmcs w2 (n2, a2, c2, k2).
                  let t2 : (vmcs == 0) ≡ false = ground arith in
                  rw c2 (
                    rw t2 (
                      let pml4 : ℕ = p.datum w2.trace (allocate_pool 4096) in
                      let n3 : pml4 ≢ 0 = equipped.pool_given _ _ (omega arith) in
                      let t3 : (pml4 == 0) ≡ false = ground arith in
                      rw t3 (
                        Returns.bind (allocate_aligned-given 1 _ (omega arith))
                          λ bitmap w3 (n4, a4, c4, k4). rw c4 (
                            returns (
                              record {
                                vmxon_region = vmxon;
                                vmcs_region = vmcs;
                                ept_pml4_entries = pml4;
                                msr_bitmap = bitmap;
                                guest_stack =
                                    p.datum w3.trace (allocate_pool (12 * p.wdk.page_size));
                                host_stack = _;
                              },
                              refl,
                              refl,
                              record {
                                vmxon_there = n1;
                                vmxon_aligned = a1;
                                vmcs_there = n2;
                                vmcs_aligned = a2;
                                table_there = n3;
                                bitmap_there = n4;
                                guest_there =
                                    equipped.pool_given _ _ (omega (arith, documented.page_lem));
                                host_there =
                                    equipped.pool_given _ _ (omega (arith, documented.page_lem));
                              },
                              record {
                                device = k4.device ∙ k2.device ∙ k1.device;
                                driver = k4.driver ∙ k2.driver ∙ k1.driver;
                                at = k4.at ∙ k2.at ∙ k1.at;
                                completed = k4.completed ∙ k2.completed ∙ k1.completed;
                              },
                            )))))))
