-- ===== src/ProcessorContext/Freed.antt =====
-- What `FreeProcessorContext` gives back (Guypervisor/processor_context.cpp).
use guypervisor.Base.{
  ℕ, ◌≡◌, refl, ◌==◌, Bool-cases, inl, inr, if◌then◌else◌, ap, ◌∙◌, none, some, List, [], ◌∷◌, ◌++◌,
}
use guypervisor.Machine.{Platform, World, Call, ProcessorContext, free_contiguous, free_pool}
use guypervisor.Machine.Run.{the_context}
use guypervisor.Machine.Returns
use guypervisor.Machine.Returns.{Returns, returns}
use guypervisor.ProcessorContext.{
  free_region, delete_pointer, forget_and_delete, free_processor_context,
}

-- The addresses that the calls of a trace give back to the kernel, the last one first.
abbrev pub freed : List Call → List ℕ
freed [] = []
freed (free_contiguous a ∷ t) = a ∷ freed t
freed (free_pool a ∷ t) = if a == 0 then freed t else a ∷ freed t
freed (_ ∷ t) = freed t

-- A pointer as a list, empty where it is null.
abbrev pub present : ℕ → List ℕ
present a = if a == 0 then [] else a ∷ []

-- There is a context, the memory is `m`, and `fs` has been given back.
abbrev Given : (ℕ → ℕ) → List ℕ → World → Type 0
Given m fs w = (c : ProcessorContext) × (w.context ≡ some c) × (w.memory ≡ m) × (freed w.trace ≡ fs)

delete_pointer-Given :
    (p : Platform) {fs : List ℕ} (w : World)
    → freed w.trace ≡ fs
    → Returns
        (λ _ w'. (w'.context ≡ w.context) × (w'.memory ≡ w.memory) × (freed w'.trace ≡ fs))
        (delete_pointer p 0 w)
unfolding delete_pointer
delete_pointer-Given p w before = elim (Bool-cases p.deletes_null) [
  | inl is_called ↦ rw (is_called, delete_pointer) (returns (refl, refl, before))
  | inr is_not ↦ rw (is_not, delete_pointer) (returns (refl, refl, before))
]

module _ (p : Platform) {m : ℕ → ℕ} {fs : List ℕ} where
  free_region-Given :
      (pointer : ℕ) (forget : ProcessorContext → ProcessorContext) (w : World)
      → Given m fs w
      → Returns (λ _. Given m (present pointer ++ fs)) (free_region p pointer forget w)
  unfolding free_region
  free_region-Given pointer forget w (c, known, same, before) = elim (Bool-cases (pointer == 0)) [
    | inl null ↦ rw (null, free_region) ((returns (c, known, same, before)))
    | inr there ↦
        rw (there, free_region) ((rw known (returns (_, refl, same, ap (λ t. pointer ∷ t) before))))
  ]

  forget_and_delete-Given :
      (pointer : ℕ) (forget : ProcessorContext → ProcessorContext) (w : World)
      → Given m fs w
      → Returns (λ _. Given m fs) (forget_and_delete p pointer forget w)
  unfolding forget_and_delete
  forget_and_delete-Given pointer forget w (c, known, same, before) =
      elim (Bool-cases (pointer == 0)) [
        | inl null ↦ rw (null, forget_and_delete) (returns (c, known, same, before))
        | inr there ↦
            rw (there, forget_and_delete)
              (rw known (
                Returns.weaken (delete_pointer-Given p _ before)
                  λ _ w' (context, memory, after). (_, context, memory ∙ same, after)))
      ]

the_context-Given :
    (c : ProcessorContext) (w : World)
    → w.context ≡ some c
    → Returns (λ k w'. (k ≡ c) × Given w.memory (freed w.trace) w') (the_context w)
the_context-Given c w known = rw (known, the_context) (returns (refl, (c, known, refl, refl)))

-- With a context, the function returns and forgets it. What it gives back is its three contiguous regions,
-- those that there are, and nothing else: neither the stacks nor the page table nor the context itself.
pub free_processor_context-freed :
    (p : Platform) (c : ProcessorContext) (w : World)
    → w.context ≡ some c
    → Returns
        (λ _ w'.
          (w'.context ≡ none)
          × (w'.memory ≡ w.memory)
          × (freed w'.trace
              ≡ present c.msr_bitmap
                ++ (present c.vmcs_region ++ (present c.vmxon_region ++ freed w.trace))))
        (free_processor_context p w)
unfolding free_processor_context
free_processor_context-freed p c w known =
    Returns.bind (the_context-Given c w known) λ k w0 (is_c, g0).
      Returns.bind (free_region-Given p k.vmxon_region _ w0 g0) λ _ w1 g1.
        Returns.bind (free_region-Given p k.vmcs_region _ w1 g1) λ _ w2 g2.
          Returns.bind (free_region-Given p k.msr_bitmap _ w2 g2) λ _ w3 g3.
            Returns.bind (forget_and_delete-Given p k.guest_stack _ w3 g3) λ _ w4 g4.
              Returns.bind (forget_and_delete-Given p k.host_stack _ w4 g4) λ _ w5 g5.
                Returns.bind (forget_and_delete-Given p k.ept_pml4_entries _ w5 g5)
                  λ _ w6 (_, _, same, after).
                    Returns.weaken (delete_pointer-Given p (record w6 { context = none }) after)
                      λ _ w' (context, memory, all). (context, memory ∙ same, rw all (rw is_c refl))
