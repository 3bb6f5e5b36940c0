-- ===== src/Structures/Used.antt =====
-- The words that the driver writes, by the fields that Guypervisor/msr.h and Guypervisor/paging.h declare.
use guypervisor.Base.{
  ℕ, zero, suc, ◌+◌, ◌*◌, ◌/◌, ◌%◌, ◌^◌, ◌<◌, ◌≡◌, refl, List, [], ◌∷◌, ◌++◌, ap, arith, inl, ◌==◌,
  if◌then◌else◌, ◌∙◌,
}
use guypervisor.Machine.{Platform, World, get_physical_address, read_msr, write_msr}
use guypervisor.Machine.Returns.{Returns, returns}
use guypervisor.Machine.Status.{IsDocumented}
use guypervisor.Machine.Memory.{field, set_field, load, store}
use guypervisor.ProcessorContext.Ept.{set_pml4_entry}
use guypervisor.ProcessorContext.Tables.{store-Apart}
use guypervisor.Msr.{msr_number, ia32_feature_control}
use guypervisor.Virtualization.Enter.{enable_feature_control}
use guypervisor.Structures.{CType, struct, end, size_of}
use guypervisor.Structures.Placed.{members_of}
use guypervisor.Structures.Msrs.{feature_control_msr}
use guypervisor.Structures.Paging.{pml4_entry}
use guypervisor.Structures.Words.{fields_of, structs_of}

-- The values of the fields of a word, in the first struct of its union.
abbrev first_struct : List CType → CType
first_struct (s ∷ _) = s
first_struct [] = struct 1 end

abbrev pub values : CType → ℕ → List ℕ
values t x = fields_of (members_of (first_struct (structs_of t))) x

-- A list without its first elements.
abbrev pub behind : ℕ → List ℕ → List ℕ
behind zero vs = vs
behind (suc n) [] = []
behind (suc n) (v ∷ vs) = behind n vs

-- The first elements of a list.
abbrev pub first : ℕ → List ℕ → List ℕ
first zero vs = []
first (suc n) [] = []
first (suc n) (v ∷ vs) = v ∷ first n vs

-- A word with its lowest three bits set, one after the other.
abbrev three_set : ℕ → ℕ
three_set x = set_field 2 1 1 (set_field 1 1 1 (set_field 0 1 1 x))

-- The feature control register is read and written once, and by the fields that its union declares, `lock`,
-- `enable_smx` and `enable_vmxon` are 1 in the word written, and every other field is as it was read.
pub enable_feature_control-values :
    (p : Platform) (w : World)
    → let old = p.datum w.trace (read_msr (msr_number ia32_feature_control)) in
      Returns
        (λ _ w'.
          (v : ℕ) × (w'.trace ≡ write_msr 0x3A v ∷ read_msr 0x3A ∷ w.trace)
          × (values feature_control_msr v ≡ 1 ∷ 1 ∷ 1 ∷ behind 3 (values feature_control_msr old)))
        (enable_feature_control p w)
unfolding enable_feature_control msr_number members_of size_of
enable_feature_control-values p w =
    let x : ℕ = p.datum w.trace (read_msr 0x3A) in
    let e1 : field 0 1 (three_set x) ≡ 1 = omega arith in
    let e2 : field 1 1 (three_set x) ≡ 1 = omega arith in
    let e3 : field 2 1 (three_set x) ≡ 1 = omega arith in
    let e4 : field 3 5 (three_set x) ≡ field 3 5 x = omega arith in
    let e5 : field 8 7 (three_set x) ≡ field 8 7 x = omega arith in
    let e6 : field 15 1 (three_set x) ≡ field 15 1 x = omega arith in
    let e7 : field 16 16 (three_set x) ≡ field 16 16 x = omega arith in
    let e8 : field 32 32 (three_set x) ≡ field 32 32 x = omega arith in
    returns (_, refl, rw (e1, e2, e3, e4, e5, e6, e7, e8) refl)

-- The number of the lowest `n` bytes.
abbrev low_bytes : (n v : ℕ) → ℕ
low_bytes zero v = 0
low_bytes (suc n) v = v % 256 + 256 * low_bytes n (v / 256)

load-store : (n a v : ℕ) (m : ℕ → ℕ) → load (store n a v m) n a ≡ low_bytes n v
unfolding load store
load-store zero a v m = refl
load-store (suc n) a v m =
    let m' : ℕ → ℕ = λ b. if b == a then v % 256 else m b in
    let first : store n (a + 1) (v / 256) m' a ≡ m' a =
      store-Apart n (a + 1) (v / 256) m' a (inl (omega arith)) in
    let here : m' a ≡ v % 256 = ground arith in
    let rest : load (store n (a + 1) (v / 256) m') n (a + 1) ≡ low_bytes n (v / 256) =
      load-store n (a + 1) (v / 256) m' in
    omega (arith, first, here, rest)

low_bytes-eight : (v : ℕ) → low_bytes 8 v ≡ v % 2 ^ 64
low_bytes-eight v = omega arith

load-lt : (m : ℕ → ℕ) (a : ℕ) → load m 8 a < 2 ^ 64
unfolding load
load-lt m a = omega arith

entry_fields :
    (x f : ℕ)
    → x < 2 ^ 64
    → values pml4_entry (set_field 12 40 f (three_set x) % 2 ^ 64)
      ≡ 1
        ∷ 1
        ∷ 1
        ∷ field 3 5 x
        ∷ field 8 1 x
        ∷ field 9 1 x
        ∷ field 10 1 x
        ∷ field 11 1 x
        ∷ f % 2 ^ 40
        ∷ field 52 12 x
        ∷ []
unfolding members_of size_of
entry_fields x f small =
    let v : ℕ = set_field 12 40 f (three_set x) % 2 ^ 64 in
    let e1 : field 0 1 v ≡ 1 = omega arith in
    let e2 : field 1 1 v ≡ 1 = omega arith in
    let e3 : field 2 1 v ≡ 1 = omega arith in
    let e4 : field 3 5 v ≡ field 3 5 x = omega arith in
    let e5 : field 8 1 v ≡ field 8 1 x = omega arith in
    let e6 : field 9 1 v ≡ field 9 1 x = omega arith in
    let e7 : field 10 1 v ≡ field 10 1 x = omega arith in
    let e8 : field 11 1 v ≡ field 11 1 x = omega arith in
    let e9 : field 12 40 v ≡ f % 2 ^ 40 = omega arith in
    let e10 : field 52 12 v ≡ field 52 12 x = omega arith in
    rw (e1, e2, e3, e4, e5, e6, e7, e8, e9, e10) refl

-- `InitializeEPT` writes the first entry of the first table so that, by the fields that `PML4E` declares, the
-- three accesses are allowed, `next_page_table` is the page number of the second table, and every other
-- field is as it was; the context stays, and the one call is for the address of the second table.
pub set_pml4_entry-values :
    (p : Platform) (pml4 pdpte : ℕ) (w : World)
    → IsDocumented p.wdk
    → let old = values pml4_entry (load w.memory 8 pml4) in
      let page = p.datum w.trace (get_physical_address pdpte) / 4096 % 2 ^ 40 in
      Returns
        (λ _ w'.
          (values pml4_entry (load w'.memory 8 pml4)
            ≡ 1 ∷ 1 ∷ 1 ∷ first 5 (behind 3 old) ++ page ∷ behind 9 old)
          × (w'.trace ≡ get_physical_address pdpte ∷ w.trace)
          × (w'.context ≡ w.context))
        (set_pml4_entry p pml4 pdpte w)
unfolding set_pml4_entry members_of size_of
set_pml4_entry-values p pml4 pdpte w documented =
    let x : ℕ = load w.memory 8 pml4 in
    let f : ℕ = p.datum w.trace (get_physical_address pdpte) / p.wdk.page_size in
    let page : f ≡ p.datum w.trace (get_physical_address pdpte) / 4096 =
      rw documented.page_lem refl in
    let v : ℕ = set_field 12 40 f (three_set x) in
    let stored : load (store 8 pml4 v w.memory) 8 pml4 ≡ v % 2 ^ 64 =
      load-store 8 pml4 v w.memory ∙ low_bytes-eight v in
    returns (
      ap (values pml4_entry) stored ∙ entry_fields x f (load-lt w.memory pml4) ∙ rw page refl,
      refl,
      refl,
    )
