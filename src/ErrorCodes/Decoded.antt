-- ===== src/ErrorCodes/Decoded.antt =====
-- Which codes the texts of Guypervisor/error_codes.cpp tell apart.
use Prim.Native.String.{String}
use guypervisor.Base.{
  ℕ, zero, suc, ◌≤◌, ◌<◌, ◌≡◌, refl, Bool, true, false, ◌&&◌, ◌||◌, not, ◌==◌, leb, ltb,
  if◌then◌else◌, Option, none, some, List, [], ◌∷◌, every, both, arith, Bool-cases, inl, inr, ap,
  ◌∙◌,
}
use guypervisor.ErrorCodes.{
  switch, instruction_error_to_string, basic_exit_reason_to_string, code_of,
}
use guypervisor.ErrorCodes.Tables.{Case, instruction_errors, basic_exit_reasons}

-- Whether a test holds of every number below a bound.
unfoldable below : (ℕ → Bool) → ℕ → Bool
below f zero = true
below f (suc k) = f k && below f k

below_lem : (f : ℕ → Bool) (k n : ℕ) → below f k ≡ true → n < k → f n ≡ true
unfolding below
below_lem f zero n h small = elim small [ ]
below_lem f (suc k) n h small = elim (Bool-cases (n == k)) [
  | inl last ↦ let same : n ≡ k = ground arith in ap f same ∙ (both h).0
  | inr other ↦ below_lem f k n (both h).1 (ground arith)
]

abbrev same_answer : Option ℕ → Option ℕ → Bool
same_answer none none = true
same_answer (some a) (some b) = a == b
same_answer _ _ = false

same_answer-eq : (a b : Option ℕ) → same_answer a b ≡ true → a ≡ b
same_answer-eq none none h = refl
same_answer-eq (some a) (some b) h = let same : a ≡ b = ground arith in ap some same
same_answer-eq none (some b) h = cc h
same_answer-eq (some a) none h = cc h

-- The codes below a bound, and from there on the default.
switch-above :
    (cs : List Case) (default : String) (k n : ℕ)
    → every (λ c. ltb c.code k) cs ≡ true
    → k ≤ n
    → switch cs default n ≡ default
unfolding switch
switch-above [] default k n h above = refl
switch-above (c ∷ cs) default k n h above =
    let (first, rest) = both {a = ltb c.code k} {b = every (λ c. ltb c.code k) cs} h in
    let other : (c.code == n) ≡ false = ground arith in
    rw other (switch-above cs default k n rest above)

-- The code itself where it is a documented one.
abbrev answer : (documented : ℕ → Bool) → ℕ → Option ℕ
answer documented n = if documented n then some n else none

module _ (cs : List Case) (default : String) (documented : ℕ → Bool) (k : ℕ) where
  code_of-switch :
      below (λ n. same_answer (code_of cs (switch cs default n)) (answer documented n)) k ≡ true
      → every (λ c. ltb c.code k) cs ≡ true
      → code_of cs default ≡ none
      → ((n : ℕ) → k ≤ n → documented n ≡ false)
      → (n : ℕ) → code_of cs (switch cs default n) ≡ answer documented n
  code_of-switch checked small nothing high n = elim (Bool-cases (ltb n k)) [
    | inl low ↦ same_answer-eq _ _ (
        below_lem (λ m. same_answer (code_of cs (switch cs default m)) (answer documented m)) k n
          checked (ground arith))
    | inr above ↦
        let bound : k ≤ n = ground arith in
        let undocumented : documented n ≡ false = high n bound in
        rw (switch-above cs default k n small bound, undocumented) nothing
  ]

-- The numbers that the processor's manual gives to VM-instruction errors and to basic exit reasons.
abbrev pub is_instruction_error : ℕ → Bool
is_instruction_error n = leb 1 n && (leb n 28 && not (n == 14 || (n == 21 || n == 27)))

abbrev pub is_exit_reason : ℕ → Bool
is_exit_reason n = leb n 68 && not (n == 35 || (n == 38 || (n == 42 || n == 65)))

instruction_error_lem :
    (n : ℕ)
    → code_of instruction_errors (instruction_error_to_string n) ≡ answer is_instruction_error n
unfolding switch code_of below instruction_error_to_string
instruction_error_lem =
    code_of-switch instruction_errors "Invalid error code detected" is_instruction_error 29 refl
      refl refl λ n above. ground arith

exit_reason_lem :
    (n : ℕ) → code_of basic_exit_reasons (basic_exit_reason_to_string n) ≡ answer is_exit_reason n
unfolding switch code_of below basic_exit_reason_to_string
exit_reason_lem =
    code_of-switch basic_exit_reasons "No basic exit reason found." is_exit_reason 69 refl refl refl
      λ n above. ground arith

-- For every number, the text of an instruction error, and that of a basic exit reason, is the text of
-- that number alone where the manual gives it to one, and else the default, which is no number's text.
pub code_of-to_string :
    (n : ℕ)
    → (code_of instruction_errors (instruction_error_to_string n)
        ≡ (if is_instruction_error n then some n else none))
      × (code_of basic_exit_reasons (basic_exit_reason_to_string n)
          ≡ (if is_exit_reason n then some n else none))
code_of-to_string n = (instruction_error_lem n, exit_reason_lem n)
