-- ===== src/ErrorCodes.antt =====
-- The texts of Guypervisor/error_codes.cpp: each function is a `switch`, a list of cases and a default. The
-- bytes of the source are read as Windows-1252.
pub mod Tables
pub mod Decoded
use Prim.Native.String.{String}
use text.Mathlib.Text.{◌==◌}
use guypervisor.Base.{ℕ, Bool, if◌then◌else◌, List, [], ◌∷◌, Option, none, some}
use Tables.{Case, same_code, instruction_errors, basic_exit_reasons}

-- The first case of a code, or the default.
unfoldable pub switch : List Case → (default : String) → ℕ → String
switch [] default n = default
switch (c ∷ cs) default n =
    let rest = switch cs default n in if same_code c.code n then c.text else rest

-- `InstructionErrorToString` and `BasicExitReasonToString`
unfoldable pub instruction_error_to_string : ℕ → String
unfolding switch
instruction_error_to_string error_code =
    switch instruction_errors "Invalid error code detected" error_code

unfoldable pub basic_exit_reason_to_string : ℕ → String
unfolding switch
basic_exit_reason_to_string basic_exit_reason =
    switch basic_exit_reasons "No basic exit reason found." basic_exit_reason

-- The code of the first case with a text.
unfoldable pub code_of : List Case → String → Option ℕ
code_of [] s = none
code_of (c ∷ cs) s = let rest = code_of cs s in if c.text == s then some c.code else rest
