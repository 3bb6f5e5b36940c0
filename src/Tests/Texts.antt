-- ===== src/Tests/Texts.antt =====
-- The theorem on the texts at a concrete input.
use guypervisor.Base.{◌≡◌, none, some}
use guypervisor.ErrorCodes.{instruction_error_to_string, basic_exit_reason_to_string, code_of}
use guypervisor.ErrorCodes.Tables.{instruction_errors, basic_exit_reasons}
use guypervisor.ErrorCodes.Decoded.{code_of-to_string}

code_of-to_string_example :
    (code_of instruction_errors (instruction_error_to_string 21) ≡ none)
    × (code_of basic_exit_reasons (basic_exit_reason_to_string 21) ≡ some 21)
code_of-to_string_example = code_of-to_string 21
