-- ===== src/Fields/Listed.antt =====
-- All fields of the enumeration, in its order (Guypervisor/vmcs_field_index.h).
mod Fixed
mod Other
use guypervisor.Base.{List, ◌++◌}
use guypervisor.Fields.{VmcsField}
use Fixed.{fields16, fields64}
use Other.{fields32, fields_natural}

unfoldable pub fields : List VmcsField
unfolding fields16 fields64 fields32 fields_natural
fields = fields16 ++ (fields64 ++ (fields32 ++ fields_natural))
