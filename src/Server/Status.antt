-- ===== src/Server/Status.antt =====
-- core/include/labbridge/core/result.h, and server/include/labbridge/server/application/id_validation.h.
use lab_bridge.Prelude.{Bool, not, ◌&&◌, Text, empty, all, is_digit, decimal_value, ltb, leb}

pub data StatusCode : Type 0 where
  invalid_argument not_found conflict : StatusCode

-- core::Status, with the message as a value of the service's own type.
pub data Status (M : Type 0) : Type 0 where
  success : Status M
  failure : StatusCode → M → Status M

-- The whole text is digits, which spell a number of 1 to 2^63 - 1.
unfoldable pub is_positive_id : Text → Bool
is_positive_id value =
    not (empty value)
    && all is_digit value
    && ltb 0 (decimal_value 0 value)
    && leb (decimal_value 0 value) 9223372036854775807
