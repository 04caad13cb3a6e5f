-- ===== src/Json.antt =====
-- JSON values as nlohmann::json holds them; text and value are turned into each other by that
-- library, which is a parameter where it is used.
use lab_bridge.Prelude.{Bool, true, false, Option, none, some, Text, text_eq, if◌then◌else◌}
use lab_bridge.Prelude.Int.{ℤ}

mutual
  pub data Json : Type 0 where
    null : Json
    boolean : Bool → Json
    string : Text → Json
    integer : ℤ → Json
    decimal : Text → Json
    array : Items → Json
    object : Members → Json

  pub data Items : Type 0 where
    no_items : Items
    item : Json → Items → Items

  pub data Members : Type 0 where
    no_members : Members
    member : Text → Json → Members → Members

-- value.find(field), nothing also where the value is no object
unfoldable pub find_member : Text → Members → Option Json
find_member field no_members = none
find_member field (member name value rest) =
    if text_eq name field then some value else find_member field rest

unfoldable pub find_field : Text → Json → Option Json
find_field field (object members) = find_member field members
find_field field _ = none

-- The text of a string, nothing for another value.
unfoldable pub string_of : Option Json → Option Text
string_of (some (string value)) = some value
string_of _ = none

unfoldable pub is_object : Json → Bool
is_object (object _) = true
is_object _ = false
