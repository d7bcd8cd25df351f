-- ===== src/Payload.antt =====
-- Decoded JSON, as the handlers of devices receive it, and the reading of its fields. An object is the list
-- of its members, each key once. `str` of a value that is no text is a parameter.
use opnsense_hub.Base.{Bool, Option, Text, ◌==◌, text_eq, if◌then◌else◌}
use opnsense_hub.Base.Integers.{ℤ}

mutual
  pub data Json : Type 0 where
    null : Json
    boolean : Bool → Json
    integer : ℤ → Json
    -- a number with a point or an exponent, and the integer that it equals, if any
    real : Option ℤ → Json
    string : Text → Json
    array : Items → Json
    object : Members → Json

  pub data Items : Type 0 where
    end : Items
    item : Json → Items → Items

  pub data Members : Type 0 where
    close : Members
    member : (key : Text) → Json → Members → Members

-- `payload.get(key)`, where a missing key gives `default`
unfoldable pub get : (default : Json) (key : Text) → Members → Json
get default key close = default
get default key (member k v rest) = if k == key then v else get default key rest

-- `str(value)`
unfoldable pub text_of : (str : Json → Text) → Json → Text
text_of str (string s) = s
text_of str v = str v
