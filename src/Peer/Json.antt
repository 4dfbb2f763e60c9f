-- ===== src/Peer/Json.antt =====
-- jsonrpc.py: JSON values as `json.loads` gives them. A number has the text that it is written with.
use openrois.Common.{Bool, Option, none, some, if◌then◌else◌, Text, text_eq}

mutual
  pub data Json : Type 0 where
    null : Json
    boolean : Bool → Json
    number string : Text → Json
    array : Items → Json
    object : Members → Json

  pub data Items : Type 0 where
    no_elements : Items
    element : Json → Items → Items

  pub data Members : Type 0 where
    no_fields : Members
    field : Text → Json → Members → Members

-- payload.get(key), of an object
unfoldable pub member_of : Text → Members → Option Json
member_of key no_fields = none
member_of key (field k v members) = if text_eq k key then some v else member_of key members
