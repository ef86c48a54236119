-- ===== src/Common/Json.antt =====
-- The values of `serde_json::Value`. A number keeps its text.
use scribe_local.Common.{Bool}
use scribe_local.Common.Text.{Text}

mutual
  pub data Json : Type 0 where
    null : Json
    bool : Bool → Json
    number : Text → Json
    string : Text → Json
    array : Items → Json
    object : Fields → Json

  pub data Items : Type 0 where
    nil : Items
    item : Json → Items → Items

  pub data Fields : Type 0 where
    end : Fields
    field : Text → Json → Fields → Fields
