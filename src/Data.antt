-- ===== src/Data.antt =====
-- The documents of the crates `toml` and `serde_json` that the program passes around:
-- `toml::Value` with its tables, and `serde_json::Value` with its equality.
use swale.Base.{Bool, true, false, not, ◌&&◌, Text, text_eq}

mutual
  pub data Toml : Type 0 where
    string : Text → Toml
    array : TomlItems → Toml
    table : TomlTable → Toml
    scalar : Text → Toml

  pub data TomlItems : Type 0 where
    nil : TomlItems
    cons : Toml → TomlItems → TomlItems

  pub data TomlTable : Type 0 where
    end : TomlTable
    entry : Text → Toml → TomlTable → TomlTable

mutual
  pub data Json : Type 0 where
    null : Json
    bool : Bool → Json
    number : Text → Json
    text : Text → Json
    array : JsonItems → Json
    object : JsonFields → Json

  pub data JsonItems : Type 0 where
    nil : JsonItems
    cons : Json → JsonItems → JsonItems

  pub data JsonFields : Type 0 where
    end : JsonFields
    field : Text → Json → JsonFields → JsonFields

abbrev pub bool_eq : Bool → Bool → Bool
bool_eq true b = b
bool_eq false b = not b

-- `==` of JSON values
unfoldable mutual
  pub json_eq : Json → Json → Bool
  json_eq Json.null Json.null = true
  json_eq (Json.bool a) (Json.bool b) = bool_eq a b
  json_eq (Json.number a) (Json.number b) = text_eq a b
  json_eq (Json.text a) (Json.text b) = text_eq a b
  json_eq (Json.array a) (Json.array b) = items_eq a b
  json_eq (Json.object a) (Json.object b) = fields_eq a b
  json_eq _ _ = false

  pub items_eq : JsonItems → JsonItems → Bool
  items_eq JsonItems.nil JsonItems.nil = true
  items_eq (JsonItems.cons a as_) (JsonItems.cons b bs) = json_eq a b && items_eq as_ bs
  items_eq _ _ = false

  pub fields_eq : JsonFields → JsonFields → Bool
  fields_eq JsonFields.end JsonFields.end = true
  fields_eq (JsonFields.field k a as_) (JsonFields.field j b bs) =
      text_eq k j && json_eq a b && fields_eq as_ bs
  fields_eq _ _ = false
