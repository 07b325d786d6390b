-- ===== src/Manifest/Vars.antt =====
-- The values under `vars` of a manifest (manifest/schema.go): Go's `interface{}` as the YAML and
-- JSON decoders fill it. A number is kept as it is written.
use netbootd.Prelude.{Bool, Bytes}

mutual
  pub data Value : Type 0 where
    null : Value
    boolean : Bool → Value
    number : Bytes → Value
    text : Bytes → Value
    sequence : Items → Value
    mapping : Fields → Value

  pub data Items : Type 0 where
    no_item : Items
    item : Value → Items → Items

  pub data Fields : Type 0 where
    no_field : Fields
    field : Bytes → Value → Fields → Fields
