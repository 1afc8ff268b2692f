-- ===== src/Libraries/FireBreath.antt =====
-- FireBreath's variants, over the protobuf value types, and its objects for the page.
use trezor_plugin.Prelude.{Bytes, List, Bool, false, Option, some, ◌≡◌, bytes_eq}
use trezor_plugin.Exceptions.{Outcome}
use trezor_plugin.Libraries.Protobuf.{Scalar, Carrier, Protobuf}

-- FB::variant: `of` is its construction from a plain value, and `cast s` is convert_cast to the
-- C++ type `s`, which throws if the value does not convert. FB::VariantMap is an association list,
-- FB::VariantList a list.
pub record Variants (pb : Protobuf) : Type 1 where
  pub Variant : Type 0
  pub of : (s : Scalar) → Carrier pb.Double pb.Float s → Variant
  pub of_list : List Variant → Variant
  pub of_map : List (Bytes × Variant) → Variant
  pub cast : (s : Scalar) → Variant → Outcome (Carrier pb.Double pb.Float s)
  pub cast_list : Variant → Outcome (List Variant)
  pub cast_map : Variant → Outcome (List (Bytes × Variant))

-- FB::JSAPIAuto: an object for the page. An attribute has a name, a text, and whether the page only
-- reads it.
pub record JsAuto : Type 1 where
  pub Object : Type 0
  pub new_object : Object
  pub register_attribute : Bytes → Bytes → Bool → Object → Object
  pub register_method : Bytes → Object → Object
  pub get_attribute : Bytes → Object → Option Bytes

-- What FireBreath documents of attributes: the text that was registered under a name is what is
-- read, and registering another name does not change it.
pub record Registers (js : JsAuto) : Type 0 where
  pub registered :
      (name text : Bytes) (read_only : Bool) (o : js.Object)
      → js.get_attribute name (js.register_attribute name text read_only o) ≡ some text
  pub other :
      (name name' text : Bytes) (read_only : Bool) (o : js.Object)
      → bytes_eq name name' ≡ false
      → js.get_attribute name (js.register_attribute name' text read_only o)
        ≡ js.get_attribute name o

-- FB::Log, as far as the factory names it.
pub record Logging : Type 1 where
  pub LogLevel : Type 0
  pub LogMethod : Type 0
  pub level_debug : LogLevel
  pub method_file : LogMethod
