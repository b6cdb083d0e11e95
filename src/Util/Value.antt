-- ===== src/Util/Value.antt =====
-- JavaScript values as `toObject` gives them, and their form as JSON
-- (`recursivelyConvertToJSON` of src/modules/archive/archive-node.service.ts).
pub mod Laws
use push_anode.Prelude.{ℕ, Text}
use push_anode.Util.Hex.{Bytes}
use push_anode.Util.Base64.{bytes_to_base64}

mutual
  pub data Value : Type 0 where
    undefined : Value
    num : ℕ → Value
    str : Text → Value
    bytes : Bytes → Value
    array : Items → Value
    object : Fields → Value

  pub data Items : Type 0 where
    nil : Items
    cons : Value → Items → Items

  pub data Fields : Type 0 where
    end : Fields
    field : Text → Value → Fields → Fields

unfoldable mutual
  pub recursively_convert_to_json : Value → Value
  recursively_convert_to_json (bytes b) = str (bytes_to_base64 b)
  recursively_convert_to_json (array xs) = array (convert_items xs)
  recursively_convert_to_json (object fs) = object (convert_fields fs)
  recursively_convert_to_json undefined = undefined
  recursively_convert_to_json (num n) = num n
  recursively_convert_to_json (str s) = str s

  pub convert_items : Items → Items
  convert_items nil = nil
  convert_items (cons x xs) = cons (recursively_convert_to_json x) (convert_items xs)

  pub convert_fields : Fields → Fields
  convert_fields end = end
  convert_fields (field k v fs) = field k (recursively_convert_to_json v) (convert_fields fs)

abbrev mutual
  -- No byte array at any depth.
  pub IsJson : Value → Type 0
  IsJson (bytes b) = ⊥
  IsJson (array xs) = AreJson xs
  IsJson (object fs) = HaveJson fs
  IsJson undefined = Unit
  IsJson (num n) = Unit
  IsJson (str s) = Unit

  pub AreJson : Items → Type 0
  AreJson nil = Unit
  AreJson (cons x xs) = IsJson x × AreJson xs

  pub HaveJson : Fields → Type 0
  HaveJson end = Unit
  HaveJson (field k v fs) = IsJson v × HaveJson fs
