-- ===== src/Util/Value/Laws.antt =====
-- The conversion to JSON leaves no byte array, and changes nothing else.
use push_anode.Prelude.{◌≡◌, refl, ap, ap₂}
use push_anode.Util.Value.{
  Value, undefined, num, str, bytes, array, object, Items, nil, cons, Fields, end, field,
  recursively_convert_to_json, convert_items, convert_fields, IsJson, AreJson, HaveJson,
}

mutual
  unfolding recursively_convert_to_json

  convert-IsJson : (v : Value) → IsJson (recursively_convert_to_json v)
  convert-IsJson (bytes b) = tt
  convert-IsJson (array xs) = convert-AreJson xs
  convert-IsJson (object fs) = convert-HaveJson fs
  convert-IsJson undefined = tt
  convert-IsJson (num n) = tt
  convert-IsJson (str s) = tt

  convert-AreJson : (xs : Items) → AreJson (convert_items xs)
  convert-AreJson nil = tt
  convert-AreJson (cons x xs) = (convert-IsJson x, convert-AreJson xs)

  convert-HaveJson : (fs : Fields) → HaveJson (convert_fields fs)
  convert-HaveJson end = tt
  convert-HaveJson (field k v fs) = (convert-IsJson v, convert-HaveJson fs)

mutual
  unfolding recursively_convert_to_json

  convert_json : (v : Value) → IsJson v → recursively_convert_to_json v ≡ v
  convert_json (bytes b) h = absurd h
  convert_json (array xs) h = ap array (convert_json_items xs h)
  convert_json (object fs) h = ap object (convert_json_fields fs h)
  convert_json undefined h = refl
  convert_json (num n) h = refl
  convert_json (str s) h = refl

  convert_json_items : (xs : Items) → AreJson xs → convert_items xs ≡ xs
  convert_json_items nil h = refl
  convert_json_items (cons x xs) h = ap₂ cons (convert_json x h.0) (convert_json_items xs h.1)

  convert_json_fields : (fs : Fields) → HaveJson fs → convert_fields fs ≡ fs
  convert_json_fields end h = refl
  convert_json_fields (field k v fs) h =
      ap₂ (field k) (convert_json v h.0) (convert_json_fields fs h.1)

-- The result holds no byte array at any depth, and a value without one is left as it is.
pub recursively_convert_to_json-IsJson :
    (v : Value)
    → IsJson (recursively_convert_to_json v) × (IsJson v → recursively_convert_to_json v ≡ v)
recursively_convert_to_json-IsJson v = (convert-IsJson v, convert_json v)
