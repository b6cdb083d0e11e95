-- ===== src/Wire/Push/DidMapping.antt =====
-- proto.push.DidMapping of src/generated/push/block_pb.js: a message whose one field is a map.
use push_anode.Prelude.{
  ℕ, ◌≡◌, refl, subst, List, [], ◌∷◌, Text, text_eq, lit, Result, ◌==◌, nat_eq, if◌then◌else◌,
}
use push_anode.Collections.Map
use push_anode.Collections.Map.{Map}
use push_anode.Util.Value.{Value, object, end, field}
use push_anode.Wire.{Failure}
use push_anode.Wire.Jspb.{Jspb, IsWriter, IsReader, Fields, nil, entries}
use push_anode.Wire.Jspb.Reading.{read_all, skip, ReadsAll, Restores, read_all-Restores}
use push_anode.Wire.Jspb.Writing.{unless_empty, Writes, empty-Writes}

abbrev pub DidMapping : Type 0
DidMapping = Map Text Text

module _ (J : Jspb) where
  unfoldable pub to_object : DidMapping → Value
  to_object msg = object (field (lit "didmappingMap") (J.map_to_object msg) end)

  -- serializeBinaryToWriter
  unfoldable pub serialize_binary_to_writer : DidMapping → J.Writer → J.Writer
  serialize_binary_to_writer msg w = unless_empty msg (J.write_map 1 msg w) w

  -- The switch of deserializeBinaryFromReader.
  unfoldable pub read_field : ℕ → DidMapping → J.Reader → Result Failure (DidMapping × J.Reader)
  read_field n msg r = if n == 1 then J.read_entry msg r else skip J msg r

  unfoldable pub deserialize_binary_from_reader :
      DidMapping → J.Reader → Result Failure (DidMapping × J.Reader)
  deserialize_binary_from_reader msg r = read_all J read_field msg r

  -- The fields of a message.
  abbrev pub contents : DidMapping → Fields
  contents msg = unless_empty msg (entries 1 (J.map_order msg)) nil

-- The map that is built from entries in their order.
abbrev pub set_all : DidMapping → List (Text × Text) → DidMapping
set_all m [] = m
set_all m ((k, v) ∷ more) = set_all (Map.set m k v) more

-- The entries stand in the order in which they are written, each key once.
abbrev pub IsOrdered : Jspb → DidMapping → Type 0
IsOrdered J m = set_all [] (J.map_order m) ≡ m

pub serialize-Writes :
    {J : Jspb} (W : IsWriter J) (msg : DidMapping) (w : J.Writer)
    → Writes W w (serialize_binary_to_writer J msg w) (contents J msg)
unfolding serialize_binary_to_writer
serialize-Writes W msg w = empty-Writes W msg w _ _ (W.written-write_map 1 msg w)

module _ {J : Jspb} {W : IsWriter J} (L : IsReader J W) where
  entries-ReadsAll :
      (m more : DidMapping) → ReadsAll L (read_field J) (entries 1 more) m (set_all m more)
  unfolding read_field
  entries-ReadsAll m [] = refl
  entries-ReadsAll m ((k, v) ∷ more) = (
    Map.set m k v,
    (λ r fs at. L.read_entry-At r 1 k v fs m at),
    entries-ReadsAll (Map.set m k v) more,
  )

  contents-ReadsAll :
      (msg : DidMapping) → IsOrdered J msg → ReadsAll L (read_field J) (contents J msg) [] msg
  contents-ReadsAll [] ordered = refl
  contents-ReadsAll (e ∷ es) ordered =
      subst (ReadsAll L (read_field J) (entries 1 (J.map_order (e ∷ es))) []) ordered
        (entries-ReadsAll [] (J.map_order (e ∷ es)))

  pub deserialize-Restores :
      (msg : DidMapping)
      → IsOrdered J msg
      → Restores L (deserialize_binary_from_reader J) (contents J msg) [] msg
  unfolding deserialize_binary_from_reader
  deserialize-Restores msg ordered =
      read_all-Restores L (read_field J) (contents J msg) [] msg (contents-ReadsAll msg ordered)
