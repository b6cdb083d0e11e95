-- ===== src/Wire/Push/Json.antt =====
-- The objects of messages hold no byte arrays: `toObject` gives byte fields in base 64.
use push_anode.Prelude.{List, [], ◌∷◌, Option, none, some, Text}
use push_anode.Collections.Map.{Map}
use push_anode.Util.Value.{Value, undefined, IsJson, AreJson}
use push_anode.Wire.{Signer, TxValidatorData, TxAttestorData, Transaction, TransactionObj, Block}
use push_anode.Wire.Jspb.{Jspb}
use push_anode.Wire.Jspb.Writing.{unless_null}
use push_anode.Wire.Push.Block.{signers_to_object, tx_objs_to_object}
use push_anode.Wire.Push.DidMapping
use push_anode.Wire.Push.Signer
use push_anode.Wire.Push.Transaction
use push_anode.Wire.Push.Transaction.{strings}
use push_anode.Wire.Push.TransactionObj
use push_anode.Wire.Push.TransactionObj.{votes_to_object}
use push_anode.Wire.Push.TxAttestorData
use push_anode.Wire.Push.TxValidatorData
use push_anode.Wire.Push.Block

unless_null-IsJson :
    {A : Type 0} (o : Option A) (f : A → Value)
    → ((a : A) → IsJson (f a))
    → IsJson (unless_null o f undefined)
unless_null-IsJson none f h = tt
unless_null-IsJson (some a) f h = h a

strings-AreJson : (ts : List Text) → AreJson (strings ts)
strings-AreJson [] = tt
strings-AreJson (t ∷ ts) = (tt, strings-AreJson ts)

tx-IsJson : (t : Transaction) → IsJson (Transaction.to_object t)
unfolding Transaction.to_object
tx-IsJson t = (tt, (tt, (tt, (strings-AreJson t.recipients, (tt, (tt, (tt, (tt, (tt, tt)))))))))

votes-AreJson : (vs : List TxAttestorData) → AreJson (votes_to_object vs)
unfolding TxAttestorData.to_object
votes-AreJson [] = tt
votes-AreJson (v ∷ vs) = ((tt, tt), votes-AreJson vs)

signers-AreJson : (ss : List Signer) → AreJson (signers_to_object ss)
unfolding Signer.to_object
signers-AreJson [] = tt
signers-AreJson (s ∷ ss) = ((tt, tt), signers-AreJson ss)

-- jspb.Map gives an array of arrays of its keys and values.
abbrev pub MapsAreJson : Jspb → Type 0
MapsAreJson J = (m : Map Text Text) → IsJson (J.map_to_object m)

module _ (J : Jspb) (maps : MapsAreJson J) where
  validator-IsJson : (v : TxValidatorData) → IsJson (TxValidatorData.to_object J v)
  unfolding TxValidatorData.to_object DidMapping.to_object
  validator-IsJson v = (tt, (unless_null-IsJson v.did_mapping _ (λ m. (maps m, tt)), tt))

  tx_obj-IsJson : (t : TransactionObj) → IsJson (TransactionObj.to_object J t)
  unfolding TransactionObj.to_object
  tx_obj-IsJson t = (
    unless_null-IsJson t.tx _ tx-IsJson,
    (unless_null-IsJson t.validator_data _ validator-IsJson, (votes-AreJson t.attestor_data, tt)),
  )

  tx_objs-AreJson : (ts : List TransactionObj) → AreJson (tx_objs_to_object J ts)
  tx_objs-AreJson [] = tt
  tx_objs-AreJson (t ∷ ts) = (tx_obj-IsJson t, tx_objs-AreJson ts)

  -- The object of a block.
  pub block-IsJson : (b : Block) → IsJson (Block.to_object J b)
  unfolding Block.to_object
  block-IsJson b = (tt, (tt, (tx_objs-AreJson b.tx_obj, (signers-AreJson b.signers, tt))))
