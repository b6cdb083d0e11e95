-- ===== src/Wire/Push/Ends.antt =====
-- Reading a message of src/generated/push/block_pb.js ends, whatever the bytes are.
use push_anode.Prelude.{◌==◌, nat_eq}
use push_anode.Wire.Jspb.{Jspb}
use push_anode.Wire.Jspb.Ending.{
  IsForward, Shrinks, Ends, if-Below, into-Below, skip-Below, read_all-Ends,
}
use push_anode.Wire.Push.Block
use push_anode.Wire.Push.DidMapping
use push_anode.Wire.Push.Signer
use push_anode.Wire.Push.Transaction
use push_anode.Wire.Push.TransactionObj
use push_anode.Wire.Push.TxAttestorData
use push_anode.Wire.Push.TxValidatorData

module _ (J : Jspb) (C : IsForward J) where
  signer-Shrinks : Shrinks J (Signer.read_field J)
  unfolding Signer.read_field
  signer-Shrinks n msg r =
      if-Below J (n == 1) _ _ _ (into-Below J _ _ _ (C.read_bytes-left r)) (skip-Below J C msg r)

  vote-Shrinks : Shrinks J (TxAttestorData.read_field J)
  unfolding TxAttestorData.read_field
  vote-Shrinks n msg r =
      if-Below J (n == 1) _ _ _ (into-Below J _ _ _ (C.read_enum-left r)) (skip-Below J C msg r)

  mapping-Shrinks : Shrinks J (DidMapping.read_field J)
  unfolding DidMapping.read_field
  mapping-Shrinks n msg r =
      if-Below J (n == 1) _ _ _ (C.read_entry-left msg r) (skip-Below J C msg r)

  validator-Shrinks : Shrinks J (TxValidatorData.read_field J)
  unfolding TxValidatorData.read_field
  validator-Shrinks n msg r = if-Below J (n == 1) _ _ _ (into-Below J _ _ _ (C.read_enum-left r)) (
      if-Below J (n == 2) _ _ _ (into-Below J _ _ _ (C.read_message-left _ _ r))
        (skip-Below J C msg r))

  tx_obj-Shrinks : Shrinks J (TransactionObj.read_field J)
  unfolding TransactionObj.read_field
  tx_obj-Shrinks n msg r =
      if-Below J (n == 1) _ _ _ (into-Below J _ _ _ (C.read_message-left _ _ r)) (
        if-Below J (n == 2) _ _ _ (into-Below J _ _ _ (C.read_message-left _ _ r)) (
          if-Below J (n == 3) _ _ _ (into-Below J _ _ _ (C.read_message-left _ _ r))
            (skip-Below J C msg r)))

  block-Shrinks : Shrinks J (Block.read_field J)
  unfolding Block.read_field
  block-Shrinks n msg r = if-Below J (n == 1) _ _ _ (into-Below J _ _ _ (C.read_uint64-left r)) (
      if-Below J (n == 4) _ _ _ (into-Below J _ _ _ (C.read_bytes-left r)) (
        if-Below J (n == 2) _ _ _ (into-Below J _ _ _ (C.read_message-left _ _ r)) (
          if-Below J (n == 3) _ _ _ (into-Below J _ _ _ (C.read_message-left _ _ r))
            (skip-Below J C msg r))))

  tx-Shrinks : Shrinks J (Transaction.read_field J)
  unfolding Transaction.read_field
  tx-Shrinks n msg r = if-Below J (n == 1) _ _ _ (into-Below J _ _ _ (C.read_uint32-left r)) (
      if-Below J (n == 2) _ _ _ (into-Below J _ _ _ (C.read_string-left r)) (
        if-Below J (n == 3) _ _ _ (into-Below J _ _ _ (C.read_string-left r)) (
          if-Below J (n == 4) _ _ _ (into-Below J _ _ _ (C.read_string-left r)) (
            if-Below J (n == 5) _ _ _ (into-Below J _ _ _ (C.read_bytes-left r)) (
              if-Below J (n == 6) _ _ _ (into-Below J _ _ _ (C.read_bytes-left r)) (
                if-Below J (n == 7) _ _ _ (into-Below J _ _ _ (C.read_bytes-left r)) (
                  if-Below J (n == 8) _ _ _ (into-Below J _ _ _ (C.read_bytes-left r)) (
                    if-Below J (n == 9) _ _ _ (into-Below J _ _ _ (C.read_string-left r))
                      (skip-Below J C msg r)))))))))

  -- Whatever a reader is given, the loops over the fields of a block and of each message in it end
  -- before the bytes do: to allow more rounds changes no result.
  pub block_messages-Ends :
      Ends J (Block.read_field J)
      × Ends J (TransactionObj.read_field J)
      × Ends J (Transaction.read_field J)
      × Ends J (TxValidatorData.read_field J)
      × Ends J (DidMapping.read_field J)
      × Ends J (TxAttestorData.read_field J)
      × Ends J (Signer.read_field J)
  block_messages-Ends = (
    read_all-Ends J C _ block-Shrinks,
    read_all-Ends J C _ tx_obj-Shrinks,
    read_all-Ends J C _ tx-Shrinks,
    read_all-Ends J C _ validator-Shrinks,
    read_all-Ends J C _ mapping-Shrinks,
    read_all-Ends J C _ vote-Shrinks,
    read_all-Ends J C _ signer-Shrinks,
  )
