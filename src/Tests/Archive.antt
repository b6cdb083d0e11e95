-- ===== src/Tests/Archive.antt =====
-- Runs of handleBlock on tables in memory.
use push_anode.Prelude.{
  ◌≡◌, ◌⊎◌, refl, [], List, ◌∷◌, All, Option, some, none, true, Text, text_beq, lit,
}
use push_anode.Collections.Set
use push_anode.Util.Hex.{Bytes, bytes_to_base16, hex_digit}
use push_anode.Wire.{TransactionObj, Block}
use push_anode.Validator.Contract.{NodeInfo, Contract, v_node, status_ok}
use push_anode.Validator.Signers.{
  check_block_as_snode, recover_signer_address, recover_validator, recover_attestor, check_signers,
  only_first_signer, only_attestation,
}
use push_anode.Sockets.Subscriptions.{Hub}
use push_anode.Archive.Database.{BlockRow}
use push_anode.Archive.Rows.{
  hash_block_as_hex, get_transaction_hash, block_row, tx_row, prepare_transactions_data,
}
use push_anode.Archive.Blocks.{
  Node, handle_block, try_block, unless_known, store_block, insert_block, create_block, create_txs,
  validate_block,
}
use push_anode.Archive.Blocks.Safety.{IsChecked, handle_block_only_checked}
use push_anode.Archive.Blocks.Linked.{IsLinked, handle_block-IsLinked}
use push_anode.Archive.Blocks.Complete.{
  IsStored, Announced, handle_block-IsStored, handle_block-Announced,
}
use push_anode.Archive.Blocks.Retry.{IsMissing, handle_block_half_stored}
use push_anode.Archive.Put.{push_put_block}
use push_anode.Archive.Put.Laws.{Answers, push_put_block-Answers}
use push_anode.Tests.Codec.{libraries}
use push_anode.Tests.Signers.{attested_twice, voted_obj}
use push_anode.Tests.Tables.{tables, tables-IsDatabase}

abbrev validator : Text → Text × NodeInfo
validator name =
    (name, record { node_id = name; url = none; node_type = v_node; node_status = status_ok })

abbrev pub contract : Contract
contract = record {
  node_id = lit "0xN";
  vnodes = validator (lit "0xV") ∷ validator (lit "0xA") ∷ validator (lit "0xB") ∷ [];
  snodes = [];
  anodes = [];
  val_per_block = 3;
}

abbrev pub hub : Hub
hub = record { subscribers = []; net = record { is_open = λ _. true; sent = [] } }

unfoldable pub start : Node tables
unfolding tables
start = record { db = record { blocks = []; txs = [] }; hub = hub }

abbrev pub raw : Bytes
raw = 7 ∷ 8 ∷ []

abbrev pub after : Node tables
after = (handle_block libraries tables contract attested_twice raw start).1

handle_block_only_checked_example :
    (lit "0708" ≡ hash_block_as_hex libraries raw)
    × (block_row libraries attested_twice raw ≡ block_row libraries attested_twice raw)
    × IsChecked libraries tables tables-IsDatabase contract attested_twice raw
unfolding tables libraries start handle_block try_block unless_known store_block insert_block
    create_block create_txs validate_block check_block_as_snode recover_signer_address
    recover_validator recover_attestor check_signers only_first_signer only_attestation Set.has
    text_beq hash_block_as_hex bytes_to_base16 hex_digit get_transaction_hash block_row tx_row
    prepare_transactions_data
handle_block_only_checked_example =
    handle_block_only_checked libraries tables tables-IsDatabase contract attested_twice raw start
      (lit "0708") (block_row libraries attested_twice raw) refl refl

handle_block-IsLinked_example : IsLinked tables after.db
unfolding tables start IsLinked
handle_block-IsLinked_example =
    handle_block-IsLinked libraries tables tables-IsDatabase contract attested_twice raw start
      (λ h row e. cc e)

handle_block-IsStored_example :
    ((handle_block libraries tables contract attested_twice raw start).0.1 ≡ none)
    × All (IsStored libraries tables after.db) attested_twice.tx_obj
unfolding tables libraries start handle_block try_block unless_known store_block insert_block
    create_block create_txs validate_block check_block_as_snode recover_signer_address
    recover_validator recover_attestor check_signers only_first_signer only_attestation Set.has
    text_beq hash_block_as_hex bytes_to_base16 hex_digit get_transaction_hash block_row tx_row
    prepare_transactions_data
handle_block-IsStored_example =
    handle_block-IsStored libraries tables tables-IsDatabase contract attested_twice raw start refl
      refl

handle_block-Announced_example :
    (after.hub ≡ hub)
    ⊎ (((handle_block libraries tables contract attested_twice raw start).0 ≡ (true, none))
        × Announced libraries tables tables-IsDatabase contract attested_twice raw start after)
unfolding start
handle_block-Announced_example =
    handle_block-Announced libraries tables tables-IsDatabase contract attested_twice raw start

abbrev read_back : Option BlockRow
read_back = some (block_row libraries attested_twice raw)

-- A block with one transaction twice: its rows have the same key.
abbrev twice_obj : TransactionObj
twice_obj = record voted_obj { attestor_data = record { vote = 1 } ∷ record { vote = 1 } ∷ [] }

abbrev doubled : Block
doubled = record attested_twice { tx_obj = twice_obj ∷ twice_obj ∷ [] }

abbrev after_half : Node tables
after_half = (handle_block libraries tables contract doubled raw start).1

handle_block_half_stored_example :
    (tables.block_at after_half.db (hash_block_as_hex libraries raw)
      ≡ some (block_row libraries doubled raw))
    × IsMissing libraries tables tables-IsDatabase contract doubled raw after_half.db
    × ((h : Text) → tables.tx_at after_half.db h ≡ tables.tx_at start.db h)
    × (after_half.hub ≡ hub)
    × (handle_block libraries tables contract doubled raw after_half ≡ ((true, none), after_half))
unfolding tables libraries start handle_block try_block unless_known store_block insert_block
    create_block create_txs validate_block check_block_as_snode recover_signer_address
    recover_validator recover_attestor check_signers only_first_signer only_attestation Set.has
    text_beq hash_block_as_hex bytes_to_base16 hex_digit get_transaction_hash block_row tx_row
    prepare_transactions_data
handle_block_half_stored_example =
    handle_block_half_stored libraries tables tables-IsDatabase contract doubled raw start refl refl
      (λ e. cc e) after_half (some (block_row libraries doubled raw)) (λ h row e. e, λ h row e. e)
      refl

abbrev pub small_block : Block
small_block = record attested_twice { ts = 17 }

abbrev sent : List Text
sent = bytes_to_base16 (libraries.serialize_block small_block) ∷ lit "zz" ∷ []

push_put_block-Answers_example :
    Answers libraries tables
      (push_put_block libraries tables contract sent start).1.db
      sent
      (push_put_block libraries tables contract sent start).0
push_put_block-Answers_example =
    push_put_block-Answers libraries tables tables-IsDatabase contract sent start
