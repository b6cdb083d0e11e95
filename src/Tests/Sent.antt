-- ===== src/Tests/Sent.antt =====
-- A transaction that comes with a block, and is searched for.
use push_anode.Prelude.{◌≡◌, ◌<◌, refl, subst, ◌∷◌, [], some, text_beq, All, arith}
use mathlib.Core.List.{Memᴰ}
use push_anode.Collections.Set
use push_anode.Util.Hex.{bytes_to_base16, hex_digit}
use push_anode.Wire.{Transaction, TransactionObj}
use push_anode.Validator.Signers.{
  check_block_as_snode, recover_signer_address, recover_validator, recover_attestor, check_signers,
  only_first_signer, only_attestation,
}
use push_anode.Archive.Database.{TxRow}
use push_anode.Archive.Rows.{
  hash_block_as_hex, get_transaction_hash, block_row, tx_row, prepare_transactions_data,
}
use push_anode.Archive.Blocks.{
  handle_block, try_block, unless_known, store_block, insert_block, create_block, create_txs,
  validate_block,
}
use push_anode.Queries.Views.{PaginatedBlocksResponse, transaction_dto, block_with_transactions}
use push_anode.Queries.Txs.{push_get_transaction_by_hash}
use push_anode.Queries.Txs.Sent.{ShowsSent, push_get_transaction_by_hash-handle_block}
use push_anode.Tests.Archive.{start, after, raw, contract}
use push_anode.Tests.Codec.{libraries}
use push_anode.Tests.Reads.{reads}
use push_anode.Tests.Signers.{attested_twice, mail, voted_obj}
use push_anode.Tests.Tables.{tables, tables-IsDatabase}

abbrev voted_twice : TransactionObj
voted_twice = record voted_obj { attestor_data = record { vote = 1 } ∷ record { vote = 1 } ∷ [] }

abbrev mail_row : TxRow
mail_row = tx_row libraries mail voted_twice (hash_block_as_hex libraries raw) 1700

abbrev answer : PaginatedBlocksResponse
answer = record {
  blocks =
      block_with_transactions (block_row libraries attested_twice raw)
        (transaction_dto mail_row ∷ []) 1
      ∷ [];
  last_ts = 1700;
  total_pages = some 1;
}

only_mail : (x : Transaction) → voted_twice.tx ≡ some x → All (λ b. b < 256) x.payload
only_mail x e =
    let same : mail ≡ x = cc e in
    subst (λ (m : Transaction). All (λ b. b < 256) m.payload) same (omega arith, (omega arith, tt))

push_get_transaction_by_hash-handle_block_example :
    ShowsSent libraries tables tables-IsDatabase contract attested_twice raw
      (get_transaction_hash libraries mail)
      answer
unfolding tables reads libraries start handle_block try_block unless_known store_block insert_block
    create_block create_txs validate_block check_block_as_snode recover_signer_address
    recover_validator recover_attestor check_signers only_first_signer only_attestation Set.has
    text_beq hash_block_as_hex bytes_to_base16 hex_digit get_transaction_hash block_row tx_row
    prepare_transactions_data push_get_transaction_by_hash block_with_transactions
push_get_transaction_by_hash-handle_block_example =
    push_get_transaction_by_hash-handle_block libraries tables tables-IsDatabase contract
      attested_twice raw start voted_twice mail refl refl (Memᴰ.head refl) refl refl (only_mail, tt)
      reads after.db {r = answer} (λ h row e. e, λ h row e. e) refl
