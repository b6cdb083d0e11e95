-- ===== src/Queries/Txs/Stored.antt =====
-- A transaction that was stored from a block is read back as it was sent.
use push_anode.Prelude.{
  ℕ, ◌<◌, ◌≡◌, refl, sym, ◌∙◌, ap, [], ◌∷◌, some, Text, lit, ok, >>=-eq-ok, ok_injective, All,
}
use push_anode.Util.Hex.{bytes_to_base16}
use push_anode.Util.Base64.{base64_to_base16, bytes_to_base64}
use push_anode.Util.Base64.Laws.{base64_to_bytes-bytes_to_base64}
use push_anode.Wire.{Transaction, TransactionObj, Libraries}
use push_anode.Archive.Database.{BlockRow, Database, IsDatabase}
use push_anode.Archive.Rows.{tx_row, get_transaction_hash}
use push_anode.Queries.Reads.{Reads}
use push_anode.Queries.Views.{
  PaginatedBlocksResponse, BlockWithTransactions, TransactionDto, transaction_dto,
  block_with_transactions,
}
use push_anode.Queries.Blocks.{in_block}
use push_anode.Queries.Txs.{push_get_transaction_by_hash}

module _ (lib : Libraries) (tx : Transaction) (t : TransactionObj) (block_hash : Text)
    (ts : ℕ) where
  -- The transaction as it was sent, with its payload in base 16.
  abbrev pub as_sent : TransactionDto
  as_sent = record {
    txn_hash = get_transaction_hash lib tx;
    ts = ts;
    block_hash = block_hash;
    category = tx.category;
    sender = tx.sender;
    status = lit "SUCCESS";
    from = tx.sender;
    recipients = tx.recipients;
    txn_data = bytes_to_base16 tx.payload;
    txn_data_as_json = lib.tx_obj_to_object t;
    sig = bytes_to_base64 tx.signature;
  }

  dto_as_sent :
      All (λ b. b < 256) tx.payload → transaction_dto (tx_row lib tx t block_hash ts) ≡ as_sent
  unfolding transaction_dto tx_row base64_to_base16
  dto_as_sent are_bytes = rw (base64_to_bytes-bytes_to_base64 tx.payload are_bytes) refl

  module _ {D : Database} (law : IsDatabase D) (R : Reads D) (d : D.Db) where
    -- What a search by the hash of the transaction answers: its block, with this transaction only.
    pub push_get_transaction_by_hash-tx_row :
        (b : BlockRow) {r : PaginatedBlocksResponse}
        → All (λ x. x < 256) tx.payload
        → D.tx_at d (get_transaction_hash lib tx) ≡ some (tx_row lib tx t block_hash ts)
        → D.block_at d block_hash ≡ some b
        → push_get_transaction_by_hash R d (get_transaction_hash lib tx) ≡ ok r
        → (shown : BlockWithTransactions) × (r.blocks ≡ shown ∷ [])
          × (shown.block_data ≡ bytes_to_base16 b.bytes)
          × (shown.transactions ≡ as_sent ∷ [])
    unfolding push_get_transaction_by_hash block_with_transactions tx_row
    push_get_transaction_by_hash-tx_row b are_bytes at_tx at_block e =
        let (o, p, e1) = >>=-eq-ok (D.find_tx d (get_transaction_hash lib tx)) _ e in
        let e2 = rw (sym (law.found_tx d _ p) ∙ at_tx) at e1 in
        let (o', p', e3) = >>=-eq-ok (D.find_block d block_hash) _ e2 in
        let e4 = rw (sym (law.found_block d _ p') ∙ at_block) at e3 in
        let (total, q, e5) = >>=-eq-ok (R.txs.count d (in_block block_hash)) _ e4 in
        (
          _,
          ap (λ (x : PaginatedBlocksResponse). x.blocks) (sym (ok_injective e5)),
          refl,
          ap (λ x. x ∷ []) (dto_as_sent are_bytes),
        )
