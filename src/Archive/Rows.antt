-- ===== src/Archive/Rows.antt =====
-- The rows that a block gives (src/modules/archive/archive-node.service.ts).
pub mod Laws
pub mod Objects
pub mod Members
use push_anode.Prelude.{
  ℕ, List, [], ◌∷◌, map, Option, none, some, Text, lit, Result, ok, err, ◌>>=◌,
}
use push_anode.Util.Hex.{Bytes, bytes_to_base16}
use push_anode.Util.Base64.{bytes_to_base64}
use push_anode.Util.Value.{recursively_convert_to_json}
use push_anode.Wire.{Transaction, TransactionObj, Block, Failure, Libraries}
use push_anode.Validator.Check.{defined}
use push_anode.Sockets.Subscriptions.{FilteredTx, BlockEvent}
use push_anode.Archive.Database.{BlockRow, TxRow, Database}

module _ (lib : Libraries) where
  -- BlockUtil.hashBlockAsHex
  unfoldable pub hash_block_as_hex : Bytes → Text
  hash_block_as_hex block_raw = bytes_to_base16 (lib.sha256 block_raw)

  -- getTransactionHash and BlockUtil.hashTxAsHex
  unfoldable pub get_transaction_hash : Transaction → Text
  get_transaction_hash tx = bytes_to_base16 (lib.crypto_js_sha256 (lib.serialize_tx tx))

  -- blockData in handleBlock; members that are undefined, which a column of JSON drops, are kept
  unfoldable pub block_row : Block → Bytes → BlockRow
  block_row block block_bytes = record {
    block_hash = hash_block_as_hex block_bytes;
    bytes = block_bytes;
    data_as_json = recursively_convert_to_json (lib.block_to_object block);
    ts = block.ts;
  }

  -- txData in prepareTransactionsData; `toObject` gives byte fields in base 64
  unfoldable pub tx_row : Transaction → TransactionObj → Text → ℕ → TxRow
  tx_row tx tx_obj block_hash block_ts = record {
    ts = block_ts;
    txn_hash = get_transaction_hash tx;
    block_hash = block_hash;
    category = tx.category;
    sender = tx.sender;
    status = lit "SUCCESS";
    from = tx.sender;
    recipients = tx.recipients;
    payload = bytes_to_base64 tx.payload;
    data_as_json = lib.tx_obj_to_object tx_obj;
    sig = bytes_to_base64 tx.signature;
  }

  module _ (D : Database) where
    abbrev pub unless_stored : Option TxRow → TxRow → List TxRow → List TxRow
    unless_stored none row rows = row ∷ rows
    unless_stored (some old) row rows = rows

    -- prepareTransactionsData: a row for each transaction whose hash is not stored yet
    unfoldable pub prepare_transactions_data :
        D.Db → List TransactionObj → Text → ℕ → Result Failure (List TxRow)
    prepare_transactions_data d [] block_hash block_ts = ok []
    prepare_transactions_data d (t ∷ ts) block_hash block_ts = do
      tx ← defined t.tx
      stored ← D.find_tx d (get_transaction_hash tx)
      rows ← prepare_transactions_data d ts block_hash block_ts
      ok (unless_stored stored (tx_row tx t block_hash block_ts) rows)

-- filterBlockData
unfoldable pub filtered : TxRow → FilteredTx
filtered row = record {
  block_hash = row.block_hash;
  tx_hash = row.txn_hash;
  category = row.category;
  from = row.from;
  recipients = row.recipients;
}

unfoldable pub filter_block_data : Text → List TxRow → BlockEvent
unfolding filtered
filter_block_data block_hash rows = record { block_hash = block_hash; txs = map filtered rows }
