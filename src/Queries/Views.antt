-- ===== src/Queries/Views.antt =====
-- The objects that the queries answer with (src/modules/block/dto, src/modules/tx/dto), with big
-- integers as numbers: the replacer of src/rpc.service.ts writes them in decimal.
use push_anode.Prelude.{ℕ, List, [], ◌∷◌, Option, some, Text, text_eq, Result, ok, ◌>>=◌, length}
use push_anode.Util.Hex.{bytes_to_base16}
use push_anode.Util.Base64.{base64_to_base16}
use push_anode.Util.Value.{Value}
use push_anode.Wire.{Failure}
use push_anode.Archive.Database.{BlockRow, TxRow}

pub record TransactionDto : Type 0 where
  pub txn_hash : Text
  pub ts : ℕ
  pub block_hash : Text
  pub category : Text
  pub sender : Text
  pub status : Text
  pub from : Text
  pub recipients : List Text
  pub txn_data : Text
  pub txn_data_as_json : Value
  pub sig : Text

pub record BlockWithTransactions : Type 0 where
  pub block_hash : Text
  pub block_size : ℕ
  pub block_data : Text
  pub block_data_as_json : Value
  pub ts : ℕ
  pub transactions : List TransactionDto
  pub total_number_of_txns : ℕ

pub record PaginatedBlocksResponse : Type 0 where
  pub blocks : List BlockWithTransactions
  pub last_ts : ℕ
  pub total_pages : Option ℕ

-- The answer where nothing was found.
abbrev pub no_blocks : PaginatedBlocksResponse
no_blocks = record { blocks = []; last_ts = 0; total_pages = some 0 }

-- The object that each query makes of a transaction's row; the data was stored from its base 64.
unfoldable pub transaction_dto : TxRow → TransactionDto
transaction_dto tx = record {
  txn_hash = tx.txn_hash;
  ts = tx.ts;
  block_hash = tx.block_hash;
  category = tx.category;
  sender = tx.sender;
  status = tx.status;
  from = tx.from;
  recipients = tx.recipients;
  txn_data = base64_to_base16 tx.payload;
  txn_data_as_json = tx.data_as_json;
  sig = tx.sig;
}

-- The object of a block's row.
unfoldable pub block_with_transactions : BlockRow → List TransactionDto → ℕ → BlockWithTransactions
block_with_transactions block transactions total = record {
  block_hash = block.block_hash;
  block_size = length block.bytes;
  block_data = bytes_to_base16 block.bytes;
  block_data_as_json = block.data_as_json;
  ts = block.ts;
  transactions = transactions;
  total_number_of_txns = total;
}

-- rows.length ? rows[rows.length - 1].ts : BigInt(0)
unfoldable pub last_ts {ℓ} : {A : Type ℓ} → (A → ℕ) → List A → ℕ
last_ts ts [] = 0
last_ts ts (x ∷ []) = ts x
last_ts ts (x ∷ y ∷ rest) = last_ts ts (y ∷ rest)

-- Promise.all(xs.map(f))
unfoldable pub map_all {ℓ κ} :
    {A : Type ℓ} {B : Type κ} → (A → Result Failure B) → List A → Result Failure (List B)
map_all f [] = ok []
map_all f (x ∷ xs) = do y ← f x; ys ← map_all f xs; ok (y ∷ ys)
