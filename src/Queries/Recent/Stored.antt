-- ===== src/Queries/Recent/Stored.antt =====
-- What a wallet reads by push_getTransactions of the transactions that were stored from blocks.
use push_anode.Prelude.{
  ℕ, ◌<◌, ◌≡◌, refl, true, ◌||◌, List, [], ◌∷◌, map, Option, some, Text, text_eq, text_beq, lit,
  ◌==◌, ok, All,
}
use push_anode.Util.Hex.{bytes_to_base16}
use push_anode.Util.Base64.{base64_to_base16}
use push_anode.Util.Base64.Laws.{base64_to_bytes-bytes_to_base64}
use push_anode.Util.Caip.{is_full_caip_address}
use push_anode.Util.Str.{is_empty, get_or_default}
use push_anode.Util.Time.{Floats, parse_unix_float_or_fail, unix_float_to_millis, to_text}
use push_anode.Util.Value.{num, str, array}
use push_anode.Wire.{Transaction, TransactionObj, Libraries}
use push_anode.Wire.Generated.{generated}
use push_anode.Wire.Jspb.{Jspb}
use push_anode.Wire.Push.Transaction
use push_anode.Wire.Push.Transaction.{strings}
use push_anode.Wire.Push.TransactionObj
use push_anode.Archive.Database.{TxRow, Database}
use push_anode.Archive.Rows.{tx_row, get_transaction_hash}
use push_anode.Queries.Recent.{
  Item, SqlReads, item_of, items_of, last_item, get_field, value_to_base16, is_wanted, sort_order,
  push_get_transactions,
}

-- A transaction of a block, and the block that it was stored from.
pub record Sent : Type 0 where
  pub tx : Transaction
  pub tx_obj : TransactionObj
  pub holds : tx_obj.tx ≡ some tx
  pub are_bytes : All (λ b. b < 256) tx.payload
  pub block_hash : Text
  pub block_ts : ℕ

module _ (J : Jspb) (lib : Libraries) where
  abbrev pub row_of : Sent → TxRow
  row_of s = tx_row (generated J lib) s.tx s.tx_obj s.block_hash s.block_ts

  -- The transaction as it was sent, its payload in base 16.
  abbrev pub shown : Sent → Item
  shown s = record {
    ns = str s.tx.category;
    skey = get_transaction_hash (generated J lib) s.tx;
    ts = to_text s.block_ts;
    payload = record {
      payload_data = bytes_to_base16 s.tx.payload;
      hash = get_transaction_hash (generated J lib) s.tx;
      type = num s.tx.type;
      sender = str s.tx.sender;
      category = str s.tx.category;
      recipients_list = array (strings s.tx.recipients);
    };
  }

  item_of-row_of : (s : Sent) → item_of (row_of s) ≡ ok (shown s)
  unfolding item_of get_field tx_row generated TransactionObj.to_object Transaction.to_object
      value_to_base16 base64_to_base16 text_beq
  item_of-row_of s = rw (s.holds, base64_to_bytes-bytes_to_base64 s.tx.payload s.are_bytes) refl

  items_of-row_of : (list : List Sent) → items_of (map row_of list) ≡ ok (map shown list)
  unfolding items_of
  items_of-row_of [] = refl
  items_of-row_of (s ∷ list) = rw (item_of-row_of s, items_of-row_of list) refl

  module _ {D : Database} (Q : SqlReads D) (F : Floats) (d : D.Db) where
    -- Where the wallet is a full address, the order is ASC, DESC or not given, and the time is read, an
    -- answer of the database with rows that were stored from blocks is shown whole and in its order:
    -- each transaction as it was sent, its payload in base 16, with the time of the last one.
    pub push_get_transactions-row_of :
        (now : ℕ) (wallet category : Text) (first_ts sort_by : Option Text) (seconds : F.Float)
        (list : List Sent)
        → is_full_caip_address wallet ≡ true
        → (get_or_default sort_by (lit "DESC") == lit "ASC"
            || get_or_default sort_by (lit "DESC") == lit "DESC")
          ≡ true
        → parse_unix_float_or_fail F (get_or_default first_ts (to_text now)) ≡ ok seconds
        → Q.fetch_with_ties d
            (is_wanted category wallet
              (is_empty (some (get_or_default first_ts (to_text now))))
              (sort_order (get_or_default sort_by (lit "DESC")))
              (unix_float_to_millis F seconds))
            (sort_order (get_or_default sort_by (lit "DESC")))
            30
          ≡ ok (map row_of list)
        → push_get_transactions Q F d now wallet category first_ts sort_by
          ≡ ok (record { items = map shown list; last_ts = last_item (map shown list) })
    unfolding push_get_transactions
    push_get_transactions-row_of now wallet category first_ts sort_by seconds list full order time
          rows =
        rw (full, order, time, rows, items_of-row_of list) refl
