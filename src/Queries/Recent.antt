-- ===== src/Queries/Recent.antt =====
-- push_getTransactions of src/modules/block/block.service.ts: the transactions of a wallet around a
-- time. The SQL text that it runs is an interface: PostgreSQL is not under src/.
pub mod Stored
pub mod Next
use push_anode.Prelude.{
  ℕ, Bool, true, not, ◌&&◌, ◌||◌, List, [], ◌∷◌, ◌++◌, Option, none, some, Text, text_eq, lit, ◌==◌,
  ltb, leb, Result, ok, err, ◌>>=◌, ◌>>◌, guard, if◌then◌else◌,
}
use push_anode.Util.Str.{is_empty, get_or_default}
use push_anode.Util.Base64.{base64_to_base16}
use push_anode.Util.Caip.{is_full_caip_address}
use push_anode.Util.Time.{Floats, parse_unix_float_or_fail, unix_float_to_millis, to_text}
use push_anode.Util.Value
use push_anode.Util.Value.{Value, undefined, num, str, bytes, array, object, Fields, end, field}
use push_anode.Wire.{Failure, type_error, thrown}
use push_anode.Archive.Database.{TxRow, Database}
use push_anode.Queries.Order.{Order, asc, desc}
use push_anode.Queries.Txs.{has_recipient}

-- obj[key]: the value of the field, or undefined
abbrev pub find_field : Fields → Text → Value
find_field end key = undefined
find_field (field k v fs) key = if k == key then v else find_field fs key

-- The property of a value, which undefined does not have; the other values have no property of the
-- names that are asked for.
unfoldable pub get_field : Value → Text → Result Failure Value
get_field undefined key = err type_error
get_field (object fs) key = ok (find_field fs key)
get_field (num n) key = ok undefined
get_field (str s) key = ok undefined
get_field (bytes b) key = ok undefined
get_field (array items) key = ok undefined

-- BitUtil.base64ToBase16 of a value, which Buffer.from takes if it is a text
unfoldable pub value_to_base16 : Value → Result Failure Text
value_to_base16 (str s) = ok (base64_to_base16 s)
value_to_base16 v = err type_error

pub record Payload : Type 0 where
  pub payload_data : Text
  pub hash : Text
  pub type : Value
  pub sender : Value
  pub category : Value
  pub recipients_list : Value

pub record Item : Type 0 where
  pub ns : Value
  pub skey : Text
  pub ts : Text
  pub payload : Payload

pub record PushGetTransactionsResult : Type 0 where
  pub items : List Item
  pub last_ts : Option Text

-- The item of a row.
unfoldable pub item_of : TxRow → Result Failure Item
item_of row = do
  tx ← get_field row.data_as_json (lit "tx")
  tx_data ← get_field tx (lit "data")
  data_as_base16 ← value_to_base16 tx_data
  category ← get_field tx (lit "category")
  type ← get_field tx (lit "type")
  sender ← get_field tx (lit "sender")
  recipients_list ← get_field tx (lit "recipientsList")
  ok (record {
    ns = category;
    skey = row.txn_hash;
    ts = to_text row.ts;
    payload = record {
      payload_data = data_as_base16;
      hash = row.txn_hash;
      type = type;
      sender = sender;
      category = category;
      recipients_list = recipients_list;
    };
  })

unfoldable pub items_of : List TxRow → Result Failure (List Item)
items_of [] = ok []
items_of (row ∷ rows) = do item ← item_of row; items ← items_of rows; ok (item ∷ items)

abbrev pub last_item : List Item → Option Text
last_item [] = none
last_item (i ∷ []) = some i.ts
last_item (i ∷ j ∷ items) = last_item (j ∷ items)

-- The `where` of the SQL text: the category, the wallet as sender or recipient, and the time.
unfoldable pub is_wanted : Text → Text → Bool → Order → ℕ → TxRow → Bool
is_wanted category wallet is_first_query asc millis row =
    row.category == category
    && ((row.sender == wallet || has_recipient row wallet) && (is_first_query || ltb millis row.ts))
is_wanted category wallet is_first_query desc millis row =
    row.category == category
    && ((row.sender == wallet || has_recipient row wallet) && (is_first_query || ltb row.ts millis))

-- The rows of a test in an order by time: so many, and those of the time of the last one too.
pub record SqlReads (D : Database) : Type 0 where
  pub fetch_with_ties : D.Db → (TxRow → Bool) → Order → ℕ → Result Failure (List TxRow)

abbrev pub sort_order : Text → Order
sort_order sort = if sort == lit "ASC" then asc else desc

module _ {D : Database} (Q : SqlReads D) (F : Floats) (d : D.Db) where
  -- push_getTransactions, with the seconds of the clock
  unfoldable pub push_get_transactions :
      ℕ → Text → Text → Option Text → Option Text → Result Failure PushGetTransactionsResult
  push_get_transactions now wallet_in_caip category first_ts sort_by =
      let first = get_or_default first_ts (to_text now) in
      let sort = get_or_default sort_by (lit "DESC") in
      let is_first_query = is_empty (some first) in
      guard (is_full_caip_address wallet_in_caip)
        (thrown (lit "invalid wallet, only caip10 format is supported" ++ wallet_in_caip))
      >> guard (sort == lit "ASC" || sort == lit "DESC") (thrown (lit "invalid sort"))
      >> (do
        seconds ← parse_unix_float_or_fail F first
        rows ←
            Q.fetch_with_ties d
              (is_wanted category wallet_in_caip is_first_query (sort_order sort)
                (unix_float_to_millis F seconds))
              (sort_order sort) 30
        items ← items_of rows
        ok (record { items = items; last_ts = last_item items }))
