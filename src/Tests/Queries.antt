-- ===== src/Tests/Queries.antt =====
-- Queries of tables in memory.
use push_anode.Prelude.{
  ℕ, Bool, true, false, if◌then◌else◌, subst, ◌≡◌, ◌*◌, refl, List, [], ◌∷◌, map, none, some, Text,
  lit, text_eq, text_beq, filter, arith,
}
use push_anode.Util.Hex.{bytes_to_base16, hex_digit}
use push_anode.Util.Str.{is_empty}
use push_anode.Util.Value.{Value}
use push_anode.Archive.Database.{BlockRow, TxRow}
use push_anode.Archive.Rows.{tx_row}
use push_anode.Queries.Order.{insert, sort, order_by_direction, from_start}
use push_anode.Queries.Pages.{skip_of, total_pages}
use push_anode.Queries.Views.{
  PaginatedBlocksResponse, transaction_dto, block_with_transactions, last_ts,
}
use push_anode.Queries.Blocks.{
  hash_response, in_block, block_data, block_map, push_get_block_hash_by_time_internal,
  push_get_blocks_by_block_hashes_internal,
}
use push_anode.Queries.Blocks.Pages.{ask_pages, in_order, ask_pages-sort}
use push_anode.Queries.Blocks.Lookup.{bytes_of, push_get_blocks_by_block_hashes_internal-map}
use push_anode.Collections.Map
use push_anode.Archive.Blocks.Linked.{IsLinked}
use push_anode.Queries.Txs.{
  TxWhere, build_where_clause, matches, answer_page, paginate_transactions,
  group_transactions_by_block, group_from, load_block, load_found, push_transaction,
}
use push_anode.Queries.Txs.Shown.{shown_in}
use push_anode.Queries.Txs.Complete.{IsPage, answer_page-IsPage}
use push_anode.Tests.Signers.{mail, voted_obj}
use push_anode.Tests.Codec.{libraries}
use push_anode.Tests.Tables.{tables, tables-IsDatabase}
use push_anode.Tests.Reads.{reads, reads-IsReads}

abbrev stored_at : Text → ℕ → BlockRow
stored_at hash ts = record {
  block_hash = hash;
  bytes = ts ∷ 255 ∷ [];
  data_as_json = Value.str hash;
  ts = ts;
}

-- Three blocks, of which the last written is not the newest.
abbrev db : tables.Db
unfolding tables
db = record {
  blocks = stored_at (lit "b2") 20 ∷ stored_at (lit "b3") 30 ∷ stored_at (lit "b1") 10 ∷ [];
  txs = [];
}

abbrev newest_first : List BlockRow
newest_first = stored_at (lit "b3") 30 ∷ stored_at (lit "b2") 20 ∷ stored_at (lit "b1") 10 ∷ []

abbrev asked_hashes : List Text
asked_hashes = lit "b2" ∷ lit "b9" ∷ lit "b1" ∷ lit "b2" ∷ []

ask_pages-sort_example :
    map hash_response newest_first
    ≡ map hash_response (in_order reads reads-IsReads db 40 (lit "DESC") 1)
unfolding tables reads reads-IsReads db ask_pages push_get_block_hash_by_time_internal skip_of
    total_pages order_by_direction from_start insert sort text_beq
ask_pages-sort_example =
    ask_pages-sort reads reads-IsReads db 40 (lit "DESC") 1
      (
        ((λ e. omega (arith, e)), ((λ e. omega (arith, e)), tt)),
        (((λ e. omega (arith, e)), tt), (tt, tt)),
      )
      0 2 refl refl refl

push_get_blocks_by_block_hashes_internal-map_example :
    some (lit "14ff") ∷ none ∷ some (lit "0aff") ∷ some (lit "14ff") ∷ []
    ≡ map (λ h. block_data (bytes_of (tables.block_at db h))) asked_hashes
unfolding tables reads reads-IsReads db push_get_blocks_by_block_hashes_internal block_map Map.get
    Map.set bytes_to_base16 hex_digit text_beq
push_get_blocks_by_block_hashes_internal-map_example =
    push_get_blocks_by_block_hashes_internal-map reads reads-IsReads db asked_hashes refl

-- A table with the transaction of a block, and the block.
abbrev wallet : Text
wallet = lit "eip155:1:0xBBBB"

abbrev sent_row : TxRow
sent_row = tx_row libraries mail voted_obj (lit "b2") 20

abbrev db_with_tx : tables.Db
unfolding tables
db_with_tx = record { blocks = stored_at (lit "b2") 20 ∷ []; txs = sent_row ∷ [] }

only_row :
    (b : Bool) {row : TxRow} → (if b then some sent_row else none) ≡ some row → sent_row ≡ row
only_row false e = cc
only_row true e = cc

linked : IsLinked tables db_with_tx
unfolding tables db_with_tx IsLinked tx_row text_beq
linked = λ h row e.
    subst (λ r. (b : BlockRow) × (tables.block_at db_with_tx r.block_hash ≡ some b))
      (only_row (text_beq sent_row.txn_hash h) e) (stored_at (lit "b2") 20, refl)

abbrev reply : PaginatedBlocksResponse
reply = record {
  blocks = block_with_transactions (stored_at (lit "b2") 20) (transaction_dto sent_row ∷ []) 1 ∷ [];
  last_ts = 20;
  total_pages = some 1;
}

abbrev by_user : TxWhere
by_user = build_where_clause 10 (lit "ASC") (some []) none none (some wallet)

answer_page-IsPage_example :
    (txs : List TxRow) × IsPage tables-IsDatabase reads reads-IsReads db_with_tx by_user
      (order_by_direction (lit "ASC"))
      10
      (0 * 10)
      txs
    × ((h : Text) → shown_in reply.blocks h ≡ map transaction_dto (filter (in_block h) txs))
unfolding tables reads db_with_tx libraries tx_row answer_page paginate_transactions skip_of
    build_where_clause group_transactions_by_block total_pages group_from load_block load_found
    push_transaction matches from_start insert sort order_by_direction is_empty Map.get Map.set
    Map.has block_with_transactions last_ts text_beq
answer_page-IsPage_example =
    answer_page-IsPage tables-IsDatabase reads reads-IsReads db_with_tx by_user (lit "ASC") 10 0
      {r = reply} linked refl
