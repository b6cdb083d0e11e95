-- ===== src/Queries/Txs.antt =====
-- The queries of src/modules/tx/tx.service.ts.
pub mod Groups
pub mod Complete
pub mod Where
pub mod Shown
pub mod Stored
pub mod Sent
use push_anode.Prelude.{
  ℕ, Bool, true, false, not, ◌&&◌, ◌||◌, List, [], ◌∷◌, ◌++◌, map, Option, none, some, Text,
  text_eq, ◌==◌, Result, ok, ◌>>=◌, any, leb, ◌-◌, if◌then◌else◌,
}
use push_anode.Collections.Map
use push_anode.Collections.Map.{Map}
use push_anode.Util.Str.{is_empty}
use push_anode.Wire.{Failure}
use push_anode.Archive.Database.{BlockRow, TxRow, Database}
use push_anode.Queries.Order.{Order, order_by_direction, from_start}
use push_anode.Queries.Reads.{Reads}
use push_anode.Queries.Pages.{skip_of, total_pages}
use push_anode.Queries.Views.{
  BlockWithTransactions, PaginatedBlocksResponse, no_blocks, transaction_dto,
  block_with_transactions, last_ts,
}
use push_anode.Queries.Blocks.{in_block}

-- Prisma.TransactionWhereInput, with the keys that buildWhereClause can set; `user` is its OR.
pub record TxWhere : Type 0 where
  pub operator : Order
  pub start_time : ℕ
  pub category : Option Text
  pub recipient : Option Text
  pub sender : Option Text
  pub user : Option Text

-- The value of a key, where the argument is neither undefined nor empty.
abbrev pub when_given : Option Text → Option Text
when_given value = if is_empty value then none else value

-- buildWhereClause
unfoldable pub build_where_clause :
    ℕ → Text → Option Text → Option Text → Option Text → Option Text → TxWhere
build_where_clause start_time direction category recipient sender user = record {
  operator = order_by_direction direction;
  start_time = start_time;
  category = when_given category;
  recipient = when_given recipient;
  sender = when_given sender;
  user = when_given user;
}

abbrev pub if_given : Option Text → (Text → Bool) → Bool
if_given none test = true
if_given (some value) test = test value

abbrev pub has_recipient : TxRow → Text → Bool
has_recipient tx address = any (λ r. r == address) tx.recipients

-- What Prisma makes of the keys: all of them hold.
unfoldable pub matches : TxWhere → TxRow → Bool
matches w tx =
    from_start w.operator w.start_time tx.ts
    && (if_given w.category (λ c. tx.category == c)
        && (if_given w.recipient (has_recipient tx)
            && (if_given w.sender (λ s. tx.sender == s)
                && if_given w.user (λ u. tx.sender == u || has_recipient tx u))))

-- blockWithTransactions.transactions.push(...)
unfoldable pub push_transaction :
    Map Text BlockWithTransactions
    → TxRow
    → Option BlockWithTransactions
    → Map Text BlockWithTransactions
push_transaction m tx none = m
push_transaction m tx (some b) =
    Map.set m tx.block_hash (record b { transactions = b.transactions ++ transaction_dto tx ∷ [] })

module _ {D : Database} (R : Reads D) (d : D.Db) where
  -- paginateTransactions
  unfoldable pub paginate_transactions :
      TxWhere → Text → ℕ → ℕ → Result Failure (List TxRow × Option ℕ)
  paginate_transactions w direction page_size page = do
    total ← R.txs.count d (matches w)
    transactions ←
        R.txs.find_page d (matches w) (order_by_direction direction) page_size
          (skip_of page page_size)
    ok (transactions, total_pages total page_size)

  unfoldable pub load_found :
      Map Text BlockWithTransactions
      → Text
      → Option BlockRow
      → Result Failure (Map Text BlockWithTransactions)
  load_found m block_hash none = ok m
  load_found m block_hash (some block) = do
    total ← R.txs.count d (in_block block.block_hash)
    ok (Map.set m block_hash (block_with_transactions block [] total))

  -- The block of a transaction, read where the map does not have it.
  unfoldable pub load_block :
      Map Text BlockWithTransactions → Text → Result Failure (Map Text BlockWithTransactions)
  load_block m block_hash =
      let found = D.find_block d block_hash in
      if Map.has m block_hash then ok m else (do block ← found; load_found m block_hash block)

  -- The loop of groupTransactionsByBlock.
  unfoldable pub group_from :
      Map Text BlockWithTransactions → List TxRow → Result Failure (Map Text BlockWithTransactions)
  group_from m [] = ok m
  group_from m (tx ∷ txs) = do
    m1 ← load_block m tx.block_hash
    group_from (push_transaction m1 tx (Map.get m1 tx.block_hash)) txs

  -- groupTransactionsByBlock
  unfoldable pub group_transactions_by_block :
      List TxRow → Result Failure (List BlockWithTransactions)
  group_transactions_by_block transactions = do
    blocks ← group_from [] transactions
    ok (Map.values blocks)

  -- What the four queries by time do with their `where`.
  unfoldable pub answer_page : TxWhere → Text → ℕ → ℕ → Result Failure PaginatedBlocksResponse
  answer_page w direction page_size page = do
    (transactions, pages) ← paginate_transactions w direction page_size page
    blocks ← group_transactions_by_block transactions
    ok (record { blocks = blocks; last_ts = last_ts (λ t. t.ts) transactions; total_pages = pages })

  -- push_getTransactions
  unfoldable pub push_get_transactions :
      ℕ → Text → ℕ → ℕ → Option Text → Result Failure PaginatedBlocksResponse
  push_get_transactions start_time direction page_size page category =
      answer_page (build_where_clause start_time direction category none none none) direction
        page_size page

  -- push_getTransactionsByRecipient
  unfoldable pub push_get_transactions_by_recipient :
      Text → ℕ → Text → ℕ → ℕ → Option Text → Result Failure PaginatedBlocksResponse
  push_get_transactions_by_recipient recipient start_time direction page_size page category =
      answer_page (build_where_clause start_time direction category (some recipient) none none)
        direction page_size page

  -- push_getTransactionsBySender
  unfoldable pub push_get_transactions_by_sender :
      Text → ℕ → Text → ℕ → ℕ → Option Text → Result Failure PaginatedBlocksResponse
  push_get_transactions_by_sender sender start_time direction page_size page category =
      answer_page (build_where_clause start_time direction category none (some sender) none)
        direction page_size page

  -- push_getTransactionsByUser
  unfoldable pub push_get_transactions_by_user :
      Text → ℕ → Text → ℕ → ℕ → Option Text → Result Failure PaginatedBlocksResponse
  push_get_transactions_by_user user start_time direction page_size page category =
      answer_page (build_where_clause start_time direction category none none (some user)) direction
        page_size page

  abbrev block_of_tx : TxRow → Option BlockRow → Result Failure PaginatedBlocksResponse
  block_of_tx tx none = ok no_blocks
  block_of_tx tx (some block) = do
    total ← R.txs.count d (in_block tx.block_hash)
    ok (record {
      blocks =
          record (block_with_transactions block (transaction_dto tx ∷ []) total) {
            block_hash = tx.block_hash;
            ts = tx.ts;
          }
          ∷ [];
      last_ts = tx.ts;
      total_pages = some 1;
    })

  abbrev one_transaction : Option TxRow → Result Failure PaginatedBlocksResponse
  one_transaction none = ok no_blocks
  one_transaction (some tx) = do block ← D.find_block d tx.block_hash; block_of_tx tx block

  -- push_getTransactionByHash
  unfoldable pub push_get_transaction_by_hash : Text → Result Failure PaginatedBlocksResponse
  push_get_transaction_by_hash transaction_hash = do
    tx ← D.find_tx d transaction_hash
    one_transaction tx

  -- getTotalTransactions
  unfoldable pub get_total_transactions : Result Failure ℕ
  get_total_transactions = R.txs.count d (λ t. true)

  -- getDailyTransactions, where the clock is `now` and no change of the clocks lies between
  unfoldable pub get_daily_transactions : ℕ → Result Failure ℕ
  get_daily_transactions now = R.txs.count d (λ t. leb (now - 86400000) t.ts)
