-- ===== src/Queries/Blocks.antt =====
-- The queries of src/modules/block/block.service.ts on blocks.
pub mod Pages
pub mod Lookup
use push_anode.Prelude.{
  ℕ, zero, suc, Bool, true, false, List, [], ◌∷◌, map, Option, none, some, Text, lit, text_eq,
  nat_eq, ◌==◌, Result, ok, ◌>>=◌, length, any, if◌then◌else◌,
}
use push_anode.Collections.Map
use push_anode.Collections.Map.{Map}
use push_anode.Util.Hex.{Bytes, bytes_to_base16}
use push_anode.Wire.{Failure}
use push_anode.Archive.Database.{BlockRow, TxRow, Database}
use push_anode.Queries.Order.{Order, order_by_direction, from_start}
use push_anode.Queries.Reads.{Reads}
use push_anode.Queries.Pages.{skip_of, total_pages}
use push_anode.Queries.Views.{
  TransactionDto, BlockWithTransactions, PaginatedBlocksResponse, no_blocks, transaction_dto,
  block_with_transactions, last_ts, map_all,
}

pub record BlockHashResponseInternal : Type 0 where
  pub block_hash : Text
  pub block_size : ℕ
  pub ts : ℕ

pub record PaginatedBlockHashResponseInternal : Type 0 where
  pub block_hashes : List BlockHashResponseInternal
  pub last_ts : ℕ
  pub total_pages : Option ℕ

-- The answers of push_putBlockHash.
pub data HashStatus : Type 0 where
  send : HashStatus
  do_not_send : HashStatus

-- The object of a row in push_getBlockHashByTimeInternal: the size is that of the hash.
unfoldable pub hash_response : BlockRow → BlockHashResponseInternal
hash_response block = record {
  block_hash = block.block_hash;
  block_size = length block.block_hash;
  ts = block.ts;
}

-- The `where` of the queries by time.
abbrev pub block_from : Order → ℕ → BlockRow → Bool
block_from order start_time block = from_start order start_time block.ts

abbrev pub in_block : Text → TxRow → Bool
in_block block_hash tx = tx.block_hash == block_hash

abbrev pub page_or_first : ℕ → ℕ
page_or_first zero = 1
page_or_first (suc n) = suc n

unfoldable pub to_status : Text × ℕ → HashStatus
to_status (h, present) = if present == 1 then do_not_send else send

abbrev pub block_data : Option Bytes → Option Text
block_data none = none
block_data (some data') = some (bytes_to_base16 data')

-- blockMap
unfoldable pub block_map : List BlockRow → Map Text Bytes → Map Text Bytes
block_map [] m = m
block_map (b ∷ bs) m = block_map bs (Map.set m b.block_hash b.bytes)

module _ {D : Database} (R : Reads D) where
  unfoldable pub block_transactions : D.Db → Bool → Text → Result Failure (List TransactionDto)
  block_transactions d false block_hash = ok []
  block_transactions d true block_hash = do
    transactions ← R.txs.find_many d (in_block block_hash)
    ok (map transaction_dto transactions)

  -- What the queries read of one block.
  unfoldable pub read_block : D.Db → Bool → BlockRow → Result Failure BlockWithTransactions
  read_block d show_details block = do
    total ← R.txs.count d (in_block block.block_hash)
    transactions ← block_transactions d show_details block.block_hash
    ok (block_with_transactions block transactions total)

  -- push_getBlocksByTime
  unfoldable pub push_get_blocks_by_time :
      D.Db → ℕ → Text → Bool → ℕ → ℕ → Result Failure PaginatedBlocksResponse
  push_get_blocks_by_time d start_time direction show_details page_size page = do
    let order = order_by_direction direction
    total ← R.blocks.count d (block_from order start_time)
    blocks ←
        R.blocks.find_page d (block_from order start_time) order page_size (skip_of page page_size)
    response_blocks ← map_all (read_block d show_details) blocks
    ok (record {
      blocks = response_blocks;
      last_ts = last_ts (λ b. b.ts) blocks;
      total_pages = total_pages total page_size;
    })

  -- push_getBlockHashByTimeInternal, which does not read `showDetails`
  unfoldable pub push_get_block_hash_by_time_internal :
      D.Db → ℕ → Text → ℕ → ℕ → Result Failure PaginatedBlockHashResponseInternal
  push_get_block_hash_by_time_internal d start_time direction page_size page = do
    let order = order_by_direction direction
    total ← R.blocks.count d (block_from order start_time)
    block_hashes ←
        R.blocks.find_page d (block_from order start_time) order page_size
          (skip_of (page_or_first page) page_size)
    ok (record {
      block_hashes = map hash_response block_hashes;
      last_ts = last_ts (λ b. b.ts) block_hashes;
      total_pages = total_pages total page_size;
    })

  -- push_getBlocksByBlockHashesInternal
  unfoldable pub push_get_blocks_by_block_hashes_internal :
      D.Db → List Text → Result Failure (List (Option Text))
  push_get_blocks_by_block_hashes_internal d hashes = do
    blocks ← R.blocks.find_many d (λ b. any (λ h. b.block_hash == h) hashes)
    ok (map (λ h. block_data (Map.get (block_map blocks []) h)) hashes)

  abbrev one_block : D.Db → Bool → Option BlockRow → Result Failure PaginatedBlocksResponse
  one_block d show_details none = ok no_blocks
  one_block d show_details (some block) = do
    response_block ← read_block d show_details block
    ok (record { blocks = response_block ∷ []; last_ts = block.ts; total_pages = some 1 })

  -- push_getBlockByHash
  unfoldable pub push_get_block_by_hash :
      D.Db → Text → Bool → Result Failure PaginatedBlocksResponse
  push_get_block_by_hash d block_hash show_details = do
    block ← D.find_block d block_hash
    one_block d show_details block

  -- getTotalBlocks
  unfoldable pub get_total_blocks : D.Db → Result Failure ℕ
  get_total_blocks d = R.blocks.count d (λ b. true)

  -- push_putBlockHash
  unfoldable pub push_put_block_hash : D.Db → List Text → Result Failure (List HashStatus)
  push_put_block_hash d [] = ok []
  push_put_block_hash d (h ∷ hashes) = do
    results ← R.join_hashes d (h ∷ hashes)
    ok (map to_status results)
