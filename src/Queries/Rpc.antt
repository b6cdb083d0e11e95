-- ===== src/Queries/Rpc.antt =====
-- The methods of src/rpc.service.ts that read: their defaults, and the search. JSON-RPC itself, and
-- the decimal form of big integers, are left to the library and the replacer.
use push_anode.Prelude.{
  ℕ, Bool, true, false, List, [], ◌∷◌, Option, none, some, Text, lit, Result, ok, err, ◌>>=◌,
}
use push_anode.Wire.{Failure}
use push_anode.Archive.Database.{Database}
use push_anode.Queries.Reads.{Reads}
use push_anode.Queries.Views.{PaginatedBlocksResponse, no_blocks}
use push_anode.Queries.Blocks.{
  PaginatedBlockHashResponseInternal, push_get_blocks_by_time, push_get_block_hash_by_time_internal,
  push_get_block_by_hash, get_total_blocks, push_get_blocks_by_block_hashes_internal,
}
use push_anode.Queries.Txs.{
  push_get_transactions, push_get_transactions_by_recipient, push_get_transactions_by_sender,
  push_get_transactions_by_user, push_get_transaction_by_hash, get_total_transactions,
  get_daily_transactions,
}

-- value ?? default
abbrev pub or_else {ℓ} : {A : Type ℓ} → Option A → A → A
or_else none default = default
or_else (some value) default = value

-- The arguments that most methods share, each of which may be missing.
pub record PageArgs : Type 0 where
  pub start_time : Option ℕ
  pub direction : Option Text
  pub page_size : Option ℕ
  pub page : Option ℕ

-- getCounts
pub record Counts : Type 0 where
  pub total_blocks : ℕ
  pub total_transactions : ℕ
  pub daily_transactions : ℕ

abbrev pub found_in : Result Failure PaginatedBlocksResponse → Option PaginatedBlocksResponse
found_in (err e) = none
found_in (ok r) = elim r.blocks [ [] ↦ none | b ∷ bs ↦ some r ]

-- The first answer of a list that was given and that has a block.
unfoldable pub first_found : List (Result Failure PaginatedBlocksResponse) → PaginatedBlocksResponse
first_found [] = no_blocks
first_found (r ∷ rs) = or_else (found_in r) (first_found rs)

module _ {D : Database} (R : Reads D) (d : D.Db) where
  module _ (args : PageArgs) where
    abbrev start_time : ℕ
    start_time = or_else args.start_time 0

    abbrev direction : Text
    direction = or_else args.direction (lit "DESC")

    abbrev page_size : ℕ
    page_size = or_else args.page_size 10

    abbrev page : ℕ
    page = or_else args.page 1

    unfoldable pub get_blocks : Option Bool → Result Failure PaginatedBlocksResponse
    get_blocks show_details =
        push_get_blocks_by_time R d start_time direction (or_else show_details false) page_size page

    unfoldable pub get_block_hashes_internal : Result Failure PaginatedBlockHashResponseInternal
    get_block_hashes_internal =
        push_get_block_hash_by_time_internal R d start_time direction page_size page

    unfoldable pub get_txs : Option Text → Result Failure PaginatedBlocksResponse
    get_txs category = push_get_transactions R d start_time direction page_size page category

    unfoldable pub get_txs_by_recipient :
        Text → Option Text → Result Failure PaginatedBlocksResponse
    get_txs_by_recipient recipient category =
        push_get_transactions_by_recipient R d recipient start_time direction page_size page
          category

    unfoldable pub get_txs_by_sender : Text → Option Text → Result Failure PaginatedBlocksResponse
    get_txs_by_sender sender category =
        push_get_transactions_by_sender R d sender start_time direction page_size page category

    unfoldable pub get_transactions_by_user :
        Text → Option Text → Result Failure PaginatedBlocksResponse
    get_transactions_by_user user category =
        push_get_transactions_by_user R d user start_time direction page_size page category

    -- searchByAddress: a term is tried as the hash of a block, as that of a transaction, and as a
    -- recipient; an exception of one search is as if it had found nothing
    unfoldable pub search_by_address : Text → Option Bool → PaginatedBlocksResponse
    search_by_address term show_details = first_found (
        push_get_block_by_hash R d term (or_else show_details false)
        ∷ push_get_transaction_by_hash R d term
        ∷ push_get_transactions_by_recipient R d term start_time direction page_size page none
        ∷ [])

  -- getCounts
  unfoldable pub get_counts : ℕ → Result Failure Counts
  get_counts now = do
    blocks ← get_total_blocks R d
    transactions ← get_total_transactions R d
    daily ← get_daily_transactions R d now
    ok (record {
      total_blocks = blocks;
      total_transactions = transactions;
      daily_transactions = daily;
    })

  unfoldable pub get_block_by_hash : Text → Option Bool → Result Failure PaginatedBlocksResponse
  get_block_by_hash block_hash show_details =
      push_get_block_by_hash R d block_hash (or_else show_details true)

  unfoldable pub get_blocks_by_hashes_internal : List Text → Result Failure (List (Option Text))
  get_blocks_by_hashes_internal hashes = push_get_blocks_by_block_hashes_internal R d hashes
