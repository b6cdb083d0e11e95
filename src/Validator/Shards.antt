-- ===== src/Validator/Shards.antt =====
-- The shards that a block concerns, in src/modules/validator/blockUtil.ts.
pub mod Laws
pub mod Members
use push_anode.Prelude.{
  ℕ, zero, suc, ◌+◌, ◌%◌, Bool, true, false, List, [], ◌∷◌, Option, none, some, Text, lit, Result,
  ok, err, ◌>>=◌, ◌>>◌, guard, leb, ltb, ◌==◌, text_eq, nat_eq, length, get_elem?, if◌then◌else◌,
}
use push_anode.Collections.Set
use push_anode.Collections.Set.{Set}
use push_anode.Util.Hex.{Bytes}
use push_anode.Util.Caip.{CaipAddr, CaipError, strip_0x, parse_caip_address}
use push_anode.Wire.{Transaction, TransactionObj, Block, Failure, thrown, Libraries}
use push_anode.Validator.Check.{defined}
use push_anode.Validator.Sdk.{Wallets}

module _ (lib : Libraries) (w : Wallets) where
  -- The first byte of the hash of the address, modulo the number of shards.
  unfoldable pub shard_of : Text → ℕ → Result Failure (Option ℕ)
  shard_of addr shard_count = do
    shard_id ← defined (get_elem? (lib.sha256 (w.utf8_encode (strip_0x addr))) 0)
    guard (leb shard_id 255) (thrown (lit "Assertion failed"))
    guard (leb 1 shard_count) (thrown (lit "Assertion failed"))
    ok (some (shard_id % shard_count))

  abbrev pub shard_of_caip : Result CaipError CaipAddr → ℕ → Result Failure (Option ℕ)
  shard_of_caip (err e) shard_count = err (thrown (lit "invalid caip address"))
  shard_of_caip (ok caip) shard_count =
      if ltb 4 (length caip.addr) then shard_of caip.addr shard_count else ok none

  -- calculateAffectedShard
  unfoldable pub calculate_affected_shard : Text → ℕ → Result Failure (Option ℕ)
  calculate_affected_shard [] shard_count = ok none
  calculate_affected_shard (c ∷ wallet) shard_count =
      shard_of_caip (parse_caip_address (c ∷ wallet)) shard_count

  -- for (let i = 0; i < shardCount; i++) shards.add(i), for the `left` numbers from `i` on
  unfoldable pub add_range : ℕ → ℕ → Set ℕ → Set ℕ
  add_range zero i shards = shards
  add_range (suc left) i shards = add_range left (suc i) (Set.add shards i)

  abbrev pub add_some : Set ℕ → Option ℕ → Set ℕ
  add_some shards none = shards
  add_some shards (some n) = Set.add shards n

  -- The loop over the sender and the recipients.
  unfoldable pub add_wallets : List Text → ℕ → Set ℕ → Result Failure (Set ℕ)
  add_wallets [] shard_count shards = ok shards
  add_wallets (wallet ∷ wallets) shard_count shards = do
    shard_id ← calculate_affected_shard wallet shard_count
    add_wallets wallets shard_count (add_some shards shard_id)

  -- calculateAffectedShardsTx
  unfoldable pub calculate_affected_shards_tx : Transaction → ℕ → Set ℕ → Result Failure (Set ℕ)
  calculate_affected_shards_tx tx shard_count shards =
      if tx.category == lit "INIT_DID"
      then ok (add_range shard_count 0 shards)
      else add_wallets (tx.sender ∷ tx.recipients) shard_count shards

  -- The loop of calculateAffectedShards.
  unfoldable pub add_txs : List TransactionObj → ℕ → Set ℕ → Result Failure (Set ℕ)
  add_txs [] shard_count shards = ok shards
  add_txs (t ∷ ts) shard_count shards = do
    tx ← defined t.tx
    more ← calculate_affected_shards_tx tx shard_count shards
    add_txs ts shard_count more

  -- calculateAffectedShards
  unfoldable pub calculate_affected_shards : Block → ℕ → Result Failure (Set ℕ)
  calculate_affected_shards block shard_count = add_txs block.tx_obj shard_count []
