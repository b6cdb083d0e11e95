-- ===== src/Archive/Database.antt =====
-- The tables of prisma/schema.prisma, and the calls of the Prisma client on them as an interface:
-- PostgreSQL is not under src/. A read gives what the table holds or throws. A write is one
-- statement: it is done whole, or it throws and the tables stay; a primary key is never taken twice.
use push_anode.Prelude.{
  ℕ, ◌≡◌, List, [], ◌∷◌, Option, none, some, Text, text_eq, ◌==◌, Result, ok, All, if◌then◌else◌,
}
use push_anode.Util.Hex.{Bytes}
use push_anode.Util.Value.{Value}
use push_anode.Wire.{Failure}

-- model Block
pub record BlockRow : Type 0 where
  pub block_hash : Text
  pub bytes : Bytes
  pub data_as_json : Value
  pub ts : ℕ

-- model Transaction
pub record TxRow : Type 0 where
  pub ts : ℕ
  pub txn_hash : Text
  pub block_hash : Text
  pub category : Text
  pub sender : Text
  pub status : Text
  pub from : Text
  pub recipients : List Text
  pub payload : Text
  pub data_as_json : Value
  pub sig : Text

-- The row of a transaction among new rows.
abbrev pub row_at : List TxRow → Text → Option TxRow
row_at [] h = none
row_at (r ∷ rows) h = if r.txn_hash == h then some r else row_at rows h

pub record Database : Type 1 where
  pub Db : Type 0
  -- What the tables hold.
  pub block_at : Db → Text → Option BlockRow
  pub tx_at : Db → Text → Option TxRow
  -- block.findUnique, transaction.findUnique, block.create, transaction.createMany
  pub find_block : Db → Text → Result Failure (Option BlockRow)
  pub find_tx : Db → Text → Result Failure (Option TxRow)
  pub create_block : Db → BlockRow → Result Failure Db
  pub create_txs : Db → List TxRow → Result Failure Db

-- The documented behaviour of the four calls.
pub record IsDatabase (D : Database) : Type 0 where
  pub found_block :
      (d : D.Db) (h : Text) {r : Option BlockRow} → D.find_block d h ≡ ok r → D.block_at d h ≡ r
  pub found_tx : (d : D.Db) (h : Text) {r : Option TxRow} → D.find_tx d h ≡ ok r → D.tx_at d h ≡ r
  pub block_key :
      (d : D.Db) (r : BlockRow) {d' : D.Db}
      → D.create_block d r ≡ ok d'
      → D.block_at d r.block_hash ≡ none
  pub block_added :
      (d : D.Db) (r : BlockRow) {d' : D.Db} (h : Text)
      → D.create_block d r ≡ ok d'
      → D.block_at d' h ≡ (if r.block_hash == h then some r else D.block_at d h)
  pub block_added-tx_at :
      (d : D.Db) (r : BlockRow) {d' : D.Db} (h : Text)
      → D.create_block d r ≡ ok d'
      → D.tx_at d' h ≡ D.tx_at d h
  pub txs_key :
      (d : D.Db) (rows : List TxRow) {d' : D.Db}
      → D.create_txs d rows ≡ ok d'
      → All (λ r. D.tx_at d r.txn_hash ≡ none) rows
  pub txs_added :
      (d : D.Db) (rows : List TxRow) {d' : D.Db} (h : Text)
      → D.create_txs d rows ≡ ok d'
      → D.tx_at d' h ≡ elim (row_at rows h) [ none ↦ D.tx_at d h | some r ↦ some r ]
  pub txs_added-block_at :
      (d : D.Db) (rows : List TxRow) {d' : D.Db} (h : Text)
      → D.create_txs d rows ≡ ok d'
      → D.block_at d' h ≡ D.block_at d h
