-- ===== src/Archive/Steps/Alone.antt =====
-- A call that nothing interrupts is handleBlock.
use push_anode.Prelude.{
  ℕ, zero, suc, ◌+◌, ◌≤◌, ◌≡◌, refl, sym, ◌∙◌, ap, Bool, true, false, List, [], ◌∷◌, ◌++◌, Option,
  none, some, Result, ok, err, ◌>>=◌, length, arith, Option-cases, Result-cases, inl, inr,
}
use mathlib.Core.List.{append-nil, append_assoc}
use push_anode.Util.Hex.{Bytes}
use push_anode.Wire.{TransactionObj, Block, Failure, type_error, Libraries}
use push_anode.Validator.Contract.{Contract}
use push_anode.Archive.Database.{BlockRow, TxRow, Database}
use push_anode.Archive.Rows.{
  hash_block_as_hex, block_row, get_transaction_hash, tx_row, unless_stored,
  prepare_transactions_data,
}
use push_anode.Archive.Blocks.{
  Node, validate_block, create_block, create_txs, insert_block, store_block, unless_known,
  try_block, handle_block, caught,
}
use push_anode.Archive.Steps.{Phase, looking, checking, preparing, done, prepare_next, step, steps}

module _ (lib : Libraries) (D : Database) (contract : Contract) (block : Block) (raw : Bytes) where
  -- The state of a call that has ended with an answer.
  abbrev pub ended : (Bool × Option Failure) × Node D → Phase × Node D
  ended ((b, e), node) = (done b e, node)

  abbrev answer_of : Result Failure Bool × Node D → Phase × Node D
  answer_of r = ended (caught lib D contract r)

  abbrev run : ℕ → Phase → Node D → Phase × Node D
  run = steps lib D contract block raw

  steps-done :
      (n : ℕ) (b : Bool) (e : Option Failure) (node : Node D)
      → run n (done b e) node ≡ (done b e, node)
  unfolding steps step
  steps-done zero b e node = refl
  steps-done (suc n) b e node = steps-done n b e node

  inserted :
      (n : ℕ) (rows : List TxRow) (node : Node D)
      → run (suc (suc (suc (suc n)))) (preparing [] rows) node
        ≡ answer_of (insert_block lib D contract block raw rows node)
  unfolding steps step insert_block create_block create_txs
  inserted n [] node = steps-done n true none node
  inserted n (row ∷ rows) node =
      elim (Result-cases (D.create_block node.db (block_row lib block raw))) [
        | inr (e, p) ↦ rw p (steps-done n false (some e) node)
        | inl (d, p) ↦ elim (Result-cases (D.create_txs d (row ∷ rows))) [
          | inr (e, q) ↦ rw (p, q) (steps-done n false (some e) (record node { db = d }))
          | inl (d', q) ↦ rw (p, q) (steps-done n true none _)
        ]
      ]

  -- What remains of the transactions is prepared, and the rows are written.
  abbrev with_rows : List TxRow → Result Failure (List TxRow) → Node D → Phase × Node D
  with_rows rows (err e) node = answer_of (err e, node)
  with_rows rows (ok rest) node =
      answer_of (insert_block lib D contract block raw (rows ++ rest) node)

  with_rows-snoc :
      (rows : List TxRow) (stored : Option TxRow) (row : TxRow) (r : Result Failure (List TxRow))
      (node : Node D)
      → with_rows (rows ++ unless_stored lib D stored row []) r node
        ≡ with_rows rows (r >>= λ rest. ok (unless_stored lib D stored row rest)) node
  with_rows-snoc rows none row (err e) node = refl
  with_rows-snoc rows (some old) row (err e) node = refl
  with_rows-snoc rows none row (ok rest) node =
      ap (λ l. answer_of (insert_block lib D contract block raw l node))
        (append_assoc rows (row ∷ []) rest)
  with_rows-snoc rows (some old) row (ok rest) node =
      ap (λ l. answer_of (insert_block lib D contract block raw (l ++ rest) node)) (append-nil rows)

  prepared_all :
      (objs : List TransactionObj) (rows : List TxRow) (n : ℕ) (node : Node D)
      → length objs + 4 ≤ n
      → run n (preparing objs rows) node
        ≡ with_rows rows
            (prepare_transactions_data lib D node.db objs (hash_block_as_hex lib raw) block.ts)
            node
  unfolding steps step prepare_transactions_data prepare_next
  prepared_all [] rows (suc (suc (suc (suc n)))) node h =
      inserted n rows node
      ∙ ap (λ l. answer_of (insert_block lib D contract block raw l node)) (sym (append-nil rows))
  prepared_all [] rows zero node h = absurd (omega (arith, h))
  prepared_all [] rows (suc zero) node h = absurd (omega (arith, h))
  prepared_all [] rows (suc (suc zero)) node h = absurd (omega (arith, h))
  prepared_all [] rows (suc (suc (suc zero))) node h = absurd (omega (arith, h))
  prepared_all (t ∷ objs) rows zero node h = absurd (omega (arith, h))
  prepared_all (t ∷ objs) rows (suc n) node h = elim (Option-cases t.tx) [
    | inl p ↦ rw p (steps-done n false (some type_error) node)
    | inr (tx, p) ↦ elim (Result-cases (D.find_tx node.db (get_transaction_hash lib tx))) [
      | inr (e, q) ↦ rw (p, q) (steps-done n false (some e) node)
      | inl (stored, q) ↦
          rw (p, q)
            (prepared_all objs _ n node (omega (arith, h))
              ∙ with_rows-snoc rows stored
                  (tx_row lib tx (record t { tx = some tx }) (hash_block_as_hex lib raw) block.ts)
                  (prepare_transactions_data lib D node.db objs (hash_block_as_hex lib raw)
                    block.ts)
                  node)
    ]
  ]

  checked_of :
      (n : ℕ) (node : Node D) (r : Result Failure Bool)
      → length block.tx_obj + 4 ≤ n
      → validate_block lib D contract block ≡ r
      → run (suc n) checking node ≡ answer_of (store_block lib D contract block raw node)
  unfolding steps step store_block
  checked_of n node (err e) h p = rw p (steps-done n false (some e) node)
  checked_of n node (ok false) h p = rw p (steps-done n false _ node)
  checked_of n node (ok true) h p = rw p (
      prepared_all block.tx_obj [] n node h
      ∙ elim (Result-cases (
          prepare_transactions_data lib D node.db block.tx_obj (hash_block_as_hex lib raw)
            block.ts)) [ inl (rows, q) ↦ rw q refl | inr (e, q) ↦ rw q refl ])

  looked_of :
      (n : ℕ) (node : Node D) (r : Result Failure (Option BlockRow))
      → length block.tx_obj + 4 ≤ n
      → D.find_block node.db (hash_block_as_hex lib raw) ≡ r
      → run (suc (suc n)) looking node ≡ answer_of (try_block lib D contract block raw node)
  unfolding steps step try_block unless_known
  looked_of n node (err e) h p = rw p (steps-done (suc n) false (some e) node)
  looked_of n node (ok (some row)) h p = rw p (steps-done (suc n) true none node)
  looked_of n node (ok none) h p = rw p (checked_of n node _ h refl)

  -- A call that has as many turns as its block has transactions, and six, with no other call between
  -- them, ends with the answer of handleBlock and in its state.
  pub steps-handle_block :
      (n : ℕ) (node : Node D)
      → length block.tx_obj + 6 ≤ n
      → run n looking node ≡ ended (handle_block lib D contract block raw node)
  unfolding handle_block
  steps-handle_block zero node h = absurd (omega (arith, h))
  steps-handle_block (suc zero) node h = absurd (omega (arith, h))
  steps-handle_block (suc (suc n)) node h = looked_of n node _ (omega (arith, h)) refl
