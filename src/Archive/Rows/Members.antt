-- ===== src/Archive/Rows/Members.antt =====
-- Which transactions of a block the rows of prepareTransactionsData are.
use push_anode.Prelude.{
  ℕ, ◌≡◌, refl, subst, List, [], ◌∷◌, Option, none, some, Text, text_eq, text_beq_iff, ◌==◌, ok,
  Bool-cases, inl, inr,
}
use mathlib.Core.List.{Memᴰ}
use push_anode.Wire.{Transaction, TransactionObj, Libraries}
use push_anode.Archive.Database.{TxRow, row_at, Database, IsDatabase}
use push_anode.Archive.Rows.{get_transaction_hash, tx_row, prepare_transactions_data, unless_stored}
use push_anode.Archive.Rows.Laws.{round}

module _ (lib : Libraries) (D : Database) (law : IsDatabase D) (d : D.Db) (hash : Text)
    (ts : ℕ) where
  -- The row is that of a transaction of the list with this hash, which the database does not hold.
  abbrev pub IsNewTx : List TransactionObj → Text → TxRow → Type 0
  IsNewTx objs h row =
      (t : TransactionObj) × (tx : Transaction) × Memᴰ t objs
      × (t.tx ≡ some tx)
      × (get_transaction_hash lib tx ≡ h)
      × (D.tx_at d h ≡ none)
      × (row ≡ tx_row lib tx t hash ts)

  IsNewTx-more :
      (t : TransactionObj) (objs : List TransactionObj) (h : Text) (row : TxRow)
      → IsNewTx objs h row
      → IsNewTx (t ∷ objs) h row
  IsNewTx-more t objs h row (t', tx, here, p, same, free, is_row) =
      (t', tx, Memᴰ.tail here, p, same, free, is_row)

  IsNewTx-round :
      (t : TransactionObj) (tx : Transaction) (objs : List TransactionObj) (stored : Option TxRow)
      (rest : List TxRow) (h : Text) (row : TxRow)
      → t.tx ≡ some tx
      → D.tx_at d (get_transaction_hash lib tx) ≡ stored
      → ((h : Text) (row : TxRow) → row_at rest h ≡ some row → IsNewTx objs h row)
      → row_at (unless_stored lib D stored (tx_row lib tx t hash ts) rest) h ≡ some row
      → IsNewTx (t ∷ objs) h row
  unfolding tx_row
  IsNewTx-round t tx objs (some old) rest h row p q more e =
      IsNewTx-more t objs h row (more h row e)
  IsNewTx-round t tx objs none rest h row p q more e =
      elim (Bool-cases (get_transaction_hash lib tx == h)) [
        | inl hit ↦
            let same = (text_beq_iff (get_transaction_hash lib tx) h).0 hit in
            (
              t,
              tx,
              Memᴰ.head refl,
              p,
              same,
              subst (λ x. D.tx_at d x ≡ none) same q,
              cc (rw hit at e),
            )
        | inr miss ↦ IsNewTx-more t objs h row (more h row (rw miss at e))
      ]

  pub prepare-IsNewTx :
      (objs : List TransactionObj) (rows : List TxRow)
      → prepare_transactions_data lib D d objs hash ts ≡ ok rows
      → (h : Text) (row : TxRow) → row_at rows h ≡ some row
      → IsNewTx objs h row
  prepare-IsNewTx [] rows e h row at_h =
      let same : [] ≡ rows = unfold prepare_transactions_data in cc e in absurd (cc (same, at_h))
  prepare-IsNewTx (t ∷ objs) rows e h row at_h =
      let (tx, stored, rest, p, q, r, same) = round lib D law d hash ts t objs rows e in
      IsNewTx-round t tx objs stored rest h row p q (prepare-IsNewTx objs rest r)
        (subst (λ rs. row_at rs h ≡ some row) same at_h)
