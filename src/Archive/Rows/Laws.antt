-- ===== src/Archive/Rows/Laws.antt =====
-- What prepareTransactionsData gives for the transactions of a block.
use push_anode.Prelude.{
  ℕ, ◌≡◌, refl, sym, subst, ◌≢◌, ◌⊎◌, inl, inr, List, [], ◌∷◌, Option, none, some, Text, text_eq,
  text_beq_iff, ok, >>=-eq-ok, All, arith,
}
use push_anode.Wire.{Transaction, TransactionObj, Libraries}
use push_anode.Validator.Check.{defined}
use push_anode.Archive.Database.{TxRow, row_at, Database, IsDatabase}
use push_anode.Archive.Rows.{get_transaction_hash, tx_row, prepare_transactions_data, unless_stored}

defined-eq-ok {ℓ} : {A : Type ℓ} (o : Option A) {a : A} → defined o ≡ ok a → o ≡ some a
defined-eq-ok none e = cc
defined-eq-ok (some a) e = cc

module _ (lib : Libraries) (D : Database) (law : IsDatabase D) (d : D.Db) (hash : Text)
    (ts : ℕ) where
  -- The transaction is in the database, or among the rows.
  abbrev pub IsCovered : List TxRow → TransactionObj → Type 0
  IsCovered rows t =
      (tx : Transaction) × (t.tx ≡ some tx)
      × ((D.tx_at d (get_transaction_hash lib tx) ≢ none)
          ⊎ (row_at rows (get_transaction_hash lib tx) ≢ none))

  -- The parts of one round of the loop.
  pub round :
      (t : TransactionObj) (objs : List TransactionObj) (rows : List TxRow)
      → prepare_transactions_data lib D d (t ∷ objs) hash ts ≡ ok rows
      → (tx : Transaction) × (stored : Option TxRow) × (rest : List TxRow) × (t.tx ≡ some tx)
        × (D.tx_at d (get_transaction_hash lib tx) ≡ stored)
        × (prepare_transactions_data lib D d objs hash ts ≡ ok rest)
        × (rows ≡ unless_stored lib D stored (tx_row lib tx t hash ts) rest)
  unfolding prepare_transactions_data
  round t objs rows e =
      let (tx, p, e1) = >>=-eq-ok (defined t.tx) _ e in
      let (stored, q, e2) = >>=-eq-ok (D.find_tx d (get_transaction_hash lib tx)) _ e1 in
      let (rest, r, e3) = >>=-eq-ok (prepare_transactions_data lib D d objs hash ts) _ e2 in
      (tx, stored, rest, defined-eq-ok t.tx p, law.found_tx d _ q, r, cc e3)

  covers_more :
      (row : TxRow) (rows : List TxRow) (t : TransactionObj)
      → IsCovered rows t
      → IsCovered (row ∷ rows) t
  covers_more row rows t (tx, p, inl h) = (tx, p, inl h)
  covers_more row rows t (tx, p, inr h) = (tx, p, inr (λ e. ground (arith, h)))

  All-more :
      (row : TxRow) (rows : List TxRow) (objs : List TransactionObj)
      → All (IsCovered rows) objs
      → All (IsCovered (row ∷ rows)) objs
  All-more row rows [] h = tt
  All-more row rows (t ∷ objs) (c, h) = (covers_more row rows t c, All-more row rows objs h)

  row_at_head :
      (tx : Transaction) (t : TransactionObj) (rows : List TxRow)
      → row_at (tx_row lib tx t hash ts ∷ rows) (get_transaction_hash lib tx) ≢ none
  unfolding tx_row
  row_at_head tx t rows e =
      ground (
        arith,
        e,
        (text_beq_iff (get_transaction_hash lib tx) (get_transaction_hash lib tx)).1 refl,
      )

  IsCovered-round :
      (t : TransactionObj) (objs : List TransactionObj) (rest : List TxRow) (tx : Transaction)
      (stored : Option TxRow)
      → t.tx ≡ some tx
      → D.tx_at d (get_transaction_hash lib tx) ≡ stored
      → All (IsCovered rest) objs
      → All (IsCovered (unless_stored lib D stored (tx_row lib tx t hash ts) rest)) (t ∷ objs)
  IsCovered-round t objs rest tx (some old) p q h = ((tx, p, inl (λ e. cc (e, q))), h)
  IsCovered-round t objs rest tx none p q h =
      ((tx, p, inr (row_at_head tx t rest)), All-more (tx_row lib tx t hash ts) rest objs h)

  pub prepare-IsCovered :
      (objs : List TransactionObj) (rows : List TxRow)
      → prepare_transactions_data lib D d objs hash ts ≡ ok rows
      → All (IsCovered rows) objs
  prepare-IsCovered [] rows e = tt
  prepare-IsCovered (t ∷ objs) rows e =
      let (tx, stored, rest, p, q, r, same) = round t objs rows e in
      subst (λ rs. All (IsCovered rs) (t ∷ objs)) (sym same)
        (IsCovered-round t objs rest tx stored p q (prepare-IsCovered objs rest r))

  rows_round :
      (t : TransactionObj) (tx : Transaction) (stored : Option TxRow) (rest : List TxRow)
      → All (λ r. r.block_hash ≡ hash) rest
      → All (λ r. r.block_hash ≡ hash) (unless_stored lib D stored (tx_row lib tx t hash ts) rest)
  unfolding tx_row
  rows_round t tx none rest h = (refl, h)
  rows_round t tx (some old) rest h = h

  -- Every row is of this block.
  pub prepare-block_hash :
      (objs : List TransactionObj) (rows : List TxRow)
      → prepare_transactions_data lib D d objs hash ts ≡ ok rows
      → All (λ r. r.block_hash ≡ hash) rows
  prepare-block_hash [] rows e =
      let same : [] ≡ rows = unfold prepare_transactions_data in cc e in rw (← same) tt
  prepare-block_hash (t ∷ objs) rows e =
      let (tx, stored, rest, p, q, r, same) = round t objs rows e in
      rw same (rows_round t tx stored rest (prepare-block_hash objs rest r))
