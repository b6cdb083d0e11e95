-- ===== src/Tests/Tables.antt =====
-- Tables in memory that refuse a key that is taken: the assumptions on the database can be met.
use push_anode.Prelude.{
  ◌≡◌, refl, List, [], ◌∷◌, Option, none, some, Text, lit, text_eq, ◌==◌, Result, ok, err, ◌>>=◌,
  >>=-eq-ok, All, Bool-cases, inl, inr, if◌then◌else◌,
}
use push_anode.Wire.{Failure, library}
use push_anode.Archive.Database.{BlockRow, TxRow, row_at, Database, IsDatabase}

pub record Tables : Type 0 where
  pub blocks : List BlockRow
  pub txs : List TxRow

abbrev pub block_of : List BlockRow → Text → Option BlockRow
block_of [] h = none
block_of (r ∷ rows) h = if r.block_hash == h then some r else block_of rows h

abbrev pub taken : Failure
taken = library (lit "Unique constraint failed")

abbrev add_block : Option BlockRow → Tables → BlockRow → Result Failure Tables
add_block none d r = ok (record d { blocks = r ∷ d.blocks })
add_block (some old) d r = err taken

abbrev add_tx : Option TxRow → List TxRow → TxRow → Result Failure (List TxRow)
add_tx none txs r = ok (r ∷ txs)
add_tx (some old) txs r = err taken

abbrev add_txs : List TxRow → List TxRow → Result Failure (List TxRow)
add_txs old [] = ok old
add_txs old (r ∷ rows) = do new ← add_txs old rows; add_tx (row_at new r.txn_hash) new r

abbrev pub with_txs : Tables → Result Failure (List TxRow) → Result Failure Tables
with_txs d (ok txs) = ok (record d { txs = txs })
with_txs d (err e) = err e

unfoldable pub tables : Database
tables = record {
  Db = Tables;
  block_at = λ d h. block_of d.blocks h;
  tx_at = λ d h. row_at d.txs h;
  find_block = λ d h. ok (block_of d.blocks h);
  find_tx = λ d h. ok (row_at d.txs h);
  create_block = λ d r. add_block (block_of d.blocks r.block_hash) d r;
  create_txs = λ d rows. with_txs d (add_txs d.txs rows);
}

block_added :
    (o : Option BlockRow) (d : Tables) (r : BlockRow) {d' : Tables}
    → add_block o d r ≡ ok d'
    → (o ≡ none) × (d' ≡ record d { blocks = r ∷ d.blocks })
block_added none d r e = (refl, cc e)
block_added (some old) d r e = cc e

tx_added :
    (o : Option TxRow) (txs : List TxRow) (r : TxRow) {new : List TxRow}
    → add_tx o txs r ≡ ok new
    → (o ≡ none) × (new ≡ r ∷ txs)
tx_added none txs r e = (refl, cc e)
tx_added (some old) txs r e = cc e

added_with :
    (d : Tables) (o : Result Failure (List TxRow)) {d' : Tables}
    → with_txs d o ≡ ok d'
    → (txs : List TxRow) × (o ≡ ok txs) × (d' ≡ record d { txs = txs })
added_with d (ok txs) e = (txs, refl, cc e)
added_with d (err x) e = cc e

none_before :
    (r : Option TxRow) {old : Option TxRow}
    → (elim r [ none ↦ old | some x ↦ some x ]) ≡ none
    → old ≡ none
none_before none e = e
none_before (some x) e = cc e

-- What the new rows leave to be found, and that none of them was there.
abbrev Added : List TxRow → List TxRow → List TxRow → Type 0
Added old rows new =
    ((h : Text) → row_at new h ≡ elim (row_at rows h) [ none ↦ row_at old h | some r ↦ some r ])
    × All (λ r. row_at old r.txn_hash ≡ none) rows

added :
    (old : List TxRow) (rows : List TxRow) {new : List TxRow}
    → add_txs old rows ≡ ok new
    → Added old rows new
added old [] {new} e = (λ h. cc e, tt)
added old (r ∷ rows) {new} e =
    let (mid, p, q) = >>=-eq-ok (add_txs old rows) (λ m. add_tx (row_at m r.txn_hash) m r) e in
    let (at_mid, keys) = added old rows p in
    let (free, same) = tx_added (row_at mid r.txn_hash) mid r q in
    (
      λ h. elim (Bool-cases (r.txn_hash == h)) [
        | inl hit ↦ rw (same, hit) refl
        | inr miss ↦ rw (same, miss) (at_mid h)
      ],
      (none_before (row_at rows r.txn_hash) (cc (at_mid r.txn_hash, free)), keys),
    )

pub tables-IsDatabase : IsDatabase tables
unfolding tables
tables-IsDatabase = record {
  found_block = λ d h e. cc e;
  found_tx = λ d h e. cc e;
  block_key = λ d r e. (block_added _ d r e).0;
  block_added = λ d r h e. rw ((block_added _ d r e).1) refl;
  block_added-tx_at = λ d r h e. rw ((block_added _ d r e).1) refl;
  txs_key = λ d rows e. let (txs, p, same) = added_with d _ e in (added d.txs rows p).1;
  txs_added =
      λ d rows h e. let (txs, p, same) = added_with d _ e in rw same ((added d.txs rows p).0 h);
  txs_added-block_at = λ d rows h e. let (txs, p, same) = added_with d _ e in rw same refl;
}
