-- ===== src/Archive/Put/Laws.antt =====
-- What the answers of push_putBlock mean.
use push_anode.Prelude.{
  ◌≡◌, ◌≢◌, ◌⊎◌, inl, inr, refl, Bool, true, false, List, [], ◌∷◌, Option, none, some, Text, Result,
  ok, err, All, All-mono, Option-cases,
}
use push_anode.Util.Hex.{Bytes, HexError, base16_to_bytes}
use push_anode.Wire.{TransactionObj, Block, Failure, Libraries}
use push_anode.Validator.Contract.{Contract}
use push_anode.Archive.Database.{BlockRow, Database, IsDatabase}
use push_anode.Archive.Rows.{hash_block_as_hex, get_transaction_hash}
use push_anode.Archive.Blocks.{Node, handle_block}
use push_anode.Archive.Blocks.Outcomes.{
  Handled, known, read_failed, invalid, nothing_new, block_failed, txs_failed, stored,
  handle_block-Handled,
}
use push_anode.Archive.Blocks.Safety.{Grows, handle_block-Grows}
use push_anode.Archive.Blocks.Linked.{IsLinked, handle_block-IsLinked}
use push_anode.Archive.Blocks.Complete.{IsStored, handle_block-IsStored}
use push_anode.Archive.Put.{
  Reason, duplicate, failure, bad_text, Status, success, rejected, status_of, put_parsed, put_bytes,
  put_block, push_put_block,
}

module _ (lib : Libraries) (D : Database) where
  -- The block is stored, or all of its transactions are.
  abbrev pub IsKept : D.Db → Block → Bytes → Type 0
  IsKept d block raw =
      ((row : BlockRow) × (D.block_at d (hash_block_as_hex lib raw) ≡ some row))
      ⊎ All (IsStored lib D d) block.tx_obj

  -- What the answer promises of the block that this text encodes.
  abbrev pub Holds : D.Db → Text → Status → Type 0
  Holds d text status =
      (status ≡ success)
      → (raw : Bytes) × (block : Block) × (base16_to_bytes text ≡ ok raw)
        × (lib.deserialize_block raw ≡ ok block)
        × IsKept d block raw

  -- One answer for each text, in the order of the texts, none of them `duplicate`, and each true.
  abbrev pub Answers : D.Db → List Text → List Status → Type 0
  Answers d [] [] = Unit
  Answers d [] (s ∷ ss) = ⊥
  Answers d (t ∷ ts) [] = ⊥
  Answers d (t ∷ ts) (s ∷ ss) = (s ≢ rejected duplicate) × Holds d t s × Answers d ts ss

  module _ (d d' : D.Db) (grows : Grows D d d') where
    IsStored-later : (t : TransactionObj) → IsStored lib D d t → IsStored lib D d' t
    IsStored-later t (tx, e, there) =
        elim (Option-cases (D.tx_at d (get_transaction_hash lib tx))) [
          | inl gone ↦ absurd (there gone)
          | inr (row, at_h) ↦
              (tx, e, λ gone. cc (gone, grows.1 (get_transaction_hash lib tx) row at_h))
        ]

    IsKept-later : (block : Block) (raw : Bytes) → IsKept d block raw → IsKept d' block raw
    IsKept-later block raw (inl (row, at_h)) =
        inl (row, grows.0 (hash_block_as_hex lib raw) row at_h)
    IsKept-later block raw (inr all_stored) =
        inr (All-mono (IsStored lib D d) (IsStored lib D d') IsStored-later block.tx_obj all_stored)

    Holds-later : (t : Text) (s : Status) → Holds d t s → Holds d' t s
    Holds-later t s h e =
        let (raw, block, p, q, kept) = h e in (raw, block, p, q, IsKept-later block raw kept)

  module _ (law : IsDatabase D) (contract : Contract) where
    abbrev Good : Node D → Text → Status × Node D → Type 0
    Good node t r =
        (r.0 ≢ rejected duplicate)
        × Holds r.1.db t r.0
        × Grows D node.db r.1.db
        × (IsLinked D node.db → IsLinked D r.1.db)

    unchanged :
        (node : Node D) (t : Text) (reason : Reason)
        → reason ≢ duplicate
        → Good node t (rejected reason, node)
    unchanged node t reason other =
        (λ e. other (cc e), λ e. absurd (cc e), (λ h row e. e, λ h row e. e), λ l. l)

    -- A refusal of handleBlock has a message.
    named :
        {block : Block} {raw : Bytes} {node : Node D} {r : (Bool × Option Failure) × Node D}
        → Handled lib D contract block raw node r
        → status_of r.0.0 r.0.1 ≢ rejected duplicate
    named (known row at_hash) = λ e. cc e
    named (read_failed e) = λ e. cc e
    named (invalid v) = λ e. cc e
    named (nothing_new f v n) = λ e. cc e
    named (block_failed e t ts v n p) = λ e. cc e
    named (txs_failed e t ts d v n p q) = λ e. cc e
    named (stored t ts d d' v n p q) = λ e. cc e

    success-true : (b : Bool) (o : Option Failure) → status_of b o ≡ success → b ≡ true
    success-true true none e = refl
    success-true false none e = cc e
    success-true b (some x) e = cc e

    kept :
        (node : Node D) (block : Block) (raw : Bytes)
        → (handle_block lib D contract block raw node).0.0 ≡ true
        → IsKept (handle_block lib D contract block raw node).1.db block raw
    kept node block raw answered =
        elim (Option-cases (D.block_at node.db (hash_block_as_hex lib raw))) [
          | inl free ↦ inr (handle_block-IsStored lib D law contract block raw node free answered).1
          | inr (row, at_h) ↦ inl (
            row,
            (handle_block-Grows lib D law contract block raw node).0 (hash_block_as_hex lib raw) row
                at_h,
          )
        ]

    handled :
        (node : Node D) (t : Text) (raw : Bytes) (block : Block)
        → base16_to_bytes t ≡ ok raw
        → lib.deserialize_block raw ≡ ok block
        → Good node t (put_parsed lib D contract (ok block) raw node)
    handled node t raw block p q = (
      named (handle_block-Handled lib D contract block raw node law),
      λ e. (raw, block, p, q, kept node block raw (success-true _ _ e)),
      handle_block-Grows lib D law contract block raw node,
      handle_block-IsLinked lib D law contract block raw node,
    )

    parsed-Good :
        (node : Node D) (t : Text) (raw : Bytes) (r : Result Failure Block)
        → base16_to_bytes t ≡ ok raw
        → lib.deserialize_block raw ≡ r
        → Good node t (put_parsed lib D contract r raw node)
    parsed-Good node t raw (err e) p q = unchanged node t (failure e) (λ h. cc h)
    parsed-Good node t raw (ok block) p q = handled node t raw block p q

    bytes-Good :
        (node : Node D) (t : Text) (r : Result HexError Bytes)
        → base16_to_bytes t ≡ r
        → Good node t (put_bytes lib D contract r node)
    bytes-Good node t (err e) p = unchanged node t (bad_text e) (λ h. cc h)
    bytes-Good node t (ok raw) p = parsed-Good node t raw (lib.deserialize_block raw) p refl

    put-Good : (node : Node D) (t : Text) → Good node t (put_block lib D contract t node)
    unfolding put_block
    put-Good node t = bytes-Good node t (base16_to_bytes t) refl

    together : {a b c : D.Db} → Grows D a b → Grows D b c → Grows D a c
    together (p, q) (p', q') = (λ h row e. p' h row (p h row e), λ h row e. q' h row (q h row e))

    abbrev after : List Text → Node D → D.Db
    after blocks node = (push_put_block lib D contract blocks node).1.db

    put-Grows : (blocks : List Text) (node : Node D) → Grows D node.db (after blocks node)
    unfolding push_put_block
    put-Grows [] node = (λ h row e. e, λ h row e. e)
    put-Grows (b ∷ blocks) node =
        let (fine, holds, grows, linked) = put-Good node b in
        together grows (put-Grows blocks (put_block lib D contract b node).1)

    -- push_putBlock answers for every block in the order in which they came, whatever happens to the
    -- others, and never with the reason duplicate. Where it answers SUCCESS, the text is base 16 of a
    -- block, and at the end the block is stored, or all of its transactions are.
    pub push_put_block-Answers :
        (blocks : List Text) (node : Node D)
        → Answers
            (push_put_block lib D contract blocks node).1.db
            blocks
            (push_put_block lib D contract blocks node).0
    unfolding push_put_block
    push_put_block-Answers [] node = tt
    push_put_block-Answers (b ∷ blocks) node =
        let (fine, holds, grows, linked) = put-Good node b in
        let next = (put_block lib D contract b node).1 in
        (
          fine,
          Holds-later next.db (after blocks next) (put-Grows blocks next) b
              (put_block lib D contract b node).0 holds,
          push_put_block-Answers blocks next,
        )

    put-IsLinked :
        (blocks : List Text) (node : Node D) → IsLinked D node.db → IsLinked D (after blocks node)
    unfolding push_put_block
    put-IsLinked [] node linked = linked
    put-IsLinked (b ∷ blocks) node linked =
        let (fine, holds, grows, keeps) = put-Good node b in
        put-IsLinked blocks (put_block lib D contract b node).1 (keeps linked)

    -- However many blocks fail, push_putBlock changes and loses nothing that is stored, and every
    -- stored transaction stays linked to a stored block.
    pub push_put_block-IsLinked :
        (blocks : List Text) (node : Node D)
        → IsLinked D node.db
        → Grows D node.db (push_put_block lib D contract blocks node).1.db
          × IsLinked D (push_put_block lib D contract blocks node).1.db
    push_put_block-IsLinked blocks node linked =
        (put-Grows blocks node, put-IsLinked blocks node linked)
