-- ===== src/Archive/Sync/Laws.antt =====
-- What the synchronisation can do to the database.
use push_anode.Prelude.{
  ℕ, zero, suc, ◌≡◌, refl, ◌∙◌, subst, inl, inr, Bool, true, false, List, [], ◌∷◌, Option, none,
  some, Text, Result, ok, err, Bool-cases, Option-cases, if◌then◌else◌,
}
use push_anode.Collections.Map.{Map}
use push_anode.Util.Hex.{Bytes, base16_to_bytes}
use push_anode.Wire.{Block, Failure, Libraries}
use push_anode.Validator.Transactions.{no_hex}
use push_anode.Validator.Contract.{Contract}
use push_anode.Archive.Database.{BlockRow, Database, IsDatabase}
use push_anode.Archive.Rows.{hash_block_as_hex, block_row}
use push_anode.Archive.Blocks.{Node, handle_block}
use push_anode.Archive.Blocks.Safety.{IsChecked, handle_block-Grows, handle_block_only_checked}
use push_anode.Archive.Blocks.Linked.{handle_block-IsLinked}
use push_anode.Archive.Queue.Laws.{IsSafe, IsSafe-refl, IsSafe-trans}
use push_anode.Archive.Sync.{
  Sync, End, form_set, parsed, read_bytes, handle_blocks, process_blocks, process_reply,
  get_missing, get_page, get_block_hash_validate_and_get_full_block, round, sync_rounds,
  sync_mapped, when_empty, init_block_sync,
}
use push_anode.Archive.Sync.Client.{SyncTable, ANodeClient, Replies}
use push_anode.Archive.Sync.Mapped.{empty-node}

module _ (lib : Libraries) (D : Database) (law : IsDatabase D) (contract : Contract) where
  -- Every block that is added stands at the hash of its bytes and has passed the signature check.
  unfoldable pub AddsChecked : D.Db → D.Db → Type 0
  AddsChecked d d' =
      (h : Text) (row : BlockRow)
      → D.block_at d h ≡ none
      → D.block_at d' h ≡ some row
      → (block : Block) × (raw : Bytes) × (h ≡ hash_block_as_hex lib raw)
        × (row ≡ block_row lib block raw)
        × IsChecked lib D law contract block raw

  unfoldable pub IsSound : D.Db → D.Db → Type 0
  IsSound d d' = IsSafe D d d' × AddsChecked d d'

  IsSound-refl : (d : D.Db) → IsSound d d
  unfolding IsSound AddsChecked
  IsSound-refl d = (IsSafe-refl D d, λ h row free at_h. absurd (cc (free, at_h)))

  IsSound-trans : (a b c : D.Db) → IsSound a b → IsSound b c → IsSound a c
  unfolding IsSound AddsChecked IsSafe
  IsSound-trans a b c (safe, adds) (safe', adds') = (
    IsSafe-trans D a b c safe safe',
    λ h row free at_h. elim (Option-cases (D.block_at b h)) [
      | inl still ↦ adds' h row still at_h
      | inr (old, at_old) ↦
          let is_old : old ≡ row = cc (safe'.0.0 h old at_old, at_h) in
          adds h row free (at_old ∙ rw is_old refl)
    ],
  )

  handle_block-IsSound :
      (block : Block) (raw : Bytes) (node : Node D)
      → IsSound node.db (handle_block lib D contract block raw node).1.db
  unfolding IsSound IsSafe AddsChecked
  handle_block-IsSound block raw node = (
    (
      handle_block-Grows lib D law contract block raw node,
      handle_block-IsLinked lib D law contract block raw node,
    ),
    λ h row free at_h.
        let (same, is_row, is_checked) =
          handle_block_only_checked lib D law contract block raw node h row free at_h in
        (block, raw, same, is_row, is_checked),
  )

  module _ {S : Type 0} (T : SyncTable S) (replies : Replies) where
    parsed-IsSound :
        (r : Result Failure Block) (mb : Bytes) (node : Node D)
        → IsSound node.db (parsed lib D contract T replies r mb node).1.db
    parsed-IsSound (err e) mb node = IsSound-refl node.db
    parsed-IsSound (ok block) mb node = handle_block-IsSound block mb node

    bytes-IsSound :
        (r : Result Failure Bytes) (node : Node D)
        → IsSound node.db (read_bytes lib D contract T replies r node).1.db
    bytes-IsSound (err e) node = IsSound-refl node.db
    bytes-IsSound (ok mb) node = parsed-IsSound (lib.deserialize_block mb) mb node

    -- The second of two steps is taken or not.
    either :
        (b x : Bool) (d : D.Db) (n1 n2 : Bool × Node D)
        → IsSound d n1.1.db
        → IsSound d n2.1.db
        → IsSound d (if b then n1 else n2).1.db
    either true x d n1 n2 h1 h2 = h1
    either false x d n1 n2 h1 h2 = h2

    blocks-IsSound :
        (blocks : List Text) (node : Node D)
        → IsSound node.db (handle_blocks lib D contract T replies blocks node).1.db
    unfolding handle_blocks
    blocks-IsSound [] node = IsSound-refl node.db
    blocks-IsSound (block ∷ blocks) node =
        let first = bytes-IsSound (no_hex (base16_to_bytes block)) node in
        either _ true node.db _ _ (IsSound-trans _ _ _ first (blocks-IsSound blocks _)) first

    reply-IsSound :
        (r : Result Failure (List (Option Text))) (node : Node D)
        → IsSound node.db (process_reply lib D contract T replies r node).1.db
    unfolding process_blocks
    reply-IsSound (err e) node = IsSound-refl node.db
    reply-IsSound (ok blocks) node = blocks-IsSound (form_set [] blocks).0 node

    missing-IsSound :
        (url : Text) (call : ℕ) (r : Result Failure (List Text)) (node : Node D)
        → IsSound node.db (get_missing lib D contract T replies url call r node).1.db
    missing-IsSound url call (err e) node = IsSound-refl node.db
    missing-IsSound url call (ok []) node = IsSound-refl node.db
    missing-IsSound url call (ok (h ∷ hashes)) node = reply-IsSound _ node

    page-IsSound :
        (url : Text) (call : ℕ) (r : Result Failure (List Text)) (node : Node D)
        → IsSound node.db (get_page lib D contract T replies url call r node).1.db
    page-IsSound url call (err e) node = IsSound-refl node.db
    page-IsSound url call (ok hashes) node = missing-IsSound url call _ node

    client-IsSound :
        (client : ANodeClient) (s : Sync D S)
        → IsSound s.node.db
            (get_block_hash_validate_and_get_full_block lib D contract T replies client s).1.node.db
    unfolding get_block_hash_validate_and_get_full_block
    client-IsSound client s = page-IsSound _ s.calls _ s.node

    round-IsSound :
        (clients : Map Text ANodeClient) (s : Sync D S)
        → IsSound s.node.db (round lib D contract T replies clients s).1.node.db
    unfolding round
    round-IsSound [] s = IsSound-refl s.node.db
    round-IsSound ((url, client) ∷ clients) s =
        IsSound-trans _ _ _ (client-IsSound client s) (round-IsSound clients _)

    rounds_either :
        (b : Bool) (d : D.Db) (e1 e2 : End × Sync D S)
        → IsSound d e1.1.node.db
        → IsSound d e2.1.node.db
        → IsSound d (if b then e1 else e2).1.node.db
    rounds_either true d e1 e2 h1 h2 = h1
    rounds_either false d e1 e2 h1 h2 = h2

    rounds-IsSound :
        (rounds : ℕ) (s : Sync D S)
        → IsSound s.node.db (sync_rounds lib D contract T replies rounds s).1.node.db
    unfolding sync_rounds
    rounds-IsSound zero s = IsSound-refl s.node.db
    rounds-IsSound (suc rounds) s =
        let first = round-IsSound s.clients s in
        rounds_either _ s.node.db _ _ first (IsSound-trans _ _ _ first (rounds-IsSound rounds _))

    mapped-IsSound :
        (rounds : ℕ) (r : Result Failure (Unit {0}) × Sync D S)
        → IsSound r.1.node.db (sync_mapped lib D contract T replies rounds r).1.node.db
    mapped-IsSound rounds (err e, s) = IsSound-refl s.node.db
    mapped-IsSound rounds (ok u, s) = rounds-IsSound rounds s

    -- Whatever the other nodes reply and whatever their records hold, the synchronisation changes and
    -- loses nothing that is stored, keeps every transaction linked to a stored block, and each block
    -- that it adds stands at the hash of its bytes and has passed the signature check.
    pub init_block_sync-IsSound :
        (rounds now : ℕ) (s : Sync D S)
        → IsSound s.node.db (init_block_sync lib D contract T replies rounds now s).1.node.db
    unfolding init_block_sync
    init_block_sync-IsSound rounds now s = elim (Bool-cases s.is_syncing) [
      | inl busy ↦ rw busy (IsSound-refl s.node.db)
      | inr free ↦
          let s0 : Sync D S = record s { is_syncing = true } in
          rw free (
            subst
              (λ (n : Node D).
                IsSound n.db
                  (sync_mapped lib D contract T replies rounds
                    (when_empty lib D contract T replies now s0)).1.node.db)
              (empty-node lib D contract T replies now s0)
              (mapped-IsSound rounds (when_empty lib D contract T replies now s0)))
    ]
