-- ===== src/Archive/Sync.antt =====
-- src/modules/archieveSync: a new archival node asks the others for the blocks that it does not
-- have, page by page. The replies of the other nodes and the table anodeSyncInfo are parameters.
-- The clients of a round, and the blocks of a page, are taken one after the other.
pub mod Client
pub mod Records
pub mod Mapped
pub mod Laws
pub mod Ends
pub mod Fresh
pub mod Stuck
use push_anode.Prelude.{
  ℕ, zero, suc, Bool, true, false, not, ◌&&◌, ◌||◌, List, [], ◌∷◌, Option, none, some, Text, lit,
  text_eq, nat_eq, ◌==◌, Result, ok, err, ◌>>=◌, if◌then◌else◌, length, all, any,
}
use push_anode.Collections.Map
use push_anode.Collections.Map.{Map}
use push_anode.Collections.Set
use push_anode.Util.Hex.{Bytes, base16_to_bytes}
use push_anode.Wire.{Block, Failure, type_error, Libraries}
use push_anode.Validator.Transactions.{no_hex}
use push_anode.Validator.Contract.{
  NodeInfo, Contract, a_node, status_ok, get_active_archival_node_except_self,
}
use push_anode.Archive.Database.{Database}
use push_anode.Archive.Blocks.{Node, handle_block}
use push_anode.Archive.Sync.Client.{
  SyncTable, SyncInfo, ANodeClient, new_client, init, Replies, push_anode_get_block_hash,
}

-- What the synchronisation reads and changes: the node, the table, the maps nodeInfo and
-- anodeClientMap, the flag isSyncing, and how many rounds of requests were made.
pub record Sync (D : Database) (S : Type 0) : Type 0 where
  pub node : Node D
  pub table : S
  pub node_info : Map Text NodeInfo
  pub clients : Map Text ANodeClient
  pub is_syncing : Bool
  pub calls : ℕ

-- The answer of getBlockHashValidateAndGetFullBlock.
pub record Processed : Type 0 where
  pub has_processed_blocks : Bool
  pub processed_blocks_count : ℕ
  pub success : Bool

abbrev pub failed : Processed
failed = record { has_processed_blocks = false; processed_blocks_count = 0; success = false }

abbrev pub nothing_to_do : Processed
nothing_to_do = record { has_processed_blocks = false; processed_blocks_count = 0; success = true }

-- parseBlockResponseAndFormSet: the texts up to the first null, each once, and whether there is a
-- null, on which the loop over the set throws
unfoldable pub form_set : Set.Set Text → List (Option Text) → Set.Set Text × Bool
form_set set [] = (set, true)
form_set set (none ∷ blocks) = (set, false)
form_set set (some text ∷ blocks) = form_set (Set.add set text) blocks

-- The end of initBlockSync: an exception of getANodeMap, the end of the loop, or none where the
-- rounds that were allowed did not suffice.
pub data End : Type 0 where
  thrown_by_map : Failure → End
  complete : End
  skipped : End
  unfinished : End

module _ (lib : Libraries) (D : Database) (contract : Contract) {S : Type 0} (T : SyncTable S)
    (replies : Replies) where
  -- The hashes that are not stored.
  unfoldable pub not_found : D.Db → List Text → Result Failure (List Text)
  not_found d [] = ok []
  not_found d (h ∷ hashes) = do
    row ← D.find_block d h
    rest ← not_found d hashes
    ok (elim row [ none ↦ h ∷ rest | some r ↦ rest ])

  abbrev parsed : Result Failure Block → Bytes → Node D → Bool × Node D
  parsed (err e) mb node = (false, node)
  parsed (ok block) mb node = (true, (handle_block lib D contract block mb node).1)

  abbrev read_bytes : Result Failure Bytes → Node D → Bool × Node D
  read_bytes (err e) node = (false, node)
  read_bytes (ok mb) node = parsed (lib.deserialize_block mb) mb node

  -- The loop over the set of blocks: false where a text is no block, which throws; handleBlock
  -- itself never rejects, so its answer is not looked at.
  unfoldable pub handle_blocks : List Text → Node D → Bool × Node D
  handle_blocks [] node = (true, node)
  handle_blocks (block ∷ blocks) node =
      let (read, node1) = read_bytes (no_hex (base16_to_bytes block)) node in
      let (all_read, node2) = handle_blocks blocks node1 in
      if read then (all_read, node2) else (false, node1)

  -- What is done with the blocks that a node sent.
  unfoldable pub process_blocks : List (Option Text) → Node D → Processed × Node D
  process_blocks blocks node =
      let (set, whole) = form_set [] blocks in
      let (all_read, node') = handle_blocks set node in
      (
        if all_read && whole
            then record {
              has_processed_blocks = true;
              processed_blocks_count = length set;
              success = true;
            }
            else failed,
        node',
      )

  -- getBlockFromBlockHash swallows an exception and gives undefined, on which the caller throws.
  abbrev process_reply : Result Failure (List (Option Text)) → Node D → Processed × Node D
  process_reply (err e) node = (failed, node)
  process_reply (ok blocks) node = process_blocks blocks node

  abbrev pub get_missing : Text → ℕ → Result Failure (List Text) → Node D → Processed × Node D
  get_missing url call (err e) node = (failed, node)
  get_missing url call (ok []) node = (nothing_to_do, node)
  get_missing url call (ok (h ∷ hashes)) node =
      process_reply (replies.blocks call url (h ∷ hashes)) node

  abbrev get_page : Text → ℕ → Result Failure (List Text) → Node D → Processed × Node D
  get_page url call (err e) node = (failed, node)
  get_page url call (ok hashes) node = get_missing url call (not_found node.db hashes) node

  -- getBlockHashValidateAndGetFullBlock
  unfoldable pub get_block_hash_validate_and_get_full_block :
      ANodeClient → Sync D S → (Processed × ANodeClient) × Sync D S
  get_block_hash_validate_and_get_full_block client s =
      let (hashes, (client', table)) = push_anode_get_block_hash T replies s.calls client s.table in
      let (processed, node) = get_page client'.node_url s.calls hashes s.node in
      ((processed, client'), record s { node = node; table = table; calls = suc s.calls })

  -- A round over all clients: their answers, and the clients as they are then.
  unfoldable pub round :
      Map Text ANodeClient → Sync D S → (List Processed × Map Text ANodeClient) × Sync D S
  round [] s = (([], []), s)
  round ((url, client) ∷ clients) s =
      let ((processed, client'), s1) = get_block_hash_validate_and_get_full_block client s in
      let ((results, clients'), s2) = round clients s1 in
      ((processed ∷ results, (url, client') ∷ clients'), s2)

  -- The test of the loop: all succeeded and none had blocks.
  unfoldable pub is_complete : List Processed → Bool
  is_complete results =
      all (λ r. r.success) results && not (any (λ r. r.has_processed_blocks) results)

  -- The loop of initBlockSync, for a number of rounds.
  unfoldable pub sync_rounds : ℕ → Sync D S → End × Sync D S
  sync_rounds zero s = (unfinished, s)
  sync_rounds (suc rounds) s =
      let ((results, clients), s1) = round s.clients s in
      let s2 : Sync D S = record s1 { clients = clients } in
      let rest = sync_rounds rounds s2 in if is_complete results then (complete, s2) else rest

  abbrev with_client : Text → ANodeClient → Sync D S → Sync D S
  with_client url client s = record s { clients = Map.set s.clients url client }

  abbrev created : ℕ → Result Failure (ℕ × S) → Sync D S → Result Failure (Unit {0}) × Sync D S
  created now (err e) s = (err e, s)
  created now (ok (id, table)) s = (ok tt, record s { table = table })

  -- A client of a node without a record is initialised, but not kept in the map; one of a node
  -- whose record is in state 1 is kept without being initialised.
  abbrev map_found :
      ℕ → Text → Result Failure (Option SyncInfo) → Sync D S → Result Failure (Unit {0}) × Sync D S
  map_found now url (err e) s = (err e, s)
  map_found now url (ok none) s = created now (T.create s.table url 1 now) s
  map_found now url (ok (some info)) s = (
    ok tt,
    with_client url
        (if not (info.state == 1)
          then init url info.ts_cutoff info.offset info.state info.id info.ts_cutoff
              (new_client url)
          else new_client url)
        s,
  )

  unfoldable pub map_node : ℕ → NodeInfo → Sync D S → Result Failure (Unit {0}) × Sync D S
  map_node now ni s = elim ni.url [
    | none ↦ (ok tt, s)
    | some url ↦
        if url == []
        then (ok tt, s)
        else map_found now url (T.find_first s.table url)
            (record s { node_info = Map.set s.node_info url ni })
  ]

  abbrev and_then :
      Result Failure (Unit {0}) × Sync D S
      → (Sync D S → Result Failure (Unit {0}) × Sync D S)
      → Result Failure (Unit {0}) × Sync D S
  and_then (err e, s) next = (err e, s)
  and_then (ok u, s) next = next s

  unfoldable pub map_nodes : ℕ → List NodeInfo → Sync D S → Result Failure (Unit {0}) × Sync D S
  map_nodes now [] s = (ok tt, s)
  map_nodes now (ni ∷ nodes) s = and_then (map_node now ni s) (map_nodes now nodes)

  -- getANodeMap, with the time of the clock
  unfoldable pub get_anode_map : ℕ → Sync D S → Result Failure (Unit {0}) × Sync D S
  get_anode_map now s = map_nodes now (get_active_archival_node_except_self contract) s

  abbrev sync_mapped : ℕ → Result Failure (Unit {0}) × Sync D S → End × Sync D S
  sync_mapped rounds (err e, s) = (thrown_by_map e, s)
  sync_mapped rounds (ok u, s) = sync_rounds rounds s

  abbrev unless_mapped :
      Map Text NodeInfo
      → Result Failure (Unit {0}) × Sync D S
      → Sync D S
      → Result Failure (Unit {0}) × Sync D S
  unless_mapped [] mapped s = mapped
  unless_mapped (e ∷ es) mapped s = (ok tt, s)

  abbrev when_empty : ℕ → Sync D S → Result Failure (Unit {0}) × Sync D S
  when_empty now s = unless_mapped s.node_info (get_anode_map now s) s

  -- initBlockSync, for a number of rounds; the mutex holds other calls off
  unfoldable pub init_block_sync : ℕ → ℕ → Sync D S → End × Sync D S
  init_block_sync rounds now s =
      let (end, s1) = sync_mapped rounds (when_empty now (record s { is_syncing = true })) in
      if s.is_syncing then (skipped, s) else (end, record s1 { is_syncing = false })

  -- checkAndStartSyncing
  unfoldable pub check_and_start_syncing : ℕ → ℕ → NodeInfo → Sync D S → Sync D S
  check_and_start_syncing rounds now ni s =
      if ni.node_type == a_node && (ni.node_status == status_ok && ni.node_id == contract.node_id)
      then (init_block_sync rounds now s).1
      else s
