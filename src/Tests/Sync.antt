-- ===== src/Tests/Sync.antt =====
-- The synchronisation with other nodes, over a table of records in memory.
use push_anode.Prelude.{
  ℕ, ◌≡◌, ◌⊎◌, refl, ap, sym, false, List, [], ◌∷◌, map, Option, none, some, Text, lit, text_eq,
  text_beq, text_beq_iff, nat_eq, ◌==◌, Result, ok, err, ok_injective, length, filter, not, arith,
  if◌then◌else◌, Bool-cases, inl, inr,
}
use push_anode.Wire.{Failure, library}
use push_anode.Validator.Contract.{
  Contract, a_node, status_ok, active_except_self, get_active_archival_node_except_self, is_enabled,
}
use push_anode.Archive.Sync.{
  Sync, complete, unfinished, thrown_by_map, sync_rounds, init_block_sync,
}
use push_anode.Archive.Sync.Client.{SyncTable, SyncInfo, Replies, new_client, init}
use push_anode.Archive.Sync.Records.{delete_records, delete_synced_records}
use push_anode.Archive.Sync.Laws.{IsSound, init_block_sync-IsSound}
use push_anode.Archive.Sync.Ends.{sync_rounds_ends}
use push_anode.Archive.Sync.Fresh.{CreatesOne, init_block_sync_fresh}
use push_anode.Archive.Sync.Stuck.{sync_rounds_stuck}
use push_anode.Tests.Codec.{libraries}
use push_anode.Tests.Tables.{tables, tables-IsDatabase}
use push_anode.Tests.Archive.{contract, start}

abbrev Records : Type 0
Records = List SyncInfo

abbrev find : Records → Text → Option SyncInfo
find [] url = none
find (r ∷ records) url = if r.anode_url == url then some r else find records url

abbrev without_id : Failure
without_id = library (lit "id must not be undefined")

abbrev change : (SyncInfo → SyncInfo) → Option ℕ → Records → Result Failure Records
change f none records = err without_id
change f (some id) records = ok (map (λ r. if r.id == id then f r else r) records)

abbrev set_offset : Option ℕ → SyncInfo → SyncInfo
set_offset none r = r
set_offset (some offset) r = record r { offset = offset }

unfoldable records : SyncTable Records
records = record {
  find_first = λ t url. ok (find t url);
  find_many = λ t. ok t;
  create = λ t url offset ts. ok (
    length t,
    record { id = length t; anode_url = url; ts_cutoff = ts; offset = offset; state = 0 } ∷ t,
  );
  update_offset = λ t id offset. change (set_offset offset) id t;
  update_state = λ t id state. change (λ r. record r { state = state }) id t;
  delete = λ t id. ok (filter (λ r. not (r.id == id)) t);
}

records-CreatesOne : CreatesOne records
unfolding records
records-CreatesOne = λ table table' url other offset ts id e ne.
    let same = ap (λ (x : ℕ × Records). x.1) (ok_injective e) in
    elim (Bool-cases (url == other)) [
      | inl hit ↦ absurd (ne (sym ((text_beq_iff url other).0 hit)))
      | inr miss ↦ rw (← same, miss) refl
    ]

-- One node, that has two pages and then nothing.
abbrev replies : Replies
replies = record {
  block_hashes = λ call url start offset. if call == 0 then ok (lit "0708" ∷ []) else ok [];
  blocks = λ call url hashes. ok (some (lit "0102") ∷ none ∷ []);
}

abbrev with_anode : Contract
with_anode = record contract {
  anodes =
      (
        lit "0xC",
        record {
          node_id = lit "0xC";
          url = some (lit "http://c");
          node_type = a_node;
          node_status = status_ok;
        },
      )
      ∷ [];
}

abbrev syncing : Sync tables Records
syncing = record {
  node = start;
  table = [];
  node_info = [];
  clients = (lit "http://c", init (lit "http://c") 50 1 0 4 50 (new_client (lit "http://c"))) ∷ [];
  is_syncing = false;
  calls = 0;
}

init_block_sync-IsSound_example :
    IsSound libraries tables tables-IsDatabase contract start.db
      (init_block_sync libraries tables contract records replies 3 50 syncing).1.node.db
init_block_sync-IsSound_example =
    init_block_sync-IsSound libraries tables tables-IsDatabase contract records replies 3 50 syncing

sync_rounds_ends_example :
    (sync_rounds libraries tables contract records replies 2 syncing).0 ≡ complete
unfolding records init
sync_rounds_ends_example =
    sync_rounds_ends libraries tables contract records replies 1
      (λ call url start offset h. ground (arith, h)) (λ table id. (_, refl)) 1 syncing
      ((4, refl), tt) (omega arith)

sync_rounds_stuck_example :
    (sync_rounds libraries tables contract records replies 9
      (record syncing { clients = (lit "http://c", new_client (lit "http://c")) ∷ [] })).0
    ≡ unfinished
unfolding records new_client
sync_rounds_stuck_example =
    sync_rounds_stuck libraries tables contract records replies
      (λ table. ((λ state. (without_id, refl)), (λ offset. (without_id, refl)))) 9
      (record syncing { clients = (lit "http://c", new_client (lit "http://c")) ∷ [] }) (inl refl)

abbrev first_time_here : Sync tables Records
first_time_here = record syncing { clients = [] }

init_block_sync_fresh_example :
    ((init_block_sync libraries tables with_anode records replies 4 50 first_time_here).1.calls ≡ 0)
    × (((init_block_sync libraries tables with_anode records replies 4 50 first_time_here).1.node
          ≡ start)
        × (((e : Failure) × ((init_block_sync libraries tables with_anode records replies 4 50
                  first_time_here).0
                ≡ thrown_by_map e))
            ⊎ ((init_block_sync libraries tables with_anode records replies 4 50 first_time_here).0
                ≡ complete)))
unfolding records get_active_archival_node_except_self active_except_self is_enabled text_beq
init_block_sync_fresh_example =
    init_block_sync_fresh libraries tables with_anode records records-CreatesOne replies 3 50
      syncing ((λ url e. (refl, tt)), tt)

-- The job deletes what is in state 1, and only that.
abbrev record_of : ℕ → ℕ → SyncInfo
record_of id state = record {
  id = id;
  anode_url = lit "http://c";
  ts_cutoff = 50;
  offset = 1;
  state = state;
}

only_those_in_state_1 :
    delete_synced_records records (record_of 4 0 ∷ record_of 5 1 ∷ record_of 6 0 ∷ [])
    ≡ record_of 4 0 ∷ record_of 6 0 ∷ []
unfolding delete_synced_records delete_records records
only_those_in_state_1 = refl
