-- ===== src/Archive/Sync/Client.antt =====
-- src/modules/archieveSync/anodeClient.service.ts: what one other node is asked, and the record of
-- how far it has been read.
use push_anode.Prelude.{ℕ, suc, List, [], ◌∷◌, ◌++◌, Option, none, some, Text, lit, Result, ok, err}
use push_anode.Wire.{Failure}

-- model anodeSyncInfo, but total_blocks, which nothing reads
pub record SyncInfo : Type 0 where
  pub id : ℕ
  pub anode_url : Text
  pub ts_cutoff : ℕ
  pub offset : ℕ
  pub state : ℕ

-- The calls of the Prisma client on that table: findFirst by the url, create, update of the offset
-- or of the state of the record with an id (undefined for a client that has none), and delete.
pub record SyncTable (S : Type 0) : Type 0 where
  pub find_first : S → Text → Result Failure (Option SyncInfo)
  pub find_many : S → Result Failure (List SyncInfo)
  pub create : S → Text → ℕ → ℕ → Result Failure (ℕ × S)
  pub update_offset : S → Option ℕ → Option ℕ → Result Failure S
  pub update_state : S → Option ℕ → ℕ → Result Failure S
  pub delete : S → ℕ → Result Failure S

-- ANodeClient: before `init` it has a url only.
pub record ANodeClient : Type 0 where
  pub node_url : Text
  pub ts : Option ℕ
  pub offset : Option ℕ
  pub state : Option ℕ
  pub id : Option ℕ
  pub start_time : Option ℕ

unfoldable pub new_client : Text → ANodeClient
new_client url = record {
  node_url = url;
  ts = none;
  offset = none;
  state = none;
  id = none;
  start_time = none;
}

-- init
unfoldable pub init : Text → ℕ → ℕ → ℕ → ℕ → ℕ → ANodeClient → ANodeClient
init url ts offset state id start_time c = record {
  node_url = url ++ lit "/rpc";
  ts = some ts;
  offset = some offset;
  state = some state;
  id = some id;
  start_time = some start_time;
}

-- What the other nodes answer to the request of a number: the hashes of a page, from a url, a
-- start and a page number, and the blocks of hashes, null for one that is not there.
pub record Replies : Type 0 where
  pub block_hashes : ℕ → Text → Option ℕ → Option ℕ → Result Failure (List Text)
  pub blocks : ℕ → Text → List Text → Result Failure (List (Option Text))

-- this.offset += 1
abbrev pub next_offset : Option ℕ → Option ℕ
next_offset none = none
next_offset (some n) = some (suc n)

abbrev pub updated {ℓ} :
    {S : Type ℓ} → Result Failure S → S → List Text → Result Failure (List Text) × S
updated (err e) table hashes = (err e, table)
updated (ok table') table hashes = (ok hashes, table')

module _ {S : Type 0} (T : SyncTable S) where
  -- What the client does with a reply: it moves to the next page, or is marked as synchronised.
  unfoldable pub receive_hashes :
      Result Failure (List Text) → ANodeClient → S → Result Failure (List Text) × (ANodeClient × S)
  receive_hashes (err e) c table = (err e, (c, table))
  receive_hashes (ok []) c table =
      let (res, table') = updated (T.update_state table c.id 1) table [] in
      (res, (record c { state = some 1 }, table'))
  receive_hashes (ok (h ∷ hashes)) c table =
      let (res, table') =
        updated (T.update_offset table c.id (next_offset c.offset)) table (h ∷ hashes) in
      (res, (record c { offset = next_offset c.offset }, table'))

  -- push_anode_get_blockHash, as it is called: without arguments
  unfoldable pub push_anode_get_block_hash :
      Replies → ℕ → ANodeClient → S → Result Failure (List Text) × (ANodeClient × S)
  push_anode_get_block_hash replies call c table =
      receive_hashes (replies.block_hashes call c.node_url c.start_time c.offset) c table
