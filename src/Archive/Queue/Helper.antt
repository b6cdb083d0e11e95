-- ===== src/Archive/Queue/Helper.antt =====
-- src/modules/queue/queue-client-helper.service.ts: a record for each queue of each validator. The
-- calls of the Prisma client on the table dsetClient are parameters.
use push_anode.Prelude.{ℕ, List, [], ◌∷◌, Option, Text, lit, Result, ok, err, if◌then◌else◌}
use push_anode.Wire.{Failure, thrown}
use push_anode.Validator.Contract.{NodeInfo, Contract, is_enabled, get_all_validators_except_self}

-- upsert on the queue and the node, which creates a record with offset 0 or updates the url and the
-- state, and findUnique, which reads the offset
pub record ClientTable (S : Type 0) : Type 0 where
  pub upsert : S → Text → Text → Option Text → ℕ → Result Failure S
  pub find_offset : S → Text → Text → Result Failure (Option ℕ)

module _ {S : Type 0} (T : ClientTable S) where
  abbrev after_read : Result Failure (Option ℕ) → S → Result Failure (Unit {0}) × S
  after_read (err e) table = (err e, table)
  after_read (ok offset) table = (ok tt, table)

  abbrev after_upsert : Text → NodeInfo → Result Failure S → S → Result Failure (Unit {0}) × S
  after_upsert queue_name ni (err e) table = (err e, table)
  after_upsert queue_name ni (ok table') table =
      after_read (T.find_offset table' queue_name ni.node_id) table'

  -- The record of one validator and one queue.
  unfoldable pub init_client : Text → NodeInfo → S → Result Failure (Unit {0}) × S
  init_client queue_name ni table =
      after_upsert queue_name ni
        (T.upsert table queue_name ni.node_id ni.url (if is_enabled ni then 1 else 0)) table

  abbrev and_then :
      Result Failure (Unit {0}) × S
      → (S → Result Failure (Unit {0}) × S)
      → Result Failure (Unit {0}) × S
  and_then (err e, table) next = (err e, table)
  and_then (ok u, table) next = next table

  unfoldable pub init_queue : Text → List NodeInfo → S → Result Failure (Unit {0}) × S
  init_queue queue_name [] table = (ok tt, table)
  init_queue queue_name (ni ∷ nodes) table =
      and_then (init_client queue_name ni table) (init_queue queue_name nodes)

  unfoldable pub init_queues : List Text → List NodeInfo → S → Result Failure (Unit {0}) × S
  init_queues [] nodes table = (ok tt, table)
  init_queues (queue_name ∷ queue_names) nodes table =
      and_then (init_queue queue_name nodes table) (init_queues queue_names nodes)

  -- initClientForEveryQueueForEveryValidator
  unfoldable pub init_client_for_every_queue_for_every_validator :
      Contract → List Text → S → Result Failure (Unit {0}) × S
  init_client_for_every_queue_for_every_validator contract [] table =
      (err (thrown (lit "Queue names are missing")), table)
  init_client_for_every_queue_for_every_validator contract (q ∷ queue_names) table =
      init_queues (q ∷ queue_names) (get_all_validators_except_self contract) table
