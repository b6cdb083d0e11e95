-- ===== src/Archive/Queue.antt =====
-- pollRemoteQueue of src/modules/queue/queue-client.service.ts: blocks are read from the queues of
-- other nodes, from the offset that each endpoint has reached. The reply of a node and the update of
-- the table of offsets are parameters.
pub mod Laws
pub mod Offered
pub mod Pages
pub mod Delivery
pub mod Helper
use push_anode.Prelude.{
  ℕ, zero, suc, ◌+◌, Bool, true, false, List, [], ◌∷◌, ◌++◌, Option, none, some, Text, Result, ok,
  err, length, if◌then◌else◌,
}
use push_anode.Wire.{Failure, Libraries}
use push_anode.Validator.Contract.{Contract}
use push_anode.Archive.Database.{Database}
use push_anode.Archive.Blocks.{Node, QItem, accept}

-- A row of dsetClient.
pub record Endpoint : Type 0 where
  pub id : ℕ
  pub target_node_url : Text
  pub target_offset : ℕ

pub record Reply : Type 0 where
  pub items : List QItem
  pub last_offset : ℕ

-- endpointStats
pub record Stats : Type 0 where
  pub queries : ℕ
  pub downloaded_items : ℕ
  pub new_items : ℕ
  pub last_offset : ℕ

-- The node, the table of offsets, and how many requests were made before.
pub record Poll (D : Database) (Offsets : Type 0) : Type 0 where
  pub node : Node D
  pub offsets : Offsets
  pub calls : ℕ

module _ (lib : Libraries) (D : Database) (contract : Contract) (Offsets : Type 0)
    (read_items : ℕ → Text → ℕ → Option Reply)
    (update : Offsets → ℕ → ℕ → Result Failure Offsets) where
  -- The loop over the items of a reply: how many were accepted.
  unfoldable pub accept_items : List QItem → Node D → ℕ × Node D
  accept_items [] node = (0, node)
  accept_items (item ∷ items) node =
      let (append_successful, node1) = accept lib D contract item node in
      let (new, node2) = accept_items items node1 in
      ((if append_successful then suc new else new), node2)

  abbrev pub State : Type 0
  State = Poll D Offsets

  -- What one reply changes: the node, and then the offset, if its update does not throw.
  abbrev pub advance : Result Failure Offsets → Node D → State → Result Failure (Unit {0}) × State
  advance (err e) node p = (err e, record p { node = node })
  advance (ok offsets) node p = (ok tt, record p { node = node; offsets = offsets })

  abbrev pub counted : ℕ → ℕ → ℕ → Stats → Stats
  counted downloaded new offset s = record s {
    downloaded_items = s.downloaded_items + downloaded;
    new_items = s.new_items + new;
    last_offset = offset;
  }

  abbrev pub and_next {ℓ κ} :
      {A : Type ℓ} {B : Type κ}
      → Result Failure A × State
      → (A → State → Result Failure B × State)
      → Result Failure B × State
  and_next (err e, p) next = (err e, p)
  and_next (ok a, p) next = next a p

  abbrev pub Next : Type 0
  Next = ℕ → Stats → State → Result Failure Stats × State

  -- The items of a reply: an empty reply ends the requests.
  unfoldable pub take_items :
      Endpoint → ℕ → List QItem → Stats → State → Next → Result Failure Stats × State
  take_items e offset [] stats p next = (ok stats, p)
  take_items e offset (item ∷ items) stats p next =
      let (new, node) = accept_items (item ∷ items) p.node in
      and_next (advance (update p.offsets e.id offset) node p)
        (λ u. next offset (counted (suc (length items)) new offset stats))

  abbrev pub take_reply :
      Endpoint → Option Reply → Stats → State → Next → Result Failure Stats × State
  take_reply e none stats p next = (ok stats, p)
  take_reply e (some reply) stats p next = take_items e reply.last_offset reply.items stats p next

  -- The requests to one endpoint, `left` at most: it stops at no reply, at an empty one, or when
  -- the update throws.
  unfoldable pub poll_endpoint : ℕ → Endpoint → ℕ → Stats → State → Result Failure Stats × State
  poll_endpoint zero e offset stats p = (ok stats, p)
  poll_endpoint (suc left) e offset stats p =
      take_reply e (read_items p.calls e.target_node_url offset)
        (record stats { queries = suc stats.queries }) (record p { calls = suc p.calls })
        (poll_endpoint left e)

  abbrev pub fresh_stats : Endpoint → Stats
  fresh_stats e = record {
    queries = 0;
    downloaded_items = 0;
    new_items = 0;
    last_offset = e.target_offset;
  }

  -- pollRemoteQueue, over the endpoints that the table gives; the result has one entry for each
  -- endpoint, where the code repeats it for each request
  unfoldable pub poll_remote_queue : ℕ → List Endpoint → State → Result Failure (List Stats) × State
  poll_remote_queue max_requests [] p = (ok [], p)
  poll_remote_queue max_requests (e ∷ es) p =
      and_next (poll_endpoint max_requests e e.target_offset (fresh_stats e) p) (λ stats p1.
        and_next (poll_remote_queue max_requests es p1)
          (λ all_stats p2. (ok (stats ∷ all_stats), p2)))
