-- ===== src/Archive/Queue/Offered.antt =====
-- Which blocks polling can add to the database.
use push_anode.Prelude.{
  ℕ, zero, suc, ◌≡◌, refl, sym, ◌∙◌, subst, List, [], ◌∷◌, Option, none, some, Text, text_eq,
  text_beq_iff, ◌==◌, Result, ok, err, Option-cases, Bool-cases, inl, inr,
}
use mathlib.Core.List.{Memᴰ}
use push_anode.Util.Hex.{decode_hex}
use push_anode.Wire.{Block, Failure, Libraries}
use push_anode.Validator.Contract.{Contract}
use push_anode.Archive.Database.{BlockRow, Database, IsDatabase}
use push_anode.Archive.Rows.{hash_block_as_hex, block_row}
use push_anode.Archive.Blocks.{Node, QItem, accept_block, accept, handle_block}
use push_anode.Archive.Blocks.Safety.{IsChecked, handle_block-Grows, handle_block_only_checked}
use push_anode.Archive.Blocks.Linked.{handle_block-IsLinked}
use push_anode.Archive.Queue.{
  Endpoint, Reply, Stats, Poll, accept_items, advance, and_next, take_items, take_reply,
  poll_endpoint, fresh_stats, poll_remote_queue,
}
use push_anode.Archive.Queue.Laws.{IsSafe, IsSafe-refl, IsSafe-trans}

module _ (lib : Libraries) (D : Database) (law : IsDatabase D) (contract : Contract)
    (Offsets : Type 0) (read_items : ℕ → Text → ℕ → Option Reply)
    (update : Offsets → ℕ → ℕ → Result Failure Offsets) where
  -- Some reply of a node holds the item.
  abbrev pub IsOffered : QItem → Type 0
  IsOffered item =
      (call : ℕ) × (url : Text) × (offset : ℕ) × (reply : Reply) × (read_items call url offset
        ≡ some reply)
      × Memᴰ item reply.items

  -- The row is that of the block in an item, at the hash that stands in the item, which is the hash of
  -- the bytes, and the signatures of the block were checked.
  abbrev pub IsFromItem : QItem → Text → BlockRow → Type 0
  IsFromItem item h row =
      (block : Block) × (lib.deserialize_block (decode_hex item.object) ≡ ok block)
      × (h ≡ item.object_hash)
      × (h ≡ hash_block_as_hex lib (decode_hex item.object))
      × (row ≡ block_row lib block (decode_hex item.object))
      × IsChecked lib D law contract block (decode_hex item.object)

  abbrev pub AddsOffered : D.Db → D.Db → Type 0
  AddsOffered d d' =
      (h : Text) (row : BlockRow)
      → D.block_at d h ≡ none
      → D.block_at d' h ≡ some row
      → (item : QItem) × IsOffered item × IsFromItem item h row

  unfoldable pub IsOfferedChange : D.Db → D.Db → Type 0
  IsOfferedChange d d' = IsSafe D d d' × AddsOffered d d'

  unchanged : (d : D.Db) → IsOfferedChange d d
  unfolding IsOfferedChange
  unchanged d = (IsSafe-refl D d, λ h row free at_h. absurd (cc (free, at_h)))

  both : (a b c : D.Db) → IsOfferedChange a b → IsOfferedChange b c → IsOfferedChange a c
  unfolding IsOfferedChange IsSafe
  both a b c (safe, adds) (safe', adds') = (
    IsSafe-trans D a b c safe safe',
    λ h row free at_h. elim (Option-cases (D.block_at b h)) [
      | inl still ↦ adds' h row still at_h
      | inr (old, at_old) ↦
          let is_old : old ≡ row = cc (safe'.0.0 h old at_old, at_h) in
          adds h row free (at_old ∙ rw is_old refl)
    ],
  )

  handled :
      (item : QItem) (block : Block) (node : Node D)
      → IsOffered item
      → lib.deserialize_block (decode_hex item.object) ≡ ok block
      → hash_block_as_hex lib (decode_hex item.object) ≡ item.object_hash
      → IsOfferedChange node.db
          (handle_block lib D contract block (decode_hex item.object) node).1.db
  unfolding IsOfferedChange IsSafe
  handled item block node offered read same = (
    (
      handle_block-Grows lib D law contract block (decode_hex item.object) node,
      handle_block-IsLinked lib D law contract block (decode_hex item.object) node,
    ),
    λ h row free at_h.
        let (at_hash, is_row, is_checked) =
          handle_block_only_checked lib D law contract block (decode_hex item.object) node h row
            free at_h in
        (item, offered, (block, read, at_hash ∙ same, at_hash, is_row, is_checked)),
  )

  accepted_of :
      (item : QItem) (r : Result Failure Block) (node : Node D)
      → IsOffered item
      → lib.deserialize_block (decode_hex item.object) ≡ r
      → IsOfferedChange node.db
          (accept_block lib D contract r (decode_hex item.object) item.object_hash node).1.db
  accepted_of item (err e) node offered read = unchanged node.db
  accepted_of item (ok block) node offered read =
      elim (Bool-cases (hash_block_as_hex lib (decode_hex item.object) == item.object_hash)) [
        | inl hit ↦ rw hit (handled item block node offered read ((text_beq_iff _ _).0 hit))
        | inr miss ↦ rw miss (unchanged node.db)
      ]

  accept-IsOffered :
      (item : QItem) (node : Node D)
      → IsOffered item
      → IsOfferedChange node.db (accept lib D contract item node).1.db
  unfolding accept
  accept-IsOffered item node offered = accepted_of item _ node offered refl

  items-IsOffered :
      (items : List QItem) (node : Node D)
      → ((item : QItem) → Memᴰ item items → IsOffered item)
      → IsOfferedChange node.db
          (accept_items lib D contract Offsets read_items update items node).1.db
  unfolding accept_items
  items-IsOffered [] node offered = unchanged node.db
  items-IsOffered (item ∷ items) node offered =
      both _ _ _ (accept-IsOffered item node (offered item (Memᴰ.head refl))) (
        items-IsOffered items (accept lib D contract item node).1
          (λ i here. offered i (Memᴰ.tail here)))

  abbrev Polled : Type 0
  Polled = Poll D Offsets

  next-IsOffered :
      {A B : Type 0} (d : D.Db) (r : Result Failure A × Polled)
      (next : A → Polled → Result Failure B × Polled)
      → IsOfferedChange d r.1.node.db
      → ((a : A) (p : Polled) → IsOfferedChange p.node.db (next a p).1.node.db)
      → IsOfferedChange d (and_next lib D contract Offsets read_items update r next).1.node.db
  next-IsOffered d (err e, p) next safe later = safe
  next-IsOffered d (ok a, p) next safe later = both _ _ _ safe (later a p)

  advance-node :
      (r : Result Failure Offsets) (node : Node D) (p : Polled)
      → (advance lib D contract Offsets read_items update r node p).1.node ≡ node
  advance-node (err e) node p = refl
  advance-node (ok o) node p = refl

  -- What follows a reply.
  abbrev NextIsOffered : (ℕ → Stats → Polled → Result Failure Stats × Polled) → Type 0
  NextIsOffered next =
      (offset : ℕ) (s : Stats) (q : Polled) → IsOfferedChange q.node.db (next offset s q).1.node.db

  take-IsOffered :
      (e : Endpoint) (offset : ℕ) (items : List QItem) (stats : Stats) (p : Polled)
      (next : ℕ → Stats → Polled → Result Failure Stats × Polled)
      → ((item : QItem) → Memᴰ item items → IsOffered item)
      → NextIsOffered next
      → IsOfferedChange p.node.db
          (take_items lib D contract Offsets read_items update e offset items stats p
            next).1.node.db
  unfolding take_items
  take-IsOffered e offset [] stats p next offered later = unchanged p.node.db
  take-IsOffered e offset (item ∷ items) stats p next offered later =
      let node = (accept_items lib D contract Offsets read_items update (item ∷ items) p.node).1 in
      next-IsOffered p.node.db
        (advance lib D contract Offsets read_items update (update p.offsets e.id offset) node p) _
        (subst (λ n. IsOfferedChange p.node.db n.db)
          (sym (advance-node (update p.offsets e.id offset) node p))
          (items-IsOffered (item ∷ items) p.node offered))
        (λ u. later offset _)

  reply-IsOffered :
      (e : Endpoint) (call offset : ℕ) (r : Option Reply) (stats : Stats) (p : Polled)
      (next : ℕ → Stats → Polled → Result Failure Stats × Polled)
      → read_items call e.target_node_url offset ≡ r
      → NextIsOffered next
      → IsOfferedChange p.node.db
          (take_reply lib D contract Offsets read_items update e r stats p next).1.node.db
  reply-IsOffered e call offset none stats p next read later = unchanged p.node.db
  reply-IsOffered e call offset (some reply) stats p next read later =
      take-IsOffered e reply.last_offset reply.items stats p next
        (λ item here. (call, e.target_node_url, offset, reply, read, here)) later

  endpoint-IsOffered :
      (left : ℕ) (e : Endpoint) (offset : ℕ) (stats : Stats) (p : Polled)
      → IsOfferedChange p.node.db
          (poll_endpoint lib D contract Offsets read_items update left e offset stats p).1.node.db
  unfolding poll_endpoint
  endpoint-IsOffered zero e offset stats p = unchanged p.node.db
  endpoint-IsOffered (suc left) e offset stats p =
      reply-IsOffered e p.calls offset _ _ (record p { calls = suc p.calls }) _ refl
        (endpoint-IsOffered left e)

  -- Whatever the other nodes reply, and also where the table of offsets cannot be updated, polling
  -- changes and loses nothing that is stored, keeps every transaction linked to a stored block, and
  -- each block that it adds is that of an item of some reply, with its bytes, at the hash that stands
  -- in the item and is the hash of the bytes, and has passed the signature check.
  pub poll_remote_queue-IsOffered :
      (max_requests : ℕ) (endpoints : List Endpoint) (p : Polled)
      → IsOfferedChange p.node.db
          (poll_remote_queue lib D contract Offsets read_items update max_requests endpoints
            p).1.node.db
  unfolding poll_remote_queue
  poll_remote_queue-IsOffered max_requests [] p = unchanged p.node.db
  poll_remote_queue-IsOffered max_requests (e ∷ es) p =
      next-IsOffered {A = Stats} {B = List Stats} p.node.db
        (poll_endpoint lib D contract Offsets read_items update max_requests e e.target_offset
          (fresh_stats lib D contract Offsets read_items update e) p)
        (λ stats p1.
          and_next lib D contract Offsets read_items update
            (poll_remote_queue lib D contract Offsets read_items update max_requests es p1)
            (λ all_stats p2. (ok (stats ∷ all_stats), p2)))
        (endpoint-IsOffered max_requests e e.target_offset
          (fresh_stats lib D contract Offsets read_items update e) p)
        (λ stats p1.
          next-IsOffered {A = List Stats} {B = List Stats} p1.node.db
            (poll_remote_queue lib D contract Offsets read_items update max_requests es p1)
            (λ all_stats p2. (ok (stats ∷ all_stats), p2))
            (poll_remote_queue-IsOffered max_requests es p1) (λ a q. unchanged q.node.db))
