-- ===== src/Tests/Polling.antt =====
-- Polling of nodes that have queues of blocks.
use push_anode.Prelude.{
  ℕ, ◌+◌, refl, [], List, ◌∷◌, Option, some, Text, text_eq, lit, ◌==◌, nat_eq, Result, ok,
  if◌then◌else◌, length, take, drop, arith, nat_beq_iff,
}
use push_anode.Wire.{Failure}
use push_anode.Util.Hex.{bytes_to_base16}
use push_anode.Archive.Blocks.{QItem}
use push_anode.Archive.Queue.{Reply, Poll, Endpoint, poll_remote_queue}
use push_anode.Archive.Queue.Offered.{IsOfferedChange, poll_remote_queue-IsOffered}
use push_anode.Archive.Queue.Pages.{IsServed, IsUpdated}
use push_anode.Archive.Queue.Delivery.{AllDelivered, poll_remote_queue-AllDelivered}
use push_anode.Tests.Archive.{start, contract, small_block}
use push_anode.Tests.Codec.{libraries}
use push_anode.Tests.Tables.{tables, tables-IsDatabase}

-- A queue of an item whose hash is wrong, a block, and the same block again.
abbrev item_of : ℕ → QItem
item_of id = record {
  id = id;
  object = bytes_to_base16 (libraries.serialize_block small_block);
  object_hash = bytes_to_base16 (libraries.serialize_block small_block);
}

abbrev queue : Text → List QItem
queue url =
    if url == lit "http://v1"
    then record { id = 1; object = lit "0102"; object_hash = lit "0708" }
      ∷ item_of 2
      ∷ item_of 3
      ∷ []
    else []

-- One item for each request.
abbrev page_at : Text → ℕ → List QItem
page_at url offset = take 1 (drop offset (queue url))

abbrev read_page : ℕ → Text → ℕ → Option Reply
read_page call url offset =
    some (record { items = page_at url offset; last_offset = offset + length (page_at url offset) })

abbrev Offsets : Type 0
Offsets = ℕ → ℕ

abbrev set_offset : Offsets → ℕ → ℕ → Result Failure Offsets
set_offset offsets id offset = ok (λ n. if n == id then offset else offsets n)

abbrev stands_at : Offsets → ℕ → ℕ
stands_at offsets id = offsets id

read_page-IsServed : IsServed libraries tables contract Offsets read_page set_offset queue 1
read_page-IsServed call url offset = (
  record { items = page_at url offset; last_offset = offset + length (page_at url offset) },
  refl,
  refl,
  λ some_items. refl,
)

set_offset-IsUpdated : IsUpdated libraries tables contract Offsets read_page set_offset stands_at
set_offset-IsUpdated offsets id offset = (
  λ n. if n == id then offset else offsets n,
  refl,
  rw ((nat_beq_iff id id).1 refl) refl,
  λ other differs. ground (arith, differs, nat_beq_iff other id),
)

abbrev first_offsets : Offsets
first_offsets n = if n == 2 then 0 else 5

abbrev poll : Poll tables Offsets
poll = record { node = start; offsets = first_offsets; calls = 0 }

abbrev endpoints : List Endpoint
endpoints =
    record { id = 2; target_node_url = lit "http://v1"; target_offset = 0 }
    ∷ record { id = 3; target_node_url = lit "http://v2"; target_offset = 5 }
    ∷ []

poll_remote_queue-IsOffered_example :
    IsOfferedChange libraries tables tables-IsDatabase contract Offsets read_page set_offset
      start.db
      (poll_remote_queue libraries tables contract Offsets read_page set_offset 2 endpoints
        poll).1.node.db
poll_remote_queue-IsOffered_example =
    poll_remote_queue-IsOffered libraries tables tables-IsDatabase contract Offsets read_page
      set_offset 2 endpoints poll

poll_remote_queue-AllDelivered_example :
    AllDelivered libraries tables contract Offsets read_page set_offset queue 1 stands_at 2
      endpoints poll
      (poll_remote_queue libraries tables contract Offsets read_page set_offset 2 endpoints poll)
poll_remote_queue-AllDelivered_example =
    poll_remote_queue-AllDelivered libraries tables contract Offsets read_page set_offset queue 1
      stands_at (omega arith) read_page-IsServed set_offset-IsUpdated 2 endpoints poll
      (((λ e. cc e), tt), (tt, tt)) (refl, (refl, tt))
