-- ===== src/Tests/Contract.antt =====
-- The nodes of the contract as they are read and change.
use push_anode.Prelude.{ℕ, ◌≡◌, refl, true, List, [], ◌∷◌, some, Text, text_beq, lit, ok}
use push_anode.Collections.Map
use push_anode.Validator.Contract.{NodeInfo, v_node, status_ok, banned_and_unstaked}
use push_anode.Validator.Contract.Load.{
  ContractCalls, load_constants, load_nodes, load_anodes, connect, on_events,
}
use push_anode.Validator.Contract.Status.{status_events, validate_block-status_events}
use push_anode.Archive.Blocks.{validate_block}
use push_anode.Tests.Codec.{libraries}
use push_anode.Tests.Signers.{attested_twice}
use push_anode.Tests.Tables.{tables}
use push_anode.Tests.Archive.{contract}

abbrev chain : ContractCalls
chain = record {
  val_per_block = ok (some 3);
  val_per_block_target = ok 5;
  node_random_min_count = ok (some 1);
  node_random_ping_count = ok 1;
  get_v_nodes = ok (lit "0xV" ∷ lit "0xA" ∷ []);
  get_s_nodes = ok [];
  get_a_nodes = ok (lit "0xN" ∷ []);
  get_node_info = λ node. ok (record {
    node_wallet = node;
    node_type = v_node;
    node_api_base_url = lit "http://v";
    status = status_ok;
  });
  fix_node_url = λ url. some url;
}

abbrev as_read : Text → Text × NodeInfo
as_read node = (
  node,
  record {
    node_id = node;
    url = some (lit "http://v");
    node_type = v_node;
    node_status = status_ok;
  },
)

read_at_start :
    connect chain (lit "0xN") true
    ≡ ok (record {
      node_id = lit "0xN";
      vnodes = as_read (lit "0xV") ∷ as_read (lit "0xA") ∷ [];
      snodes = [];
      anodes = as_read (lit "0xN") ∷ [];
      val_per_block = 3;
    })
unfolding connect load_constants load_nodes load_anodes Map.set text_beq
read_at_start = refl

-- A validator is banned, and its blocks are still accepted.
abbrev ban : List (Text × ℕ)
ban = (lit "0xV", banned_and_unstaked) ∷ []

validate_block-status_events_example :
    validate_block libraries tables (on_events chain (status_events ban) contract) attested_twice
    ≡ validate_block libraries tables contract attested_twice
validate_block-status_events_example =
    validate_block-status_events libraries tables chain ban contract attested_twice
