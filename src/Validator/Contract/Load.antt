-- ===== src/Validator/Contract/Load.antt =====
-- How src/modules/validator/validator-contract-state.service.ts fills the maps at the start, and
-- keeps them by the events of the contract. The contract, and fixNodeUrl, which parses a URL, are
-- parameters.
use push_anode.Prelude.{
  ℕ, Bool, List, [], ◌∷◌, Option, none, some, Text, lit, text_eq, Result, ok, err, ◌>>=◌,
  if◌then◌else◌,
}
use push_anode.Collections.Map
use push_anode.Collections.Map.{Map}
use push_anode.Wire.{Failure, thrown}
use push_anode.Validator.Contract.{
  NodeInfo, Contract, ContractError, node_added, node_status_changed, block_params_updated,
}

-- NodeInfo2, with the fields that are read
pub record NodeInfo2 : Type 0 where
  pub node_wallet : Text
  pub node_type : ℕ
  pub node_api_base_url : Text
  pub status : ℕ

-- ValidatorContract, and fixNodeUrl
pub record ContractCalls : Type 0 where
  pub val_per_block : Result Failure (Option ℕ)
  pub val_per_block_target : Result Failure ℕ
  pub node_random_min_count : Result Failure (Option ℕ)
  pub node_random_ping_count : Result Failure ℕ
  pub get_v_nodes : Result Failure (List Text)
  pub get_s_nodes : Result Failure (List Text)
  pub get_a_nodes : Result Failure (List Text)
  pub get_node_info : Text → Result Failure NodeInfo2
  pub fix_node_url : Text → Option Text

-- A constant that has to be there.
abbrev pub required : Text → Option ℕ → Result Failure ℕ
required message none = err (thrown message)
required message (some n) = ok n

-- The events of the contract, as they are emitted.
pub data Event : Type 0 where
  added : Text → ℕ → Text → Event
  status_changed : Text → ℕ → Event
  params_updated : ℕ → Event

-- A handler that throws leaves the maps.
abbrev pub unless_thrown : Result ContractError Contract → Contract → Contract
unless_thrown (err e) c = c
unless_thrown (ok c') c = c'

module _ (calls : ContractCalls) where
  -- One loop of loadVSDNodesAndSubscribeToUpdates.
  unfoldable pub load_nodes : List Text → Map Text NodeInfo → Result Failure (Map Text NodeInfo)
  load_nodes [] nodes = ok nodes
  load_nodes (node_addr ∷ addrs) nodes = do
    ni ← calls.get_node_info node_addr
    load_nodes addrs (
        Map.set nodes ni.node_wallet (record {
          node_id = ni.node_wallet;
          url = calls.fix_node_url ni.node_api_base_url;
          node_type = ni.node_type;
          node_status = ni.status;
        }))

  -- The archival nodes are read only where the environment asks for it.
  unfoldable pub load_anodes : Bool → Result Failure (Map Text NodeInfo)
  load_anodes archival_nodes_on =
      let loaded : Result Failure (Map Text NodeInfo) = (do
        a_nodes ← calls.get_a_nodes
        load_nodes a_nodes []) in
      if archival_nodes_on then loaded else ok []

  -- loadConstantsAndSubscribeToUpdates, of which valPerBlock is used
  unfoldable pub load_constants : Result Failure ℕ
  load_constants = do
    read ← calls.val_per_block
    val_per_block_target ← calls.val_per_block_target
    val_per_block ← required (lit "valPerBlock is undefined") read
    read_min ← calls.node_random_min_count
    min ← required (lit "nodeRandomMinCount is undefined") read_min
    ping ← calls.node_random_ping_count
    ok val_per_block

  -- connect, on a node of an id and without the test variable that replaces the contract; where it
  -- fails, the start of the program fails
  unfoldable pub connect : Text → Bool → Result Failure Contract
  connect node_id archival_nodes_on = do
    val_per_block ← load_constants
    v_nodes ← calls.get_v_nodes
    vnodes ← load_nodes v_nodes []
    s_nodes ← calls.get_s_nodes
    snodes ← load_nodes s_nodes []
    anodes ← load_anodes archival_nodes_on
    ok (record {
      node_id = node_id;
      vnodes = vnodes;
      snodes = snodes;
      anodes = anodes;
      val_per_block = val_per_block;
    })

  unfoldable pub on_event : Event → Contract → Contract
  on_event (added node_wallet node_type url) c =
      unless_thrown (node_added node_wallet node_type (calls.fix_node_url url) c) c
  on_event (status_changed node status) c = node_status_changed node status c
  on_event (params_updated val_per_block) c = block_params_updated val_per_block c

  unfoldable pub on_events : List Event → Contract → Contract
  on_events [] c = c
  on_events (e ∷ events) c = on_events events (on_event e c)
