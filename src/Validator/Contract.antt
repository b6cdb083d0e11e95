-- ===== src/Validator/Contract.antt =====
-- src/modules/validator/validator-contract-state.service.ts: the nodes that the smart contract
-- registered, as the node reads them at its start and keeps them by the contract's events.
pub mod Load
pub mod Status
use push_anode.Prelude.{
  ℕ, Bool, not, ◌&&◌, ◌||◌, List, Option, none, some, Text, Result, ok, err, ◌==◌, nat_eq, text_eq,
  filter, if◌then◌else◌,
}
use push_anode.Collections.Map
use push_anode.Collections.Map.{Map}

-- NodeType and NodeStatus are the contract's numbers.
abbrev pub v_node : ℕ
v_node = 0

abbrev pub s_node : ℕ
s_node = 1

abbrev pub a_node : ℕ
a_node = 2

abbrev pub status_ok : ℕ
status_ok = 0

abbrev pub reported : ℕ
reported = 1

abbrev pub slashed : ℕ
slashed = 2

abbrev pub banned_and_unstaked : ℕ
banned_and_unstaked = 3

abbrev pub unstaked : ℕ
unstaked = 4

-- NodeInfo: the url is null if it could not be read.
pub record NodeInfo : Type 0 where
  pub node_id : Text
  pub url : Option Text
  pub node_type : ℕ
  pub node_status : ℕ

-- ValidatorCtClient, with the id of this node
pub record Contract : Type 0 where
  pub node_id : Text
  pub vnodes : Map Text NodeInfo
  pub snodes : Map Text NodeInfo
  pub anodes : Map Text NodeInfo
  pub val_per_block : ℕ

-- The error of getNodeMapByType.
pub data ContractError : Type 0 where
  unsupported_node_type : ℕ → ContractError

-- isEnabled
unfoldable pub is_enabled : NodeInfo → Bool
is_enabled ni =
    ni.node_status == status_ok || (ni.node_status == reported || ni.node_status == slashed)

-- isActiveValidator
unfoldable pub is_active_validator : Contract → Text → Bool
is_active_validator c node_id = Map.has c.vnodes node_id

-- The nodes of a kind that are enabled, but this one.
unfoldable pub active_except_self : ℕ → Text → Map Text NodeInfo → List NodeInfo
unfolding is_enabled
active_except_self node_type self nodes =
    filter (λ ni. ni.node_type == node_type && (is_enabled ni && not (self == ni.node_id)))
      (Map.values nodes)

-- getActiveArchivalNodeExceptSelf
unfoldable pub get_active_archival_node_except_self : Contract → List NodeInfo
get_active_archival_node_except_self c = active_except_self a_node c.node_id c.anodes

-- getActiveValidatorsExceptSelf and getAllValidatorsExceptSelf, which have the same body
unfoldable pub get_all_validators_except_self : Contract → List NodeInfo
get_all_validators_except_self c = active_except_self v_node c.node_id c.vnodes

-- getActiveValidators
unfoldable pub get_active_validators : Contract → List NodeInfo
unfolding is_enabled
get_active_validators c =
    filter (λ ni. ni.node_type == v_node && is_enabled ni) (Map.values c.vnodes)

-- The handler of NodeAdded, with the url already read by fixNodeUrl; it throws on another type.
unfoldable pub node_added : Text → ℕ → Option Text → Contract → Result ContractError Contract
node_added node_wallet node_type url c =
    let ni : NodeInfo = record {
      node_id = node_wallet;
      url = url;
      node_type = node_type;
      node_status = status_ok;
    } in
    if node_type == v_node
    then ok (record c { vnodes = Map.set c.vnodes node_wallet ni })
    else if node_type == s_node
    then ok (record c { snodes = Map.set c.snodes node_wallet ni })
    else if node_type == a_node
    then ok (record c { anodes = Map.set c.anodes node_wallet ni })
    else err (unsupported_node_type node_type)

abbrev pub with_status : ℕ → NodeInfo → NodeInfo
with_status status ni = record ni { node_status = status }

abbrev pub change_in :
    Option NodeInfo → Option NodeInfo → Option NodeInfo → Text → ℕ → Contract → Contract
change_in (some ni) _ _ node status c = record c {
  vnodes = Map.set c.vnodes node (with_status status ni);
}
change_in none (some ni) _ node status c = record c {
  snodes = Map.set c.snodes node (with_status status ni);
}
change_in none none (some ni) node status c = record c {
  anodes = Map.set c.anodes node (with_status status ni);
}
change_in none none none node status c = c

-- The handler of NodeStatusChanged: the first map that has the node, none for an unknown one.
unfoldable pub node_status_changed : Text → ℕ → Contract → Contract
node_status_changed node status c =
    change_in (Map.get c.vnodes node) (Map.get c.snodes node) (Map.get c.anodes node) node status c

-- The handler of BlockParamsUpdated.
unfoldable pub block_params_updated : ℕ → Contract → Contract
block_params_updated val_per_block c = record c { val_per_block = val_per_block }
