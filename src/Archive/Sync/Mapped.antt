-- ===== src/Archive/Sync/Mapped.antt =====
-- getANodeMap changes the table and the maps, and never the node.
use push_anode.Prelude.{
  ℕ, ◌≡◌, refl, ◌∙◌, Bool, true, false, List, [], ◌∷◌, Option, none, some, Text, Result, ok, err,
  if◌then◌else◌,
}
use push_anode.Collections.Map.{Map}
use push_anode.Wire.{Failure, Libraries}
use push_anode.Validator.Contract.{NodeInfo, Contract, get_active_archival_node_except_self}
use push_anode.Archive.Database.{Database}
use push_anode.Archive.Blocks.{Node}
use push_anode.Archive.Sync.{
  Sync, map_found, map_node, map_nodes, get_anode_map, when_empty, unless_mapped, created, and_then,
}
use push_anode.Archive.Sync.Client.{SyncTable, SyncInfo, Replies}

module _ (lib : Libraries) (D : Database) (contract : Contract) {S : Type 0} (T : SyncTable S)
    (replies : Replies) where
  created-node :
      (now : ℕ) (r : Result Failure (ℕ × S)) (s : Sync D S)
      → (created lib D contract T replies now r s).1.node ≡ s.node
  created-node now (err e) s = refl
  created-node now (ok r) s = refl

  found-node :
      (now : ℕ) (url : Text) (r : Result Failure (Option SyncInfo)) (s : Sync D S)
      → (map_found lib D contract T replies now url r s).1.node ≡ s.node
  found-node now url (err e) s = refl
  found-node now url (ok none) s = created-node now _ s
  found-node now url (ok (some info)) s = refl

  node-if :
      (b : Bool) (r r' : Result Failure (Unit {0}) × Sync D S) (n : Node D)
      → r.1.node ≡ n
      → r'.1.node ≡ n
      → (if b then r else r').1.node ≡ n
  node-if true r r' n h h' = h
  node-if false r r' n h h' = h'

  url-node :
      (now : ℕ) (ni : NodeInfo) (url : Option Text) (s : Sync D S)
      → ni.url ≡ url
      → (map_node lib D contract T replies now ni s).1.node ≡ s.node
  unfolding map_node
  url-node now ni none s e = rw e refl
  url-node now ni (some url) s e =
      rw e (node-if _ _ _ s.node refl (found-node now url (T.find_first s.table url) _))

  then-node :
      (r : Result Failure (Unit {0}) × Sync D S)
      (next : Sync D S → Result Failure (Unit {0}) × Sync D S)
      → ((s : Sync D S) → (next s).1.node ≡ s.node)
      → (and_then lib D contract T replies r next).1.node ≡ r.1.node
  then-node (err e, s) next same = refl
  then-node (ok u, s) next same = same s

  nodes-node :
      (now : ℕ) (nodes : List NodeInfo) (s : Sync D S)
      → (map_nodes lib D contract T replies now nodes s).1.node ≡ s.node
  unfolding map_nodes
  nodes-node now [] s = refl
  nodes-node now (ni ∷ nodes) s =
      then-node (map_node lib D contract T replies now ni s)
        (map_nodes lib D contract T replies now nodes) (nodes-node now nodes)
      ∙ url-node now ni ni.url s refl

  unless-node :
      (info : Map Text NodeInfo) (mapped : Result Failure (Unit {0}) × Sync D S) (s : Sync D S)
      → mapped.1.node ≡ s.node
      → (unless_mapped lib D contract T replies info mapped s).1.node ≡ s.node
  unless-node [] mapped s e = e
  unless-node (x ∷ xs) mapped s e = refl

  pub empty-node :
      (now : ℕ) (s : Sync D S) → (when_empty lib D contract T replies now s).1.node ≡ s.node
  unfolding get_anode_map
  empty-node now s =
      unless-node s.node_info _ s (nodes-node now (get_active_archival_node_except_self contract) s)
