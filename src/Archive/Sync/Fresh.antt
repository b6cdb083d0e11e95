-- ===== src/Archive/Sync/Fresh.antt =====
-- The first synchronisation of a node that has no record of any other node.
use push_anode.Prelude.{
  ℕ, suc, ◌≡◌, ◌≢◌, refl, ◌∙◌, ◌⊎◌, inl, inr, Bool, true, false, List, [], ◌∷◌, Option, none, some,
  Text, text_eq, ◌==◌, Result, ok, err, All, if◌then◌else◌,
}
use push_anode.Collections.Map
use push_anode.Collections.Map.{Map}
use push_anode.Wire.{Failure, Libraries}
use push_anode.Validator.Contract.{NodeInfo, Contract, get_active_archival_node_except_self}
use push_anode.Archive.Database.{Database}
use push_anode.Archive.Sync.{
  Sync, thrown_by_map, complete, round, is_complete, sync_rounds, sync_mapped, created, map_node,
  map_nodes, and_then, get_anode_map, init_block_sync,
}
use push_anode.Archive.Sync.Client.{SyncTable, Replies}

module _ {S : Type 0} (T : SyncTable S) where
  -- A new record is found under its own url only.
  abbrev pub CreatesOne : Type 0
  CreatesOne =
      (table table' : S) (url other : Text) (offset ts id : ℕ)
      → T.create table url offset ts ≡ ok (id, table')
      → other ≢ url
      → T.find_first table' other ≡ T.find_first table other

  -- The table has no record of the nodes, whose urls differ.
  abbrev pub HasNone : S → List NodeInfo → Type 0
  HasNone table [] = Unit
  HasNone table (ni ∷ nodes) =
      ((url : Text)
        → ni.url ≡ some url
        → (T.find_first table url ≡ ok none) × All (λ m. m.url ≢ some url) nodes)
      × HasNone table nodes

module _ (lib : Libraries) (D : Database) (contract : Contract) {S : Type 0} (T : SyncTable S)
    (one : CreatesOne T) (replies : Replies) where
  HasNone-create :
      (table table' : S) (url : Text) (offset ts id : ℕ) (nodes : List NodeInfo)
      → T.create table url offset ts ≡ ok (id, table')
      → All (λ m. m.url ≢ some url) nodes
      → HasNone T table nodes
      → HasNone T table' nodes
  HasNone-create table table' url offset ts id [] e others new = tt
  HasNone-create table table' url offset ts id (ni ∷ nodes) e (o, others) (n, new) = (
    λ u is_url. (
      one table table' url u offset ts id e (λ same. o (is_url ∙ rw same refl)) ∙ (n u is_url).0,
      (n u is_url).1,
    ),
    HasNone-create table table' url offset ts id nodes e others new,
  )

  -- No client is kept and no request is made.
  abbrev Idle : Sync D S → Sync D S → Type 0
  Idle s s' = (s'.clients ≡ s.clients) × ((s'.calls ≡ s.calls) × (s'.node ≡ s.node))

  abbrev Mapped : List NodeInfo → Sync D S → Result Failure (Unit {0}) × Sync D S → Type 0
  Mapped nodes s (err e, s') = Idle s s'
  Mapped nodes s (ok u, s') = Idle s s' × HasNone T s'.table nodes

  created-Mapped :
      (now : ℕ) (url : Text) (nodes : List NodeInfo) (s : Sync D S) (r : Result Failure (ℕ × S))
      → T.create s.table url 1 now ≡ r
      → All (λ m. m.url ≢ some url) nodes
      → HasNone T s.table nodes
      → Mapped nodes s (created lib D contract T replies now r s)
  created-Mapped now url nodes s (err e) made others new = (refl, (refl, refl))
  created-Mapped now url nodes s (ok (id, table)) made others new =
      ((refl, (refl, refl)), HasNone-create s.table table url 1 now id nodes made others new)

  Mapped-if :
      (b : Bool) (nodes : List NodeInfo) (s : Sync D S)
      (r r' : Result Failure (Unit {0}) × Sync D S)
      → Mapped nodes s r
      → Mapped nodes s r'
      → Mapped nodes s (if b then r else r')
  Mapped-if true nodes s r r' h h' = h
  Mapped-if false nodes s r r' h h' = h'

  node-Mapped :
      (now : ℕ) (ni : NodeInfo) (nodes : List NodeInfo) (s : Sync D S) (url : Option Text)
      → ni.url ≡ url
      → HasNone T s.table (ni ∷ nodes)
      → Mapped nodes s (map_node lib D contract T replies now ni s)
  unfolding map_node
  node-Mapped now ni nodes s none e (n, new) = rw e ((refl, (refl, refl)), new)
  node-Mapped now ni nodes s (some url) e (n, new) =
      let (absent, others) = n url e in
      rw (e, absent)
        (Mapped-if (url == []) nodes s (ok tt, s) _ ((refl, (refl, refl)), new)
          (created-Mapped now url nodes
            (record s { node_info = Map.set s.node_info url (record ni { url = some url }) })
            (T.create s.table url 1 now) refl others new))

  then-Mapped :
      (nodes : List NodeInfo) (s : Sync D S) (r : Result Failure (Unit {0}) × Sync D S)
      (next : Sync D S → Result Failure (Unit {0}) × Sync D S)
      → Mapped nodes s r
      → ((s' : Sync D S) → HasNone T s'.table nodes → Idle s' (next s').1)
      → Idle s (and_then lib D contract T replies r next).1
  then-Mapped nodes s (err e, s') next h later = h
  then-Mapped nodes s (ok u, s') next ((a, (b, c)), new) later =
      let (a', (b', c')) = later s' new in (a' ∙ a, (b' ∙ b, c' ∙ c))

  nodes-Idle :
      (now : ℕ) (nodes : List NodeInfo) (s : Sync D S)
      → HasNone T s.table nodes
      → Idle s (map_nodes lib D contract T replies now nodes s).1
  unfolding map_nodes
  nodes-Idle now [] s new = (refl, (refl, refl))
  nodes-Idle now (ni ∷ nodes) s new =
      then-Mapped nodes s (map_node lib D contract T replies now ni s)
        (map_nodes lib D contract T replies now nodes) (node-Mapped now ni nodes s ni.url refl new)
        (nodes-Idle now nodes)

  Idle-sync_rounds :
      (rounds : ℕ) (s : Sync D S)
      → s.clients ≡ []
      → (sync_rounds lib D contract T replies (suc rounds) s).0 ≡ complete
        × Idle s (sync_rounds lib D contract T replies (suc rounds) s).1
  unfolding sync_rounds round is_complete
  Idle-sync_rounds rounds s e = rw e (refl, (refl, (refl, refl)))

  Idle-sync_mapped :
      (rounds : ℕ) (s : Sync D S) (r : Result Failure (Unit {0}) × Sync D S)
      → s.clients ≡ []
      → Idle s r.1
      → Idle s (sync_mapped lib D contract T replies (suc rounds) r).1
        × (((e : Failure) × ((sync_mapped lib D contract T replies (suc rounds) r).0
                ≡ thrown_by_map e))
            ⊎ ((sync_mapped lib D contract T replies (suc rounds) r).0 ≡ complete))
  Idle-sync_mapped rounds s (err e, s') none_before idle = (idle, inl (e, refl))
  Idle-sync_mapped rounds s (ok u, s') none_before (a, (b, c)) =
      let (over, (a', (b', c'))) = Idle-sync_rounds rounds s' (a ∙ none_before) in
      ((a' ∙ a, (b' ∙ b, c' ∙ c)), inr over)

  -- A node that has not synchronised before.
  abbrev pub first_time : Sync D S → Sync D S
  first_time s = record s { node_info = []; clients = []; is_syncing = false }

  -- On a node that has not synchronised before, where the other active archival nodes have different
  -- urls and the table has no record of any of them, and where a new record is found under its own url
  -- only, the synchronisation with at least one round makes no request and changes nothing in the
  -- node, and it reports success unless the map of the nodes could not be made.
  pub init_block_sync_fresh :
      (rounds now : ℕ) (s : Sync D S)
      → HasNone T s.table (get_active_archival_node_except_self contract)
      → ((init_block_sync lib D contract T replies (suc rounds) now (first_time s)).1.calls
          ≡ s.calls)
        × (((init_block_sync lib D contract T replies (suc rounds) now (first_time s)).1.node
              ≡ s.node)
            × (((e : Failure) × ((init_block_sync lib D contract T replies
                      (suc rounds)
                      now
                      (first_time s)).0
                    ≡ thrown_by_map e))
                ⊎ ((init_block_sync lib D contract T replies (suc rounds) now (first_time s)).0
                    ≡ complete)))
  unfolding init_block_sync get_anode_map
  init_block_sync_fresh rounds now s new =
      let s0 : Sync D S = record s { node_info = []; clients = []; is_syncing = true } in
      let ((a, (b, c)), over) =
        Idle-sync_mapped rounds s0
          (map_nodes lib D contract T replies now (get_active_archival_node_except_self contract)
            s0)
          refl (nodes-Idle now (get_active_archival_node_except_self contract) s0 new) in
      (b, (c, over))
