-- ===== src/Archive/Sync/Stuck.antt =====
-- A client that was never initialised keeps the synchronisation from ending.
use push_anode.Prelude.{
  ℕ, zero, suc, ◌≡◌, refl, ◌∙◌, ◌⊎◌, inl, inr, false, List, [], ◌∷◌, Option, none, Text, Result, ok,
  err, arith,
}
use push_anode.Collections.Map.{Map}
use push_anode.Wire.{Failure, Libraries}
use push_anode.Validator.Contract.{Contract}
use push_anode.Archive.Database.{Database}
use push_anode.Archive.Sync.{
  Sync, Processed, failed, unfinished, get_block_hash_validate_and_get_full_block, round,
  is_complete, sync_rounds,
}
use push_anode.Archive.Sync.Client.{
  SyncTable, ANodeClient, Replies, next_offset, receive_hashes, push_anode_get_block_hash,
}
use push_anode.Archive.Sync.Ends.{client-id}

-- The map has a client without the id of a record.
abbrev pub HasUninitialised : Map Text ANodeClient → Type 0
HasUninitialised [] = ⊥
HasUninitialised ((url, client) ∷ clients) = (client.id ≡ none) ⊎ HasUninitialised clients

abbrev pub HasFailed : List Processed → Type 0
HasFailed [] = ⊥
HasFailed (r ∷ results) = (r ≡ failed) ⊎ HasFailed results

module _ (lib : Libraries) (D : Database) (contract : Contract) {S : Type 0} (T : SyncTable S)
    (replies : Replies)
    (refuses : (table : S)
      → ((state : ℕ) → (e : Failure) × (T.update_state table none state ≡ err e))
        × ((offset : Option ℕ) → (e : Failure) × (T.update_offset table none offset ≡ err e))) where
  received :
      (r : Result Failure (List Text)) (c : ANodeClient) (table : S)
      → c.id ≡ none
      → (e : Failure) × ((receive_hashes T r c table).0 ≡ err e)
  unfolding receive_hashes
  received (err e) c table h = (e, refl)
  received (ok []) c table h = let (e, p) = (refuses table).0 1 in (e, rw (h, p) refl)
  received (ok (x ∷ hashes)) c table h =
      let (e, p) = (refuses table).1 (next_offset c.offset) in (e, rw (h, p) refl)

  client_fails :
      (client : ANodeClient) (s : Sync D S)
      → client.id ≡ none
      → (get_block_hash_validate_and_get_full_block lib D contract T replies client s).0.0 ≡ failed
  unfolding get_block_hash_validate_and_get_full_block push_anode_get_block_hash
  client_fails client s h =
      let (e, p) =
        received (replies.block_hashes s.calls client.node_url client.start_time client.offset)
          client s.table h in
      rw p refl

  round_fails :
      (clients : Map Text ANodeClient) (s : Sync D S)
      → HasUninitialised clients
      → HasFailed (round lib D contract T replies clients s).0.0
        × HasUninitialised (round lib D contract T replies clients s).0.1
  unfolding round
  round_fails [] s h = absurd h
  round_fails ((url, client) ∷ clients) s (inl e) =
      (inl (client_fails client s e), inl (client-id lib D contract T replies client s ∙ e))
  round_fails ((url, client) ∷ clients) s (inr h) =
      let (a, b) = round_fails clients _ h in (inr a, inr b)

  fails-is_complete :
      (results : List Processed)
      → HasFailed results
      → is_complete lib D contract T replies results ≡ false
  unfolding is_complete
  fails-is_complete [] h = absurd h
  fails-is_complete (r ∷ results) (inl e) = rw e refl
  fails-is_complete (r ∷ results) (inr h) = ground (arith, fails-is_complete results h)

  -- If a client in the map was never initialised and the table refuses an update without an id, then
  -- the loop ends in no number of rounds, whatever the other nodes reply.
  pub sync_rounds_stuck :
      (rounds : ℕ) (s : Sync D S)
      → HasUninitialised s.clients
      → (sync_rounds lib D contract T replies rounds s).0 ≡ unfinished
  unfolding sync_rounds
  sync_rounds_stuck zero s h = refl
  sync_rounds_stuck (suc rounds) s h =
      let (a, b) = round_fails s.clients s h in
      rw (fails-is_complete _ a) (sync_rounds_stuck rounds _ b)
