-- ===== src/Archive/Sync/Ends.antt =====
-- The loop of the synchronisation ends once the other nodes have no more blocks.
use push_anode.Prelude.{
  ℕ, zero, suc, ◌+◌, ◌≤◌, ◌≡◌, refl, ◌∙◌, inl, inr, true, false, List, [], ◌∷◌, Option, some, Text,
  Result, ok, err, All, arith, Bool-cases,
}
use push_anode.Collections.Map.{Map}
use push_anode.Wire.{Failure, Libraries}
use push_anode.Validator.Contract.{Contract}
use push_anode.Archive.Database.{Database}
use push_anode.Archive.Sync.{
  Sync, Processed, nothing_to_do, complete, not_found, get_block_hash_validate_and_get_full_block,
  round, is_complete, sync_rounds,
}
use push_anode.Archive.Sync.Client.{
  SyncTable, ANodeClient, Replies, receive_hashes, push_anode_get_block_hash,
}

module _ (lib : Libraries) (D : Database) (contract : Contract) {S : Type 0} (T : SyncTable S)
    (replies : Replies) where
  client_calls :
      (client : ANodeClient) (s : Sync D S)
      → (get_block_hash_validate_and_get_full_block lib D contract T replies client s).1.calls
        ≡ suc s.calls
  unfolding get_block_hash_validate_and_get_full_block
  client_calls client s = refl

  round_calls :
      (clients : Map Text ANodeClient) (s : Sync D S)
      → s.calls ≤ (round lib D contract T replies clients s).1.calls
  unfolding round
  round_calls [] s = omega arith
  round_calls ((url, client) ∷ clients) s =
      let s1 = (get_block_hash_validate_and_get_full_block lib D contract T replies client s).1 in
      omega (arith, round_calls clients s1, client_calls client s)

  is_complete-All :
      (results : List Processed)
      → All (λ r. r ≡ nothing_to_do) results
      → is_complete lib D contract T replies results ≡ true
  unfolding is_complete
  is_complete-All [] h = refl
  is_complete-All (r ∷ results) (e, h) = rw e (is_complete-All results h)

  -- The client has been initialised from a record.
  abbrev pub HasId : Text × ANodeClient → Type 0
  HasId (url, client) = (id : ℕ) × (client.id ≡ some id)

  received-id :
      (r : Result Failure (List Text)) (c : ANodeClient) (table : S)
      → (receive_hashes T r c table).1.0.id ≡ c.id
  unfolding receive_hashes
  received-id (err e) c table = refl
  received-id (ok []) c table = refl
  received-id (ok (h ∷ hashes)) c table = refl

  pub client-id :
      (client : ANodeClient) (s : Sync D S)
      → (get_block_hash_validate_and_get_full_block lib D contract T replies client s).0.1.id
        ≡ client.id
  unfolding get_block_hash_validate_and_get_full_block push_anode_get_block_hash
  client-id client s = received-id _ client s.table

  round-HasId :
      (clients : Map Text ANodeClient) (s : Sync D S)
      → All HasId clients
      → All HasId (round lib D contract T replies clients s).0.1
  unfolding round
  round-HasId [] s h = tt
  round-HasId ((url, client) ∷ clients) s ((id, e), h) =
      ((id, client-id client s ∙ e), round-HasId clients _ h)

  module _ (last : ℕ)
      (quiet : (call : ℕ) (url : Text) (start offset : Option ℕ)
        → last ≤ call
        → replies.block_hashes call url start offset ≡ ok [])
      (writes : (table : S) (id : ℕ) → (t : S) × (T.update_state table (some id) 1 ≡ ok t)) where
    quiet_client :
        (client : ANodeClient) (id : ℕ) (s : Sync D S)
        → client.id ≡ some id
        → last ≤ s.calls
        → (get_block_hash_validate_and_get_full_block lib D contract T replies client s).0.0
          ≡ nothing_to_do
    unfolding get_block_hash_validate_and_get_full_block push_anode_get_block_hash receive_hashes
        not_found
    quiet_client client id s e h =
        rw
          (
            quiet s.calls client.node_url client.start_time client.offset h,
            e,
            (writes s.table id).1,
          )
          refl

    quiet_round :
        (clients : Map Text ANodeClient) (s : Sync D S)
        → All HasId clients
        → last ≤ s.calls
        → All (λ r. r ≡ nothing_to_do) (round lib D contract T replies clients s).0.0
    unfolding round
    quiet_round [] s ids h = tt
    quiet_round ((url, client) ∷ clients) s ((id, e), ids) h =
        let s1 = (get_block_hash_validate_and_get_full_block lib D contract T replies client s).1 in
        (
          quiet_client client id s e h,
          quiet_round clients s1 ids (omega (arith, h, client_calls client s)),
        )

    -- A round of requests that does not end the loop has made at least one.
    round_goes_on :
        (clients : Map Text ANodeClient) (s : Sync D S)
        → is_complete lib D contract T replies (round lib D contract T replies clients s).0.0
          ≡ false
        → suc s.calls ≤ (round lib D contract T replies clients s).1.calls
    unfolding round is_complete
    round_goes_on [] s e = absurd (cc e)
    round_goes_on ((url, client) ∷ clients) s e =
        let s1 = (get_block_hash_validate_and_get_full_block lib D contract T replies client s).1 in
        omega (arith, round_calls clients s1, client_calls client s)

    -- If every client was initialised, the other nodes have no hashes to give from some request on,
    -- and the table takes the state of a record, then the loop ends, and it ends as complete, within
    -- one round more than there are requests before that one.
    pub sync_rounds_ends :
        (rounds : ℕ) (s : Sync D S)
        → All HasId s.clients
        → last ≤ s.calls + rounds
        → (sync_rounds lib D contract T replies (suc rounds) s).0 ≡ complete
    unfolding sync_rounds
    sync_rounds_ends zero s ids h =
        rw (is_complete-All _ (quiet_round s.clients s ids (omega (arith, h)))) refl
    sync_rounds_ends (suc rounds) s ids h =
        elim (Bool-cases
          (is_complete lib D contract T replies (round lib D contract T replies s.clients s).0.0)) [
            | inl over ↦ rw over refl
            | inr goes_on ↦ rw goes_on (
                sync_rounds_ends rounds _ (round-HasId s.clients s ids)
                  (omega (arith, h, round_goes_on s.clients s goes_on)))
          ]
