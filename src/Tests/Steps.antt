-- ===== src/Tests/Steps.antt =====
-- Calls of handleBlock that run at once, on tables in memory.
use push_anode.Prelude.{ℕ, ◌≡◌, refl, true, false, List, [], ◌∷◌, none, some, text_beq}
use push_anode.Collections.Set
use push_anode.Util.Hex.{Bytes, bytes_to_base16, hex_digit}
use push_anode.Validator.Signers.{
  check_block_as_snode, recover_signer_address, recover_validator, recover_attestor, check_signers,
  only_first_signer, only_attestation,
}
use push_anode.Archive.Rows.{hash_block_as_hex, get_transaction_hash, block_row, tx_row}
use push_anode.Archive.Blocks.{Node, create_block, create_txs, validate_block}
use push_anode.Archive.Queue.Laws.{IsSafe}
use push_anode.Archive.Steps.{looking, done, Call, prepare_next, step, step_at, interleave}
use push_anode.Archive.Steps.Together.{AddsFrom, interleave-IsSafe}
use push_anode.Tests.Codec.{libraries}
use push_anode.Tests.Signers.{attested_twice}
use push_anode.Tests.Tables.{taken, tables, tables-IsDatabase}
use push_anode.Tests.Archive.{contract, start, raw}

-- Two blocks that hold the same transaction, sent at once.
abbrev other_raw : Bytes
other_raw = 9 ∷ []

abbrev calls : List Call
calls =
    record { block = attested_twice; raw = raw; phase = looking }
    ∷ record { block = attested_twice; raw = other_raw; phase = looking }
    ∷ []

-- Both look for the transaction before either has written it.
abbrev turns : List ℕ
turns = 0 ∷ 1 ∷ 0 ∷ 1 ∷ 0 ∷ 1 ∷ 0 ∷ 1 ∷ 0 ∷ 1 ∷ 0 ∷ 1 ∷ 0 ∷ 1 ∷ []

abbrev together : List Call × Node tables
together = interleave libraries tables contract turns calls start

-- The second block is stored without its transaction, and its call fails.
race :
    (together.0
      ≡ record { block = attested_twice; raw = raw; phase = done true none }
        ∷ record { block = attested_twice; raw = other_raw; phase = done false (some taken) }
        ∷ [])
    × (tables.block_at together.1.db (hash_block_as_hex libraries other_raw)
        ≡ some (block_row libraries attested_twice other_raw))
unfolding tables libraries start interleave step_at step prepare_next create_block create_txs
    validate_block check_block_as_snode recover_signer_address recover_validator recover_attestor
    check_signers only_first_signer only_attestation Set.has text_beq hash_block_as_hex
    bytes_to_base16 hex_digit get_transaction_hash block_row tx_row
race = (refl, refl)

interleave-IsSafe_example :
    IsSafe tables start.db together.1.db
    × AddsFrom libraries tables tables-IsDatabase contract calls start.db together.1.db
interleave-IsSafe_example =
    interleave-IsSafe libraries tables tables-IsDatabase contract turns calls start
      (refl, (refl, tt))
