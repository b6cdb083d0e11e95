-- ===== src/Validator/Contract/Status.antt =====
-- What a change of a node's status changes, and what not.
use push_anode.Prelude.{
  ℕ, ◌≡◌, refl, ◌∙◌, ap, ap₂, List, [], ◌∷◌, Option, none, some, Text, text_eq, ◌==◌, Bool-cases,
  inl, inr,
}
use push_anode.Collections.Map
use push_anode.Collections.Map.{Map}
use push_anode.Wire.{Block, Libraries}
use push_anode.Validator.Contract.Load.{ContractCalls, Event, status_changed, on_event, on_events}
use push_anode.Archive.Database.{Database}
use push_anode.Archive.Blocks.{check_result, validate_block}
use push_anode.Validator.Signers.{check_block_as_snode}
use push_anode.Validator.Contract.{NodeInfo, Contract, node_status_changed, change_in}

-- To replace a value keeps the keys and their order.
keys-set :
    (m : Map Text NodeInfo) (k : Text) (v w : NodeInfo)
    → Map.get m k ≡ some w
    → Map.keys (Map.set m k v) ≡ Map.keys m
unfolding Map.get Map.set
keys-set [] k v w e = cc
keys-set ((j, x) ∷ m) k v w e = elim (Bool-cases (j == k)) [
  | inl hit ↦ rw hit refl
  | inr miss ↦ rw miss (ap (λ l. j ∷ l) (keys-set m k v w (rw miss at e)))
]

-- The keys of the validators, and how many signatures a block needs.
abbrev Validators : Contract → Contract → Type 0
Validators c c' = (Map.keys c'.vnodes ≡ Map.keys c.vnodes) × (c'.val_per_block ≡ c.val_per_block)

changed-Validators :
    (v s a : Option NodeInfo) (node : Text) (status : ℕ) (c : Contract)
    → Map.get c.vnodes node ≡ v
    → Validators c (change_in v s a node status c)
changed-Validators (some ni) s a node status c e = (keys-set c.vnodes node _ ni e, refl)
changed-Validators none (some ni) a node status c e = (refl, refl)
changed-Validators none none (some ni) node status c e = (refl, refl)
changed-Validators none none none node status c e = (refl, refl)

status-Validators :
    (node : Text) (status : ℕ) (c : Contract) → Validators c (node_status_changed node status c)
unfolding node_status_changed
status-Validators node status c =
    changed-Validators (Map.get c.vnodes node) (Map.get c.snodes node) (Map.get c.anodes node) node
      status c refl

abbrev pub status_events : List (Text × ℕ) → List Event
status_events [] = []
status_events ((node, status) ∷ changes) = status_changed node status ∷ status_events changes

events-Validators :
    (calls : ContractCalls) (changes : List (Text × ℕ)) (c : Contract)
    → Validators c (on_events calls (status_events changes) c)
unfolding on_events on_event
events-Validators calls [] c = (refl, refl)
events-Validators calls ((node, status) ∷ changes) c =
    let first = status-Validators node status c in
    let rest = events-Validators calls changes (node_status_changed node status c) in
    (rest.0 ∙ first.0, rest.1 ∙ first.1)

-- Whatever status the contract gives to whatever nodes, also where it bans them, each block is
-- accepted or refused by its signatures as before.
pub validate_block-status_events :
    (lib : Libraries) (D : Database) (calls : ContractCalls) (changes : List (Text × ℕ))
    (c : Contract) (block : Block)
    → validate_block lib D (on_events calls (status_events changes) c) block
      ≡ validate_block lib D c block
unfolding validate_block
validate_block-status_events lib D calls changes c block =
    let (keys, per_block) = events-Validators calls changes c in
    ap₂ (λ k n. check_result lib D c (check_block_as_snode lib block k n)) keys per_block
