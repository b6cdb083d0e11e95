-- ===== src/Archive/Steps/Together.antt =====
-- Calls of handleBlock whose turns come in any order.
use push_anode.Prelude.{
  ℕ, zero, suc, ◌≡◌, subst, ◌⊎◌, inl, inr, List, [], ◌∷◌, none, some, Text, All, All-mono,
  Option-cases,
}
use push_anode.Wire.{Libraries}
use push_anode.Validator.Contract.{Contract}
use push_anode.Archive.Database.{BlockRow, Database, IsDatabase}
use push_anode.Archive.Rows.{hash_block_as_hex, block_row}
use push_anode.Archive.Blocks.{Node}
use push_anode.Archive.Blocks.Safety.{IsChecked}
use push_anode.Archive.Queue.Laws.{IsSafe, IsSafe-refl, IsSafe-trans}
use push_anode.Archive.Steps.{looking, Call, step_at, interleave}
use push_anode.Archive.Steps.Safe.{IsReady, step-Stepped, IsReady-Grows}

module _ (lib : Libraries) (D : Database) (law : IsDatabase D) (contract : Contract) where
  abbrev AllReady : D.Db → List Call → Type 0
  AllReady d calls = All (λ c. IsReady lib D law contract c.block c.raw d c.phase) calls

  -- The row is the block of one of the calls, whose signatures were checked, at the hash of its bytes.
  abbrev pub IsFrom : List Call → Text → BlockRow → Type 0
  IsFrom [] h row = ⊥
  IsFrom (c ∷ calls) h row =
      ((h ≡ hash_block_as_hex lib c.raw)
        × (row ≡ block_row lib c.block c.raw)
        × IsChecked lib D law contract c.block c.raw)
      ⊎ IsFrom calls h row

  abbrev pub AddsFrom : List Call → D.Db → D.Db → Type 0
  AddsFrom calls d d' =
      (h : Text) (row : BlockRow)
      → D.block_at d h ≡ none
      → D.block_at d' h ≡ some row
      → IsFrom calls h row

  abbrev SameCalls : List Call → List Call → Type 0
  SameCalls calls calls' = (h : Text) (row : BlockRow) → IsFrom calls' h row → IsFrom calls h row

  record IsTurn (calls : List Call) (d : D.Db) (calls' : List Call) (d' : D.Db) : Type 0 where
    ready : AllReady d' calls'
    safe : IsSafe D d d'
    adds : AddsFrom calls d d'
    same : SameCalls calls calls'

  ready_later :
      (d d' : D.Db) (calls : List Call) → IsSafe D d d' → AllReady d calls → AllReady d' calls
  ready_later d d' calls safe ready =
      All-mono _ _ (λ c. IsReady-Grows lib D law contract c.block c.raw d d' c.phase safe) calls
        ready

  IsTurn-refl : (calls : List Call) (d : D.Db) → AllReady d calls → IsTurn calls d calls d
  IsTurn-refl calls d ready = record {
    ready = ready;
    safe = IsSafe-refl D d;
    adds = λ h row free at_h. absurd (cc (free, at_h));
    same = λ h row from. from;
  }

  step_at-IsTurn :
      (i : ℕ) (calls : List Call) (node : Node D)
      → AllReady node.db calls
      → IsTurn calls node.db
          (step_at lib D contract i calls node).0
          (step_at lib D contract i calls node).1.db
  unfolding step_at
  step_at-IsTurn i [] node ready = IsTurn-refl [] node.db tt
  step_at-IsTurn zero (c ∷ calls) node (r, rs) =
      let s = step-Stepped lib D law contract c.block c.raw c.phase node r in
      record {
        ready = (s.0, ready_later node.db _ calls s.1.0 rs);
        safe = s.1.0;
        adds = λ h row free at_h. inl (s.1.1 h row free at_h);
        same = λ h row from. from;
      }
  step_at-IsTurn (suc i) (c ∷ calls) node (r, rs) =
      let turn = step_at-IsTurn i calls node rs in
      record {
        ready = (
          IsReady-Grows lib D law contract c.block c.raw node.db _ c.phase turn.safe r,
          turn.ready,
        );
        safe = turn.safe;
        adds = λ h row free at_h. inr (turn.adds h row free at_h);
        same = λ h row from. elim from [
          | inl here ↦ inl here
          | inr there ↦ inr (turn.same h row there)
        ];
      }

  IsTurn-trans :
      (calls calls' calls'' : List Call) (d d' d'' : D.Db)
      → IsTurn calls d calls' d'
      → IsTurn calls' d' calls'' d''
      → IsTurn calls d calls'' d''
  unfolding IsSafe
  IsTurn-trans calls calls' calls'' d d' d'' first second = record {
    ready = second.ready;
    safe = IsSafe-trans D d d' d'' first.safe second.safe;
    adds = λ h row free at_h. elim (Option-cases (D.block_at d' h)) [
      | inl still ↦ first.same h row (second.adds h row still at_h)
      | inr (old, at_old) ↦
          let is_old : old ≡ row = cc (second.safe.0.0 h old at_old, at_h) in
          subst (λ r. IsFrom calls h r) is_old (first.adds h old free at_old)
    ];
    same = λ h row from. first.same h row (second.same h row from);
  }

  interleave-IsTurn :
      (turns : List ℕ) (calls : List Call) (node : Node D)
      → AllReady node.db calls
      → IsTurn calls node.db
          (interleave lib D contract turns calls node).0
          (interleave lib D contract turns calls node).1.db
  unfolding interleave
  interleave-IsTurn [] calls node ready = IsTurn-refl calls node.db ready
  interleave-IsTurn (i ∷ turns) calls node ready =
      let first = step_at-IsTurn i calls node ready in
      IsTurn-trans calls _ _ node.db _ _ first (interleave-IsTurn turns _ _ first.ready)

  starts : (d : D.Db) (calls : List Call) → All (λ c. c.phase ≡ looking) calls → AllReady d calls
  unfolding IsReady
  starts d [] h = tt
  starts d (c ∷ calls) (e, es) = (rw e tt, starts d calls es)

  -- However many calls of handleBlock run at once and in whatever order their turns come, together
  -- they change and lose nothing that is stored, they keep every transaction linked to a stored
  -- block, and each block that they add is that of one of the calls, at the hash of its bytes, and
  -- has passed the signature check.
  pub interleave-IsSafe :
      (turns : List ℕ) (calls : List Call) (node : Node D)
      → All (λ c. c.phase ≡ looking) calls
      → IsSafe D node.db (interleave lib D contract turns calls node).1.db
        × AddsFrom calls node.db (interleave lib D contract turns calls node).1.db
  interleave-IsSafe turns calls node new =
      let all = interleave-IsTurn turns calls node (starts node.db calls new) in
      (all.safe, all.adds)
