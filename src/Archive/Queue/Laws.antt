-- ===== src/Archive/Queue/Laws.antt =====
-- The changes of the database that are safe.
use push_anode.Prelude.{text_eq}
use push_anode.Archive.Database.{Database}
use push_anode.Archive.Blocks.Safety.{Grows}
use push_anode.Archive.Blocks.Linked.{IsLinked}

module _ (D : Database) where
  -- Nothing is changed or lost, and transactions stay linked to blocks.
  unfoldable pub IsSafe : D.Db → D.Db → Type 0
  IsSafe d d' = Grows D d d' × (IsLinked D d → IsLinked D d')

  pub IsSafe-refl : (d : D.Db) → IsSafe d d
  unfolding IsSafe
  IsSafe-refl d = ((λ h row e. e, λ h row e. e), λ l. l)

  pub IsSafe-trans : (a b c : D.Db) → IsSafe a b → IsSafe b c → IsSafe a c
  unfolding IsSafe
  IsSafe-trans a b c ((p, q), l) ((p', q'), l') =
      ((λ h row e. p' h row (p h row e), λ h row e. q' h row (q h row e)), λ x. l' (l x))
