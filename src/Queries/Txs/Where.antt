-- ===== src/Queries/Txs/Where.antt =====
-- What buildWhereClause asks for.
use push_anode.Prelude.{
  ℕ, ◌≤◌, ◌≡◌, ◌↔◌, ◌⊎◌, refl, sym, subst, Bool, true, false, ◌&&◌, ◌||◌, List, [], ◌∷◌, Option,
  none, some, Text, lit, text_eq, text_beq_iff, ◌==◌, any, arith, leb_iff, inl, inr, &&_iff, ||_iff,
  if◌then◌else◌,
}
use push_anode.Util.Str.{is_empty}
use push_anode.Archive.Database.{TxRow}
use push_anode.Queries.Order.{asc, desc, order_by_direction, from_start}
use push_anode.Queries.Txs.{build_where_clause, matches, if_given, when_given, has_recipient}

-- The row is on the side of the start that the direction asks for.
abbrev pub IsFrom : Bool → ℕ → ℕ → Type 0
IsFrom true start_time ts = start_time ≤ ts
IsFrom false start_time ts = ts ≤ start_time

abbrev pub Among : Text → List Text → Type 0
Among a [] = ⊥
Among a (x ∷ xs) = (x ≡ a) ⊎ Among a xs

-- What an argument asks for; undefined and the empty text ask for nothing.
abbrev pub Asks : Option Text → (Text → Type 0) → Type 0
Asks none P = Unit
Asks (some []) P = Unit
Asks (some (c ∷ s)) P = P (c ∷ s)

from_start_iff :
    (is_asc : Bool) (start_time ts : ℕ)
    → (from_start (if is_asc then asc else desc) start_time ts ≡ true) ↔ IsFrom is_asc start_time ts
unfolding from_start
from_start_iff true start_time ts = leb_iff start_time ts
from_start_iff false start_time ts = leb_iff ts start_time

any_iff-Among : (a : Text) (xs : List Text) → (any (λ r. r == a) xs ≡ true) ↔ Among a xs
any_iff-Among a [] = (λ e. cc e, λ e. absurd e)
any_iff-Among a (x ∷ xs) =
    let first = text_beq_iff x a in
    let rest = any_iff-Among a xs in
    let either = ||_iff (x == a) (any (λ r. r == a) xs) in
    (
      λ e. elim (either.0 e) [ inl h ↦ inl (first.0 h) | inr h ↦ inr (rest.0 h) ],
      λ h. either.1 (elim h [ inl e ↦ inl (first.1 e) | inr e ↦ inr (rest.1 e) ]),
    )

not_empty : (c : ℕ) (s : Text) → is_empty (some (c ∷ s)) ≡ false
unfolding is_empty
not_empty c s = ground arith

user_iff :
    (tx : TxRow) (u : Text)
    → ((tx.sender == u || has_recipient tx u) ≡ true) ↔ ((tx.sender ≡ u) ⊎ Among u tx.recipients)
user_iff tx u =
    let is_sender = text_beq_iff tx.sender u in
    let is_recipient = any_iff-Among u tx.recipients in
    let either = ||_iff (tx.sender == u) (has_recipient tx u) in
    (
      λ e. elim (either.0 e) [ inl h ↦ inl (is_sender.0 h) | inr h ↦ inr (is_recipient.0 h) ],
      λ h. either.1 (elim h [ inl e ↦ inl (is_sender.1 e) | inr e ↦ inr (is_recipient.1 e) ]),
    )

both_iff : {a b : Bool} {P Q : Type 0} → (a ≡ true) ↔ P → (b ≡ true) ↔ Q → (a && b ≡ true) ↔ (P × Q)
both_iff {a} {b} p q =
    let both = &&_iff a b in
    (λ e. let (x, y) = both.0 e in (p.0 x, q.0 y), λ (x, y). both.1 (p.1 x, q.1 y))

asks_iff :
    (value : Option Text) (test : Text → Bool) (P : Text → Type 0)
    → ((a : Text) → (test a ≡ true) ↔ P a)
    → (if_given (when_given value) test ≡ true) ↔ Asks value P
unfolding is_empty
asks_iff none test P h = (λ e. tt, λ e. refl)
asks_iff (some []) test P h = (λ e. tt, λ e. refl)
asks_iff (some (c ∷ s)) test P h =
    subst (λ b. (if_given (if b then none else some (c ∷ s)) test ≡ true) ↔ P (c ∷ s))
      (sym (not_empty c s)) (h (c ∷ s))

-- A row matches what a query builds when it is on the asked side of the start and each argument
-- that is given holds: the category and the sender are those, the recipient is among the recipients,
-- and the user is the sender or among the recipients.
pub matches-build_where_clause_iff :
    (start_time : ℕ) (direction : Text) (category recipient sender user : Option Text) (tx : TxRow)
    → (matches (build_where_clause start_time direction category recipient sender user) tx ≡ true)
      ↔ (IsFrom (direction == lit "ASC") start_time tx.ts
          × (Asks category (λ c. tx.category ≡ c)
              × (Asks recipient (λ r. Among r tx.recipients)
                  × (Asks sender (λ s. tx.sender ≡ s)
                      × Asks user (λ u. (tx.sender ≡ u) ⊎ Among u tx.recipients)))))
unfolding matches build_where_clause order_by_direction
matches-build_where_clause_iff start_time direction category recipient sender user tx =
    let of_time = from_start_iff (direction == lit "ASC") start_time tx.ts in
    let of_category = asks_iff category (λ c. tx.category == c) _ (text_beq_iff tx.category) in
    let of_recipient =
      asks_iff recipient (has_recipient tx) _ (λ r. any_iff-Among r tx.recipients) in
    let of_sender = asks_iff sender (λ s. tx.sender == s) _ (text_beq_iff tx.sender) in
    let of_user = asks_iff user (λ u. tx.sender == u || has_recipient tx u) _ (user_iff tx) in
    both_iff of_time (both_iff of_category (both_iff of_recipient (both_iff of_sender of_user)))
