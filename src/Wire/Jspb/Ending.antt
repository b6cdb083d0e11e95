-- ===== src/Wire/Jspb/Ending.antt =====
-- The loop over the fields of a message ends: each round takes a byte at least.
use push_anode.Prelude.{
  ℕ, zero, suc, ◌≤◌, ◌<◌, ◌≡◌, refl, Bool, true, false, Text, Result, ok, err, Result-cases,
  Bool-cases, inl, inr, arith, if◌then◌else◌,
}
use push_anode.Collections.Map.{Map}
use push_anode.Wire.{Failure}
use push_anode.Wire.Jspb.{Jspb}
use push_anode.Wire.Jspb.Reading.{Switch, read_fields, read_all, read_into, skip}

module _ (J : Jspb) where
  -- A result whose reader has at most so many bytes left.
  abbrev pub Below : {A : Type 0} → ℕ → Result Failure (A × J.Reader) → Type 0
  Below {A} k x = (a : A) (r : J.Reader) → x ≡ ok (a, r) → J.left r ≤ k

  -- The methods of a reader never go back, and nextField goes on if there is a field.
  pub record IsForward : Type 1 where
    pub next_field-left : (r r' : J.Reader) → J.next_field r ≡ ok (true, r') → J.left r' < J.left r
    pub read_uint32-left : (r : J.Reader) → Below (J.left r) (J.read_uint32 r)
    pub read_uint64-left : (r : J.Reader) → Below (J.left r) (J.read_uint64 r)
    pub read_enum-left : (r : J.Reader) → Below (J.left r) (J.read_enum r)
    pub read_string-left : (r : J.Reader) → Below (J.left r) (J.read_string r)
    pub read_bytes-left : (r : J.Reader) → Below (J.left r) (J.read_bytes r)
    pub read_message-left :
        {A : Type 0} (a : A) (read : A → J.Reader → Result Failure (A × J.Reader)) (r : J.Reader)
        → Below (J.left r) (J.read_message a read r)
    pub read_entry-left : (m : Map Text Text) (r : J.Reader) → Below (J.left r) (J.read_entry m r)
    pub skip_field-left : (r r' : J.Reader) → J.skip_field r ≡ ok r' → J.left r' ≤ J.left r

  module _ {A : Type 0} where
    pub if-Below :
        (b : Bool) (k : ℕ) (x y : Result Failure (A × J.Reader))
        → Below k x
        → Below k y
        → Below k (if b then x else y)
    if-Below true k x y hx hy = hx
    if-Below false k x y hx hy = hy

    pub into-Below :
        {V : Type 0} (k : ℕ) (got : Result Failure (V × J.Reader)) (set : V → A)
        → Below k got
        → Below k (read_into J got set)
    into-Below k (err e) set h a r is = cc
    into-Below k (ok (v, s)) set h a r is = let same : s ≡ r = cc is in rw (← same) (h v s refl)

    pub skip-Below : (C : IsForward) (msg : A) (r : J.Reader) → Below (J.left r) (skip J msg r)
    skip-Below C msg r a s is = elim (Result-cases (J.skip_field r)) [
      | inl (r', e) ↦ let same : r' ≡ s = cc (rw e at is) in rw (← same) (C.skip_field-left r r' e)
      | inr (x, e) ↦ absurd (cc (rw e at is))
    ]

    -- What a switch reads.
    abbrev pub Shrinks : Switch J A → Type 0
    Shrinks switch = (n : ℕ) (msg : A) (r : J.Reader) → Below (J.left r) (switch n msg r)

    read_fields-enough :
        (C : IsForward) (switch : Switch J A)
        → Shrinks switch
        → (m k : ℕ) (msg : A) (r : J.Reader) → J.left r < m
        → J.left r < k
        → read_fields J switch m msg r ≡ read_fields J switch k msg r
    unfolding read_fields
    read_fields-enough C switch shrinks zero k msg r lm lk = absurd (omega arith)
    read_fields-enough C switch shrinks (suc m) zero msg r lm lk = absurd (omega arith)
    read_fields-enough C switch shrinks (suc m) (suc k) msg r lm lk =
        elim (Result-cases (J.next_field r)) [
          | inr (x, e) ↦ rw e refl
          | inl ((false, r1), e) ↦ rw e refl
          | inl ((true, r1), e) ↦ elim (Bool-cases (J.is_end_group r1)) [
            | inl ends ↦ rw (e, ends) refl
            | inr goes_on ↦ elim (Result-cases (switch (J.get_field_number r1) msg r1)) [
              | inr (x, e1) ↦ rw (e, goes_on, e1) refl
              | inl ((msg', r2), e1) ↦
                  let less = C.next_field-left r r1 e in
                  let no_more = shrinks (J.get_field_number r1) msg r1 msg' r2 e1 in
                  rw (e, goes_on, e1)
                    (read_fields-enough C switch shrinks m k msg' r2 (omega arith) (omega arith))
            ]
          ]
        ]

    -- More rounds than there are bytes change nothing.
    abbrev pub Ends : Switch J A → Type 0
    Ends switch =
        (more : ℕ) (msg : A) (r : J.Reader)
        → J.left r < more
        → read_fields J switch more msg r ≡ read_all J switch msg r

    pub read_all-Ends : IsForward → (switch : Switch J A) → Shrinks switch → Ends switch
    unfolding read_all
    read_all-Ends C switch shrinks more msg r lt =
        read_fields-enough C switch shrinks more (suc (J.left r)) msg r lt (omega arith)
