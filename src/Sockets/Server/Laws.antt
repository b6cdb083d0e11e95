-- ===== src/Sockets/Server/Laws.antt =====
-- Who can listen and subscribe.
use push_anode.Prelude.{
  ℕ, ◌≡◌, ◌⊎◌, inl, inr, refl, sym, ◌∙◌, ap, Bool, true, false, not, ◌&&◌, List, [], ◌∷◌, ◌++◌,
  Option, none, some, Text, lit, Result, ok, err, >>=-eq-ok, Bool-cases, &&_iff, arith, ◌==◌,
  nat_eq, text_eq, text_beq_iff, if◌then◌else◌, guard,
}
use push_anode.Collections.Map
use push_anode.Collections.Map.{Map}
use push_anode.Util.Hex.{Bytes, HexError, base16_to_bytes}
use push_anode.Util.Str.{to_lower_case}
use push_anode.Wire.{Failure, thrown, Libraries}
use push_anode.Validator.Contract.{Contract, is_active_validator}
use push_anode.Sockets.Server.{
  Incoming, not_json, health_check, auth_response, subscribe, other, Server, hex_bytes,
  checked_nonce, authenticate, answer_auth, first_handler, second_handler, second_handlers,
  on_message, handle_new_connection, subscribe_node,
}

hex_ok : (r : Result HexError Bytes) {bytes : Bytes} → hex_bytes r ≡ ok bytes → r ≡ ok bytes
hex_ok (ok b) e = cc e
hex_ok (err x) e = absurd (cc e)

nonce_ok :
    (o : Option Text) (received : Text) {stored : Text}
    → checked_nonce o received ≡ ok stored
    → (o ≡ some received) × (stored ≡ received)
nonce_ok none received e = absurd (cc e)
nonce_ok (some s) received {stored} e = elim (Bool-cases (not (s == []) && s == received)) [
  | inl hit ↦
      let same : s ≡ received = (text_beq_iff s received).0 ((&&_iff _ _).0 hit).1 in
      let is : s ≡ stored = cc (rw hit at e) in (ap some same, sym is ∙ same)
  | inr miss ↦ absurd (cc (rw miss at e))
]

guard_ok : (b : Bool) (x : Failure) {u : Unit {0}} → guard b x ≡ ok u → b ≡ true
guard_ok true x e = refl
guard_ok false x e = absurd (cc e)

module _ (lib : Libraries) (contract : Contract) where
  -- An active validator signed the nonce that this claim was given.
  abbrev pub IsProved : Map Text Text → Text → Text → Text → Type 0
  IsProved nonce_map signature claimed received =
      (message : Bytes) × (sig : Bytes) × (recovered : Text) × (Map.get nonce_map claimed
        ≡ some received)
      × (base16_to_bytes received ≡ ok message)
      × (base16_to_bytes signature ≡ ok sig)
      × (lib.recover_address message sig ≡ ok recovered)
      × (to_lower_case recovered ≡ to_lower_case claimed)
      × (is_active_validator contract recovered ≡ true)

  proved :
      (nonce_map : Map Text Text) (signature claimed received : Text) {a : Text}
      → authenticate lib contract nonce_map signature claimed received ≡ ok a
      → IsProved nonce_map signature claimed received
  unfolding authenticate
  proved nonce_map signature claimed received {a} e =
      let (stored, p, e1) = >>=-eq-ok (checked_nonce (Map.get nonce_map claimed) received) _ e in
      let (message, q, e2) = >>=-eq-ok (hex_bytes (base16_to_bytes stored)) _ e1 in
      let (sig, r, e3) = >>=-eq-ok (hex_bytes (base16_to_bytes signature)) _ e2 in
      let (recovered, s, e4) = >>=-eq-ok (lib.recover_address message sig) _ e3 in
      let (u, same, e5) =
        >>=-eq-ok
          (guard (to_lower_case recovered == to_lower_case claimed)
            (thrown (lit "Signature verification failed")))
          _ e4 in
      let (v, active, e6) =
        >>=-eq-ok
          (guard (is_active_validator contract recovered) (thrown (lit "Not an active validator")))
          _ e5 in
      let (known, stored_is) = nonce_ok (Map.get nonce_map claimed) received p in
      (
        message,
        sig,
        recovered,
        known,
        hex_ok _ (rw stored_is at q),
        hex_ok _ r,
        s,
        (text_beq_iff _ _).0 (guard_ok _ _ same),
        guard_ok _ _ active,
      )

  abbrev Same : Server → Server → Type 0
  Same s s' = (s'.listeners ≡ s.listeners) × (s'.nonce_map ≡ s.nonce_map)

  pub second-Same :
      (now ws : ℕ) (address : Text) (message : Incoming) (server : Server)
      → Same server (second_handler lib contract now ws address message server)
  unfolding second_handler
  second-Same now ws address not_json server = (refl, refl)
  second-Same now ws address (health_check t) server = (refl, refl)
  second-Same now ws address (auth_response s c r) server = (refl, refl)
  second-Same now ws address other server = (refl, refl)
  second-Same now ws address (subscribe node_id events) server =
      elim (Bool-cases (node_id == address)) [
        | inr miss ↦ rw miss (refl, refl)
        | inl hit ↦ rw hit (subscribe-Same now ws node_id events server)
      ]
    where
      subscribe-Same :
          (now ws : ℕ) (node_id : Text) (events : Option (List Text)) (server : Server)
          → Same server (subscribe_node lib contract now ws node_id events server)
      subscribe-Same now ws node_id none server = (refl, refl)
      subscribe-Same now ws node_id (some es) server =
          elim (Bool-cases (is_active_validator contract node_id)) [
            | inl hit ↦ rw hit (refl, refl)
            | inr miss ↦ rw miss (refl, refl)
          ]

  if_Same :
      (b : Bool) (now ws : ℕ) (address : Text) (message : Incoming) (server : Server)
      → Same server
          (if b then second_handler lib contract now ws address message server else server)
  if_Same true now ws address message server = second-Same now ws address message server
  if_Same false now ws address message server = (refl, refl)

  pub handlers-Same :
      (now ws : ℕ) (message : Incoming) (listeners : List (ℕ × Text)) (server : Server)
      → Same server (second_handlers lib contract now ws message listeners server)
  unfolding second_handlers
  handlers-Same now ws message [] server = (refl, refl)
  handlers-Same now ws message ((s, address) ∷ ls) server =
      let (p, q) = if_Same (s == ws) now ws address message server in
      let (p', q') =
        handlers-Same now ws message ls
          (if s == ws then second_handler lib contract now ws address message server else server) in
      (p' ∙ p, q' ∙ q)

  abbrev pub Listening : Server → ℕ → Incoming → Server → Type 0
  Listening server ws message server' =
      (server'.listeners ≡ server.listeners)
      ⊎ ((signature : Text) × (claimed : Text) × (received : Text) × (message
            ≡ auth_response signature claimed received)
          × IsProved server.nonce_map signature claimed received
          × (server'.listeners ≡ server.listeners ++ ((ws, claimed) ∷ []))
          × (Map.get server'.nonce_map claimed ≡ none))

  used_up : (m : Map Text Text) (claimed : Text) → Map.get (Map.delete m claimed) claimed ≡ none
  used_up m claimed = ground (arith, Map.get-delete m claimed claimed, text_beq_iff claimed claimed)

  auth_cases :
      (now ws : ℕ) (address signature claimed received : Text) (server : Server)
      (r : Result Failure Text)
      → authenticate lib contract server.nonce_map signature claimed received ≡ r
      → Listening server ws (auth_response signature claimed received) (
          second_handlers lib contract now ws
            (auth_response signature claimed received)
            server.listeners
            (answer_auth lib contract r ws address claimed server))
  unfolding handle_new_connection
  auth_cases now ws address signature claimed received server (err e) p =
      inl (handlers-Same now ws (auth_response signature claimed received) server.listeners _).0
  auth_cases now ws address signature claimed received server (ok a) p =
      let (same, nonces) =
        handlers-Same now ws (auth_response signature claimed received) server.listeners
          (answer_auth lib contract (ok a) ws address claimed server) in
      inr (
        signature,
        claimed,
        received,
        refl,
        proved server.nonce_map signature claimed received p,
        same,
        ap (λ m. Map.get m claimed) nonces ∙ used_up server.nonce_map claimed,
      )

  -- A message lets its socket listen as a new address only if it is an AUTH_RESPONSE that an active
  -- validator with that address, up to case, signed for the nonce that the server keeps for it; the
  -- nonce is then used up. Any other message leaves the listeners as they are.
  pub on_message-IsProved :
      (now ws : ℕ) (address : Text) (message : Incoming) (server : Server)
      → Listening server ws message (on_message lib contract now ws address message server)
  unfolding on_message first_handler
  on_message-IsProved now ws address not_json server =
      inl (handlers-Same now ws not_json server.listeners _).0
  on_message-IsProved now ws address (health_check t) server =
      inl (handlers-Same now ws (health_check t) server.listeners _).0
  on_message-IsProved now ws address (subscribe n es) server =
      inl (handlers-Same now ws (subscribe n es) server.listeners _).0
  on_message-IsProved now ws address other server =
      inl (handlers-Same now ws other server.listeners _).0
  on_message-IsProved now ws address (auth_response signature claimed received) server =
      auth_cases now ws address signature claimed received server _ refl
