-- ===== src/Sockets/Server/Reach.antt =====
-- The servers that the events of sockets and timers can lead to.
use push_anode.Prelude.{
  ℕ, ◌≡◌, inl, inr, refl, sym, subst, nat_beq_iff, Bool, true, false, List, [], ◌∷◌, Option, none,
  some, Text, Result, ok, err, Bool-cases, ◌==◌, nat_eq, text_eq, text_beq_iff, if◌then◌else◌, All,
  All-mono,
}
use push_anode.Collections.Map
use push_anode.Collections.Map.{Map}
use push_anode.Collections.Set
use push_anode.Wire.{Failure, Libraries}
use push_anode.Validator.Contract.{Contract, is_active_validator}
use push_anode.Sockets.Subscriptions.{
  BlockEvent, check_connections, update_last_pong, remove_subscriber, broadcast,
}
use push_anode.Sockets.Server.{
  Incoming, not_json, health_check, auth_response, subscribe, other, Server, authenticate,
  answer_auth, first_handler, second_handler, second_handlers, on_message, on_connection,
  on_timeout, on_close, on_application_shutdown, handle_new_connection, subscribe_node,
}
use push_anode.Sockets.Server.Laws.{on_message-IsProved}
use push_anode.Sockets.Server.Listens.{
  Listens, AllListen, Listens-append, AllListen-delete, AllListen-request, AllListen-monitor,
  AllListen-touched,
}

-- Every subscriber has a socket that authenticated as it.
unfoldable pub IsSound : Server → Type 0
IsSound server = AllListen server.listeners server.hub.subscribers

module _ (lib : Libraries) (contract : Contract) where
  answer_auth-subscribers :
      (r : Result Failure Text) (ws : ℕ) (address claimed : Text) (server : Server)
      → (answer_auth lib contract r ws address claimed server).hub.subscribers
        ≡ server.hub.subscribers
  unfolding handle_new_connection
  answer_auth-subscribers (err e) ws address claimed server = refl
  answer_auth-subscribers (ok a) ws address claimed server = refl

  first_handler-subscribers :
      (ws : ℕ) (address : Text) (message : Incoming) (server : Server)
      → (first_handler lib contract ws address message server).hub.subscribers
        ≡ server.hub.subscribers
  unfolding first_handler
  first_handler-subscribers ws address not_json server = refl
  first_handler-subscribers ws address (health_check t) server = refl
  first_handler-subscribers ws address (auth_response s c r) server =
      answer_auth-subscribers (authenticate lib contract server.nonce_map s c r) ws address c server
  first_handler-subscribers ws address (subscribe n es) server = refl
  first_handler-subscribers ws address other server = refl

  subscribe-AllListen :
      (ls : List (ℕ × Text)) (now ws : ℕ) (node_id : Text) (events : Option (List Text))
      (server : Server)
      → Listens ls ws node_id
      → AllListen ls server.hub.subscribers
      → AllListen ls (subscribe_node lib contract now ws node_id events server).hub.subscribers
  subscribe-AllListen ls now ws node_id none server here sound = sound
  subscribe-AllListen ls now ws node_id (some events) server here sound =
      elim (Bool-cases (is_active_validator contract node_id)) [
        | inl hit ↦ rw hit (AllListen-request ls now ws _ server.hub here sound)
        | inr miss ↦ rw miss sound
      ]

  second-AllListen :
      (ls : List (ℕ × Text)) (now ws : ℕ) (address : Text) (message : Incoming) (server : Server)
      → Listens ls ws address
      → AllListen ls server.hub.subscribers
      → AllListen ls (second_handler lib contract now ws address message server).hub.subscribers
  unfolding second_handler
  second-AllListen ls now ws address not_json server here sound = sound
  second-AllListen ls now ws address (health_check t) server here sound = sound
  second-AllListen ls now ws address (auth_response s c r) server here sound = sound
  second-AllListen ls now ws address other server here sound = sound
  second-AllListen ls now ws address (subscribe node_id events) server here sound =
      elim (Bool-cases (node_id == address)) [
        | inl hit ↦
            let same : address ≡ node_id = sym ((text_beq_iff node_id address).0 hit) in
            rw hit (
              subscribe-AllListen ls now ws node_id events server (subst (Listens ls ws) same here)
                sound)
        | inr miss ↦ rw miss sound
      ]

  each-AllListen :
      (ls : List (ℕ × Text)) (b : Bool) (now ws : ℕ) (address : Text) (message : Incoming)
      (server : Server)
      → (b ≡ true → Listens ls ws address)
      → AllListen ls server.hub.subscribers
      → AllListen ls
          (if b
            then second_handler lib contract now ws address message server
            else server).hub.subscribers
  each-AllListen ls true now ws address message server here sound =
      second-AllListen ls now ws address message server (here refl) sound
  each-AllListen ls false now ws address message server here sound = sound

  handlers-AllListen :
      (ls : List (ℕ × Text)) (now ws : ℕ) (message : Incoming) (some_of : List (ℕ × Text))
      (server : Server)
      → All (λ l. Listens ls l.0 l.1) some_of
      → AllListen ls server.hub.subscribers
      → AllListen ls (second_handlers lib contract now ws message some_of server).hub.subscribers
  unfolding second_handlers
  handlers-AllListen ls now ws message [] server there sound = sound
  handlers-AllListen ls now ws message ((s, a) ∷ more) server (here, there) sound =
      handlers-AllListen ls now ws message more _ there (
        each-AllListen ls (s == ws) now ws a message server
          (λ e. subst (λ x. Listens ls x a) ((nat_beq_iff s ws).0 e) here) sound)

  themselves : (ls : List (ℕ × Text)) → All (λ l. Listens ls l.0 l.1) ls
  themselves [] = tt
  themselves ((s, a) ∷ ls) = (inl (refl, refl), All-mono _ _ (λ l h. inr h) ls (themselves ls))

  IsSound-on_message :
      (now ws : ℕ) (address : Text) (message : Incoming) (server : Server)
      → IsSound server
      → IsSound (on_message lib contract now ws address message server)
  unfolding IsSound on_message
  IsSound-on_message now ws address message server sound =
      let old : AllListen server.listeners
          (on_message lib contract now ws address message server).hub.subscribers =
        handlers-AllListen server.listeners now ws message server.listeners _
          (themselves server.listeners)
          (subst (AllListen server.listeners)
            (sym (first_handler-subscribers ws address message server)) sound) in
      let subscribers = (on_message lib contract now ws address message server).hub.subscribers in
      elim (on_message-IsProved lib contract now ws address message server) [
        | inl same ↦ subst (λ ls. AllListen ls subscribers) (sym same) old
        | inr (sig, claimed, received, is, proof, more, gone) ↦
            subst (λ ls. AllListen ls subscribers) (sym more)
              (λ id info e.
                Listens-append server.listeners ((ws, claimed) ∷ []) info.ws id (old id info e))
      ]

  IsSound-if : (b : Bool) (x y : Server) → IsSound x → IsSound y → IsSound (if b then x else y)
  IsSound-if true x y hx hy = hx
  IsSound-if false x y hx hy = hy

  IsSound-on_timeout :
      (ws : ℕ) (address : Text) (s : Server) → IsSound s → IsSound (on_timeout ws address s)
  unfolding IsSound on_timeout
  IsSound-on_timeout ws address s sound =
      IsSound-if (Set.has s.timers ws) _ s
        (IsSound-if (Map.has s.nonce_map address) _ _ sound sound) sound

  -- One event: of a socket, of a timer, or a block that is sent to the subscribers.
  pub data Step : Server → Server → Type 0 where
    connected :
        (ws : ℕ) (address nonce : Text) (s : Server) → Step s (on_connection ws address nonce s)
    timeout : (ws : ℕ) (address : Text) (s : Server) → Step s (on_timeout ws address s)
    message :
        (now ws : ℕ) (address : Text) (m : Incoming) (s : Server)
        → Step s (on_message lib contract now ws address m s)
    closed : (address : Text) (s : Server) → Step s (on_close address s)
    gone :
        (node_id : Text) (s : Server) → Step s (record s { hub = remove_subscriber node_id s.hub })
    pong :
        (node_id : Text) (now : ℕ) (s : Server)
        → Step s (record s { hub = update_last_pong node_id now s.hub })
    monitored : (now : ℕ) (s : Server) → Step s (record s { hub = check_connections now s.hub })
    announced :
        (event : BlockEvent) (s : Server) → Step s (record s { hub = broadcast event s.hub })
    shut_down : (s : Server) → Step s (on_application_shutdown s)

  pub data Reach (start : Server) : Server → Type 0 where
    here : Reach start start
    then_step : (s s' : Server) → Reach start s → Step s s' → Reach start s'

  IsSound-Step : {s s' : Server} → Step s s' → IsSound s → IsSound s'
  unfolding IsSound on_connection on_close on_application_shutdown remove_subscriber
      update_last_pong check_connections broadcast
  IsSound-Step (connected ws address nonce s) sound = sound
  IsSound-Step (timeout ws address s) sound = IsSound-on_timeout ws address s sound
  IsSound-Step (message now ws address m s) sound = IsSound-on_message now ws address m s sound
  IsSound-Step (closed address s) sound = sound
  IsSound-Step (gone node_id s) sound = AllListen-delete s.listeners s.hub.subscribers node_id sound
  IsSound-Step (pong node_id now s) sound =
      AllListen-touched s.listeners s.hub.subscribers node_id now _ refl sound
  IsSound-Step (monitored now s) sound =
      AllListen-monitor s.listeners now s.hub.subscribers s.hub sound
  IsSound-Step (announced event s) sound = sound
  IsSound-Step (shut_down s) sound = sound

  -- In every server that events lead to from one where it holds, as where nobody subscribes, each
  -- subscriber has a socket that has authenticated as that subscriber.
  pub IsSound-Reach : {start s : Server} → Reach start s → IsSound start → IsSound s
  IsSound-Reach here sound = sound
  IsSound-Reach (then_step s s' before step) sound = IsSound-Step step (IsSound-Reach before sound)
