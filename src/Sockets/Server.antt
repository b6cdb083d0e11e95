-- ===== src/Sockets/Server.antt =====
-- src/modules/websockets/websockerServer.ts and errorHandler.ts: a new socket gets a challenge, and
-- an answer that a registered validator signed lets the socket subscribe. One event is one step;
-- messages whose fields have other types than the protocol's are left out.
pub mod Laws
pub mod Listens
pub mod Reach
use push_anode.Prelude.{
  ℕ, Bool, true, false, not, ◌&&◌, ◌||◌, List, [], ◌∷◌, ◌++◌, Option, none, some, Text, lit, Result,
  ok, err, ◌>>=◌, ◌>>◌, guard, ◌==◌, nat_eq, text_eq, if◌then◌else◌,
}
use push_anode.Collections.Map
use push_anode.Collections.Map.{Map}
use push_anode.Collections.Set
use push_anode.Collections.Set.{Set}
use push_anode.Util.Hex.{Bytes, HexError, base16_to_bytes}
use push_anode.Util.Str.{to_lower_case}
use push_anode.Wire.{Failure, type_error, thrown, Libraries}
use push_anode.Validator.Contract.{Contract, is_active_validator}
use push_anode.Sockets.Subscriptions.{
  Message, auth_challenge, auth_success, health_check_response, error_response, SubscriptionRequest,
  SubscriberInfo, Network, Hub, send, close, handle_subscription_request, remove_subscriber,
}

-- A message of a client: `subscribe` has its events if the fields nodeType and events are there.
pub data Incoming : Type 0 where
  not_json : Incoming
  health_check : ℕ → Incoming
  auth_response : Text → Text → Text → Incoming
  subscribe : Text → Option (List Text) → Incoming
  other : Incoming

-- ArchiveNodeWebSocketServer and ConnectionManager: the nonces, the sockets whose timeout is
-- pending, the connections, and for each authenticated socket the address of its second handler.
pub record Server : Type 0 where
  pub nonce_map : Map Text Text
  pub timers : List ℕ
  pub connections : Map Text ℕ
  pub listeners : List (ℕ × Text)
  pub hub : Hub

abbrev pub without : ℕ → List ℕ → List ℕ
without ws [] = []
without ws (t ∷ timers) = let rest = without ws timers in if t == ws then rest else t ∷ rest

abbrev pub tell : ℕ → Message → Server → Server
tell ws message server = record server {
  hub = record server.hub { net = send ws message server.hub.net };
}

abbrev pub hang_up : ℕ → Server → Server
hang_up ws server = record server { hub = record server.hub { net = close ws server.hub.net } }

-- clearTimeout, and the nonce that is forgotten
abbrev pub forget : ℕ → Text → Server → Server
forget ws address server = record server {
  nonce_map = Map.delete server.nonce_map address;
  timers = without ws server.timers;
}

-- The handler of 'connection': `address` is the header validator-address.
unfoldable pub on_connection : ℕ → Text → Text → Server → Server
on_connection ws address nonce server = tell ws (auth_challenge nonce) (record server {
  nonce_map = Map.set server.nonce_map address nonce;
  timers = ws ∷ server.timers;
})

-- The timeout of a socket, which runs if it was not cleared.
unfoldable pub on_timeout : ℕ → Text → Server → Server
on_timeout ws address server =
    if Set.has server.timers ws
    then (if Map.has server.nonce_map address
        then hang_up ws (forget ws address server)
        else record server { timers = without ws server.timers })
    else server

abbrev pub hex_bytes : Result HexError Bytes → Result Failure Bytes
hex_bytes (ok bytes) = ok bytes
hex_bytes (err e) = err (thrown (lit "hex string contains invalid chars"))

abbrev pub checked_nonce : Option Text → Text → Result Failure Text
checked_nonce none received = err (thrown (lit "Invalid nonce"))
checked_nonce (some stored) received =
    if not (stored == []) && stored == received
    then ok stored
    else err (thrown (lit "Invalid nonce"))

-- handleNewConnection: a second handler of messages for the socket
unfoldable pub handle_new_connection : ℕ → Text → Server → Server
handle_new_connection ws address server = record server {
  connections = Map.set server.connections address ws;
  listeners = server.listeners ++ ((ws, address) ∷ []);
}

module _ (lib : Libraries) (contract : Contract) where
  -- The checks of an AUTH_RESPONSE: the address that signed the nonce.
  unfoldable pub authenticate : Map Text Text → Text → Text → Text → Result Failure Text
  authenticate nonce_map signature claimed received = do
    stored ← checked_nonce (Map.get nonce_map claimed) received
    message ← hex_bytes (base16_to_bytes stored)
    sig ← hex_bytes (base16_to_bytes signature)
    recovered ← lib.recover_address message sig
    guard (to_lower_case recovered == to_lower_case claimed)
        (thrown (lit "Signature verification failed"))
    guard (is_active_validator contract recovered) (thrown (lit "Not an active validator"))
    ok recovered

  -- The `catch` of the first handler.
  abbrev pub refuse : ℕ → Text → Server → Server
  refuse ws address server = forget ws address (hang_up ws server)

  abbrev pub answer_auth : Result Failure Text → ℕ → Text → Text → Server → Server
  answer_auth (err e) ws address claimed server = refuse ws address server
  answer_auth (ok recovered) ws address claimed server =
      tell ws auth_success (handle_new_connection ws claimed (forget ws claimed server))

  -- The first handler of messages, in one step: that another message of the socket comes between its
  -- awaits is left out.
  unfoldable pub first_handler : ℕ → Text → Incoming → Server → Server
  first_handler ws address not_json server = refuse ws address server
  first_handler ws address (health_check timestamp) server =
      forget ws address (hang_up ws (tell ws (health_check_response timestamp) server))
  first_handler ws address (auth_response signature claimed received) server =
      answer_auth (authenticate server.nonce_map signature claimed received) ws address claimed
        server
  first_handler ws address (subscribe node_id events) server = server
  first_handler ws address other server = server

  -- handleMessage of a SUBSCRIBE, with the `catch` of its caller
  abbrev pub subscribe_node : ℕ → ℕ → Text → Option (List Text) → Server → Server
  subscribe_node now ws node_id none server =
      tell ws (error_response (lit "Invalid subscription request format") now) server
  subscribe_node now ws node_id (some events) server =
      if is_active_validator contract node_id
      then record server {
        hub =
            handle_subscription_request now ws
              (record { node_id = node_id; node_type = lit "VALIDATOR"; events = events })
              server.hub;
      }
      else tell ws (error_response (lit "Connection error occurred") now) server

  -- The second handler, of a socket that has authenticated as `address`.
  unfoldable pub second_handler : ℕ → ℕ → Text → Incoming → Server → Server
  second_handler now ws address not_json server =
      tell ws (error_response (lit "Connection error occurred") now) server
  second_handler now ws address (subscribe node_id events) server =
      if node_id == address then subscribe_node now ws node_id events server else hang_up ws server
  second_handler now ws address (health_check timestamp) server =
      tell ws (error_response (lit "Unknown message type") now) server
  second_handler now ws address (auth_response signature claimed received) server =
      tell ws (error_response (lit "Unknown message type") now) server
  second_handler now ws address other server =
      tell ws (error_response (lit "Unknown message type") now) server

  -- The second handlers of the socket that there were before this message.
  unfoldable pub second_handlers : ℕ → ℕ → Incoming → List (ℕ × Text) → Server → Server
  second_handlers now ws message [] server = server
  second_handlers now ws message ((s, address) ∷ listeners) server =
      second_handlers now ws message listeners
        (if s == ws then second_handler now ws address message server else server)

  -- A message of a socket.
  unfoldable pub on_message : ℕ → ℕ → Text → Incoming → Server → Server
  on_message now ws address message server =
      second_handlers now ws message server.listeners (first_handler ws address message server)

-- The handler of 'close': removeConnection
unfoldable pub on_close : Text → Server → Server
on_close address server = record server { connections = Map.delete server.connections address }

abbrev pub close_all : Map Text SubscriberInfo → Network → Network
close_all [] net = net
close_all ((node_id, info) ∷ subscribers) net = close_all subscribers (close info.ws net)

-- onApplicationShutdown
unfoldable pub on_application_shutdown : Server → Server
on_application_shutdown server = record server {
  hub = record server.hub { net = close_all server.hub.subscribers server.hub.net };
}
