-- ===== src/Sockets/Subscriptions.antt =====
-- src/modules/websockets/subscriptionHandler.ts, eventBroadcaster.ts and the timers of
-- connectionManager.ts. A socket is a number, and time is an argument in milliseconds.
pub mod Delivery
use push_anode.Prelude.{
  ℕ, ◌+◌, ◌-◌, Bool, true, false, not, ◌&&◌, ◌||◌, List, [], ◌∷◌, ◌++◌, Option, none, some, Text,
  lit, ltb, ◌==◌, nat_eq, text_eq, all, if◌then◌else◌,
}
use push_anode.Collections.Map
use push_anode.Collections.Map.{Map}
use push_anode.Collections.Set
use push_anode.Collections.Set.{Set}

-- FilteredTxData
pub record FilteredTx : Type 0 where
  pub block_hash : Text
  pub tx_hash : Text
  pub category : Text
  pub from : Text
  pub recipients : List Text

-- BlockEvent, with its FilterBlockResponse
pub record BlockEvent : Type 0 where
  pub block_hash : Text
  pub txs : List FilteredTx

-- What the node sends, as JSON in the program.
pub data Message : Type 0 where
  block_event : BlockEvent → Message
  subscription_confirmed : List Text → ℕ → Message
  error_response : Text → ℕ → Message
  auth_challenge : Text → Message
  auth_success : Message
  health_check_response : ℕ → Message

-- SubscriberInfo
pub record SubscriberInfo : Type 0 where
  pub node_id : Text
  pub node_type : Text
  pub ws : ℕ
  pub subscriptions : Set Text
  pub connected_at : ℕ
  pub last_pong : Option ℕ

-- SubscriptionRequest
pub record SubscriptionRequest : Type 0 where
  pub node_id : Text
  pub node_type : Text
  pub events : List Text

-- The sockets that are open, and what was sent on each, the latest last.
pub record Network : Type 0 where
  pub is_open : ℕ → Bool
  pub sent : List (ℕ × Message)

-- ws.send: a socket that is not open drops the message, or throws, and the callers go on.
unfoldable pub send : ℕ → Message → Network → Network
send ws m net = if net.is_open ws then record net { sent = net.sent ++ ((ws, m) ∷ []) } else net

-- ws.close and ws.terminate
unfoldable pub close : ℕ → Network → Network
close ws net = record net { is_open = λ s. if s == ws then false else net.is_open s }

pub record Hub : Type 0 where
  pub subscribers : Map Text SubscriberInfo
  pub net : Network

-- `this.EVENT_TYPES[event]` is also defined for what a plain object inherits.
abbrev pub inherited : List Text
inherited =
    lit "constructor"
    ∷ lit "toString"
    ∷ lit "toLocaleString"
    ∷ lit "valueOf"
    ∷ lit "hasOwnProperty"
    ∷ lit "isPrototypeOf"
    ∷ lit "propertyIsEnumerable"
    ∷ lit "__proto__"
    ∷ lit "__defineGetter__"
    ∷ lit "__defineSetter__"
    ∷ lit "__lookupGetter__"
    ∷ lit "__lookupSetter__"
    ∷ []

unfoldable pub is_event_type : Text → Bool
is_event_type event = event == lit "BLOCK" || Set.has inherited event

-- isValidSubscription
unfoldable pub is_valid_subscription : SubscriptionRequest → Bool
is_valid_subscription request =
    request.node_type == lit "VALIDATOR" && all is_event_type request.events

-- handleSubscriptionRequest
unfoldable pub handle_subscription_request : ℕ → ℕ → SubscriptionRequest → Hub → Hub
handle_subscription_request now ws request hub =
    if not (is_valid_subscription request)
    then record hub {
      net = send ws (error_response (lit "Invalid subscription request") now) hub.net;
    }
    else record hub {
      subscribers = Map.set hub.subscribers request.node_id (record {
        node_id = request.node_id;
        node_type = request.node_type;
        ws = ws;
        subscriptions = Set.add_all [] request.events;
        connected_at = now;
        last_pong = none;
      });
      net = send ws (subscription_confirmed request.events now) hub.net;
    }

-- removeSubscriber
unfoldable pub remove_subscriber : Text → Hub → Hub
remove_subscriber node_id hub = record hub { subscribers = Map.delete hub.subscribers node_id }

abbrev pub touched :
    Map Text SubscriberInfo → Text → ℕ → Option SubscriberInfo → Map Text SubscriberInfo
touched subscribers node_id now none = subscribers
touched subscribers node_id now (some info) =
    Map.set subscribers node_id (record info { last_pong = some now })

-- updateLastPong, and the handler of a pong, which asks whether the node is subscribed first
unfoldable pub update_last_pong : Text → ℕ → Hub → Hub
update_last_pong node_id now hub = record hub {
  subscribers = touched hub.subscribers node_id now (Map.get hub.subscribers node_id);
}

-- findSubscriberByWebSocket
unfoldable pub find_subscriber_by_web_socket :
    ℕ → Map Text SubscriberInfo → Option (Text × SubscriberInfo)
find_subscriber_by_web_socket ws [] = none
find_subscriber_by_web_socket ws ((node_id, info) ∷ subscribers) =
    if info.ws == ws then some (node_id, info) else find_subscriber_by_web_socket ws subscribers

-- The loop of `broadcast`.
unfoldable pub send_to_all : BlockEvent → Map Text SubscriberInfo → Network → Network
send_to_all event [] net = net
send_to_all event ((node_id, info) ∷ subscribers) net =
    send_to_all event subscribers (
      if Set.has info.subscriptions (lit "BLOCK")
      then send info.ws (block_event event) net
      else net)

-- broadcast
unfoldable pub broadcast : BlockEvent → Hub → Hub
broadcast event hub = record hub { net = send_to_all event hub.subscribers hub.net }

abbrev pub connection_timeout : ℕ
connection_timeout = 65000

-- info.lastPong && now - info.lastPong > CONNECTION_TIMEOUT; a pong at time 0 counts as none
abbrev pub timed_out : ℕ → Option ℕ → Bool
timed_out now none = false
timed_out now (some last_pong) = not (last_pong == 0) && ltb (last_pong + connection_timeout) now

-- One round of startConnectionMonitoring: over the subscribers that were there when it began.
unfoldable pub monitor : ℕ → Map Text SubscriberInfo → Hub → Hub
monitor now [] hub = hub
monitor now ((node_id, info) ∷ subscribers) hub = monitor now subscribers (
    if timed_out now info.last_pong
    then remove_subscriber node_id (record hub { net = close info.ws hub.net })
    else hub)

unfoldable pub check_connections : ℕ → Hub → Hub
check_connections now hub = monitor now hub.subscribers hub
