-- ===== src/Tests/Sockets.antt =====
-- A broadcast to three subscribers, and a socket that authenticates.
use push_anode.Prelude.{refl, text_beq, ℕ, ◌≡◌, ◌==◌, nat_eq, not, List, [], ◌∷◌, none, Text, lit}
use push_anode.Sockets.Subscriptions.{BlockEvent, Hub, SubscriberInfo, broadcast}
use push_anode.Sockets.Subscriptions.Delivery.{delivered, broadcast_lem}
use push_anode.Collections.Map
use push_anode.Util.Hex.{base16_to_bytes, pad_even, decode_hex, ascii_to_base16}
use push_anode.Util.Str.{to_lower_case}
use push_anode.Validator.Contract.{is_active_validator}
use push_anode.Sockets.Server.{
  Incoming, auth_response, Server, on_message, second_handlers, first_handler, authenticate,
  handle_new_connection,
}
use push_anode.Sockets.Server.Laws.{Listening, on_message-IsProved}
use push_anode.Sockets.Server.{subscribe}
use push_anode.Sockets.Server.Reach.{IsSound, here, then_step, message, IsSound-Reach}
use push_anode.Prelude.{some}
use push_anode.Tests.Codec.{libraries}
use push_anode.Tests.Archive.{contract}

abbrev subscriber : Text → ℕ → List Text → Text × SubscriberInfo
subscriber name ws events = (
  name,
  record {
    node_id = name;
    node_type = lit "VALIDATOR";
    ws = ws;
    subscriptions = events;
    connected_at = 5;
    last_pong = none;
  },
)

abbrev pub three : Hub
three = record {
  subscribers =
      subscriber (lit "0xV") 1 (lit "BLOCK" ∷ [])
      ∷ subscriber (lit "0xA") 2 (lit "BLOCK" ∷ [])
      ∷ subscriber (lit "0xB") 3 []
      ∷ [];
  net = record { is_open = λ ws. not (ws == 2); sent = [] };
}

abbrev event : BlockEvent
event = record { block_hash = lit "0708"; txs = [] }

broadcast_lem_example :
    broadcast event three ≡ record three { net = delivered event three.subscribers three.net }
broadcast_lem_example = broadcast_lem event three

abbrev challenged : Server
challenged = record {
  nonce_map = (lit "0xV", lit "0a0b") ∷ [];
  timers = 1 ∷ [];
  connections = [];
  listeners = [];
  hub = record three { subscribers = [] };
}

-- The wallet 0xV signs the nonce: its signature is its name, in base 16.
abbrev answer : Incoming
answer = auth_response (lit "307856") (lit "0xV") (lit "0a0b")

on_message-IsProved_example :
    Listening libraries contract challenged 1 answer
      (on_message libraries contract 9 1 (lit "0xV") answer challenged)
on_message-IsProved_example =
    on_message-IsProved libraries contract 9 1 (lit "0xV") answer challenged

accepted :
    (on_message libraries contract 9 1 (lit "0xV") answer challenged).listeners
    ≡ (1, lit "0xV") ∷ []
unfolding libraries on_message second_handlers first_handler authenticate handle_new_connection
    is_active_validator Map.get Map.has Map.delete base16_to_bytes pad_even decode_hex
    ascii_to_base16 to_lower_case text_beq
accepted = refl

abbrev authenticated : Server
authenticated = on_message libraries contract 9 1 (lit "0xV") answer challenged

abbrev subscribed : Server
subscribed =
    on_message libraries contract 10 1 (lit "0xV") (subscribe (lit "0xV") (some (lit "BLOCK" ∷ [])))
      authenticated

IsSound-Reach_example : IsSound subscribed
unfolding IsSound Map.get
IsSound-Reach_example =
    IsSound-Reach libraries contract
      (then_step authenticated subscribed
        (then_step challenged authenticated here (message 9 1 (lit "0xV") answer challenged))
        (message 10 1 (lit "0xV") (subscribe (lit "0xV") (some (lit "BLOCK" ∷ []))) authenticated))
      (λ id info e. absurd (cc e))
