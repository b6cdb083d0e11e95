-- ===== src/Sockets/Subscriptions/Delivery.antt =====
-- Who receives a block event.
use push_anode.Prelude.{
  ℕ, ◌≡◌, Bool, ◌&&◌, [], ◌∷◌, ◌++◌, map, Text, lit, text_eq, nat_eq, filter, Bool-cases, inl, inr,
}
use mathlib.Core.List.{append_assoc, append-nil}
use push_anode.Collections.Map.{Map}
use push_anode.Collections.Set
use push_anode.Sockets.Subscriptions.{
  BlockEvent, Message, block_event, SubscriberInfo, Network, Hub, send, send_to_all, broadcast,
}

-- A subscriber with an open socket who asked for blocks.
abbrev pub wants : (ℕ → Bool) → Text × SubscriberInfo → Bool
wants is_open (node_id, info) = Set.has info.subscriptions (lit "BLOCK") && is_open info.ws

abbrev pub delivery : BlockEvent → Text × SubscriberInfo → ℕ × Message
delivery event (node_id, info) = (info.ws, block_event event)

abbrev pub delivered : BlockEvent → Map Text SubscriberInfo → Network → Network
delivered event subscribers net = record net {
  sent = net.sent ++ map (delivery event) (filter (wants net.is_open) subscribers);
}

send_to_all_lem :
    (event : BlockEvent) (subscribers : Map Text SubscriberInfo) (net : Network)
    → send_to_all event subscribers net ≡ delivered event subscribers net
unfolding send_to_all send
send_to_all_lem event [] net = rw append-nil
send_to_all_lem event ((n, i) ∷ subscribers) net =
    elim (Bool-cases (Set.has i.subscriptions (lit "BLOCK"))) [
      | inr no_block ↦ rw no_block (send_to_all_lem event subscribers net)
      | inl block ↦ elim (Bool-cases (net.is_open i.ws)) [
        | inr shut ↦ rw (block, shut) (send_to_all_lem event subscribers net)
        | inl up ↦ rw (
          block,
          up,
          send_to_all_lem event subscribers
              (record net { sent = net.sent ++ ((i.ws, block_event event) ∷ []) }),
          append_assoc,
        )
      ]
    ]

-- A broadcast sends the event once to each subscriber that asked for blocks and whose socket is
-- open, in the order of subscription, and nothing else; the subscribers stay.
pub broadcast_lem :
    (event : BlockEvent) (hub : Hub)
    → broadcast event hub ≡ record hub { net = delivered event hub.subscribers hub.net }
unfolding broadcast
broadcast_lem event hub = rw (send_to_all_lem event hub.subscribers hub.net)
