-- ===== src/Sockets/Server/Listens.antt =====
-- The sockets that have authenticated, and the subscribers that may listen on them.
use push_anode.Prelude.{
  ℕ, ◌≡◌, ◌⊎◌, inl, inr, sym, ◌∙◌, subst, not, Bool, true, false, List, [], ◌∷◌, ◌++◌, Option, none,
  some, Text, Bool-cases, arith, ◌==◌, nat_eq, text_eq, text_beq_iff, if◌then◌else◌,
}
use push_anode.Collections.Map
use push_anode.Collections.Map.{Map}
use push_anode.Sockets.Subscriptions.{
  SubscriberInfo, SubscriptionRequest, Hub, timed_out, monitor, remove_subscriber,
  handle_subscription_request, is_valid_subscription, touched,
}

-- The socket has authenticated as this address.
abbrev pub Listens : List (ℕ × Text) → ℕ → Text → Type 0
Listens [] ws address = ⊥
Listens ((s, a) ∷ ls) ws address = ((s ≡ ws) × (a ≡ address)) ⊎ Listens ls ws address

-- Every subscriber of the map has a socket that authenticated as it.
abbrev pub AllListen : List (ℕ × Text) → Map Text SubscriberInfo → Type 0
AllListen ls subscribers =
    (id : Text) (info : SubscriberInfo) → Map.get subscribers id ≡ some info → Listens ls info.ws id

pub Listens-append :
    (ls more : List (ℕ × Text)) (ws : ℕ) (a : Text) → Listens ls ws a → Listens (ls ++ more) ws a
Listens-append [] more ws a h = absurd h
Listens-append ((s, b) ∷ ls) more ws a (inl h) = inl h
Listens-append ((s, b) ∷ ls) more ws a (inr h) = inr (Listens-append ls more ws a h)

pub AllListen-delete :
    (ls : List (ℕ × Text)) (m : Map Text SubscriberInfo) (k : Text)
    → AllListen ls m
    → AllListen ls (Map.delete m k)
AllListen-delete ls m k sound id info e = sound id info (ground (arith, Map.get-delete m k id))

pub AllListen-set :
    (ls : List (ℕ × Text)) (m : Map Text SubscriberInfo) (k : Text) (new : SubscriberInfo)
    → Listens ls new.ws k
    → AllListen ls m
    → AllListen ls (Map.set m k new)
AllListen-set ls m k new here sound id info e = elim (Bool-cases (k == id)) [
  | inl hit ↦
      let same : k ≡ id = (text_beq_iff k id).0 hit in
      let is : new ≡ info = cc (rw hit at (sym (Map.get-set m k id new) ∙ e)) in
      subst (λ i. Listens ls i.ws id) is (subst (λ a. Listens ls new.ws a) same here)
  | inr miss ↦ sound id info (rw miss at (sym (Map.get-set m k id new) ∙ e))
]

pub AllListen-if :
    (ls : List (ℕ × Text)) (b : Bool) (x y : Hub)
    → AllListen ls x.subscribers
    → AllListen ls y.subscribers
    → AllListen ls (if b then x else y).subscribers
AllListen-if ls true x y hx hy = hx
AllListen-if ls false x y hx hy = hy

pub AllListen-request :
    (ls : List (ℕ × Text)) (now ws : ℕ) (request : SubscriptionRequest) (hub : Hub)
    → Listens ls ws request.node_id
    → AllListen ls hub.subscribers
    → AllListen ls (handle_subscription_request now ws request hub).subscribers
unfolding handle_subscription_request
AllListen-request ls now ws request hub here sound =
    AllListen-if ls (not (is_valid_subscription request)) _ _ sound
      (AllListen-set ls hub.subscribers request.node_id _ here sound)

pub AllListen-monitor :
    (ls : List (ℕ × Text)) (now : ℕ) (subscribers : Map Text SubscriberInfo) (hub : Hub)
    → AllListen ls hub.subscribers
    → AllListen ls (monitor now subscribers hub).subscribers
unfolding monitor remove_subscriber
AllListen-monitor ls now [] hub sound = sound
AllListen-monitor ls now ((node_id, info) ∷ subscribers) hub sound =
    AllListen-monitor ls now subscribers _ (
      AllListen-if ls (timed_out now info.last_pong) _ _
        (AllListen-delete ls hub.subscribers node_id sound) sound)

pub AllListen-touched :
    (ls : List (ℕ × Text)) (m : Map Text SubscriberInfo) (k : Text) (now : ℕ)
    (o : Option SubscriberInfo)
    → Map.get m k ≡ o
    → AllListen ls m
    → AllListen ls (touched m k now o)
AllListen-touched ls m k now none e sound = sound
AllListen-touched ls m k now (some info) e sound = AllListen-set ls m k _ (sound k info e) sound
