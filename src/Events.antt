-- ===== src/Events.antt =====
-- The event bus of inference_exchange/coordinator/event_bus.py. An event is a dict with values of
-- any type; a subscriber is the identity of its queue with what was put into it.
pub mod History
use inference_exchange.Prelude.{
  ℕ, zero, suc, String, Bool, true, false, not, ◌||◌, List, [], ◌∷◌, ◌++◌, ◌==◌, text_eq, nat_eq,
  if◌then◌else◌, map, select, last_n, delete,
}

-- `PRIVATE_EVENT_FIELDS`
abbrev is_private : String → Bool
is_private key = key == "consumer_id" || key == "request_id"

abbrev pub max_history : ℕ
max_history = 50

module _ (Value : Type 0) where
  abbrev pub Event : Type 0
  Event = List (String × Value)

  pub record EventBus : Type 0 where
    pub subscribers : List (ℕ × List Event)
    pub history : List Event

  abbrev pub new_bus : EventBus
  new_bus = record { subscribers = []; history = [] }

  -- `public_event`
  unfoldable pub public_event : Event → Event
  public_event event = select (λ e. not (is_private e.0)) event

  -- `subscribe`, with the identity of the queue that it makes.
  unfoldable pub subscribe : ℕ → EventBus → EventBus
  subscribe queue bus = record bus { subscribers = (queue, []) ∷ bus.subscribers }

  -- `unsubscribe`
  unfoldable pub unsubscribe : ℕ → EventBus → EventBus
  unsubscribe queue bus = record bus { subscribers = delete (λ s. s.0 == queue) bus.subscribers }

  abbrev has_timestamp : Event → Bool
  has_timestamp [] = false
  has_timestamp ((k, _) ∷ event) = k == "timestamp" || has_timestamp event

  -- The event once it has a timestamp.
  unfoldable pub stamp : Value → Event → Event
  stamp now event = if has_timestamp event then event else event ++ (("timestamp", now) ∷ [])

  -- `publish`; the queues are unbounded, so none is full.
  unfoldable pub publish : Value → Event → EventBus → EventBus
  publish now event bus = record {
    subscribers = map (λ s. (s.0, s.1 ++ (stamp now event ∷ []))) bus.subscribers;
    history = last_n max_history (bus.history ++ (stamp now event ∷ []));
  }

  -- `recent_events`, where `items[-0:]` is all of them.
  unfoldable pub recent_events : ℕ → EventBus → List Event
  recent_events zero bus = bus.history
  recent_events (suc n) bus = last_n (suc n) bus.history
