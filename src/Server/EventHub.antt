-- ===== src/Server/EventHub.antt =====
-- The event hub (internal/server/event_hub.go). A channel is the list of the events that wait in
-- it, the oldest first. The locks make each operation a step.
pub mod Laws
pub mod Drops
mod Samples
use kraclaw.Prelude.{
  ℕ, suc, ◌+◌, ◌%◌, ◌^◌, eqb, ltb, Bool, length, List, [], ◌∷◌, ◌++◌, map, if◌then◌else◌, ◌≡◌,
}

-- The hub's events are of any type.
pub record Subscriber (A : Type 0) : Type 0 where
  pub id : ℕ
  pub buffer : List A

pub record EventHub (A : Type 0) : Type 0 where
  -- The 64 bits of the counter.
  pub next_id : ℕ
  pub subs : List (Subscriber A)

abbrev pub capacity : ℕ
capacity = 64

module _ {A : Type 0} where
  abbrev pub new_event_hub : EventHub A
  new_event_hub = record { next_id = 0; subs = [] }

  -- The event is dropped where the channel is full.
  abbrev pub deliver : A → Subscriber A → Subscriber A
  deliver evt s =
      if ltb (length s.buffer) capacity then record s { buffer = s.buffer ++ (evt ∷ []) } else s

  unfoldable pub publish : A → EventHub A → EventHub A
  publish evt h = record h { subs = map (deliver evt) h.subs }

  -- `h.subs[id] = ch`.
  abbrev pub put : Subscriber A → List (Subscriber A) → List (Subscriber A)
  put s [] = s ∷ []
  put s (t ∷ ts) = if eqb t.id s.id then s ∷ ts else t ∷ put s ts

  unfoldable pub subscribe : EventHub A → ℕ × EventHub A
  subscribe h = (
    h.next_id,
    record {
      next_id = (h.next_id + 1) % 2 ^ 64;
      subs = put (record { id = h.next_id; buffer = [] }) h.subs;
    },
  )

  -- The function that `subscribe` returns.
  abbrev pub delete : ℕ → List (Subscriber A) → List (Subscriber A)
  delete i [] = []
  delete i (t ∷ ts) = if eqb t.id i then delete i ts else t ∷ delete i ts

  unfoldable pub unsubscribe : ℕ → EventHub A → EventHub A
  unsubscribe i h = record h { subs = delete i h.subs }

  -- A subscriber takes its oldest event.
  abbrev pub take_event : ℕ → Subscriber A → Subscriber A
  take_event i s =
      if eqb s.id i then record s { buffer = elim s.buffer [ [] ↦ [] | e ∷ es ↦ es ] } else s

  abbrev pub receive : ℕ → EventHub A → EventHub A
  receive i h = record h { subs = map (take_event i) h.subs }

  -- What can happen to a hub besides a subscription.
  pub data Step : EventHub A → EventHub A → Type 0 where
    publishes : (evt : A) (h : EventHub A) → Step h (publish evt h)
    unsubscribes : (i : ℕ) (h : EventHub A) → Step h (unsubscribe i h)
    receives : (i : ℕ) (h : EventHub A) → Step h (receive i h)

  -- The states that a new hub reaches, with the number of subscriptions on the way.
  pub data Reachable : ℕ → EventHub A → Type 0 where
    at_start : Reachable 0 new_event_hub
    then_subscribe : (n : ℕ) (h : EventHub A) → Reachable n h → Reachable (suc n) (subscribe h).1
    then_step : (n : ℕ) (h h' : EventHub A) → Reachable n h → Step h h' → Reachable n h'
