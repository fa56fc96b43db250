-- ===== src/Server/EventHub/Samples.antt =====
-- A hub with one subscriber, for the examples.
use kraclaw.Prelude.{ℕ, [], ◌∷◌, map, ◌≡◌, arith}
use kraclaw.Server.EventHub.{
  EventHub, new_event_hub, publish, subscribe, at_start, then_subscribe, then_step, publishes,
}
use kraclaw.Server.EventHub.Laws.{AreFine, IsFresh, Reachable-AreFine}
use kraclaw.Server.EventHub.Drops.{publish_all, filled, publish_all-filled}

abbrev start : EventHub ℕ
start = new_event_hub

Reachable-AreFine_example :
    AreFine (publish 5 (subscribe start).1).subs × IsFresh 1 (publish 5 (subscribe start).1)
Reachable-AreFine_example =
    Reachable-AreFine 1 (publish 5 (subscribe start).1)
      (then_step 1 (subscribe start).1 (publish 5 (subscribe start).1)
        (then_subscribe 0 start at_start) (publishes 5 (subscribe start).1))
      (omega arith)

abbrev listening : EventHub ℕ
listening = record { next_id = 1; subs = record { id = 0; buffer = 1 ∷ [] } ∷ [] }

publish_all-filled_example :
    publish_all (2 ∷ 3 ∷ []) listening
    ≡ record listening { subs = map (filled (2 ∷ 3 ∷ [])) listening.subs }
publish_all-filled_example = publish_all-filled (2 ∷ 3 ∷ []) listening (omega arith, tt)
