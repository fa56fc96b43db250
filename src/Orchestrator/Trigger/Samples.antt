-- ===== src/Orchestrator/Trigger/Samples.antt =====
-- The law of the triggers at a message that begins with the trigger.
use kraclaw.Prelude.{[], ◌∷◌, ◌≡◌, true, refl, Elem, ◌==◌, has_prefix}
use kraclaw.Store.{Message}
use kraclaw.Router.{matches_trigger}
use kraclaw.Auth.{is_allowed}
use kraclaw.Orchestrator.World.{ok}
use kraclaw.Orchestrator.Trigger.{has_trigger_message}
use kraclaw.Orchestrator.Trigger.Laws.{MayTrigger, has_trigger_message_sound}
use kraclaw.Orchestrator.Samples.{chat, family, hello, config, answers, start}

triggered : (has_trigger_message config answers chat family (hello ∷ []) start).0 ≡ ok true
unfolding has_trigger_message matches_trigger is_allowed ◌==◌ has_prefix
triggered = refl

has_trigger_message_sound_example :
    (m : Message) × Elem m (hello ∷ [])
    × (matches_trigger config.tables m.content family.trigger_pattern ≡ true)
    × MayTrigger config answers chat family m
has_trigger_message_sound_example =
    has_trigger_message_sound config answers chat family (hello ∷ []) start triggered
