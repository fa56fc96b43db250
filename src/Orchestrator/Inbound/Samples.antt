-- ===== src/Orchestrator/Inbound/Samples.antt =====
-- A message that is stored, for the example.
use kraclaw.Prelude.{codes, has_prefix, trim_space, false, some, ◌≡◌, refl}
use kraclaw.Orchestrator.Samples.{chat, config, answers, start}
use kraclaw.Orchestrator.Inbound.{InboundMessage, on_inbound_message}
use kraclaw.Orchestrator.Inbound.Laws.{Outcome, on_inbound_message_outcome}

abbrev greeting : InboundMessage
greeting = record {
  id = codes "m2";
  chat_jid = codes "tg:1";
  sender = codes "ann";
  sender_name = codes "Ann";
  content = codes " hello";
  timestamp = 8;
  is_group = false;
}

on_inbound_message_outcome_example :
    ((on_inbound_message config answers chat greeting start).0 ≡ some tt)
    × Outcome config answers chat greeting start
        (on_inbound_message config answers chat greeting start).1
unfolding has_prefix trim_space
on_inbound_message_outcome_example =
    on_inbound_message_outcome config answers chat greeting start refl
