-- ===== src/Orchestrator/Deactivate/Samples.antt =====
-- The laws of a deactivation at a chat whose agent has not confirmed all, with a queued message.
use kraclaw.Orchestrator.Deactivate.{deactivate}
use kraclaw.Orchestrator.Deactivate.Laws.{Deactivated, deactivate_rolls_back}
use kraclaw.Orchestrator.Deactivate.Handover.{lost, IsHandedOver, deactivate-IsHandedOver}
use kraclaw.Orchestrator.Samples.{chat, config, served, start}
use kraclaw.Prelude.{[], refl}

deactivate_rolls_back_example :
    Deactivated config served chat start (deactivate config served chat start).1.mem
deactivate_rolls_back_example = deactivate_rolls_back config served chat start

deactivate-IsHandedOver_example :
    IsHandedOver config served chat [] (deactivate config served chat start).1.log
unfolding lost
deactivate-IsHandedOver_example =
    deactivate-IsHandedOver config served chat [] start ((tt, refl), refl)
