-- ===== src/Orchestrator/Agent/Sends.antt =====
-- A route changes nothing in memory (internal/orchestrator/orchestrator.go).
use kraclaw.Prelude.{Text, List, [], ◌∷◌, Option, none, ◌≡◌, refl, option_cases}
use kraclaw.Router.{Delivery, RouteResult, strip_loop, route_stripped, route_outbound}
use kraclaw.Orchestrator.World.{deliver, World, Config, Answers, M}
use kraclaw.Orchestrator.Agent.{deliver_all, route}

pub deliver_all-mem : (ds : List Delivery) (w : World) → (deliver_all ds w).1.mem ≡ w.mem
unfolding deliver_all
deliver_all-mem [] w = refl
deliver_all-mem (d ∷ ds) w = deliver_all-mem ds (record w { log = deliver d ∷ w.log })

pub route-mem :
    (cfg : Config) (env : Answers) (chat_jid text : Text) (w : World)
    → (route cfg env chat_jid text w).1.mem ≡ w.mem
unfolding route
route-mem cfg env chat_jid text w =
    option_cases (λ (c : M (Option RouteResult)). (c w).1.mem ≡ w.mem)
      (route_outbound cfg.strip_fuel (env.channels w.log) chat_jid text) _ _ (λ _. refl)
      λ r _. deliver_all-mem r.1 w

-- A text whose stripping does not end is never routed.
pub route_endless :
    (cfg : Config) (env : Answers) (chat_jid text : Text) (w : World)
    → strip_loop cfg.strip_fuel text ≡ none
    → route cfg env chat_jid text w ≡ (none, w)
unfolding route route_outbound route_stripped
route_endless cfg env chat_jid text w h = rw (h) refl
