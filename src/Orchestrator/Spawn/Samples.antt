-- ===== src/Orchestrator/Spawn/Samples.antt =====
-- The laws of a spawn at a group whose mark the store refuses, and at one where all goes well.
use kraclaw.Prelude.{Text, codes, [], some, ◌≡◌, refl}
use kraclaw.Orchestrator.World.{ok, err}
use kraclaw.Orchestrator.Spawn.{spawn_agent, launch, abort, activate}
use kraclaw.Orchestrator.Spawn.Undo.{IsUndone}
use kraclaw.Orchestrator.Spawn.Undo.Failures.{spawn_agent-IsUndone}
use kraclaw.Orchestrator.Spawn.Undo.Success.{IsSpawned, spawn_agent_succeeds}
use kraclaw.Orchestrator.Samples.{chat, family, config, answers, unmarked, start}

mark_refused :
    (spawn_agent config unmarked chat family 5 [] (codes "hi") start).0 ≡ err (codes "mark active")
unfolding spawn_agent launch activate abort
mark_refused = refl

spawn_agent-IsUndone_example :
    IsUndone config unmarked chat family 5 start.mem
      (spawn_agent config unmarked chat family 5 [] (codes "hi") start).1.mem
spawn_agent-IsUndone_example =
    spawn_agent-IsUndone config unmarked chat family 5 [] (codes "hi") start (codes "mark active")
      mark_refused

launch_refused_mark :
    (launch config unmarked chat family 5 [] (codes "hi") (codes "hi") start).0
    ≡ err (codes "mark active")
unfolding launch activate abort
launch_refused_mark = refl

spawned : (spawn_agent config answers chat family 5 [] (codes "hi") start).0 ≡ ok (codes "sb-1")
unfolding spawn_agent launch activate
spawned = refl

spawn_agent_succeeds_example :
    (payload : Text) × (some (codes "hi") ≡ some payload)
    × IsSpawned config answers chat family 5
        (codes "sb-1")
        payload
        start.mem
        (spawn_agent config answers chat family 5 [] (codes "hi") start).1
spawn_agent_succeeds_example =
    spawn_agent_succeeds config answers chat family 5 [] (codes "hi") (codes "sb-1") start spawned
