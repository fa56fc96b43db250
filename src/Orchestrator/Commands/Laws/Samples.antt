-- ===== src/Orchestrator/Commands/Laws/Samples.antt =====
-- A change of the model, for the example.
use kraclaw.Prelude.{
  has_prefix, [], ◌∷◌, none, true, arith, codes, fields, trim_space, some, ◌≡◌, refl,
}
use kraclaw.Orchestrator.Samples.{chat, family, config, answers, start}
use kraclaw.Auth.{is_allowed}
use kraclaw.Router.StripLaws.{NoTag}
use kraclaw.Orchestrator.Commands.Laws.Endless.{handle_slash_command_diverges}
use kraclaw.Orchestrator.World.{get_allowlist, Answers}
use kraclaw.Orchestrator.Commands.{handle_slash_command}
use kraclaw.Orchestrator.Commands.Laws.Access.{IsCommanded, handle_slash_command-IsCommanded}

-- Everything works, and the store has the group.
abbrev found : Answers
found = record answers { group = λ log. some (some family) }

handle_slash_command-IsCommanded_example :
    IsCommanded config found chat
      (fields (trim_space (codes "/model claude-opus-4-1")))
      (codes "ann")
      start.mem
      (handle_slash_command config found chat
        (codes "/model claude-opus-4-1")
        (codes "ann")
        start).1.mem
handle_slash_command-IsCommanded_example =
    handle_slash_command-IsCommanded config found chat (codes "/model claude-opus-4-1")
      (codes "ann") start

x-NoTag : NoTag (codes "x")
x-NoTag = grind arith

handle_slash_command_diverges_example :
    (handle_slash_command config found chat (codes "/</internal>x<internal>") (codes "ann") start).0
    ≡ none
unfolding has_prefix trim_space fields
handle_slash_command_diverges_example =
    handle_slash_command_diverges config found chat (codes "/</internal>x<internal>") (codes "ann")
      (codes "</internal>x<internal>") (codes "x") [] [] start refl refl refl x-NoTag allowed
  where
    allowed :
        is_allowed (found.allowlist (get_allowlist chat ∷ start.log)) (codes "ann") ≡ some true
    allowed = unfold is_allowed in refl
