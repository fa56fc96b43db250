-- ===== src/Orchestrator/Commands/Laws/Endless.antt =====
-- A slash command that the handler never finishes (internal/orchestrator/commands.go).
use kraclaw.Prelude.{
  Bool, true, Text, ◌==◌, codes, fields, trim_space, has_prefix, List, ◌∷◌, ◌++◌, Option, none,
  some, ◌≡◌, ap, arith,
}
use kraclaw.Prelude.Trace.{pure}
use kraclaw.Auth.{is_allowed}
use kraclaw.Router.{RouteResult, open_tag, close_tag, to_lower, strip_loop}
use kraclaw.Router.StripLaws.{NoTag}
use kraclaw.Router.StripLaws.Endless.{strip_loop_diverges}
use kraclaw.Orchestrator.World.{get_allowlist, World, Config, Answers, M}
use kraclaw.Orchestrator.Agent.Sends.{route_endless}
use kraclaw.Orchestrator.Commands.Model.{say}
use kraclaw.Orchestrator.Commands.{run_command, on_permission, on_fields, handle_slash_command}

module _ (cfg : Config) (env : Answers) (chat_jid : Text) where
  say_diverges :
      (text : Text) (w : World)
      → strip_loop cfg.strip_fuel text ≡ none
      → (say cfg env chat_jid text w).0 ≡ none
  unfolding say
  say_diverges text w h =
      ap
        (λ (r : Option RouteResult × World).
          ((elim r.0 as (λ _. M (Option Bool)) [ none ↦ pure none | some sent ↦ pure (some true) ])
            r.1).0)
        (route_endless cfg env chat_jid text w h)

  unknown-NoTag : NoTag (codes "Unknown command: /")
  unknown-NoTag = grind arith

  run_command_diverges :
      (q r : Text) (args : List Text) (w : World)
      → NoTag q
      → (run_command cfg env chat_jid (close_tag ++ (q ++ (open_tag ++ r))) args w).0 ≡ none
  unfolding run_command ◌==◌
  run_command_diverges q r args w nq =
      say_diverges (codes "Unknown command: /" ++ (close_tag ++ (q ++ (open_tag ++ r)))) w
        (strip_loop_diverges cfg.strip_fuel (codes "Unknown command: /") q r unknown-NoTag nq)

  -- A message whose first word is a slash and then, in lower case, a closing tag, a text without
  -- `<`, an opening tag and any rest, from a sender whom the allowlist lets pass: for any number
  -- of rounds that the stripping is given, the handler does not return.
  pub handle_slash_command_diverges :
      (content sender word q r : Text) (args : List Text) (w : World)
      → has_prefix (trim_space content) (codes "/") ≡ true
      → fields (trim_space content) ≡ (b'/' ∷ word) ∷ args
      → to_lower cfg.tables word ≡ close_tag ++ (q ++ (open_tag ++ r))
      → NoTag q
      → is_allowed (env.allowlist (get_allowlist chat_jid ∷ w.log)) sender ≡ some true
      → (handle_slash_command cfg env chat_jid content sender w).0 ≡ none
  unfolding handle_slash_command on_fields on_permission has_prefix
  handle_slash_command_diverges content sender word q r args w slash words lower nq ok =
      rw (slash, words, ok, lower)
        (run_command_diverges q r args (record w { log = get_allowlist chat_jid ∷ w.log }) nq)
