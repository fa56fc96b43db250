-- ===== src/Orchestrator/Commands.antt =====
-- The slash commands (internal/orchestrator/commands.go). An answer `none` means that the handler
-- does not return, since its message to the chat is still being stripped.
pub mod Model
pub mod Laws
use kraclaw.Prelude.{
  ℕ, Bool, true, false, Text, ◌==◌, codes, has_prefix, drop, fields, trim_space, trim_right_of,
  List, [], ◌∷◌, ◌++◌, Option, none, some, lookup, if◌then◌else◌,
}
use kraclaw.Prelude.Trace.{pure, ◌>>=◌, ◌>>◌}
use kraclaw.Store.{ContainerConfig, Group}
use kraclaw.Provider.{ModelInfo, ProviderInfo, models, provider_openai, provider_anthropic}
use kraclaw.Router.{to_lower}
use kraclaw.Auth.{is_allowed}
use kraclaw.Orchestrator.World.{
  Call, get_allowlist, get_group, list_dynamic_models, Config, Answers, M, ask,
}
use kraclaw.Orchestrator.Commands.Model.{say, config_model, config_provider, handle_model_command}

module _ (cfg : Config) (env : Answers) (chat_jid : Text) where
  -- A line of the list of models.
  abbrev model_line : Text → ModelInfo → Text
  model_line current m =
      codes "- "
      ++ ((if m.display_name == []
            then m.id
            else m.id ++ (codes " (" ++ (m.display_name ++ codes ")")))
          ++ ((if m.id == current then codes " (current)" else []) ++ codes "\n"))

  model_lines : Text → List ModelInfo → Text
  model_lines current [] = []
  model_lines current (m ∷ ms) = model_line current m ++ model_lines current ms

  -- The whole list.
  model_list : Text → ProviderInfo → List ModelInfo → Text
  unfolding model_lines
  model_list current p ms = trim_right_of b'\n' (
      codes "Models ("
      ++ (p.display_name
          ++ (codes "):\n"
              ++ (model_lines current ms
                  ++ (if current == []
                      then codes "Current: " ++ (p.default_model ++ codes " (default)")
                      else [])))))

  -- The list that the lister gave, if it gave one.
  abbrev listed : List ModelInfo → Option (List ModelInfo) → List ModelInfo
  listed static none = static
  listed static (some []) = static
  listed static (some (m ∷ ms)) = m ∷ ms

  show_models : Text → Text → List ModelInfo → M (Option Bool)
  unfolding model_list
  show_models provider_id current ms = elim (lookup provider_id cfg.providers) [
    | none ↦ say cfg env chat_jid (
        codes "Unknown provider "
        ++ (cfg.tables.quote provider_id ++ codes " configured for this group. Contact an admin."))
    | some p ↦ say cfg env chat_jid (model_list current p ms)
  ]

  -- What follows the question for the group.
  list_models : Option (Option Group) → M (Option Bool)
  unfolding show_models
  list_models none = say cfg env chat_jid (codes "Unable to fetch group for this chat.")
  list_models (some none) = say cfg env chat_jid (codes "Unable to fetch group for this chat.")
  list_models (some (some g)) =
      let provider_id = config_provider g.container_config in
      let static = models cfg.providers provider_id in
      if provider_id == provider_openai
      then (if cfg.has_lister
          then (do
            got ← ask (list_dynamic_models chat_jid provider_id) env.dynamic_models
            show_models provider_id (config_model g.container_config) (listed static got))
          else show_models provider_id (config_model g.container_config) static)
      else show_models provider_id (config_model g.container_config) static

  pub handle_models_command : M (Option Bool)
  unfolding list_models
  handle_models_command = do g ← ask (get_group chat_jid) env.group; list_models g

  -- The switch over the commands, with the words behind the command.
  pub run_command : Text → List Text → M (Option Bool)
  run_command cmd args =
      if cmd == codes "models"
      then handle_models_command
      else if cmd == codes "model"
      then handle_model_command cfg env chat_jid (elim args [ [] ↦ [] | a ∷ as' ↦ a ])
      else if cmd == codes "commands"
      then help
      else if cmd == codes "help"
      then help
      else say cfg env chat_jid (codes "Unknown command: /" ++ cmd)
    where
      help : M (Option Bool)
      help =
          say cfg env chat_jid
            (codes "Available commands:\n- /models\n- /model <id>\n- /model\n- /help")

  -- What follows the check of the allowlist.
  pub on_permission : Text → List Text → Option Bool → M (Option Bool)
  on_permission cmd args none =
      say cfg env chat_jid (codes "Unable to check permissions for this command.")
  on_permission cmd args (some false) =
      say cfg env chat_jid (codes "You are not allowed to run commands in this chat.")
  on_permission cmd args (some true) = run_command cmd args

  -- The words of the trimmed message, of which the first begins with the prefix.
  pub on_fields : List Text → Text → M (Option Bool)
  on_fields [] sender = pure (some false)
  on_fields (f ∷ args) sender = do
    entries ← ask (get_allowlist chat_jid) env.allowlist
    on_permission (to_lower cfg.tables (if has_prefix f (codes "/") then drop 1 f else f)) args
        (is_allowed entries sender)

  -- The result says whether the message was a command.
  unfoldable pub handle_slash_command : Text → Text → M (Option Bool)
  handle_slash_command content sender =
      if has_prefix (trim_space content) (codes "/")
      then on_fields (fields (trim_space content)) sender
      else pure (some false)
