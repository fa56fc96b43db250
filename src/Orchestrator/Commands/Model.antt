-- ===== src/Orchestrator/Commands/Model.antt =====
-- The command `/model` (internal/orchestrator/commands.go).
use kraclaw.Prelude.{
  Bool, true, false, Text, ◌==◌, codes, List, [], ◌∷◌, ◌++◌, any, Option, none, some, lookup,
  insert, remove, if◌then◌else◌,
}
use kraclaw.Prelude.Trace.{pure, ◌>>=◌, ◌>>◌}
use kraclaw.Store.{ContainerConfig, Group}
use kraclaw.Provider.{ModelInfo, validate_model, provider_openai, provider_anthropic}
use kraclaw.Orchestrator.World.{
  get_group, list_dynamic_models, upsert_group, delete_session, is_active, send_input, set_model,
  Memory, Config, Answers, M, ask, read, modify,
}
use kraclaw.Orchestrator.Agent.{route}
use kraclaw.Orchestrator.Spawn.{default_agent_id}

-- The model and the provider of a group; no provider means Anthropic.
abbrev pub config_model : Option ContainerConfig → Text
config_model none = []
config_model (some c) = c.model

abbrev pub config_provider : Option ContainerConfig → Text
config_provider none = provider_anthropic
config_provider (some c) = if c.provider == [] then provider_anthropic else c.provider

-- A group's configuration with another model.
abbrev pub with_model : Text → Option ContainerConfig → ContainerConfig
with_model model none = record { additional_mounts = []; timeout = 0; model = model; provider = [] }
with_model model (some c) = record c { model = model }

-- What `updateGroupModel` does in memory.
abbrev pub remodel : Text → Text → Group → Memory → Memory
remodel chat_jid model g m = record m {
  registered_groups = elim (lookup chat_jid m.registered_groups) [
    | none ↦ m.registered_groups
    | some existing ↦
        insert chat_jid
          (record existing { container_config = some (with_model model g.container_config) })
          m.registered_groups
  ];
  sessions = remove g.folder m.sessions;
}

module _ (cfg : Config) (env : Answers) (chat_jid : Text) where
  -- `sendSystemMessage`, behind which every command returns true; an error is only logged.
  unfoldable pub say : Text → M (Option Bool)
  say text = do
    r ← route cfg env chat_jid text
    elim r [ none ↦ pure none | some sent ↦ pure (some true) ]

  -- `validateRequestedModel` behind the lister's answer.
  abbrev pub is_listed : Text → Text → Option (List ModelInfo) → Bool
  is_listed provider_id requested none = elim (validate_model cfg.providers provider_id requested) [
    | none ↦ true
    | some e ↦ false
  ]
  is_listed provider_id requested (some []) =
      elim (validate_model cfg.providers provider_id requested) [ none ↦ true | some e ↦ false ]
  is_listed provider_id requested (some (m ∷ ms)) =
      any (λ (x : ModelInfo). x.id == requested) (m ∷ ms)

  unfoldable pub validate_requested_model : Text → Text → M Bool
  validate_requested_model provider_id requested =
      if provider_id == provider_openai
      then (if cfg.has_lister
          then (do
            got ← ask (list_dynamic_models chat_jid provider_id) env.dynamic_models
            pure (is_listed provider_id requested got))
          else pure (is_listed provider_id requested none))
      else pure (is_listed provider_id requested none)

  -- `updateGroupModel` behind the question for the group; the result says whether it succeeded.
  unfoldable pub store_model : Text → Option (Option Group) → M Bool
  store_model model none = pure false
  store_model model (some none) = pure false
  store_model model (some (some g)) = do
    stored ←
        ask
          (upsert_group
            (record g { container_config = some (with_model model g.container_config) }))
          env.done
    if stored
        then (do
          deleted ← ask (delete_session g.folder) env.done
          if deleted then (do modify (remodel chat_jid model g); pure true) else pure false)
        else pure false

  unfoldable pub update_group_model : Text → M Bool
  update_group_model model = do g ← ask (get_group chat_jid) env.group; store_model model g

  -- `sendModelUpdateToActive`; its error is only logged.
  unfoldable pub send_update : Text → Option Bool → M (Unit {0})
  send_update model none = pure tt
  send_update model (some false) = pure tt
  send_update model (some true) = do
    m ← read
    elim (lookup chat_jid m.registered_groups) [
      | none ↦ pure tt
      | some group ↦ elim (cfg.marshal_model model) [
        | none ↦ pure tt
        | some payload ↦ do
          sent ←
              ask
                (send_input group.folder (record {
                  group = group.folder;
                  agent_id = default_agent_id;
                  kind = set_model;
                  payload = payload;
                  id = [];
                }))
                env.done
          pure tt
      ]
    ]

  unfoldable pub send_model_update_to_active : Text → M (Unit {0})
  send_model_update_to_active model = do
    active ← ask (is_active chat_jid) env.flag
    send_update model active

  -- What follows the validation of the request.
  unfoldable pub on_valid : Text → Text → Text → Bool → M (Option Bool)
  on_valid provider_id current requested false = say (
      codes "Unknown model "
      ++ (cfg.tables.quote requested
          ++ (codes " for provider "
              ++ (provider_id ++ codes ". Use /models to list available models."))))
  on_valid provider_id current requested true =
      if requested == current
      then say (codes "Model already set to " ++ (requested ++ codes "."))
      else (do
        updated ← update_group_model requested
        if updated
            then (do
              send_model_update_to_active requested
              say (codes "Model set to " ++ (requested ++ codes ".")))
            else say (codes "Failed to update the model."))

  -- What follows the second question for the group.
  unfoldable pub on_group : Text → Text → Option (Option Group) → M (Option Bool)
  on_group current requested none = say (codes "Unable to fetch group.")
  on_group current requested (some none) = say (codes "Unable to fetch group.")
  on_group current requested (some (some g)) = do
    valid ← validate_requested_model (config_provider g.container_config) requested
    on_valid (config_provider g.container_config) current requested valid

  -- What follows `currentModelForChat`, that is the first question for the group.
  unfoldable pub on_current : Text → Option (Option Group) → M (Option Bool)
  on_current requested none = say (codes "Unable to fetch current model for this chat.")
  on_current requested (some none) = say (codes "Unable to fetch current model for this chat.")
  on_current requested (some (some g)) =
      let current = config_model g.container_config in
      if requested == []
      then say (codes "Current model: " ++ (if current == [] then codes "default" else current))
      else (do got ← ask (get_group chat_jid) env.group; on_group current requested got)

  unfoldable pub handle_model_command : Text → M (Option Bool)
  handle_model_command requested = do g ← ask (get_group chat_jid) env.group; on_current requested g
