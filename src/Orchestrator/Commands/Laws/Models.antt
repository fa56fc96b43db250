-- ===== src/Orchestrator/Commands/Laws/Models.antt =====
-- To which model a chat may change (internal/orchestrator/commands.go).
use kraclaw.Prelude.{
  Bool, true, false, Text, ◌==◌, codes, List, [], ◌∷◌, ◌++◌, Option, none, some, if◌then◌else◌, ◌≡◌,
  refl, ◌∙◌, subst, ◌⊎◌, inl, inr, arith, if_cases,
}
use kraclaw.Store.{Group}
use kraclaw.Provider.{provider_openai}
use kraclaw.Orchestrator.World.{
  Call, get_group, list_dynamic_models, Memory, World, Config, Answers, M,
}
use kraclaw.Orchestrator.Commands.Model.{
  say, remodel, is_listed, config_model, config_provider, validate_requested_model,
  update_group_model, send_model_update_to_active, on_valid, on_group, on_current,
  handle_model_command,
}
use kraclaw.Orchestrator.Commands.Laws.{say-mem, send_update-mem, IsUpdated, update-IsUpdated}

module _ (cfg : Config) (env : Answers) (chat_jid : Text) where
  -- The registry has the model, or the list that the lister gave.
  abbrev pub IsOffered : Text → Text → Type 0
  IsOffered provider model =
      (is_listed cfg env chat_jid provider model none ≡ true)
      ⊎ ((log : List Call) × (is_listed cfg env chat_jid provider model
              (env.dynamic_models (list_dynamic_models chat_jid provider ∷ log))
            ≡ true))

  -- A model of the provider of a group that the store gave for the chat.
  abbrev pub IsAccepted : Text → Type 0
  IsAccepted model =
      (g : Group) × (log : List Call) × (env.group (get_group chat_jid ∷ log) ≡ some (some g))
      × IsOffered (config_provider g.container_config) model

  abbrev pub IsRemodelled : Text → Memory → Memory → Type 0
  IsRemodelled model m m' =
      (g : Group) × (log : List Call) × (env.group (get_group chat_jid ∷ log) ≡ some (some g))
      × (m' ≡ remodel chat_jid model g m)

  -- The memory is as it was, or as it is with an accepted model.
  abbrev pub IsChanged : Text → Memory → Memory → Type 0
  IsChanged model m m' =
      (m' ≡ m) ⊎ (((model == []) ≡ false) × IsAccepted model × IsRemodelled model m m')

  validate-mem :
      (provider model : Text) (w : World)
      → (validate_requested_model cfg env chat_jid provider model w).1.mem ≡ w.mem
  unfolding validate_requested_model
  validate-mem provider model w = ground arith

  validate-IsOffered :
      (provider model : Text) (w : World)
      → (validate_requested_model cfg env chat_jid provider model w).0 ≡ true
      → IsOffered provider model
  unfolding validate_requested_model
  validate-IsOffered provider model w =
      if_cases (λ (c : M Bool). (c w).0 ≡ true → IsOffered provider model)
        (provider == provider_openai) _ _
        (λ _.
          if_cases (λ (c : M Bool). (c w).0 ≡ true → IsOffered provider model) cfg.has_lister _ _
            (λ _ h. inr (w.log, h)) (λ _ h. inl h))
        (λ _ h. inl h)

  on_valid-IsChanged :
      (provider current model : Text) (valid : Bool) (w : World)
      → (valid ≡ true → IsAccepted model)
      → (model == []) ≡ false
      → IsChanged model w.mem (on_valid cfg env chat_jid provider current model valid w).1.mem
  unfolding on_valid
  on_valid-IsChanged provider current model false w accepted given =
      inl (say-mem cfg env chat_jid _ w)
  on_valid-IsChanged provider current model true w accepted given =
      if_cases (λ (c : M (Option Bool)). IsChanged model w.mem (c w).1.mem) (model == current) _ _
        (λ _. inl (say-mem cfg env chat_jid _ w))
        (λ _.
          after (update_group_model cfg env chat_jid model w)
            (update-IsUpdated cfg env chat_jid model w))
    where
      after :
          (r : Bool × World)
          → IsUpdated cfg env chat_jid model w.mem (r.0, r.1)
          → IsChanged model w.mem
              ((if r.0
                  then (λ (w' : World).
                      say cfg env chat_jid
                        (codes "Model set to " ++ (model ++ codes "."))
                        (send_model_update_to_active cfg env chat_jid model w').1)
                  else say cfg env chat_jid (codes "Failed to update the model."))
                r.1).1.mem
      after (false, w') e = inl (say-mem cfg env chat_jid _ w' ∙ e)
      after (true, w') (g, log, got, _, e) =
          unfold send_model_update_to_active in
          inr (
            given,
            accepted refl,
            (
              g,
              log,
              got,
              say-mem cfg env chat_jid _ _ ∙ (send_update-mem cfg env chat_jid model _ _ ∙ e),
            ),
          )

  on_group-IsChanged :
      (current model : Text) (o : Option (Option Group)) (log : List Call) (w : World)
      → env.group (get_group chat_jid ∷ log) ≡ o
      → (model == []) ≡ false
      → IsChanged model w.mem (on_group cfg env chat_jid current model o w).1.mem
  unfolding on_group
  on_group-IsChanged current model none log w got given = inl (say-mem cfg env chat_jid _ w)
  on_group-IsChanged current model (some none) log w got given = inl (say-mem cfg env chat_jid _ w)
  on_group-IsChanged current model (some (some g)) log w got given =
      let valid : Bool × World =
        validate_requested_model cfg env chat_jid (config_provider g.container_config) model w in
      subst
        (λ (m : Memory).
          IsChanged model m
            (on_valid cfg env chat_jid (config_provider g.container_config) current model valid.0
              valid.1).1.mem)
        (validate-mem (config_provider g.container_config) model w)
        (on_valid-IsChanged (config_provider g.container_config) current model valid.0 valid.1
          (λ ok. (g, log, got, validate-IsOffered (config_provider g.container_config) model w ok))
          given)

  on_current-IsChanged :
      (model : Text) (o : Option (Option Group)) (w : World)
      → IsChanged model w.mem (on_current cfg env chat_jid model o w).1.mem
  unfolding on_current
  on_current-IsChanged model none w = inl (say-mem cfg env chat_jid _ w)
  on_current-IsChanged model (some none) w = inl (say-mem cfg env chat_jid _ w)
  on_current-IsChanged model (some (some g)) w =
      if_cases (λ (c : M (Option Bool)). IsChanged model w.mem (c w).1.mem) (model == []) _ _
        (λ _. inl (say-mem cfg env chat_jid _ w))
        (on_group-IsChanged (config_model g.container_config) model
          (env.group (get_group chat_jid ∷ w.log)) w.log
          (record w { log = get_group chat_jid ∷ w.log }) refl)

  pub handle_model_command-IsChanged :
      (model : Text) (w : World)
      → IsChanged model w.mem (handle_model_command cfg env chat_jid model w).1.mem
  unfolding handle_model_command
  handle_model_command-IsChanged model w =
      on_current-IsChanged model (env.group (get_group chat_jid ∷ w.log))
        (record w { log = get_group chat_jid ∷ w.log })
