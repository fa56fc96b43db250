-- ===== src/Orchestrator/Commands/Laws/Access.antt =====
-- Who may change the model of a chat, and to which (internal/orchestrator/commands.go).
use kraclaw.Prelude.{
  Bool, true, false, Text, ◌==◌, ==_refl, codes, fields, trim_space, has_prefix, List, [], ◌∷◌,
  Option, none, some, lookup, ◌≡◌, refl, ◌⊎◌, inl, inr, arith, if_cases, option_cases,
}
use kraclaw.Store.{Group}
use kraclaw.Auth.{is_allowed}
use kraclaw.Provider.{ModelInfo, provider_openai}
use kraclaw.Orchestrator.World.{Call, get_allowlist, Memory, World, Config, Answers, M}
use kraclaw.Orchestrator.Commands.Model.{config_provider}
use kraclaw.Orchestrator.Commands.{
  show_models, list_models, handle_models_command, run_command, on_permission, on_fields,
  handle_slash_command,
}
use kraclaw.Orchestrator.Commands.Laws.Models.{
  IsAccepted, IsRemodelled, IsChanged, handle_model_command-IsChanged,
}
use kraclaw.Orchestrator.Commands.Laws.{say-mem}

module _ (cfg : Config) (env : Answers) (chat_jid : Text) where
  show_models-mem :
      (provider current : Text) (ms : List ModelInfo) (w : World)
      → (show_models cfg env chat_jid provider current ms w).1.mem ≡ w.mem
  unfolding show_models
  show_models-mem provider current ms w =
      option_cases (λ (c : M (Option Bool)). (c w).1.mem ≡ w.mem) (lookup provider cfg.providers) _
        _ (λ _. say-mem cfg env chat_jid _ w) (λ _ _. say-mem cfg env chat_jid _ w)

  list_models-mem :
      (o : Option (Option Group)) (w : World) → (list_models cfg env chat_jid o w).1.mem ≡ w.mem
  unfolding list_models
  list_models-mem none w = say-mem cfg env chat_jid _ w
  list_models-mem (some none) w = say-mem cfg env chat_jid _ w
  list_models-mem (some (some g)) w =
      if_cases (λ (c : M (Option Bool)). (c w).1.mem ≡ w.mem)
        (config_provider g.container_config == provider_openai) _ _
        (λ _.
          if_cases (λ (c : M (Option Bool)). (c w).1.mem ≡ w.mem) cfg.has_lister _ _
            (λ _. show_models-mem _ _ _ _) (λ _. show_models-mem _ _ _ w))
        (λ _. show_models-mem _ _ _ w)

  -- The words of the message are a word, the model and possibly more; the allowlist let the sender
  -- pass; and the memory is as it was, or as it is with the model.
  abbrev pub IsCommanded : List Text → Text → Memory → Memory → Type 0
  IsCommanded ws sender m m' =
      (m' ≡ m)
      ⊎ ((cmd : Text) × (model : Text) × (rest : List Text) × (log : List Call) × (ws
            ≡ cmd ∷ model ∷ rest)
          × (is_allowed (env.allowlist (get_allowlist chat_jid ∷ log)) sender ≡ some true)
          × ((model == []) ≡ false)
          × IsAccepted cfg env chat_jid model
          × IsRemodelled cfg env chat_jid model m m')

  commanded :
      (cmd : Text) (args : List Text) (sender : Text) (log : List Call) (m m' : Memory)
      → is_allowed (env.allowlist (get_allowlist chat_jid ∷ log)) sender ≡ some true
      → IsChanged cfg env chat_jid (elim args [ [] ↦ [] | a ∷ as' ↦ a ]) m m'
      → IsCommanded (cmd ∷ args) sender m m'
  commanded cmd args sender log m m' ok (inl e) = inl e
  commanded cmd [] sender log m m' ok (inr (given, accepted, changed)) = ground (arith, ==_refl [])
  commanded cmd (a ∷ args) sender log m m' ok (inr (given, accepted, changed)) =
      inr (cmd, a, args, log, refl, ok, given, accepted, changed)

  run_command-IsChanged :
      (cmd : Text) (args : List Text) (w : World)
      → IsChanged cfg env chat_jid
          (elim args [ [] ↦ [] | a ∷ as' ↦ a ])
          w.mem
          (run_command cfg env chat_jid cmd args w).1.mem
  unfolding run_command handle_models_command
  run_command-IsChanged cmd args w =
      let P : M (Option Bool) → Type 0 = λ (c : M (Option Bool)).
        IsChanged cfg env chat_jid (elim args [ [] ↦ [] | a ∷ as' ↦ a ]) w.mem (c w).1.mem in
      if_cases P (cmd == codes "models") _ _ (λ _. inl (list_models-mem _ _))
        (λ _.
          if_cases P (cmd == codes "model") _ _
            (λ _. handle_model_command-IsChanged cfg env chat_jid _ w)
            (λ _.
              if_cases P (cmd == codes "commands") _ _ (λ _. inl (say-mem cfg env chat_jid _ w))
                (λ _.
                  if_cases P (cmd == codes "help") _ _ (λ _. inl (say-mem cfg env chat_jid _ w))
                    (λ _. inl (say-mem cfg env chat_jid _ w)))))

  on_permission-IsCommanded :
      (f cmd : Text) (args : List Text) (sender : Text) (o : Option Bool) (log : List Call)
      (w : World)
      → is_allowed (env.allowlist (get_allowlist chat_jid ∷ log)) sender ≡ o
      → IsCommanded (f ∷ args) sender w.mem (on_permission cfg env chat_jid cmd args o w).1.mem
  unfolding on_permission
  on_permission-IsCommanded f cmd args sender none log w ok = inl (say-mem cfg env chat_jid _ w)
  on_permission-IsCommanded f cmd args sender (some false) log w ok =
      inl (say-mem cfg env chat_jid _ w)
  on_permission-IsCommanded f cmd args sender (some true) log w ok =
      commanded f args sender log _ _ ok (run_command-IsChanged cmd args w)

  on_fields-IsCommanded :
      (ws : List Text) (sender : Text) (w : World)
      → IsCommanded ws sender w.mem (on_fields cfg env chat_jid ws sender w).1.mem
  unfolding on_fields
  on_fields-IsCommanded [] sender w = inl refl
  on_fields-IsCommanded (f ∷ args) sender w =
      on_permission-IsCommanded f _ args sender _ w.log
        (record w { log = get_allowlist chat_jid ∷ w.log }) refl

  -- A slash command leaves the memory as it was, unless the second word of the trimmed message is
  -- a nonempty model, the allowlist of the chat lets the sender pass, and the model is one of the
  -- registry or of the lister for the provider of a group that the store gave for the chat: then
  -- it may instead leave the memory with that model at the chat's group, and with the session of a
  -- group that the store gave for the chat removed.
  pub handle_slash_command-IsCommanded :
      (content sender : Text) (w : World)
      → IsCommanded
          (fields (trim_space content))
          sender
          w.mem
          (handle_slash_command cfg env chat_jid content sender w).1.mem
  unfolding handle_slash_command
  handle_slash_command-IsCommanded content sender w =
      if_cases
        (λ (c : M (Option Bool)).
          IsCommanded (fields (trim_space content)) sender w.mem (c w).1.mem)
        (has_prefix (trim_space content) (codes "/")) _ _
        (λ _. on_fields-IsCommanded (fields (trim_space content)) sender w) (λ _. inl refl)
