-- ===== src/Orchestrator/Commands/Laws.antt =====
-- What a change of the model leaves in memory (internal/orchestrator/commands.go).
pub mod Models
pub mod Access
pub mod Endless
mod Samples
use kraclaw.Prelude.{
  Bool, true, false, Text, List, ◌∷◌, Option, none, some, ◌≡◌, refl, arith, if_cases, option_cases,
}
use kraclaw.Store.{Group}
use kraclaw.Orchestrator.World.{
  Call, get_group, upsert_group, delete_session, Memory, World, Config, Answers, M,
}
use kraclaw.Orchestrator.Agent.{route}
use kraclaw.Orchestrator.Agent.Sends.{route-mem}
use kraclaw.Orchestrator.Commands.Model.{
  say, remodel, with_model, store_model, update_group_model, send_update,
}

module _ (cfg : Config) (env : Answers) (chat_jid : Text) where
  pub say-mem : (text : Text) (w : World) → (say cfg env chat_jid text w).1.mem ≡ w.mem
  unfolding say
  say-mem text w =
      option_cases (λ (c : M (Option Bool)). (c (route cfg env chat_jid text w).1).1.mem ≡ w.mem)
        (route cfg env chat_jid text w).0 _ _ (λ _. route-mem cfg env chat_jid text w)
        (λ _ _. route-mem cfg env chat_jid text w)

  pub send_update-mem :
      (model : Text) (active : Option Bool) (w : World)
      → (send_update cfg env chat_jid model active w).1.mem ≡ w.mem
  unfolding send_update
  send_update-mem model none w = refl
  send_update-mem model (some false) w = refl
  send_update-mem model (some true) w = ground arith

  -- What changing a model leaves: the memory as it was without success, else with the new model at
  -- a group that the store gave, and that it took with its session deleted.
  abbrev pub IsUpdated : Text → Memory → Bool × World → Type 0
  IsUpdated model m (false, w') = w'.mem ≡ m
  IsUpdated model m (true, w') =
      (g : Group) × (log : List Call) × (env.group (get_group chat_jid ∷ log) ≡ some (some g))
      × (env.done w'.log ≡ true)
      × (w'.mem ≡ remodel chat_jid model g m)

  pub update-IsUpdated :
      (model : Text) (w : World)
      → let r = update_group_model cfg env chat_jid model w in IsUpdated model w.mem (r.0, r.1)
  unfolding update_group_model
  update-IsUpdated model w = split (env.group (get_group chat_jid ∷ w.log)) refl
    where
      split :
          (o : Option (Option Group))
          → env.group (get_group chat_jid ∷ w.log) ≡ o
          → let r =
              store_model cfg env chat_jid model o
                (record w { log = get_group chat_jid ∷ w.log }) in
            IsUpdated model w.mem (r.0, r.1)
      split none e = unfold store_model in refl
      split (some none) e = unfold store_model in refl
      split (some (some g)) e =
          unfold store_model in
          if_cases
            (λ (c : M Bool).
              let r = c (record w {
                log =
                    upsert_group
                      (record g { container_config = some (with_model model g.container_config) })
                    ∷ get_group chat_jid
                    ∷ w.log;
              }) in
              IsUpdated model w.mem (r.0, r.1))
            (env.done _) _ _
            (λ stored.
              if_cases
                (λ (c : M Bool).
                  let r = c (record w {
                    log =
                        delete_session g.folder
                        ∷ upsert_group (record g {
                          container_config = some (with_model model g.container_config);
                        })
                        ∷ get_group chat_jid
                        ∷ w.log;
                  }) in
                  IsUpdated model w.mem (r.0, r.1))
                (env.done _) _ _ (λ deleted. (g, w.log, e, deleted, refl)) (λ _. refl))
            (λ _. refl)
