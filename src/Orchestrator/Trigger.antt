-- ===== src/Orchestrator/Trigger.antt =====
-- `hasTriggerMessage` of internal/orchestrator/orchestrator.go.
pub mod Laws
mod Samples
use kraclaw.Prelude.{
  Bool, true, false, ◌||◌, Text, codes, List, [], ◌∷◌, Option, none, some, if◌then◌else◌,
}
use kraclaw.Prelude.Trace.{pure, ◌>>=◌}
use kraclaw.Store.{Group, Message}
use kraclaw.Router.{matches_trigger}
use kraclaw.Auth.{is_allowed}
use kraclaw.Orchestrator.World.{Call, get_allowlist, Config, Answers, M, ask, Result, ok, err}

module _ (cfg : Config) (env : Answers) (chat_jid : Text) (group : Group) where
  unfoldable pub has_trigger_message : List Message → M (Result Bool)
  has_trigger_message [] = pure (ok false)
  has_trigger_message (m ∷ ms) =
      let rest = has_trigger_message ms in
      if matches_trigger cfg.tables m.content group.trigger_pattern
      then (do
        entries ← ask (get_allowlist chat_jid) env.allowlist
        elim (is_allowed entries m.sender) [
          | none ↦ pure (err (codes "allowlist check"))
          | some allowed ↦ if m.is_from_me || allowed then pure (ok true) else rest
        ])
      else rest
