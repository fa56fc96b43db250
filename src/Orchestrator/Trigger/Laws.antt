-- ===== src/Orchestrator/Trigger/Laws.antt =====
-- Whose message may start an agent (internal/orchestrator/orchestrator.go).
use kraclaw.Prelude.{
  Bool, true, false, ◌||◌, Text, List, [], ◌∷◌, some, ◌≡◌, refl, ◌⊎◌, inl, inr, arith, Elem,
  if_cases, option_cases, Option-cases,
}
use kraclaw.Store.{Group, Message, SenderAllowlistEntry}
use kraclaw.Router.{matches_trigger}
use kraclaw.Auth.{is_allowed}
use kraclaw.Auth.Laws.{IsAdmitted, is_allowed_iff}
use kraclaw.Orchestrator.World.{Call, get_allowlist, World, Config, Answers, M, Result, ok}
use kraclaw.Orchestrator.Trigger.{has_trigger_message}

module _ (cfg : Config) (env : Answers) (chat_jid : Text) (group : Group) where
  abbrev checked : World → World
  checked w = record w { log = get_allowlist chat_jid ∷ w.log }

  -- Looking for a trigger only asks the store.
  pub has_trigger_message-mem :
      (ms : List Message) (w : World)
      → (has_trigger_message cfg env chat_jid group ms w).1.mem ≡ w.mem
  unfolding has_trigger_message
  has_trigger_message-mem [] w = refl
  has_trigger_message-mem (m ∷ ms) w =
      ground (arith, has_trigger_message-mem ms w, has_trigger_message-mem ms (checked w))

  -- The sender is the owner of the account, or the allowlist that the store answered with admits the
  -- sender: it is empty, or its first entry for the sender is a trigger entry.
  abbrev pub MayTrigger : Message → Type 0
  MayTrigger m =
      (m.is_from_me ≡ true)
      ⊎ ((log : List Call) × (es : List SenderAllowlistEntry) × (env.allowlist
              (get_allowlist chat_jid ∷ log)
            ≡ some es)
          × ((es ≡ []) ⊎ IsAdmitted m.sender es))

  allowed-MayTrigger :
      (m : Message) (w : World) (allowed : Bool)
      → is_allowed (env.allowlist (get_allowlist chat_jid ∷ w.log)) m.sender ≡ some allowed
      → m.is_from_me || allowed ≡ true
      → MayTrigger m
  allowed-MayTrigger m w true e h =
      elim (Option-cases (env.allowlist (get_allowlist chat_jid ∷ w.log))) [
        | inl failed ↦ absurd (unfold is_allowed in cc)
        | inr (es, got) ↦ inr (w.log, es, got, (is_allowed_iff es m.sender).0 (rw got at e))
      ]
  allowed-MayTrigger m w false e h = inl (ground arith)

  -- A batch passes only if it has a message that matches the group's trigger and whose sender may
  -- trigger: the account itself, or one whom the allowlist that the store answered with admits.
  pub has_trigger_message_sound :
      (ms : List Message) (w : World)
      → (has_trigger_message cfg env chat_jid group ms w).0 ≡ ok true
      → (m : Message) × Elem m ms
        × (matches_trigger cfg.tables m.content group.trigger_pattern ≡ true)
        × MayTrigger m
  unfolding has_trigger_message
  has_trigger_message_sound [] w = λ h. cc
  has_trigger_message_sound (m ∷ ms) w =
      if_cases (λ (c : M (Result Bool)). (c w).0 ≡ ok true → Found (m ∷ ms))
        (matches_trigger cfg.tables m.content group.trigger_pattern) _ _
        (λ hit.
          option_cases (λ (c : M (Result Bool)). (c (checked w)).0 ≡ ok true → Found (m ∷ ms))
            (is_allowed (env.allowlist (get_allowlist chat_jid ∷ w.log)) m.sender) _ _ (λ _ h. cc)
            λ allowed e.
              if_cases (λ (c : M (Result Bool)). (c (checked w)).0 ≡ ok true → Found (m ∷ ms))
                (m.is_from_me || allowed) _ _
                (λ may _. (m, inl refl, hit, allowed-MayTrigger m w allowed e may))
                (λ _ h. later (has_trigger_message_sound ms (checked w) h)))
        (λ _ h. later (has_trigger_message_sound ms w h))
    where
      Found : List Message → Type 0
      Found l =
          (x : Message) × Elem x l
          × (matches_trigger cfg.tables x.content group.trigger_pattern ≡ true)
          × MayTrigger x

      later : Found ms → Found (m ∷ ms)
      later (x, e, hit, may) = (x, inr e, hit, may)
