-- ===== src/Orchestrator/Deactivate/Handover.antt =====
-- Where a message of the queue goes when an agent is gone (internal/orchestrator/orchestrator.go).
use kraclaw.Prelude.{
  ℕ, zero, suc, lookup, remove, if_cases, Bool, true, false, Text, List, [], ◌∷◌, Option, none,
  some, if◌then◌else◌, ◌≡◌, refl, ap, ◌∙◌, sym, subst, ◌⊎◌, inl, inr, option_cases,
}
use kraclaw.Store.{Message}
use kraclaw.Orchestrator.World.{
  Call, is_active, mark_inactive, get_messages_since, set_state, dequeue, enqueue, go_recover,
  QueueMessage, World, Config, Answers, M, ask, cursor,
}
use kraclaw.Prelude.Trace.{pure}
use kraclaw.Orchestrator.Cursors.{save_state}
use kraclaw.Orchestrator.Cursors.Laws.{save_state-log}
use kraclaw.Orchestrator.Process.{claim_sandbox_slot}
use kraclaw.Orchestrator.Deactivate.{
  Drained, found, nothing_queued, dequeue_failed, drained_message, has_work, roll_back, drain,
  requeue, resume, recover, on_status, deactivate,
}

-- The message that an answer of `Dequeue` holds, with its chat.
abbrev pub taken : Text → Option (Option QueueMessage) → Option (Text × QueueMessage)
taken j none = none
taken j (some none) = none
taken j (some (some q)) = some (j, q)

-- The message that the newest call took from the queue, if it is a call of `Dequeue`.
abbrev pub held : Answers → List Call → Option (Text × QueueMessage)
held env [] = none
held env (dequeue j ∷ log) = taken j (env.dequeued (dequeue j ∷ log))
held env (_ ∷ log) = none

-- A call that passes a taken message on: back into the queue of its chat, or to the goroutine that
-- goes on with that chat.
abbrev pub PassesOn : Call → Option (Text × QueueMessage) → Type 0
PassesOn c none = Unit
PassesOn c (some (j, q)) = (c ≡ enqueue j q) ⊎ (c ≡ go_recover j (some q))

-- Every message that was taken from a queue is passed on by the very next call.
abbrev pub AllPassedOn : Answers → List Call → Type 0
AllPassedOn env [] = Unit
AllPassedOn env (c ∷ log) = PassesOn c (held env log) × AllPassedOn env log

-- And the newest call took none.
abbrev pub IsSettled : Answers → List Call → Type 0
IsSettled env log = AllPassedOn env log × (held env log ≡ none)

-- The messages that were handed to a queue which did not take them, the newest first.
unfoldable pub lost : Answers → List Call → List (Text × QueueMessage)
lost env [] = []
lost env (enqueue j q ∷ log) =
    let before = lost env log in if env.done (enqueue j q ∷ log) then before else (j, q) ∷ before
lost env (_ ∷ log) = lost env log

module _ (cfg : Config) (env : Answers) (chat_jid : Text) (gone : List (Text × QueueMessage)) where
  -- Settled, with the messages lost that were lost before.
  abbrev pub IsKept : List Call → Type 0
  IsKept log = IsSettled env log × (lost env log ≡ gone)

  -- The newest call handed a message back to the queue of the chat, which did not take it; no other
  -- message was lost.
  abbrev pub LosesOne : List Call → Type 0
  LosesOne log =
      (q : QueueMessage) × (log' : List Call) × (log ≡ enqueue chat_jid q ∷ log')
      × (env.done log ≡ false)
      × (lost env log ≡ (chat_jid, q) ∷ gone)

  abbrev pub IsHandedOver : List Call → Type 0
  IsHandedOver log = IsSettled env log × ((lost env log ≡ gone) ⊎ LosesOne log)

  IsKept-cons :
      (c : Call) (log : List Call)
      → IsKept log
      → held env (c ∷ log) ≡ none
      → lost env (c ∷ log) ≡ lost env log
      → IsKept (c ∷ log)
  IsKept-cons c log ((all, e), l) h k = (((subst (PassesOn c) (sym e) tt, all), h), k ∙ l)

  IsKept-IsHandedOver : (log : List Call) → IsKept log → IsHandedOver log
  IsKept-IsHandedOver log (settled, l) = (settled, inl l)

  -- What the rounds of `Dequeue` leave: the message that they found is what the newest call took.
  Holds : Drained → List Call → Type 0
  Holds (found q) log =
      AllPassedOn env log × (held env log ≡ some (chat_jid, q)) × (lost env log ≡ gone)
  Holds nothing_queued log = IsKept log
  Holds dequeue_failed log = IsKept log

  drain-Holds :
      (n : ℕ) (w : World)
      → IsKept w.log
      → Holds (drain cfg env chat_jid n w).0 (drain cfg env chat_jid n w).1.log
  unfolding drain Holds lost
  drain-Holds zero w h = h
  drain-Holds (suc n) w ((all, e), l) =
      let w1 : World = record w { log = dequeue chat_jid ∷ w.log } in
      let passed : AllPassedOn env w1.log = (subst (PassesOn (dequeue chat_jid)) (sym e) tt, all) in
      let more = λ (k : held env w1.log ≡ none). drain-Holds n w1 ((passed, k), l) in
      option_cases (λ (c : M Drained). Holds (c w1).0 (c w1).1.log) (env.dequeued w1.log) _ _
        (λ a. ((passed, ap (taken chat_jid) a), l))
        λ o a.
          option_cases (λ (c : M Drained). Holds (c w1).0 (c w1).1.log) o _ _
            (λ b. more (ap (taken chat_jid) (a ∙ ap some b)))
            (λ q b. (passed, ap (taken chat_jid) (a ∙ ap some b), l))

  save_state-IsKept : (w : World) → IsKept w.log → IsKept (save_state cfg env w).1.log
  unfolding lost
  save_state-IsKept w h =
      save_state-log cfg env IsKept
        (λ key value log k. IsKept-cons (set_state key value) log k refl refl) w h

  requeue-IsHandedOver :
      (d : Drained) (w : World)
      → Holds d w.log
      → IsHandedOver (requeue cfg env chat_jid (drained_message d) w).1.log
  unfolding requeue Holds lost
  requeue-IsHandedOver (found q) w (all, e, l) =
      let log = enqueue chat_jid q ∷ w.log in
      (
        ((subst (PassesOn (enqueue chat_jid q)) (sym e) (inl refl), all), refl),
        answered (env.done log) refl,
      )
    where
      answered :
          (b : Bool)
          → env.done (enqueue chat_jid q ∷ w.log) ≡ b
          → (lost env (enqueue chat_jid q ∷ w.log) ≡ gone) ⊎ LosesOne (enqueue chat_jid q ∷ w.log)
      answered true a = inl (rw a l)
      answered false a = inr (q, w.log, refl, a, rw a (ap (λ ms. (chat_jid, q) ∷ ms) l))
  requeue-IsHandedOver nothing_queued w h = IsKept-IsHandedOver w.log h
  requeue-IsHandedOver dequeue_failed w h = IsKept-IsHandedOver w.log h

  go_recover-IsKept :
      (d : Drained) (log : List Call)
      → Holds d log
      → IsKept (go_recover chat_jid (drained_message d) ∷ log)
  unfolding Holds lost
  go_recover-IsKept (found q) log (all, e, l) =
      (((subst (PassesOn (go_recover chat_jid (some q))) (sym e) (inr refl), all), refl), l)
  go_recover-IsKept nothing_queued log h = IsKept-cons (go_recover chat_jid none) log h refl refl
  go_recover-IsKept dequeue_failed log h = IsKept-cons (go_recover chat_jid none) log h refl refl

  work :
      (pending : Option (List Message)) (d : Drained) (log : List Call)
      → has_work pending d ≡ false
      → Holds d log
      → IsKept log
  unfolding Holds
  work none d log e h = cc
  work (some (m ∷ ms)) d log e h = cc
  work (some []) (found q) log e h = cc
  work (some []) dequeue_failed log e h = h
  work (some []) nothing_queued log e h = h

  resume-IsHandedOver :
      (pending : Option (List Message)) (d : Drained) (w : World)
      → Holds d w.log
      → IsHandedOver (resume cfg env chat_jid pending d w).1.log
  unfolding resume claim_sandbox_slot
  resume-IsHandedOver pending d w h =
      if_cases (λ (c : M (Unit {0})). IsHandedOver (c w).1.log) (has_work pending d) _ _
        (λ _.
          option_cases
            (λ (c : M Bool).
              IsHandedOver
                ((if (c w).0
                    then ask (go_recover chat_jid (drained_message d)) (λ _. tt)
                    else requeue cfg env chat_jid (drained_message d))
                  (c w).1).1.log)
            (lookup chat_jid w.mem.inflight) _ _
            (λ _. IsKept-IsHandedOver _ (go_recover-IsKept d w.log h))
            (λ _ _. requeue-IsHandedOver d w h))
        (λ e. IsKept-IsHandedOver w.log (work pending d w.log e h))

  recover-IsHandedOver :
      (w : World) → IsKept w.log → IsHandedOver (recover cfg env chat_jid w).1.log
  unfolding recover lost
  recover-IsHandedOver w h =
      let rolled : World =
        (save_state cfg env (record w {
          mem =
              roll_back chat_jid
                (record w.mem { active_sandboxes = remove chat_jid w.mem.active_sandboxes });
        })).1 in
      let asked : World = record rolled {
        log = get_messages_since chat_jid (cursor chat_jid rolled.mem.last_agent) 1 ∷ rolled.log;
      } in
      let kept = save_state-IsKept _ h in
      resume-IsHandedOver _ (drain cfg env chat_jid 5 asked).0 (drain cfg env chat_jid 5 asked).1
        (drain-Holds 5 asked (IsKept-cons _ rolled.log kept refl refl))

  on_status-IsHandedOver :
      (a : Option Bool) (w : World)
      → IsKept w.log
      → IsHandedOver (on_status cfg env chat_jid a w).1.log
  unfolding on_status lost
  on_status-IsHandedOver none w h = recover-IsHandedOver w h
  on_status-IsHandedOver (some false) w h = IsKept-IsHandedOver w.log h
  on_status-IsHandedOver (some true) w h =
      let marked : World = record w { log = mark_inactive chat_jid ∷ w.log } in
      let kept = IsKept-cons (mark_inactive chat_jid) w.log h refl refl in
      if_cases (λ (c : M (Unit {0})). IsHandedOver (c marked).1.log) (env.done marked.log)
        (recover cfg env chat_jid) (pure tt) (λ _. recover-IsHandedOver marked kept)
        (λ _. IsKept-IsHandedOver marked.log kept)

  -- If behind every message taken from a queue so far the very next call hands on the same message,
  -- to the queue of its chat or to the goroutine that goes on with that chat, this holds behind a
  -- deactivation too, whatever the other components answer. And of the messages handed to a queue,
  -- the deactivation loses none, or exactly one, and that only where its last call hands this
  -- message back to the queue of the chat and the queue does not take it.
  pub deactivate-IsHandedOver :
      (w : World) → IsKept w.log → IsHandedOver (deactivate cfg env chat_jid w).1.log
  unfolding deactivate lost
  deactivate-IsHandedOver w h =
      on_status-IsHandedOver (env.flag (is_active chat_jid ∷ w.log))
        (record w { log = is_active chat_jid ∷ w.log })
        (IsKept-cons (is_active chat_jid) w.log h refl refl)
