-- ===== src/Orchestrator/Deactivate.antt =====
-- The closure `deactivate` of `watchGroupOutput` (internal/orchestrator/orchestrator.go), which
-- runs once when the agent of a chat is gone, and the goroutine that it starts.
pub mod Laws
mod Samples
pub mod Handover
use kraclaw.Prelude.{
  ℕ, zero, suc, Bool, true, false, ◌||◌, Text, List, [], ◌∷◌, Option, none, some, insert, remove,
  ltb, if◌then◌else◌,
}
use kraclaw.Prelude.Trace.{pure, ◌>>=◌, ◌>>◌}
use kraclaw.Store.{Message}
use kraclaw.Orchestrator.World.{
  Call, is_active, mark_inactive, get_messages_since, dequeue, enqueue, go_recover, QueueMessage,
  Memory, World, Config, Answers, M, ask, read, modify, Result, ok, err, cursor,
}
use kraclaw.Orchestrator.Cursors.{save_state}
use kraclaw.Orchestrator.Process.{claim_sandbox_slot, process_group_messages}

-- What the rounds of `Dequeue` gave: a message, nothing, or an error.
pub data Drained : Type 0 where
  found : QueueMessage → Drained
  nothing_queued dequeue_failed : Drained

abbrev pub drained_message : Drained → Option QueueMessage
drained_message (found q) = some q
drained_message _ = none

-- The agent cursor of a chat falls back to the confirmed one if that lies before it.
unfoldable pub roll_back : Text → Memory → Memory
roll_back chat_jid m =
    let confirmed = cursor chat_jid m.last_confirmed in
    if ltb confirmed (cursor chat_jid m.last_agent)
    then record m { last_agent = insert chat_jid confirmed m.last_agent }
    else m

-- Whether there is something to go on with: pending messages, one from the queue, or an error.
abbrev pub has_work : Option (List Message) → Drained → Bool
has_work none d = true
has_work (some (m ∷ ms)) d = true
has_work (some []) (found q) = true
has_work (some []) dequeue_failed = true
has_work (some []) nothing_queued = false

module _ (cfg : Config) (env : Answers) (chat_jid : Text) where
  -- The loop over `Dequeue`, with the rounds that are left.
  unfoldable pub drain : ℕ → M Drained
  drain zero = pure nothing_queued
  drain (suc rounds) =
      let rest = drain rounds in
      (do
        got ← ask (dequeue chat_jid) env.dequeued
        elim got [
          | none ↦ pure dequeue_failed
          | some o ↦ elim o [ none ↦ rest | some q ↦ pure (found q) ]
        ])

  -- A message that was taken from the queue goes back.
  pub requeue : Option QueueMessage → M (Unit {0})
  requeue none = pure tt
  requeue (some q) = do done ← ask (enqueue chat_jid q) env.done; pure tt

  pub resume : Option (List Message) → Drained → M (Unit {0})
  resume pending d =
      if has_work pending d
      then (do
        claimed ← claim_sandbox_slot chat_jid
        if claimed
            then ask (go_recover chat_jid (drained_message d)) (λ _. tt)
            else requeue (drained_message d))
      else pure tt

  -- From the removal of the sandbox on.
  pub recover : M (Unit {0})
  recover = do
    modify (λ m. record m { active_sandboxes = remove chat_jid m.active_sandboxes })
    modify (roll_back chat_jid)
    saved ← save_state cfg env
    m ← read
    pending ← ask (get_messages_since chat_jid (cursor chat_jid m.last_agent) 1) env.messages
    d ← drain 5
    resume pending d

  -- What follows the question whether the chat is active.
  pub on_status : Option Bool → M (Unit {0})
  on_status none = recover
  on_status (some false) = pure tt
  on_status (some true) = do
    marked ← ask (mark_inactive chat_jid) env.done
    if marked then recover else pure tt

  unfoldable pub deactivate : M (Unit {0})
  deactivate = do active ← ask (is_active chat_jid) env.flag; on_status active

  -- A message from the queue goes back unless an agent was started.
  pub after_recovery : Option QueueMessage → Result Bool → M (Unit {0})
  after_recovery q (ok true) = pure tt
  after_recovery q (ok false) = requeue q
  after_recovery q (err e) = requeue q

  -- The goroutine's body, with the release of the slot behind it.
  unfoldable pub recovery_run : Option QueueMessage → M (Unit {0})
  recovery_run q = do
    r ← process_group_messages cfg env chat_jid
    after_recovery q r
    modify (λ m. record m { inflight = remove chat_jid m.inflight })
