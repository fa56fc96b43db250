-- ===== src/Orchestrator/Deactivate/Laws.antt =====
-- What is kept when an agent is gone (internal/orchestrator/orchestrator.go).
use kraclaw.Prelude.{
  ℕ, zero, suc, Bool, true, false, none, Text, ◌==◌, ==_iff, List, ◌∷◌, Option, some, remove,
  if◌then◌else◌, ◌≡◌, refl, ap, ◌∙◌, arith,
}
use Prim.Native.Nat.{min}
use kraclaw.Store.{Message}
use kraclaw.Orchestrator.World.{
  is_active, mark_inactive, get_messages_since, dequeue, Memory, World, Config, Answers, cursor,
}
use kraclaw.Orchestrator.Cursors.{save_state}
use kraclaw.Orchestrator.Cursors.Laws.{save_state-mem}
use kraclaw.Orchestrator.Process.{claim_sandbox_slot}
use kraclaw.Orchestrator.Moves.{cursor-insert}
use kraclaw.Orchestrator.Deactivate.{
  Drained, roll_back, drain, requeue, resume, recover, on_status, deactivate,
}

-- The agent cursor of a chat is the earlier of its two cursors, and all other cursors are as they
-- were.
abbrev pub IsRolledBack : Text → Memory → Memory → Type 0
IsRolledBack chat_jid m m' =
    ((j : Text)
      → cursor j m'.last_agent ≡ (
          if chat_jid == j
          then min (cursor j m.last_agent) (cursor j m.last_confirmed)
          else cursor j m.last_agent))
    × (m'.last_confirmed ≡ m.last_confirmed)
    × (m'.last_timestamp ≡ m.last_timestamp)
    × (m'.active_sandboxes ≡ remove chat_jid m.active_sandboxes)

module _ (cfg : Config) (env : Answers) (chat_jid : Text) where
  drain-mem : (n : ℕ) (w : World) → (drain cfg env chat_jid n w).1.mem ≡ w.mem
  unfolding drain
  drain-mem zero w = refl
  drain-mem (suc n) w = ground (arith, drain-mem n (record w { log = dequeue chat_jid ∷ w.log }))

  roll_back-IsRolledBack :
      (m : Memory)
      → IsRolledBack chat_jid m
          (roll_back chat_jid (record m { active_sandboxes = remove chat_jid m.active_sandboxes }))
  unfolding roll_back
  roll_back-IsRolledBack m = (
    λ j. ground (
      arith,
      cursor-insert chat_jid j (cursor chat_jid m.last_confirmed) m.last_agent,
      ==_iff chat_jid j,
    ),
    ground arith,
    ground arith,
    ground arith,
  )

  -- A memory that a save, the questions and the claim of a slot have left.
  abbrev SameCursors : Memory → Memory → Type 0
  SameCursors m m' =
      (m'.last_agent ≡ m.last_agent)
      × (m'.last_confirmed ≡ m.last_confirmed)
      × (m'.last_timestamp ≡ m.last_timestamp)
      × (m'.active_sandboxes ≡ m.active_sandboxes)

  resume-SameCursors :
      (pending : Option (List Message)) (d : Drained) (w : World)
      → SameCursors w.mem (resume cfg env chat_jid pending d w).1.mem
  unfolding resume requeue claim_sandbox_slot
  resume-SameCursors pending d w = ground arith

  -- Where the sandbox is forgotten, the cursor rolled back and the state saved.
  abbrev rolled : World → World
  rolled w =
      (save_state cfg env (record w {
        mem =
            roll_back chat_jid
              (record w.mem { active_sandboxes = remove chat_jid w.mem.active_sandboxes });
      })).1

  abbrev drained : World → Drained × World
  drained w = drain cfg env chat_jid 5 (record (rolled w) {
    log =
        get_messages_since chat_jid (cursor chat_jid (rolled w).mem.last_agent) 1 ∷ (rolled w).log;
  })

  recover-IsRolledBack :
      (w : World) → IsRolledBack chat_jid w.mem (recover cfg env chat_jid w).1.mem
  unfolding recover
  recover-IsRolledBack w =
      let (a, c, t, s) =
        resume-SameCursors
          (env.messages (
            get_messages_since chat_jid (cursor chat_jid (rolled w).mem.last_agent) 1
            ∷ (rolled w).log))
          (drained w).0 (drained w).1 in
      let same = drain-mem 5 _ ∙ save_state-mem cfg env _ in
      let (ra, rc, rt, rs) = roll_back-IsRolledBack w.mem in
      (
        λ j. ap (cursor j) (a ∙ ap (λ m. m.last_agent) same) ∙ ra j,
        c ∙ (ap (λ m. m.last_confirmed) same ∙ rc),
        t ∙ (ap (λ m. m.last_timestamp) same ∙ rt),
        s ∙ (ap (λ m. m.active_sandboxes) same ∙ rs),
      )

  -- What the answers on the chat's activity and on the removal of its mark ask for.
  abbrev pub OnAnswers : Option Bool → Bool → Memory → Memory → Type 0
  OnAnswers none marked m m' = IsRolledBack chat_jid m m'
  OnAnswers (some false) marked m m' = m' ≡ m
  OnAnswers (some true) false m m' = m' ≡ m
  OnAnswers (some true) true m m' = IsRolledBack chat_jid m m'

  abbrev pub Deactivated : World → Memory → Type 0
  Deactivated w m' =
      OnAnswers (env.flag (is_active chat_jid ∷ w.log))
        (env.done (mark_inactive chat_jid ∷ is_active chat_jid ∷ w.log)) w.mem m'

  on_status-OnAnswers :
      (a : Option Bool) (b : Bool) (w : World)
      → env.done (mark_inactive chat_jid ∷ w.log) ≡ b
      → OnAnswers a b w.mem (on_status cfg env chat_jid a w).1.mem
  unfolding on_status
  on_status-OnAnswers none b w e = recover-IsRolledBack w
  on_status-OnAnswers (some false) b w e = refl
  on_status-OnAnswers (some true) false w e = rw e refl
  on_status-OnAnswers (some true) true w e =
      rw e (recover-IsRolledBack (record w { log = mark_inactive chat_jid ∷ w.log }))

  -- A deactivation of a chat that is not active leaves the memory alone, and so does one of an
  -- active chat whose mark the store does not take off. Otherwise, that is if the mark is taken off
  -- or if the question failed, the chat's sandbox is forgotten and its agent cursor becomes the
  -- earlier of its two cursors, so that what the agent has not confirmed is found again; no other
  -- cursor moves.
  pub deactivate_rolls_back : (w : World) → Deactivated w (deactivate cfg env chat_jid w).1.mem
  unfolding deactivate
  deactivate_rolls_back w =
      on_status-OnAnswers (env.flag (is_active chat_jid ∷ w.log)) _
        (record w { log = is_active chat_jid ∷ w.log }) refl
