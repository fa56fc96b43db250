-- ===== src/Orchestrator/Process/Laws.antt =====
-- Admission and cursors of `processGroupMessages` (internal/orchestrator/orchestrator.go).
use kraclaw.Prelude.{
  ℕ, ◌+◌, ◌<◌, Bool, true, false, Text, List, [], ◌∷◌, Option, none, some, lookup, leb, ◌≡◌, refl,
  ap, subst, ◌⊎◌, inl, inr, arith, if_cases, option_cases, ◌≢◌,
}
use kraclaw.Store.{Group, Message}
use kraclaw.Orchestrator.World.{
  Call, active_count, get_messages_since, Memory, World, Config, Answers, M, Result, ok, err,
  cursor,
}
use kraclaw.Orchestrator.Process.{
  others, last_time, session_of, check_trigger, admit, on_trigger, on_messages,
  process_group_messages,
}
use kraclaw.Orchestrator.Moves.{IsUnmoved, IsMovedTo}
use kraclaw.Orchestrator.Process.Starts.{check_trigger-mem, start_agent_cursors}

-- The store counted fewer active chats than there is room for, with the slots of others.
abbrev pub HasRoom : Config → Answers → Text → Memory → Type 0
HasRoom cfg env chat_jid m =
    (log : List Call) × (active : ℕ) × (env.count (active_count ∷ log) ≡ some active)
    × (active + others chat_jid m.inflight < cfg.max_concurrent)

-- Started within the capacity and moved to a time, or not started and unmoved.
abbrev pub Admitted : Config → Answers → Text → ℕ → Memory → Result Bool × World → Type 0
Admitted cfg env chat_jid t m r =
    ((r.0 ≡ ok true) × IsMovedTo chat_jid t m r.1.mem × HasRoom cfg env chat_jid m)
    ⊎ ((r.0 ≢ ok true) × IsUnmoved m r.1.mem)

module _ (cfg : Config) (env : Answers) (chat_jid : Text) (group : Group) (session_id : Text)
    (m : Message) (ms : List Message) (w : World) where
  admit-Admitted :
      Admitted cfg env chat_jid
        (last_time m ms)
        w.mem
        (admit cfg env chat_jid group (cursor chat_jid w.mem.last_agent) session_id m ms w)
  unfolding admit
  admit-Admitted =
      option_cases (λ (c : M (Result Bool)). Here (c counted)) (env.count counted.log) _ _
        (λ _. inr (λ p. cc, still))
        λ active known.
          if_cases (λ (c : M (Result Bool)). Here (c counted))
            (leb cfg.max_concurrent (active + others chat_jid w.mem.inflight)) _ _
            (λ _. inr (λ p. cc, still))
            (λ room. elim (start_agent_cursors cfg env chat_jid group session_id m ms counted) [
              | inl (started, moved) ↦ inl (started, moved, (w.log, active, known, ground arith))
              | inr kept ↦ inr kept
            ])
    where
      counted : World
      counted = record w { log = active_count ∷ w.log }

      Here : Result Bool × World → Type 0
      Here = Admitted cfg env chat_jid (last_time m ms) w.mem

      still : IsUnmoved w.mem w.mem
      still = (λ j. refl, λ j. refl)

-- What a call on a chat leaves, from a memory: it has started an agent for the messages that the
-- store gave behind the chat's cursor, or all cursors are as before.
abbrev pub Processed : Config → Answers → Text → Memory → Result Bool × World → Type 0
Processed cfg env chat_jid m r =
    ((log : List Call) × (first : Message) × (rest : List Message) × (env.messages
          (get_messages_since chat_jid (cursor chat_jid m.last_agent) cfg.message_limit ∷ log)
        ≡ some (first ∷ rest))
      × Admitted cfg env chat_jid (last_time first rest) m r)
    ⊎ ((r.0 ≢ ok true) × IsUnmoved m r.1.mem)

module _ (cfg : Config) (env : Answers) (chat_jid : Text) (w : World) where
  unmoved : (w' : World) → w'.mem ≡ w.mem → IsUnmoved w.mem w'.mem
  unmoved w' e =
      (λ j. ap (λ x. cursor j x.last_agent) e, λ j. ap (λ x. cursor j x.last_confirmed) e)

  module _ (group : Group) (session_id : Text) where
    on_trigger-Admitted :
        (m : Message) (ms : List Message) (r : Result Bool) (w' : World)
        → w'.mem ≡ w.mem
        → Admitted cfg env chat_jid (last_time m ms) w.mem (
            on_trigger cfg env chat_jid group
              (cursor chat_jid w.mem.last_agent)
              session_id
              m
              ms
              r
              w')
    unfolding on_trigger
    on_trigger-Admitted m ms (err e) w' same = inr (λ p. cc, unmoved w' same)
    on_trigger-Admitted m ms (ok false) w' same = inr (λ p. cc, unmoved w' same)
    on_trigger-Admitted m ms (ok true) w' same =
        subst
          (λ mem.
            Admitted cfg env chat_jid (last_time m ms) mem
              (admit cfg env chat_jid group (cursor chat_jid mem.last_agent) session_id m ms w'))
          same (admit-Admitted cfg env chat_jid group session_id m ms w')

    on_messages-Processed :
        (got : Option (List Message))
        → let asked =
            get_messages_since chat_jid (cursor chat_jid w.mem.last_agent) cfg.message_limit in
          env.messages (asked ∷ w.log) ≡ got
          → Processed cfg env chat_jid w.mem (
              on_messages cfg env chat_jid group
                (cursor chat_jid w.mem.last_agent)
                session_id
                got
                (record w { log = asked ∷ w.log }))
    unfolding on_messages
    on_messages-Processed none e = inr (λ p. cc, unmoved w refl)
    on_messages-Processed (some []) e = inr (λ p. cc, unmoved w refl)
    on_messages-Processed (some (m ∷ ms)) e =
        let asked : World = record w {
          log =
              get_messages_since chat_jid (cursor chat_jid w.mem.last_agent) cfg.message_limit
              ∷ w.log;
        } in
        let checked = check_trigger cfg env chat_jid group (m ∷ ms) asked in
        inl (
          w.log,
          m,
          ms,
          e,
          on_trigger-Admitted m ms checked.0 checked.1
              (check_trigger-mem cfg env chat_jid group (m ∷ ms) asked),
        )

  -- A call that starts an agent had room for it, and moves both cursors of the chat to the last of
  -- the messages that the store gave behind the chat's cursor; a call that does not, whatever it
  -- fails on, leaves the cursors of all chats as they were, so that the messages are found again.
  pub process_group_messages_cursors :
      Processed cfg env chat_jid w.mem (process_group_messages cfg env chat_jid w)
  unfolding process_group_messages
  process_group_messages_cursors =
      option_cases (λ (c : M (Result Bool)). Processed cfg env chat_jid w.mem (c w))
        (lookup chat_jid w.mem.registered_groups) _ _ (λ _. inr (λ p. cc, unmoved w refl))
        λ group _. on_messages-Processed group (session_of group.folder w.mem.sessions) _ refl
