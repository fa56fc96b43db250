-- ===== src/Orchestrator/Poll/Dispatch.antt =====
-- What one chat of a poll does to the cursors (internal/orchestrator/orchestrator.go).
use kraclaw.Prelude.{
  ℕ, Bool, true, false, Text, ◌==◌, ==_iff, List, [], ◌∷◌, Option, none, some, Map, lookup, insert,
  if◌then◌else◌, ◌≡◌, refl, Bool-cases, ap, ◌∙◌, sym, subst, ◌⊎◌, inl, inr, arith, option_cases,
  if_cases,
}
use kraclaw.Prelude.Trace.{pure}
use kraclaw.Store.{Group, Message}
use kraclaw.Router.{format_messages_for_agent}
use kraclaw.Orchestrator.World.{
  Call, get_messages_since, is_active, send_input, go_process, Memory, World, Config, Answers, M,
  ask, Result, ok, err, cursor,
}
use kraclaw.Orchestrator.Cursors.Laws.{save_state-mem}
use kraclaw.Orchestrator.Moves.{cursor-insert}
use kraclaw.Orchestrator.Spawn.{to_agent}
use kraclaw.Orchestrator.Process.{claim_sandbox_slot, last_time, check_trigger}
use kraclaw.Orchestrator.Process.Starts.{check_trigger-mem}
use kraclaw.Orchestrator.Poll.{pipe, on_pending, on_agent, on_check, dispatch}

module _ (cfg : Config) (env : Answers) (groups : Map Group) where
  -- Messages went to the agent of a registered chat, the last of them at a time.
  abbrev pub WasPiped : Text → ℕ → Type 0
  WasPiped j t =
      (g : Group) × (first : Message) × (rest : List Message) × (payload : Text) × (log : List Call)
      × (lookup j groups ≡ some g)
      × (cfg.marshal_messages
            (format_messages_for_agent cfg.tables (first ∷ rest) cfg.assistant_name)
          ≡ some payload)
      × (env.done (send_input g.folder (to_agent g.folder payload) ∷ log) ≡ true)
      × (last_time first rest ≡ t)

  -- The groups and the confirmed cursors stay; an agent cursor stays, or moves behind messages that
  -- went to the chat's agent.
  abbrev pub IsPolled : Memory → Memory → Type 0
  IsPolled m m' =
      (m'.registered_groups ≡ m.registered_groups)
      × (m'.last_confirmed ≡ m.last_confirmed)
      × ((j : Text)
          → (cursor j m'.last_agent ≡ cursor j m.last_agent) ⊎ WasPiped j (cursor j m'.last_agent))

  pub same-IsPolled : (m m' : Memory) → m' ≡ m → IsPolled m m'
  same-IsPolled m m' e = (
    ap (λ x. x.registered_groups) e,
    ap (λ x. x.last_confirmed) e,
    λ j. inl (ap (λ x. cursor j x.last_agent) e),
  )

  pub trans-IsPolled : (a b c : Memory) → IsPolled a b → IsPolled b c → IsPolled a c
  trans-IsPolled a b c (g, k, h) (g', k', h') = (
    g' ∙ g,
    k' ∙ k,
    λ j. elim (h' j) [
      | inr p ↦ inr p
      | inl e ↦ elim (h j) [ inl d ↦ inl (e ∙ d) | inr p ↦ inr (subst (WasPiped j) (sym e) p) ]
    ],
  )

  module _ (chat_jid : Text) (group : Group) (known : lookup chat_jid groups ≡ some group) where
    pipe-IsPolled :
        (m : Message) (ms : List Message) (w : World)
        → IsPolled w.mem (pipe cfg env chat_jid group m ms w).1.mem
    unfolding pipe
    pipe-IsPolled m ms w =
        option_cases (λ (c : M (Unit {0})). IsPolled w.mem (c w).1.mem)
          (cfg.marshal_messages (format_messages_for_agent cfg.tables (m ∷ ms) cfg.assistant_name))
          _ _ (λ _. same-IsPolled w.mem w.mem refl)
          λ payload marshalled.
            let sent : World = record w {
              log = send_input group.folder (to_agent group.folder payload) ∷ w.log;
            } in
            if_cases (λ (c : M (Unit {0})). IsPolled w.mem (c sent).1.mem) (env.done sent.log) _ _
              (λ went.
                subst (IsPolled w.mem) (sym (save_state-mem cfg env (moved sent)))
                  (refl, refl, λ j. moves payload marshalled went j))
              (λ _. same-IsPolled w.mem w.mem refl)
      where
        moved : World → World
        moved v = record v {
          mem = record v.mem { last_agent = insert chat_jid (last_time m ms) v.mem.last_agent };
        }

        moves :
            (payload : Text)
            → cfg.marshal_messages
                (format_messages_for_agent cfg.tables (m ∷ ms) cfg.assistant_name)
              ≡ some payload
            → env.done (send_input group.folder (to_agent group.folder payload) ∷ w.log) ≡ true
            → (j : Text)
            → (cursor j (insert chat_jid (last_time m ms) w.mem.last_agent)
                ≡ cursor j w.mem.last_agent)
              ⊎ WasPiped j (cursor j (insert chat_jid (last_time m ms) w.mem.last_agent))
        moves payload marshalled went j = elim (Bool-cases (chat_jid == j)) [
          | inl here ↦
              let e : chat_jid ≡ j = (==_iff chat_jid j).0 here in
              inr (
                group,
                m,
                ms,
                payload,
                w.log,
                ap (λ k. lookup k groups) (sym e) ∙ known,
                marshalled,
                went,
                sym (
                    cursor-insert chat_jid j (last_time m ms) w.mem.last_agent
                    ∙ ground (arith, here)),
              )
          | inr other ↦
              inl
                (cursor-insert chat_jid j (last_time m ms) w.mem.last_agent ∙ ground (arith, other))
        ]

    on_pending-IsPolled :
        (m : Message) (ms : List Message) (pending : Option (List Message)) (w : World)
        → IsPolled w.mem (on_pending cfg env chat_jid group m ms pending w).1.mem
    unfolding on_pending
    on_pending-IsPolled m ms none w = same-IsPolled w.mem w.mem refl
    on_pending-IsPolled m ms (some []) w = pipe-IsPolled m ms w
    on_pending-IsPolled m ms (some (p ∷ ps)) w = pipe-IsPolled p ps w

    on_agent-IsPolled :
        (m : Message) (ms : List Message) (active : Option Bool) (w : World)
        → IsPolled w.mem (on_agent cfg env chat_jid group m ms active w).1.mem
    unfolding on_agent claim_sandbox_slot
    on_agent-IsPolled m ms none w = same-IsPolled w.mem w.mem refl
    on_agent-IsPolled m ms (some true) w =
        let asked =
          get_messages_since chat_jid (cursor chat_jid w.mem.last_agent) cfg.message_limit in
        on_pending-IsPolled m ms (env.messages (asked ∷ w.log)) (record w { log = asked ∷ w.log })
    on_agent-IsPolled m ms (some false) w =
        option_cases
          (λ (c : M Bool).
            IsPolled w.mem
              ((if (c w).0 then ask (go_process chat_jid) (λ _. tt) else pure tt) (c w).1).1.mem)
          (lookup chat_jid w.mem.inflight) _ _ (λ _. (refl, refl, λ j. inl refl))
          (λ _ _. same-IsPolled w.mem w.mem refl)

    on_check-IsPolled :
        (m : Message) (ms : List Message) (r : Result Bool) (w : World)
        → IsPolled w.mem (on_check cfg env chat_jid group m ms r w).1.mem
    unfolding on_check
    on_check-IsPolled m ms (err e) w = same-IsPolled w.mem w.mem refl
    on_check-IsPolled m ms (ok false) w = same-IsPolled w.mem w.mem refl
    on_check-IsPolled m ms (ok true) w =
        on_agent-IsPolled m ms _ (record w { log = is_active chat_jid ∷ w.log })

  pub dispatch-IsPolled :
      (chat_jid : Text) (m : Message) (ms : List Message) (w : World)
      → w.mem.registered_groups ≡ groups
      → IsPolled w.mem (dispatch cfg env chat_jid m ms w).1.mem
  unfolding dispatch
  dispatch-IsPolled chat_jid m ms w same =
      option_cases (λ (c : M (Unit {0})). IsPolled w.mem (c w).1.mem)
        (lookup chat_jid w.mem.registered_groups) _ _ (λ _. same-IsPolled w.mem w.mem refl)
        λ group known.
          let checked = check_trigger cfg env chat_jid group (m ∷ ms) w in
          subst (λ x. IsPolled x (on_check cfg env chat_jid group m ms checked.0 checked.1).1.mem)
            (check_trigger-mem cfg env chat_jid group (m ∷ ms) w)
            (on_check-IsPolled chat_jid group (ap (lookup chat_jid) (sym same) ∙ known) m ms
              checked.0 checked.1)
