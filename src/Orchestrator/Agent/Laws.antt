-- ===== src/Orchestrator/Agent/Laws.antt =====
-- What an agent's message may change (internal/orchestrator/orchestrator.go).
pub mod Confirms
use kraclaw.Prelude.{
  true, Text, ==_iff, List, [], ◌∷◌, Option, none, some, insert, ◌≡◌, refl, sym, ap, ◌∙◌, subst,
  option_cases, ◌⊎◌, inl, inr, arith, All,
}
use kraclaw.Store.{Group, ScheduledTask}
use kraclaw.Router.{
  Channel, Delivery, sent, RouteResult, routed, send_failed, no_channel, route_first,
  route_stripped, route_outbound, strip_loop,
}
use kraclaw.Orchestrator.World.{
  Call, deliver, store_message, upsert_session, create_task, update_task, delete_task,
  delete_streams, IpcMessageType, message_text, session_update, task_create, task_update,
  task_delete, set_model, shutdown, unknown_type, IpcMessage, Memory, World, Config, Answers, M,
  cursor,
}
use kraclaw.Orchestrator.Agent.Sends.{deliver_all-mem}
use kraclaw.Orchestrator.Agent.{
  deliver_all, route, on_routed, on_text, on_session, on_task_create, on_task_update,
  on_task_delete, on_kind, handle_ipc_message,
}

-- A call that concerns only a group: its tasks, its session, its streams, and messages of its chat.
abbrev pub IsScoped : Text → Text → Call → Type 0
IsScoped folder chat_jid (create_task t) = (t.group_folder ≡ folder) × (t.chat_jid ≡ chat_jid)
IsScoped folder chat_jid (update_task t) = t.group_folder ≡ folder
IsScoped folder chat_jid (delete_task id f) = f ≡ folder
IsScoped folder chat_jid (upsert_session f id) = f ≡ folder
IsScoped folder chat_jid (delete_streams f) = f ≡ folder
IsScoped folder chat_jid (store_message m) = m.chat_jid ≡ chat_jid
IsScoped folder chat_jid (deliver (sent name j text)) = j ≡ chat_jid
IsScoped folder chat_jid _ = Unit

route_first-IsScoped :
    (folder chat_jid text : Text) (chs : List Channel)
    → All (λ d. IsScoped folder chat_jid (deliver d)) (route_first chs chat_jid text).1
unfolding route_first
route_first-IsScoped folder chat_jid text [] = tt
route_first-IsScoped folder chat_jid text (ch ∷ chs) =
    ground (arith, route_first-IsScoped folder chat_jid text chs)

route_stripped-IsScoped :
    (folder chat_jid : Text) (chs : List Channel) (out : Option Text) (r : RouteResult)
    (ds : List Delivery)
    → route_stripped chs chat_jid out ≡ some (r, ds)
    → All (λ d. IsScoped folder chat_jid (deliver d)) ds
unfolding route_stripped
route_stripped-IsScoped folder chat_jid chs none r ds h = cc
route_stripped-IsScoped folder chat_jid chs (some []) r ds h =
    let e : ds ≡ [] = cc in subst (All (λ d. IsScoped folder chat_jid (deliver d))) (sym e) tt
route_stripped-IsScoped folder chat_jid chs (some (c ∷ out)) r ds h =
    let e : (route_first chs chat_jid (c ∷ out)).1 ≡ ds = cc in
    subst (All (λ d. IsScoped folder chat_jid (deliver d))) e
      (route_first-IsScoped folder chat_jid (c ∷ out) chs)

module _ (cfg : Config) (env : Answers) (chat_jid : Text) (group : Group) where
  abbrev pub Scoped : List Call → Type 0
  Scoped log = All (IsScoped group.folder chat_jid) log

  deliver_all-Scoped :
      (ds : List Delivery) (w : World)
      → All (λ d. IsScoped group.folder chat_jid (deliver d)) ds
      → Scoped w.log
      → Scoped (deliver_all ds w).1.log
  unfolding deliver_all
  deliver_all-Scoped [] w h k = k
  deliver_all-Scoped (d ∷ ds) w (p, h) k =
      deliver_all-Scoped ds (record w { log = deliver d ∷ w.log }) h (p, k)

  -- What a route does beside its result: nothing in memory, and sends to the one chat.
  route_effect :
      (text : Text) (w : World)
      → ((route cfg env chat_jid text w).1.mem ≡ w.mem)
        × (Scoped w.log → Scoped (route cfg env chat_jid text w).1.log)
  unfolding route
  route_effect text w =
      option_cases
        (λ (c : M (Option RouteResult)).
          ((c w).1.mem ≡ w.mem) × (Scoped w.log → Scoped (c w).1.log))
        (route_outbound cfg.strip_fuel (env.channels w.log) chat_jid text) _ _ (λ _. (refl, λ h. h))
        λ r e. (
          deliver_all-mem r.1 w,
          deliver_all-Scoped r.1 w (
              route_stripped-IsScoped group.folder chat_jid (env.channels w.log)
                (strip_loop cfg.strip_fuel text) r.0 r.1 (unfold route_outbound in e)),
        )

  on_routed-Scoped :
      (text : Text) (r : Option RouteResult) (w : World)
      → Scoped w.log
      → Scoped (on_routed cfg env chat_jid group text r w).1.log
  unfolding on_routed
  on_routed-Scoped text none w h = h
  on_routed-Scoped text (some routed) w h = (refl, h)
  on_routed-Scoped text (some send_failed) w h = h
  on_routed-Scoped text (some no_channel) w h = h

  on_text-Scoped :
      (o : Option Text) (w : World)
      → Scoped w.log
      → Scoped (on_text cfg env chat_jid group o w).1.log
  unfolding on_text
  on_text-Scoped none w h = h
  on_text-Scoped (some text) w h =
      on_routed-Scoped text (route cfg env chat_jid text w).0 (route cfg env chat_jid text w).1
        ((route_effect text w).1 h)

  on_task_update-Scoped :
      (o : Option ScheduledTask) (w : World)
      → Scoped w.log
      → Scoped (on_task_update cfg env chat_jid group o w).1.log
  unfolding on_task_update
  on_task_update-Scoped none w h = h
  on_task_update-Scoped (some task) w h = ground (arith, ==_iff task.group_folder group.folder)

  on_kind-Scoped :
      (kind : IpcMessageType) (payload : Text) (w : World)
      → Scoped w.log
      → Scoped (on_kind cfg env chat_jid group kind payload w).1.log
  unfolding on_kind
  on_kind-Scoped message_text payload w h = on_text-Scoped (cfg.decode_text payload) w h
  on_kind-Scoped session_update payload w h = unfold on_session in ground arith
  on_kind-Scoped task_create payload w h = unfold on_task_create in ground arith
  on_kind-Scoped task_update payload w h = on_task_update-Scoped (cfg.decode_task payload) w h
  on_kind-Scoped task_delete payload w h = unfold on_task_delete in ground arith
  on_kind-Scoped set_model payload w h = h
  on_kind-Scoped shutdown payload w h = (refl, h)
  on_kind-Scoped (unknown_type name) payload w h = h

  -- Whatever an agent sends, and whatever group and chat its payload names: if the calls made
  -- before keep to the agent's group and chat, so do those behind the message. That is, tasks are
  -- created for that group and chat, tasks are updated and deleted, the session is stored and
  -- streams are deleted under that group's folder, and messages are stored in that chat and sent
  -- to it.
  pub handle_ipc_message-Scoped :
      (msg : IpcMessage) (w : World)
      → Scoped w.log
      → Scoped (handle_ipc_message cfg env chat_jid group msg w).1.log
  handle_ipc_message-Scoped msg w h =
      unfold handle_ipc_message in on_kind-Scoped msg.kind msg.payload w h
