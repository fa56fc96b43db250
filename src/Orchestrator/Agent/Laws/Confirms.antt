-- ===== src/Orchestrator/Agent/Laws/Confirms.antt =====
-- Which cursors an agent's message moves (internal/orchestrator/orchestrator.go).
use kraclaw.Prelude.{
  true, Text, List, Option, none, some, insert, ◌≡◌, refl, ap, ◌∙◌, option_cases, ◌⊎◌, inl, inr,
  arith,
}
use kraclaw.Store.{Group}
use kraclaw.Router.{Delivery, RouteResult, routed, send_failed, no_channel, route_outbound}
use kraclaw.Router.RouteLaws.{IsRouted, route_outbound_routed}
use kraclaw.Orchestrator.World.{
  Call, IpcMessageType, message_text, session_update, task_create, task_update, task_delete,
  set_model, shutdown, unknown_type, IpcMessage, Memory, World, Config, Answers, M, cursor,
}
use kraclaw.Orchestrator.Agent.{
  route, on_routed, on_text, on_session, on_task_create, on_task_update, on_task_delete, on_kind,
  handle_ipc_message,
}
use kraclaw.Orchestrator.Agent.Laws.{route_effect}

module _ (cfg : Config) (env : Answers) (chat_jid : Text) (group : Group) where
  -- The cursors behind a message: no cursor moves, or a reply was routed without an error, that is
  -- a channel took it or nothing of it was left to send, and the chat's confirmed cursor now stands where its agent cursor stands, and is marked for saving.
  abbrev pub Confirms : IpcMessage → Memory → Memory → Type 0
  Confirms msg m m' =
      (m'.last_agent ≡ m.last_agent)
      × ((m'.last_confirmed ≡ m.last_confirmed)
          ⊎ ((msg.kind ≡ message_text)
              × (m'.last_confirmed
                  ≡ insert chat_jid (cursor chat_jid m.last_agent) m.last_confirmed)
              × (m'.confirmed_dirty ≡ true)
              × ((text : Text) × (log : List Call) × (sends : List Delivery) × (cfg.decode_text
                      msg.payload
                    ≡ some text)
                  × IsRouted cfg.strip_fuel (env.channels log) chat_jid text sends)))

  route_result :
      (text : Text) (w : World) (r : RouteResult)
      → (route cfg env chat_jid text w).0 ≡ some r
      → (sends : List Delivery) × (route_outbound cfg.strip_fuel (env.channels w.log) chat_jid text
          ≡ some (r, sends))
  unfolding route
  route_result text w r =
      option_cases (λ (c : M (Option RouteResult)). (c w).0 ≡ some r → Found)
        (route_outbound cfg.strip_fuel (env.channels w.log) chat_jid text) _ _ (λ _ h. cc)
        λ found e h. (found.1, e ∙ ap (λ x. some (x, found.1)) cc)
    where
      Found : Type 0
      Found =
          (sends : List Delivery) × (route_outbound cfg.strip_fuel (env.channels w.log) chat_jid
              text
            ≡ some (r, sends))

  on_routed-Confirms :
      (msg : IpcMessage) (text : Text) (w w' : World) (r : Option RouteResult)
      → msg.kind ≡ message_text
      → cfg.decode_text msg.payload ≡ some text
      → (route cfg env chat_jid text w).0 ≡ r
      → w'.mem ≡ w.mem
      → Confirms msg w.mem (on_routed cfg env chat_jid group text r w').1.mem
  unfolding on_routed
  on_routed-Confirms msg text w w' none k d e same = ground arith
  on_routed-Confirms msg text w w' (some send_failed) k d e same = ground arith
  on_routed-Confirms msg text w w' (some no_channel) k d e same = ground arith
  on_routed-Confirms msg text w w' (some routed) k d e same =
      let (sends, found) = route_result text w routed e in
      (
        ap (λ m. m.last_agent) same,
        inr (
          k,
          ap (λ m. insert chat_jid (cursor chat_jid m.last_agent) m.last_confirmed) same,
          refl,
          (text, w.log, sends, d, route_outbound_routed cfg.strip_fuel _ chat_jid text sends found),
        ),
      )

  on_text-Confirms :
      (msg : IpcMessage) (o : Option Text) (w : World)
      → msg.kind ≡ message_text
      → cfg.decode_text msg.payload ≡ o
      → Confirms msg w.mem (on_text cfg env chat_jid group o w).1.mem
  unfolding on_text
  on_text-Confirms msg none w k d = (refl, inl refl)
  on_text-Confirms msg (some text) w k d =
      on_routed-Confirms msg text w (route cfg env chat_jid text w).1
        (route cfg env chat_jid text w).0 k d refl (route_effect cfg env chat_jid group text w).0

  on_kind-Confirms :
      (msg : IpcMessage) (kind : IpcMessageType) (w : World)
      → msg.kind ≡ kind
      → Confirms msg w.mem (on_kind cfg env chat_jid group kind msg.payload w).1.mem
  unfolding on_kind on_session on_task_create on_task_update on_task_delete
  on_kind-Confirms msg message_text w k =
      on_text-Confirms msg (cfg.decode_text msg.payload) w k refl
  on_kind-Confirms msg session_update w k = (ground arith, inl (ground arith))
  on_kind-Confirms msg task_create w k = (ground arith, inl (ground arith))
  on_kind-Confirms msg task_update w k = (ground arith, inl (ground arith))
  on_kind-Confirms msg task_delete w k = (ground arith, inl (ground arith))
  on_kind-Confirms msg set_model w k = (refl, inl refl)
  on_kind-Confirms msg shutdown w k = (refl, inl refl)
  on_kind-Confirms msg (unknown_type name) w k = (refl, inl refl)

  -- A message of an agent moves no agent cursor; and it moves a confirmed cursor only if it is a
  -- text of which a serving channel took what the stripping leaves, or of which the stripping
  -- leaves nothing, so that nothing is sent; and then only that of its own chat, to the chat's
  -- agent cursor, which is marked to be saved.
  pub handle_ipc_message-Confirms :
      (msg : IpcMessage) (w : World)
      → Confirms msg w.mem (handle_ipc_message cfg env chat_jid group msg w).1.mem
  handle_ipc_message-Confirms msg w =
      unfold handle_ipc_message in on_kind-Confirms msg msg.kind w refl
