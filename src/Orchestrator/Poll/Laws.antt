-- ===== src/Orchestrator/Poll/Laws.antt =====
-- What a poll does to the cursors (internal/orchestrator/orchestrator.go).
use kraclaw.Prelude.{
  ℕ, Text, List, [], ◌∷◌, map, Option, none, some, Map, ◌≡◌, refl, ap, ◌∙◌, sym, subst, ◌⊎◌, inl,
  inr, arith,
}
use kraclaw.Store.{Group, Message}
use kraclaw.Orchestrator.World.{get_new_messages, World, Config, Answers, cursor}
use kraclaw.Orchestrator.Cursors.{save_state}
use kraclaw.Orchestrator.Cursors.Laws.{save_state-mem}
use kraclaw.Orchestrator.Process.{last_time}
use kraclaw.Orchestrator.Poll.{
  by_group, refresh_groups, dispatch, dispatch_all, on_new, poll_groups, poll_messages,
}
use kraclaw.Orchestrator.Poll.Dispatch.{
  WasPiped, IsPolled, same-IsPolled, trans-IsPolled, dispatch-IsPolled,
}

module _ (cfg : Config) (env : Answers) (groups : Map Group) where
  dispatch_all-IsPolled :
      (batches : Map (Message × List Message)) (w : World)
      → w.mem.registered_groups ≡ groups
      → IsPolled cfg env groups w.mem (dispatch_all cfg env batches w).1.mem
  unfolding dispatch_all
  dispatch_all-IsPolled [] w same = same-IsPolled cfg env groups w.mem w.mem refl
  dispatch_all-IsPolled ((chat_jid, (m, ms)) ∷ batches) w same =
      let one = dispatch-IsPolled cfg env groups chat_jid m ms w same in
      let next = (dispatch cfg env chat_jid m ms w).1 in
      trans-IsPolled cfg env groups w.mem next.mem (dispatch_all cfg env batches next).1.mem one
        (dispatch_all-IsPolled batches (dispatch cfg env chat_jid m ms w).1 (one.0 ∙ same))

  on_new-IsPolled :
      (got : Option (List Message)) (w : World)
      → w.mem.registered_groups ≡ groups
      → IsPolled cfg env groups w.mem (on_new cfg env got w).1.mem
  unfolding on_new
  on_new-IsPolled none w same = same-IsPolled cfg env groups w.mem w.mem refl
  on_new-IsPolled (some []) w same = same-IsPolled cfg env groups w.mem w.mem refl
  on_new-IsPolled (some (m ∷ ms)) w same =
      let seen : World = record w { mem = record w.mem { last_timestamp = last_time m ms } } in
      let kept = save_state-mem cfg env seen in
      let moved =
        dispatch_all-IsPolled (by_group (m ∷ ms) []) (save_state cfg env seen).1
          (ap (λ x. x.registered_groups) kept ∙ same) in
      trans-IsPolled cfg env groups w.mem (save_state cfg env seen).1.mem
        (dispatch_all cfg env (by_group (m ∷ ms) []) (save_state cfg env seen).1).1.mem
        (subst (IsPolled cfg env groups w.mem) (sym kept) (refl, refl, λ j. inl refl)) moved

  poll_groups-IsPolled :
      (since : ℕ) (gs : Map Group) (w : World)
      → w.mem.registered_groups ≡ groups
      → IsPolled cfg env groups w.mem (poll_groups cfg env gs since w).1.mem
  unfolding poll_groups
  poll_groups-IsPolled since [] w same = same-IsPolled cfg env groups w.mem w.mem refl
  poll_groups-IsPolled since (g ∷ gs) w same =
      on_new-IsPolled _
        (record w {
          log = get_new_messages (map (λ e. e.0) (g ∷ gs)) since cfg.message_limit ∷ w.log;
        })
        same

module _ (cfg : Config) (env : Answers) (w : World) where
  -- The world with the groups read anew.
  abbrev pub refreshed : World
  refreshed = (refresh_groups cfg env w).1

  refreshed-cursors :
      (refreshed.mem.last_agent ≡ w.mem.last_agent)
      × (refreshed.mem.last_confirmed ≡ w.mem.last_confirmed)
  unfolding refresh_groups
  refreshed-cursors = ground arith

  -- A poll moves no confirmed cursor, and an agent cursor only behind messages that were formatted,
  -- sent to the agent of that registered chat and taken by the broker, to the time of the last of
  -- them; whatever else fails, the cursors stay.
  pub poll_messages_cursors :
      ((poll_messages cfg env w).1.mem.last_confirmed ≡ w.mem.last_confirmed)
      × ((j : Text)
          → (cursor j (poll_messages cfg env w).1.mem.last_agent ≡ cursor j w.mem.last_agent)
            ⊎ WasPiped cfg env refreshed.mem.registered_groups j
                (cursor j (poll_messages cfg env w).1.mem.last_agent))
  unfolding poll_messages
  poll_messages_cursors =
      let (g, k, h) =
        poll_groups-IsPolled cfg env refreshed.mem.registered_groups refreshed.mem.last_timestamp
          refreshed.mem.registered_groups refreshed refl in
      let (agent, confirmed) = refreshed-cursors in
      (k ∙ confirmed, λ j. elim (h j) [ inl e ↦ inl (e ∙ ap (cursor j) agent) | inr p ↦ inr p ])
