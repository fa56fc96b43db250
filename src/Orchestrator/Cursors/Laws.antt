-- ===== src/Orchestrator/Cursors/Laws.antt =====
-- What a save leaves alone, and that a change is not lost (internal/orchestrator/orchestrator.go).
use kraclaw.Prelude.{
  codes, if_cases, true, false, Text, ◌==◌, ==_iff, List, [], ◌∷◌, if◌then◌else◌, ◌≡◌, ◌∙◌, ◌≢◌,
  arith, ◌⊎◌,
}
use kraclaw.Prelude.Trace.{pure}
use kraclaw.Orchestrator.World.{Call, set_state, Saved, World, Config, Answers, M, Result, ok, err}
use kraclaw.Orchestrator.Cursors.{
  format_cursors, save_if_changed, save_state, flush_confirmed_cursor, timestamp_key, agent_key,
  confirmed_key,
}

-- A write to one of the three keys.
abbrev put : Text → Text → Saved → Saved
put key value s =
    if key == timestamp_key
    then record s { timestamp = value }
    else if key == agent_key
    then record s { agent = value }
    else if key == confirmed_key
    then record s { confirmed = value }
    else s

-- What the store holds: the writes that it took, in their order, over what it held before.
unfoldable pub kept : Answers → Saved → List Call → Saved
kept env before [] = before
kept env before (set_state key value ∷ log) =
    let rest = kept env before log in
    if env.done (set_state key value ∷ log) then put key value rest else rest
kept env before (_ ∷ log) = kept env before log

-- A save only writes keys, so a property of the log that such a write keeps is kept by a save.
module _ (cfg : Config) (env : Answers) (P : List Call → Type 0)
    (step : (key value : Text) (log : List Call) → P log → P (set_state key value ∷ log)) where
  save_if_changed-log :
      (key value old : Text) (remember : Text → Saved → Saved) (w : World)
      → P w.log
      → P (save_if_changed cfg env key value old remember w).1.log
  unfolding save_if_changed
  save_if_changed-log key value old remember w h = let h' = step key value w.log h in ground arith

  pub save_state-log : (w : World) → P w.log → P (save_state cfg env w).1.log
  unfolding save_state
  save_state-log w h =
      let set_timestamp = λ (v : Text) (s : Saved). record s { timestamp = v } in
      let set_agent = λ (v : Text) (s : Saved). record s { agent = v } in
      let set_confirmed = λ (v : Text) (s : Saved). record s { confirmed = v } in
      let timestamp = cfg.format_cursor w.mem.last_timestamp in
      let agent = format_cursors cfg w.mem.last_agent in
      let confirmed = format_cursors cfg w.mem.last_confirmed in
      let first =
        save_if_changed cfg env timestamp_key timestamp w.saved.timestamp set_timestamp w in
      let h1 = save_if_changed-log timestamp_key timestamp w.saved.timestamp set_timestamp w h in
      let second = save_if_changed cfg env agent_key agent w.saved.agent set_agent first.1 in
      let h2 = save_if_changed-log agent_key agent w.saved.agent set_agent first.1 h1 in
      let third =
        save_if_changed cfg env confirmed_key confirmed w.saved.confirmed set_confirmed second.1 in
      let h3 =
        save_if_changed-log confirmed_key confirmed w.saved.confirmed set_confirmed second.1 h2 in
      if_cases (λ (c : M (Result (Unit {0}))). P (c first.1).1.log) first.0 _ _
        (λ _.
          if_cases (λ (c : M (Result (Unit {0}))). P (c second.1).1.log) second.0 _ _
            (λ _.
              if_cases (λ (c : M (Result (Unit {0}))). P (c third.1).1.log) third.0 (pure (ok tt))
                (pure (err (codes "save last_confirmed_timestamp"))) (λ _. h3) (λ _. h3))
            (λ _. h2))
        (λ _. h1)

module _ (cfg : Config) (env : Answers) (w : World) where
  -- A save changes nothing of the state in memory.
  pub save_state-mem : (save_state cfg env w).1.mem ≡ w.mem
  unfolding save_state
  save_state-mem = ground arith

  -- The serialised state.
  abbrev pub current : Saved
  current = record {
    timestamp = cfg.format_cursor w.mem.last_timestamp;
    agent = format_cursors cfg w.mem.last_agent;
    confirmed = format_cursors cfg w.mem.last_confirmed;
  }

  -- A save that succeeds has recorded the current state as the one written last.
  save_state-saved : (save_state cfg env w).0 ≡ ok tt → (save_state cfg env w).1.saved ≡ current
  unfolding save_state
  save_state-saved h = ground (
    arith,
    ==_iff current.timestamp w.saved.timestamp,
    ==_iff current.agent w.saved.agent,
    ==_iff current.confirmed w.saved.confirmed,
  )

  save_state-kept :
      (before : Saved)
      → kept env before w.log ≡ w.saved
      → kept env before (save_state cfg env w).1.log ≡ (save_state cfg env w).1.saved
  unfolding save_state kept ◌==◌
  save_state-kept before h = ground arith

  -- Where the strings of the last save are what the store holds: a save, whether it succeeds or
  -- stops at an error, changes nothing in memory and leaves those strings equal to what the store
  -- then holds; if it succeeds, the store holds the current cursors.
  pub save_state_persists :
      (before : Saved)
      → kept env before w.log ≡ w.saved
      → ((save_state cfg env w).1.mem ≡ w.mem)
        × (kept env before (save_state cfg env w).1.log ≡ (save_state cfg env w).1.saved)
        × ((save_state cfg env w).0 ≡ ok tt
            → kept env before (save_state cfg env w).1.log ≡ current)
  save_state_persists before h =
      (save_state-mem, save_state-kept before h, λ e. save_state-kept before h ∙ save_state-saved e)

module _ (cfg : Config) (env : Answers) (w : World) where
  -- Where the strings of the last save are what the store holds, and a confirmed cursor is marked
  -- to be saved: a flush either fails and the mark is on again, or succeeds and the store holds
  -- the current cursors.
  pub flush_confirmed_cursor_keeps :
      (before : Saved)
      → kept env before w.log ≡ w.saved
      → w.mem.confirmed_dirty ≡ true
      → (((flush_confirmed_cursor cfg env w).1.mem.confirmed_dirty ≡ true)
          × ((flush_confirmed_cursor cfg env w).0 ≢ ok tt))
        ⊎ (((flush_confirmed_cursor cfg env w).0 ≡ ok tt)
            × (kept env before (flush_confirmed_cursor cfg env w).1.log ≡ current cfg env w))
  unfolding flush_confirmed_cursor
  flush_confirmed_cursor_keeps before h dirty =
      let w' : World = record w { mem = record w.mem { confirmed_dirty = false } } in
      let (same, synced, held) = save_state_persists cfg env w' before h in
      ground (arith, same, synced, held)
