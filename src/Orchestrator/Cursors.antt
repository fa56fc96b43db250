-- ===== src/Orchestrator/Cursors.antt =====
-- `saveState` and `flushConfirmedCursor` of internal/orchestrator/orchestrator.go.
pub mod Laws
mod Samples
use kraclaw.Prelude.{Map, map, ℕ, Bool, true, false, Text, ◌==◌, codes, not, if◌then◌else◌}
use kraclaw.Prelude.Trace.{pure, ◌>>=◌, ◌>>◌}
use kraclaw.Orchestrator.World.{
  Call, set_state, Memory, Saved, World, Config, Answers, M, ask, read, modify, Result, ok, err,
}

-- The names under which the three values are kept.
abbrev pub timestamp_key : Text
timestamp_key = codes "last_timestamp"

abbrev pub agent_key : Text
agent_key = codes "last_agent_timestamp"

abbrev pub confirmed_key : Text
confirmed_key = codes "last_confirmed_timestamp"

abbrev read_saved : M Saved
read_saved w = (w.saved, w)

abbrev write_saved : (Saved → Saved) → M (Unit {0})
write_saved f w = (tt, record w { saved = f w.saved })

-- The JSON of a map of cursors.
abbrev pub format_cursors : Config → Map ℕ → Text
format_cursors cfg m = cfg.marshal_strings (map (λ e. (e.0, cfg.format_cursor e.1)) m)

module _ (cfg : Config) (env : Answers) where
  -- One of the three blocks: write the value if it differs from the one written last.
  save_if_changed : Text → Text → Text → (Text → Saved → Saved) → M Bool
  save_if_changed key value old remember = if value == old then pure true else do
    done ← ask (set_state key value) env.done
    if done then (do write_saved (remember value); pure true) else pure false

  unfoldable pub save_state : M (Result (Unit {0}))
  unfolding save_if_changed
  save_state = do
    m ← read
    old ← read_saved
    first ←
        save_if_changed timestamp_key (cfg.format_cursor m.last_timestamp) old.timestamp
          (λ v s. record s { timestamp = v })
    if first
        then (do
          second ←
              save_if_changed agent_key (format_cursors cfg m.last_agent) old.agent
                (λ v s. record s { agent = v })
          if second
              then (do
                third ←
                    save_if_changed confirmed_key (format_cursors cfg m.last_confirmed)
                      old.confirmed (λ v s. record s { confirmed = v })
                if third then pure (ok tt) else pure (err (codes "save last_confirmed_timestamp")))
              else pure (err (codes "save last_agent_timestamp")))
        else pure (err (codes "save last_timestamp"))

  unfoldable pub flush_confirmed_cursor : M (Result (Unit {0}))
  flush_confirmed_cursor = do
    m ← read
    modify (λ m'. record m' { confirmed_dirty = false })
    if m.confirmed_dirty
        then (do
          r ← save_state
          elim r [
            | ok _ ↦ pure (ok tt)
            | err e ↦ do modify (λ m'. record m' { confirmed_dirty = true }); pure (err e)
          ])
        else pure (ok tt)
