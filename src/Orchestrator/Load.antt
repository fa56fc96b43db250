-- ===== src/Orchestrator/Load.antt =====
-- `loadState` of internal/orchestrator/orchestrator.go.
pub mod Laws
mod Samples
use kraclaw.Prelude.{
  ℕ, Text, ◌==◌, codes, List, [], ◌∷◌, Option, none, some, Map, lookup, insert, if◌then◌else◌,
}
use kraclaw.Prelude.Trace.{pure, ◌>>=◌, ◌>>◌}
use kraclaw.Store.{Group}
use kraclaw.Orchestrator.World.{
  get_state, list_groups, get_session, Config, Answers, M, ask, modify, Result, ok, err,
}
use kraclaw.Orchestrator.Cursors.{timestamp_key, agent_key, confirmed_key}

module _ (cfg : Config) where
  -- The loop over the parsed map: a time that cannot be parsed is left out.
  unfoldable pub read_times : Map Text → Map ℕ → Map ℕ
  read_times [] old = old
  read_times ((k, v) ∷ raw) old =
      read_times raw (elim (cfg.parse_cursor v) [ none ↦ old | some t ↦ insert k t old ])

  -- A saved text over what is in memory: an empty or corrupted one changes nothing.
  unfoldable pub read_cursors : Text → Map ℕ → Map ℕ
  read_cursors text old =
      if text == []
      then old
      else elim (cfg.unmarshal_strings text) [ none ↦ old | some raw ↦ read_times raw old ]

  unfoldable pub read_timestamp : Text → ℕ → ℕ
  read_timestamp text old =
      if text == [] then old else elim (cfg.parse_cursor text) [ none ↦ old | some t ↦ t ]

-- Agent cursors stand in for confirmed ones that are missing.
unfoldable pub backfill : Map ℕ → Map ℕ → Map ℕ
backfill [] confirmed = confirmed
backfill ((k, v) ∷ agent) confirmed =
    backfill agent (elim (lookup k confirmed) [ some t ↦ confirmed | none ↦ insert k v confirmed ])

module _ (cfg : Config) (env : Answers) where
  -- The group's session, if the store has one.
  pub keep_session : Text → Option (Option Text) → M (Unit {0})
  keep_session folder none = pure tt
  keep_session folder (some none) = pure tt
  keep_session folder (some (some id)) =
      modify (λ m. record m { sessions = insert folder id m.sessions })

  pub load_groups : List Group → M (Unit {0})
  load_groups [] = pure tt
  load_groups (g ∷ groups) = do
    modify (λ m. record m { registered_groups = insert g.jid g m.registered_groups })
    session ← ask (get_session g.folder) env.session
    keep_session g.folder session
    load_groups groups

  pub on_groups : Option (List Group) → M (Result (Unit {0}))
  on_groups none = pure (err (codes "list groups"))
  on_groups (some groups) = do load_groups groups; pure (ok tt)

  pub on_confirmed : Option Text → M (Result (Unit {0}))
  on_confirmed none = pure (err (codes "get last_confirmed_timestamp"))
  on_confirmed (some text) = do
    modify (λ m. record m { last_confirmed = read_cursors cfg text m.last_confirmed })
    modify (λ m. record m { last_confirmed = backfill m.last_agent m.last_confirmed })
    groups ← ask list_groups env.groups
    on_groups groups

  pub on_agent_cursors : Option Text → M (Result (Unit {0}))
  on_agent_cursors none = pure (err (codes "get last_agent_timestamp"))
  on_agent_cursors (some text) = do
    modify (λ m. record m { last_agent = read_cursors cfg text m.last_agent })
    saved ← ask (get_state confirmed_key) env.state_value
    on_confirmed saved

  pub on_timestamp : Option Text → M (Result (Unit {0}))
  on_timestamp none = pure (err (codes "get last_timestamp"))
  on_timestamp (some text) = do
    modify (λ m. record m { last_timestamp = read_timestamp cfg text m.last_timestamp })
    saved ← ask (get_state agent_key) env.state_value
    on_agent_cursors saved

  unfoldable pub load_state : M (Result (Unit {0}))
  load_state = do saved ← ask (get_state timestamp_key) env.state_value; on_timestamp saved
