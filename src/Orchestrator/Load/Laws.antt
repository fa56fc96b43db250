-- ===== src/Orchestrator/Load/Laws.antt =====
-- That a load gives back what a save has written (internal/orchestrator/orchestrator.go).
use kraclaw.Prelude.{
  ℕ, Text, ==_iff, List, [], ◌∷◌, map, Option, none, some, Map, lookup, insert, lookup-insert, ◌≡◌,
  ◌≢◌, refl, ap, ap₂, ◌∙◌, arith,
}
use kraclaw.Store.{Group}
use kraclaw.Orchestrator.World.{get_state, get_session, Memory, World, Config, Answers}
use kraclaw.Orchestrator.Cursors.{timestamp_key, agent_key, confirmed_key, format_cursors}
use kraclaw.Orchestrator.Load.{
  read_times, read_cursors, read_timestamp, backfill, keep_session, load_groups, on_groups,
  on_confirmed, on_agent_cursors, on_timestamp, load_state,
}

-- The first of two values that is there.
abbrev pub first_of : Option ℕ → Option ℕ → Option ℕ
first_of (some t) o = some t
first_of none o = o

lookup-backfill :
    (j : Text) (agent confirmed : Map ℕ)
    → lookup j (backfill agent confirmed) ≡ first_of (lookup j confirmed) (lookup j agent)
unfolding backfill lookup
lookup-backfill j [] confirmed = ground arith
lookup-backfill j ((k, v) ∷ agent) confirmed = ground (
  arith,
  ==_iff k j,
  lookup-insert k j v confirmed,
  lookup-backfill j agent confirmed,
  lookup-backfill j agent (insert k v confirmed),
)

-- No key stands twice.
abbrev pub IsFunctional : Map ℕ → Type 0
IsFunctional [] = Unit
IsFunctional ((k, v) ∷ m) = (lookup k m ≡ none) × IsFunctional m

module _ (cfg : Config) (parses : (t : ℕ) → cfg.parse_cursor (cfg.format_cursor t) ≡ some t) where
  lookup-read_times :
      (j : Text) (m old : Map ℕ)
      → IsFunctional m
      → lookup j (read_times cfg (map (λ e. (e.0, cfg.format_cursor e.1)) m) old)
        ≡ first_of (lookup j m) (lookup j old)
  unfolding read_times lookup
  lookup-read_times j [] old h = refl
  lookup-read_times j ((k, v) ∷ m) old (fresh, h) =
      rw (parses v, read_times)
        (lookup-read_times j m (insert k v old) h
          ∙ ground (arith, fresh, ==_iff k j, lookup-insert k j v old))

  read_cursors_saved :
      (j : Text) (m : Map ℕ)
      → IsFunctional m
      → format_cursors cfg m ≢ []
      → cfg.unmarshal_strings (format_cursors cfg m)
        ≡ some (map (λ e. (e.0, cfg.format_cursor e.1)) m)
      → lookup j (read_cursors cfg (format_cursors cfg m) []) ≡ lookup j m
  read_cursors_saved j m h ne unmarshals =
      ap (lookup j) opened ∙ (lookup-read_times j m [] h ∙ last (lookup j m))
    where
      opened :
          read_cursors cfg (format_cursors cfg m) []
          ≡ read_times cfg (map (λ e. (e.0, cfg.format_cursor e.1)) m) []
      opened =
          unfold read_cursors in ground (arith, ==_iff (format_cursors cfg m) [], ne, unmarshals)

      last : (o : Option ℕ) → first_of o (lookup {V = ℕ} j []) ≡ o
      last none = unfold lookup in refl
      last (some t) = refl

-- What a chat's cursors and the clock of the poll are, without the rest.
abbrev SameTimes : Memory → Memory → Type 0
SameTimes m m' =
    (m'.last_timestamp ≡ m.last_timestamp)
    × (m'.last_agent ≡ m.last_agent)
    × (m'.last_confirmed ≡ m.last_confirmed)

module _ (cfg : Config) (env : Answers) where
  load_groups-SameTimes :
      (groups : List Group) (w : World) → SameTimes w.mem (load_groups cfg env groups w).1.mem
  unfolding load_groups
  load_groups-SameTimes [] w = (refl, refl, refl)
  load_groups-SameTimes (g ∷ groups) w =
      let known : World = record w {
        mem = record w.mem { registered_groups = insert g.jid g w.mem.registered_groups };
        log = get_session g.folder ∷ w.log;
      } in
      let next = (keep_session cfg env g.folder (env.session known.log) known).1 in
      let kept = kept_session g.folder (env.session known.log) known in
      let (a, b, c) = load_groups-SameTimes groups next in (a ∙ kept.0, b ∙ kept.1, c ∙ kept.2)
    where
      kept_session :
          (folder : Text) (o : Option (Option Text)) (v : World)
          → SameTimes v.mem (keep_session cfg env folder o v).1.mem
      kept_session folder none v = unfold keep_session in (refl, refl, refl)
      kept_session folder (some none) v = unfold keep_session in (refl, refl, refl)
      kept_session folder (some (some id)) v = unfold keep_session in (refl, refl, refl)

  on_groups-SameTimes :
      (groups : Option (List Group)) (w : World)
      → SameTimes w.mem (on_groups cfg env groups w).1.mem
  unfolding on_groups
  on_groups-SameTimes none w = (refl, refl, refl)
  on_groups-SameTimes (some groups) w = load_groups-SameTimes groups w

  module _ (w : World) (timestamp agent confirmed : Text) where
    -- The three questions.
    abbrev pub asked : World
    asked = record w {
      log = get_state confirmed_key ∷ get_state agent_key ∷ get_state timestamp_key ∷ w.log;
    }

    -- What a load leaves if the store answers with three texts.
    load_state_texts :
        env.state_value (get_state timestamp_key ∷ w.log) ≡ some timestamp
        → env.state_value (get_state agent_key ∷ get_state timestamp_key ∷ w.log) ≡ some agent
        → env.state_value asked.log ≡ some confirmed
        → let m = (load_state cfg env w).1.mem in
          (m.last_timestamp ≡ read_timestamp cfg timestamp w.mem.last_timestamp)
          × (m.last_agent ≡ read_cursors cfg agent w.mem.last_agent)
          × (m.last_confirmed
              ≡ backfill
                  (read_cursors cfg agent w.mem.last_agent)
                  (read_cursors cfg confirmed w.mem.last_confirmed))
    unfolding load_state on_timestamp on_agent_cursors on_confirmed
    load_state_texts a b c =
        rw (a, load_state)
          (rw (b, on_timestamp) (rw (c, on_agent_cursors) (on_groups-SameTimes _ _)))

module _ (cfg : Config) (env : Answers) (w : World) (m : Memory) where
  -- The cursors of a memory, with the agent cursors in place of confirmed ones that it lacks.
  abbrev pub IsRestored : Memory → Type 0
  IsRestored m' =
      (m'.last_timestamp ≡ m.last_timestamp)
      × ((j : Text) → lookup j m'.last_agent ≡ lookup j m.last_agent)
      × ((j : Text)
          → lookup j m'.last_confirmed
            ≡ first_of (lookup j m.last_confirmed) (lookup j m.last_agent))

  -- A load into empty cursors, from a store that answers with what a save of `m` writes, gives the
  -- poll's time and all agent cursors back, and all confirmed cursors, with the agent cursor of a
  -- chat where it had no confirmed one; also if the groups cannot be read behind it. It rests on
  -- formatted times that are not empty and parse back, on maps without a key that stands twice, and
  -- on the JSON of these maps, which is not empty and parses back.
  pub load_state_restores :
      ((t : ℕ) → cfg.parse_cursor (cfg.format_cursor t) ≡ some t)
      → ((t : ℕ) → cfg.format_cursor t ≢ [])
      → IsFunctional m.last_agent
      → IsFunctional m.last_confirmed
      → format_cursors cfg m.last_agent ≢ []
      → format_cursors cfg m.last_confirmed ≢ []
      → cfg.unmarshal_strings (format_cursors cfg m.last_agent)
        ≡ some (map (λ e. (e.0, cfg.format_cursor e.1)) m.last_agent)
      → cfg.unmarshal_strings (format_cursors cfg m.last_confirmed)
        ≡ some (map (λ e. (e.0, cfg.format_cursor e.1)) m.last_confirmed)
      → env.state_value (get_state timestamp_key ∷ w.log)
        ≡ some (cfg.format_cursor m.last_timestamp)
      → env.state_value (get_state agent_key ∷ get_state timestamp_key ∷ w.log)
        ≡ some (format_cursors cfg m.last_agent)
      → env.state_value
          (get_state confirmed_key ∷ get_state agent_key ∷ get_state timestamp_key ∷ w.log)
        ≡ some (format_cursors cfg m.last_confirmed)
      → w.mem.last_agent ≡ []
      → w.mem.last_confirmed ≡ []
      → IsRestored (load_state cfg env w).1.mem
  load_state_restores parses times fa fc na nc ua uc a b c empty_agent empty_confirmed =
      let (t, g, k) = load_state_texts cfg env w _ _ _ a b c in
      let agent = λ (j : Text).
        ap (λ x. lookup j (read_cursors cfg (format_cursors cfg m.last_agent) x)) empty_agent
        ∙ read_cursors_saved cfg parses j m.last_agent fa na ua in
      let confirmed = λ (j : Text).
        ap (λ x. lookup j (read_cursors cfg (format_cursors cfg m.last_confirmed) x))
          empty_confirmed
        ∙ read_cursors_saved cfg parses j m.last_confirmed fc nc uc in
      (
        t ∙ clock,
        λ j. ap (lookup j) g ∙ agent j,
        λ j. ap (lookup j) k ∙ (lookup-backfill j _ _ ∙ ap₂ first_of (confirmed j) (agent j)),
      )
    where
      clock :
          read_timestamp cfg (cfg.format_cursor m.last_timestamp) w.mem.last_timestamp
          ≡ m.last_timestamp
      clock =
          unfold read_timestamp in
          ground (
            arith,
            ==_iff (cfg.format_cursor m.last_timestamp) [],
            times m.last_timestamp,
            parses m.last_timestamp,
          )
