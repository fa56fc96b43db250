-- ===== src/Orchestrator/Moves.antt =====
-- How the cursors of the chats move (internal/orchestrator/orchestrator.go).
use kraclaw.Prelude.{ℕ, Text, ◌==◌, Map, insert, lookup-insert, if◌then◌else◌, ◌≡◌, arith}
use kraclaw.Orchestrator.World.{Memory, cursor}

pub cursor-insert :
    (k j : Text) (t : ℕ) (m : Map ℕ) → cursor j (insert k t m) ≡ (if k == j then t else cursor j m)
cursor-insert k j t m = ground (arith, lookup-insert k j t m)

-- Both cursors of every chat are as before.
abbrev pub IsUnmoved : Memory → Memory → Type 0
IsUnmoved m m' =
    ((j : Text) → cursor j m'.last_agent ≡ cursor j m.last_agent)
    × ((j : Text) → cursor j m'.last_confirmed ≡ cursor j m.last_confirmed)

-- The cursors of one chat both stand at a time, and those of the others are as before.
abbrev pub IsMovedTo : Text → ℕ → Memory → Memory → Type 0
IsMovedTo chat_jid t m m' =
    ((j : Text) → cursor j m'.last_agent ≡ (if chat_jid == j then t else cursor j m.last_agent))
    × ((j : Text)
        → cursor j m'.last_confirmed ≡ (if chat_jid == j then t else cursor j m.last_confirmed))
