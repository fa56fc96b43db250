-- ===== src/Auth.antt =====
-- The sender allowlist (internal/auth/auth.go).
pub mod Laws
mod Samples
use kraclaw.Prelude.{
  Bool, true, false, ◌||◌, Text, ◌==◌, codes, List, [], ◌∷◌, Option, none, some, if◌then◌else◌,
}
use kraclaw.Store.{SenderAllowlistEntry, AllowlistMode, trigger, drop}

abbrev pub is_trigger : AllowlistMode → Bool
is_trigger trigger = true
is_trigger drop = false

-- An entry applies to a sender that it names, or to all by `*`.
abbrev pub applies : Text → SenderAllowlistEntry → Bool
applies sender e = e.allow_pattern == codes "*" || e.allow_pattern == sender

-- The loop over the entries, with the denial behind it.
unfoldable pub first_mode : List SenderAllowlistEntry → Text → Bool
first_mode [] sender = false
first_mode (e ∷ es) sender = if applies sender e then is_trigger e.mode else first_mode es sender

-- `IsAllowed` on the answer of `GetAllowlist`, which is `none` where the store failed.
unfoldable pub is_allowed : Option (List SenderAllowlistEntry) → Text → Option Bool
unfolding first_mode
is_allowed none sender = none
is_allowed (some []) sender = some true
is_allowed (some (e ∷ es)) sender = some (first_mode (e ∷ es) sender)
