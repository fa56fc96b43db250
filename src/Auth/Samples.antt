-- ===== src/Auth/Samples.antt =====
-- The law of the allowlist at a list that names one sender.
use kraclaw.Prelude.{codes, [], ◌∷◌, List, ◌≡◌, ◌↔◌, ◌⊎◌, some, true}
use kraclaw.Store.{SenderAllowlistEntry, trigger}
use kraclaw.Auth.{is_allowed}
use kraclaw.Auth.Laws.{IsAdmitted, is_allowed_iff}

abbrev only_ann : List SenderAllowlistEntry
only_ann =
    record { id = 1; chat_jid = codes "tg:1"; allow_pattern = codes "ann"; mode = trigger } ∷ []

is_allowed_iff_example :
    (is_allowed (some only_ann) (codes "ann") ≡ some true)
    ↔ ((only_ann ≡ []) ⊎ IsAdmitted (codes "ann") only_ann)
is_allowed_iff_example = is_allowed_iff only_ann (codes "ann")
