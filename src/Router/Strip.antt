-- ===== src/Router/Strip.antt =====
-- `stripInternalTags` of internal/router/router.go.
use kraclaw.Prelude.{
  ℕ, zero, suc, ◌+◌, Text, codes, index, trim_space, take, drop, length, Option, none, some, ◌++◌,
}

abbrev pub open_tag : Text
open_tag = codes "<internal>"

abbrev pub close_tag : Text
close_tag = codes "</internal>"

-- The body of the loop: `none` where it breaks, else the text that replaces `text`.
unfoldable pub strip_round : Text → Option Text
strip_round text = elim (index text open_tag) [
  | none ↦ none
  | some start ↦ elim (index text close_tag) [
    | none ↦ none
    | some stop ↦ some (take start text ++ drop (stop + length close_tag) text)
  ]
]

-- The loop, on fuel; `none` means that it was still running when the fuel ran out.
unfoldable pub strip_loop : ℕ → Text → Option Text
strip_loop zero text = none
strip_loop (suc fuel) text = elim (strip_round text) [
  | none ↦ some (trim_space text)
  | some text' ↦ strip_loop fuel text'
]
