-- ===== src/Router/Format.antt =====
-- `MatchesTrigger` and `FormatMessagesForAgent` of internal/router/router.go.
use kraclaw.Prelude.{
  ℕ, Bool, true, Text, ◌==◌, codes, has_prefix, List, [], ◌∷◌, ◌++◌, map, if◌then◌else◌,
}
use kraclaw.Store.{Message}
use kraclaw.Router.Escape.{escape_xml}

-- What the standard library computes from Unicode and calendar tables: `unicode.ToLower`, the verb
-- `%q`, and `Time.Format` at the layout of the source.
pub record TextTables : Type 0 where
  pub to_lower_rune : ℕ → ℕ
  pub quote : Text → Text
  pub format_time : ℕ → Text

module _ (u : TextTables) where
  -- `strings.ToLower(s)`.
  abbrev pub to_lower : Text → Text
  to_lower s = map u.to_lower_rune s

  unfoldable pub matches_trigger : Text → Text → Bool
  matches_trigger content pattern' =
      if pattern' == [] then true else has_prefix (to_lower content) (to_lower pattern')

  -- The name under which a message stands.
  abbrev pub shown_name : Text → Message → Text
  shown_name assistant_name m = if m.is_bot_message then assistant_name else m.sender_name

  -- One turn of the loop.
  unfoldable pub format_message : Text → Message → Text
  format_message assistant_name m =
      codes "<message sender="
      ++ (u.quote (escape_xml (shown_name assistant_name m))
          ++ (codes " timestamp="
              ++ (u.quote (u.format_time m.timestamp)
                  ++ (codes ">" ++ (escape_xml m.content ++ codes "</message>\n")))))

  unfoldable pub format_lines : Text → List Message → Text
  format_lines assistant_name [] = codes "</messages>"
  format_lines assistant_name (m ∷ ms) =
      format_message assistant_name m ++ format_lines assistant_name ms

  unfoldable pub format_messages_for_agent : List Message → Text → Text
  format_messages_for_agent [] assistant_name = codes "<messages>\n</messages>"
  format_messages_for_agent (m ∷ ms) assistant_name =
      codes "<messages>\n" ++ format_lines assistant_name (m ∷ ms)
