-- ===== src/Router/Samples.antt =====
-- The laws of the router at short texts.
use kraclaw.Prelude.{
  codes, [], ◌∷◌, ◌++◌, none, some, ◌≡◌, ◌≢◌, refl, true, false, trim_space, arith,
}
use kraclaw.Router.Escape.{escape_xml}
use kraclaw.Router.EscapeLaws.{encode, decode, escape_xml-eq-encode, decode-escape_xml}
use kraclaw.Router.Strip.{close_tag, open_tag, strip_loop}
use kraclaw.Router.StripLaws.{
  Tagged, end, hide, IsTagFree, NoTag, render, visible, strip_loop-render,
}
use kraclaw.Router.StripLaws.Endless.{strip_loop_diverges}
use kraclaw.Router.Format.{TextTables}
use kraclaw.Router.Route.{Channel, sent, routed, route_outbound}
use kraclaw.Router.RouteLaws.{route_outbound_first}

escape_xml-eq-encode_example : escape_xml (codes "a<&b") ≡ encode (codes "a<&b")
escape_xml-eq-encode_example = escape_xml-eq-encode (codes "a<&b")

decode-escape_xml_example : decode 0 (escape_xml (codes "a<&b")) ≡ codes "a<&b"
decode-escape_xml_example = decode-escape_xml (codes "a<&b")

-- "Hi <internal>x</internal>you".
abbrev answer : Tagged
answer = hide (codes "Hi ") (codes "x") (end (codes "you"))

answer-IsTagFree : IsTagFree answer
answer-IsTagFree = grind arith

strip_loop-render_example : strip_loop 2 (render answer) ≡ some (trim_space (visible answer))
strip_loop-render_example = strip_loop-render answer 2 answer-IsTagFree (omega arith)

ok-NoTag : NoTag (codes "ok")
ok-NoTag = grind arith

strip_loop_diverges_example :
    strip_loop 1000 (codes "ok" ++ (close_tag ++ (codes "ok" ++ (open_tag ++ [])))) ≡ none
strip_loop_diverges_example =
    strip_loop_diverges 1000 (codes "ok") (codes "ok") [] ok-NoTag ok-NoTag

abbrev discord : Channel
discord = record {
  name = codes "discord";
  owns_jid = λ j. false;
  is_connected = true;
  accepts = λ j s. true;
}

abbrev tui : Channel
tui = record discord { name = codes "tui"; owns_jid = λ j. true }

not_blank : trim_space (visible answer) ≢ []
not_blank = unfold trim_space in λ p. cc

route_outbound_first_example :
    route_outbound 2 (discord ∷ tui ∷ tui ∷ []) (codes "tui:1") (render answer)
    ≡ some (routed, sent (codes "tui") (codes "tui:1") (trim_space (visible answer)) ∷ [])
route_outbound_first_example =
    route_outbound_first 2 (discord ∷ []) (tui ∷ []) tui (codes "tui:1") answer answer-IsTagFree
      (omega arith) not_blank (refl, tt) refl

abbrev tables : TextTables
tables = record { to_lower_rune = λ c. c; quote = λ s. s; format_time = λ t. [] }
