-- ===== src/Router/Route.antt =====
-- `RouteOutbound` of internal/router/router.go.
use kraclaw.Prelude.{ℕ, Bool, ◌&&◌, Text, List, [], ◌∷◌, Option, none, some, if◌then◌else◌}
use kraclaw.Router.Strip.{strip_loop}

-- A channel as the router sees it: the interface `channel.Channel`.
pub record Channel : Type 0 where
  pub name : Text
  pub owns_jid : Text → Bool
  pub is_connected : Bool
  -- Whether `SendMessage(jid, text)` succeeds.
  pub accepts : Text → Text → Bool

-- A call of `SendMessage`: the channel's name, the chat and the text.
pub data Delivery : Type 0 where
  sent : Text → Text → Text → Delivery

pub data RouteResult : Type 0 where
  routed send_failed no_channel : RouteResult

-- The loop over `r.channels`: the first channel that owns the chat and is connected gets the text.
unfoldable pub route_first : List Channel → Text → Text → RouteResult × List Delivery
route_first [] chat_jid text = (no_channel, [])
route_first (ch ∷ chs) chat_jid text =
    if ch.owns_jid chat_jid && ch.is_connected
    then (if ch.accepts chat_jid text then routed else send_failed, sent ch.name chat_jid text ∷ [])
    else route_first chs chat_jid text

-- What follows the stripping; `none` means that it was still running when the fuel ran out.
unfoldable pub route_stripped :
    List Channel → Text → Option Text → Option (RouteResult × List Delivery)
route_stripped chs chat_jid none = none
route_stripped chs chat_jid (some []) = some (routed, [])
route_stripped chs chat_jid (some (c ∷ s)) = some (route_first chs chat_jid (c ∷ s))

unfoldable pub route_outbound :
    ℕ → List Channel → Text → Text → Option (RouteResult × List Delivery)
unfolding route_stripped
route_outbound fuel chs chat_jid text = route_stripped chs chat_jid (strip_loop fuel text)
