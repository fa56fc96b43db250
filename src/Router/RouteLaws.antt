-- ===== src/Router/RouteLaws.antt =====
-- Where an outbound text goes, and when a message is a trigger (internal/router/router.go).
use kraclaw.Prelude.{
  ℕ, ◌<◌, eqb_iff, Text, ◌==◌, has_prefix, trim_space, Bool, true, false, ◌&&◌, some, List, [], ◌∷◌,
  ◌++◌, if◌then◌else◌, ◌≡◌, refl, ap, ◌∙◌, ◌≢◌, ◌↔◌, All, arith, Elem, ◌⊎◌, inl, inr, sym, Option,
  none, if_cases,
}
use kraclaw.Router.Strip.{strip_loop}
use kraclaw.Router.StripLaws.{Tagged, IsTagFree, render, visible, rounds, strip_loop-render}
use kraclaw.Router.Format.{TextTables, to_lower, matches_trigger}
use kraclaw.Router.Route.{
  Channel, Delivery, RouteResult, route_stripped, sent, routed, send_failed, no_channel,
  route_first, route_outbound,
}

-- A channel that the router may use for a chat.
abbrev pub serves : Text → Channel → Bool
serves chat_jid ch = ch.owns_jid chat_jid && ch.is_connected

route_first_skip :
    (before chs : List Channel) (chat_jid text : Text)
    → All (λ ch. serves chat_jid ch ≡ false) before
    → route_first (before ++ chs) chat_jid text ≡ route_first chs chat_jid text
unfolding route_first
route_first_skip [] chs chat_jid text h = refl
route_first_skip (ch ∷ before) chs chat_jid text (h, hs) =
    rw (h, route_first) (route_first_skip before chs chat_jid text hs)

route_first_here :
    (ch : Channel) (after : List Channel) (chat_jid text : Text)
    → serves chat_jid ch ≡ true
    → route_first (ch ∷ after) chat_jid text
      ≡ (if ch.accepts chat_jid text then routed else send_failed, sent ch.name chat_jid text ∷ [])
unfolding route_first
route_first_here ch after chat_jid text h = rw (h, route_first)

route_outbound_of_strip :
    (fuel : ℕ) (chs : List Channel) (chat_jid text out : Text)
    → strip_loop fuel text ≡ some out
    → out ≢ []
    → route_outbound fuel chs chat_jid text ≡ some (route_first chs chat_jid out)
unfolding route_outbound
route_outbound_of_strip fuel chs chat_jid text [] e ne = absurd (ne refl)
route_outbound_of_strip fuel chs chat_jid text (c ∷ out) e ne = rw (e, route_outbound)

-- Where every opening tag is closed before the next one opens, with rounds for all of them, and
-- something visible is left: the visible text goes once to the first channel that owns the chat
-- and is connected, whatever the channels behind it, and the result is that of this one send.
pub route_outbound_first :
    (fuel : ℕ) (before after : List Channel) (ch : Channel) (chat_jid : Text) (d : Tagged)
    → IsTagFree d
    → rounds d < fuel
    → trim_space (visible d) ≢ []
    → All (λ c. serves chat_jid c ≡ false) before
    → serves chat_jid ch ≡ true
    → route_outbound fuel (before ++ ch ∷ after) chat_jid (render d)
      ≡ some (
        if ch.accepts chat_jid (trim_space (visible d)) then routed else send_failed,
        sent ch.name chat_jid (trim_space (visible d)) ∷ [],
      )
route_outbound_first fuel before after ch chat_jid d free enough ne skip here =
    route_outbound_of_strip fuel _ chat_jid _ _ (strip_loop-render d fuel free enough) ne
    ∙ ap some (
        route_first_skip before (ch ∷ after) chat_jid _ skip
        ∙ route_first_here ch after chat_jid _ here)

route_first_none :
    (chs : List Channel) (chat_jid text : Text)
    → All (λ c. serves chat_jid c ≡ false) chs
    → route_first chs chat_jid text ≡ (no_channel, [])
unfolding route_first
route_first_none [] chat_jid text h = refl
route_first_none (ch ∷ chs) chat_jid text (h, hs) =
    rw (h, route_first) (route_first_none chs chat_jid text hs)

-- A text that a serving channel took, as the single delivery.
abbrev pub IsTaken : List Channel → Text → Text → List Delivery → Type 0
IsTaken chs chat_jid out sends =
    (ch : Channel) × Elem ch chs
    × (serves chat_jid ch ≡ true)
    × (ch.accepts chat_jid out ≡ true)
    × (sends ≡ sent ch.name chat_jid out ∷ [])

route_first_routed :
    (chs : List Channel) (chat_jid out : Text) (sends : List Delivery)
    → route_first chs chat_jid out ≡ (routed, sends)
    → IsTaken chs chat_jid out sends
unfolding route_first
route_first_routed [] chat_jid out sends = λ h. cc
route_first_routed (ch ∷ chs) chat_jid out sends =
    if_cases (λ r. r ≡ (routed, sends) → IsTaken (ch ∷ chs) chat_jid out sends)
      (ch.owns_jid chat_jid && ch.is_connected) _ (route_first chs chat_jid out)
      (λ serving.
        if_cases
          (λ r.
            ◌≡◌ {A = RouteResult × List Delivery} (r, sent ch.name chat_jid out ∷ [])
              (routed, sends)
            → IsTaken (ch ∷ chs) chat_jid out sends)
          (ch.accepts chat_jid out) routed send_failed
          (λ taken h. (ch, inl refl, serving, taken, sym (ap (λ x. x.1) h)))
          (λ _. refused (sent ch.name chat_jid out ∷ [])))
      (λ _ h.
        let (c, here, serving, taken, e) = route_first_routed chs chat_jid out sends h in
        (c, inr here, serving, taken, e))
  where
    refused :
        (ds : List Delivery)
        → ◌≡◌ {A = RouteResult × List Delivery} (send_failed, ds) (routed, sends)
        → IsTaken (ch ∷ chs) chat_jid out sends
    refused ds h = cc

-- What a result without an error means: nothing is left behind the stripping and nothing is sent,
-- or a serving channel took what is left.
abbrev pub IsRouted : ℕ → List Channel → Text → Text → List Delivery → Type 0
IsRouted fuel chs chat_jid text sends =
    ((strip_loop fuel text ≡ some []) × (sends ≡ []))
    ⊎ ((out : Text) × (strip_loop fuel text ≡ some out) × IsTaken chs chat_jid out sends)

pub route_outbound_routed :
    (fuel : ℕ) (chs : List Channel) (chat_jid text : Text) (sends : List Delivery)
    → route_outbound fuel chs chat_jid text ≡ some (routed, sends)
    → IsRouted fuel chs chat_jid text sends
unfolding route_outbound route_stripped
route_outbound_routed fuel chs chat_jid text sends h = split (strip_loop fuel text) refl h
  where
    split :
        (o : Option Text)
        → strip_loop fuel text ≡ o
        → route_stripped chs chat_jid o ≡ some (routed, sends)
        → IsRouted fuel chs chat_jid text sends
    split none e h = cc
    split (some []) e h = inl (e, cc)
    split (some (c ∷ s)) e h = inr (c ∷ s, e, route_first_routed chs chat_jid (c ∷ s) sends cc)

-- Where every opening tag is closed before the next one opens, with rounds for all of them, and
-- something visible is left: if no channel owns the chat and is connected, nothing is sent and the
-- result is the error.
pub route_outbound_none :
    (fuel : ℕ) (chs : List Channel) (chat_jid : Text) (d : Tagged)
    → IsTagFree d
    → rounds d < fuel
    → trim_space (visible d) ≢ []
    → All (λ c. serves chat_jid c ≡ false) chs
    → route_outbound fuel chs chat_jid (render d) ≡ some (no_channel, [])
route_outbound_none fuel chs chat_jid d free enough ne skip =
    route_outbound_of_strip fuel _ chat_jid _ _ (strip_loop-render d fuel free enough) ne
    ∙ ap some (route_first_none chs chat_jid _ skip)

has_prefix_sound : (s p : Text) → has_prefix s p ≡ true → (rest : Text) × (s ≡ p ++ rest)
unfolding has_prefix
has_prefix_sound s [] h = (s, refl)
has_prefix_sound [] (c ∷ p) h = cc
has_prefix_sound (b ∷ s) (c ∷ p) h =
    let (rest, e) = has_prefix_sound s p (ground arith) in (rest, ground (arith, eqb_iff b c))

has_prefix-append : (p rest : Text) → has_prefix (p ++ rest) p ≡ true
unfolding has_prefix
has_prefix-append [] rest = refl
has_prefix-append (c ∷ p) rest = ground (arith, has_prefix-append p rest)

-- A message is a trigger exactly when the lower-cased pattern begins the lower-cased message; the
-- empty pattern is met by every message.
pub matches_trigger_iff :
    (u : TextTables) (content pattern' : Text)
    → (matches_trigger u content pattern' ≡ true)
      ↔ ((rest : Text) × (to_lower u content ≡ to_lower u pattern' ++ rest))
unfolding matches_trigger ◌==◌ has_prefix
matches_trigger_iff u content [] = (λ _. (to_lower u content, refl), λ _. refl)
matches_trigger_iff u content (c ∷ p) = (
  has_prefix_sound (to_lower u content) (to_lower u (c ∷ p)),
  λ w. rw w.1 (has_prefix-append (to_lower u (c ∷ p)) w.0),
)
