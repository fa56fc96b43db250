-- ===== src/ChatGpt/Tokens.antt =====
-- The exchange of a code for tokens (internal/auth/chatgpt/device_flow.go).
use kraclaw.Prelude.{
  ◌*◌, ◌||◌, Text, ◌==◌, codes, List, [], ◌∷◌, ◌++◌, Option, none, some, if◌then◌else◌,
}
use kraclaw.Prelude.Int.{signed64, ℤ, pos, pos_part, ◌+ℤ◌, ltb_ℤ}
use kraclaw.Prelude.Trace.{pure, ◌>>=◌}
use kraclaw.ChatGpt.{
  access_denied, bad_status, failed, Outcome, ok, err, Codec, Client, Answers, M, Fetched,
  no_request, no_response, unread, fetched, fetch, TokenResponse,
}
use kraclaw.ChatGpt.Jwt.{IdTokenClaims, parse_id_token}
use kraclaw.ChatGpt.Device.{AuthorizationCode, is_success, poll_terminal_code}

pub record Tokens : Type 0 where
  pub access_token : Text
  pub refresh_token : Text
  pub id_token : Text
  pub id_claims : IdTokenClaims
  -- `none` is the zero time.
  pub expires_at : Option ℤ

-- The expiry of the id token, else that which the answer gives in seconds from now.
abbrev pub expiry : ℤ → Option ℤ → ℤ → Option ℤ
expiry now (some t) expires_in = some t
expiry now none expires_in =
    if ltb_ℤ (pos 0) expires_in
    then some (now +ℤ signed64 (pos_part expires_in * 1000000000))
    else none

module _ (codec : Codec) (client : Client) where
  -- `tokensFromResponse` with the clock.
  unfoldable pub tokens_from_response : ℤ → TokenResponse → Outcome Tokens
  tokens_from_response now parsed =
      if parsed.access_token == []
      then err (failed (codes "token response missing access_token"))
      else if parsed.refresh_token == []
      then err (failed (codes "token response missing refresh_token"))
      else if parsed.id_token == []
      then err (failed (codes "token response missing id_token"))
      else elim (parse_id_token codec parsed.id_token) [
        | none ↦ err (failed (codes "parse id_token from token response"))
        | some claims ↦ ok (record {
          access_token = parsed.access_token;
          refresh_token = parsed.refresh_token;
          id_token = parsed.id_token;
          id_claims = claims;
          expires_at = expiry now claims.expires_at parsed.expires_in;
        })
      ]

  unfoldable pub on_exchange : ℤ → Fetched → Outcome Tokens
  on_exchange now no_request = err (failed (codes "build token-exchange request"))
  on_exchange now no_response = err (failed (codes "token-exchange request"))
  on_exchange now (unread status e) = err e
  on_exchange now (fetched status body) =
      if is_success status
      then elim (codec.token_response body) [
        | none ↦ err (failed (codes "decode token-exchange response"))
        | some parsed ↦ tokens_from_response now parsed
      ]
      else if poll_terminal_code codec client status body
      then err access_denied
      else err (bad_status status body)

  abbrev exchange_form : AuthorizationCode → List (Text × Text)
  exchange_form code =
      (codes "grant_type", codes "authorization_code")
      ∷ (codes "code", code.code)
      ∷ (codes "redirect_uri", client.issuer ++ codes "/deviceauth/callback")
      ∷ (codes "client_id", client.client_id)
      ∷ (codes "code_verifier", code.code_verifier)
      ∷ []

  unfoldable pub exchange_code : Answers → AuthorizationCode → M (Outcome Tokens)
  exchange_code env code =
      if code.code == [] || code.code_verifier == []
      then pure (err (failed (codes "authorization code is empty")))
      else (do
        f ←
            fetch codec env (client.issuer ++ codes "/oauth/token")
              (codec.form (exchange_form code))
        answer f)
    where
      answer : Fetched → M (Outcome Tokens)
      answer f log = (on_exchange (env.now log) f, log)
