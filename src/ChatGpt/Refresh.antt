-- ===== src/ChatGpt/Refresh.antt =====
-- The refresh of the tokens (internal/auth/chatgpt/refresh.go).
pub mod Laws
use kraclaw.Prelude.{
  ℕ, ◌*◌, ◌-◌, ◌%◌, ◌^◌, eqb, ltb, Bool, true, false, not, ◌||◌, ◌&&◌, Text, ◌==◌, codes,
  trim_space, map, List, [], ◌∷◌, ◌++◌, Option, none, some, if◌then◌else◌,
}
use kraclaw.Prelude.Int.{signed64, ℤ, pos, negsuc, pos_part, ◌+ℤ◌, ltb_ℤ}
use kraclaw.Prelude.Trace.{pure, ◌>>=◌}
use kraclaw.ChatGpt.{
  ChatGptError, access_denied, bad_status, failed, Outcome, ok, err, Codec, Client, Call, Answers,
  M, Fetched, no_request, no_response, unread, fetched, fetch, TokenResponse, RefreshErrorBody,
}
use kraclaw.ChatGpt.Jwt.{IdTokenClaims, no_claims, parse_id_token}
use kraclaw.ChatGpt.Tokens.{Tokens, expiry}
use kraclaw.ChatGpt.Device.{AuthorizationCode, is_success, poll_terminal_code}

-- `RefreshFailureReason`, `RefreshErrorKind` and `RefreshError`.
pub data RefreshFailureReason : Type 0 where
  refresh_token_expired refresh_token_reused refresh_token_invalidated unknown :
      RefreshFailureReason

pub data RefreshErrorKind : Type 0 where
  transient permanent : RefreshErrorKind

pub record RefreshError : Type 0 where
  pub kind : RefreshErrorKind
  pub reason : RefreshFailureReason
  pub status : ℕ
  pub body : Text

-- What `Refresh` returns; `misuse` is an error that is no `RefreshError`.
pub data RefreshOutcome : Type 0 where
  refreshed : Tokens → RefreshOutcome
  misuse : RefreshOutcome
  refused : RefreshError → RefreshOutcome

abbrev pub transient_refresh : ℕ → Text → RefreshOutcome
transient_refresh status body =
    refused (record { kind = transient; reason = unknown; status = status; body = body })

abbrev pub permanent_refresh : ℕ → Text → RefreshFailureReason → RefreshOutcome
permanent_refresh status body reason =
    refused (record { kind = permanent; reason = reason; status = status; body = body })

module _ (codec : Codec) (client : Client) where
  abbrev pub lowered : Text → Text
  lowered s = map codec.to_lower_rune (trim_space s)

  -- The loop over the candidates.
  unfoldable pub reason_of : List Text → RefreshFailureReason
  reason_of [] = unknown
  reason_of (candidate ∷ rest) =
      let later = reason_of rest in
      if lowered candidate == codes "refresh_token_expired"
      then refresh_token_expired
      else if lowered candidate == codes "refresh_token_reused"
      then refresh_token_reused
      else if lowered candidate == codes "refresh_token_invalidated"
      then refresh_token_invalidated
      else later

  -- `classifyRefreshFailure` on the decoded body: the reason, and whether any field was given.
  unfoldable pub classify_refresh_failure : Option RefreshErrorBody → RefreshFailureReason × Bool
  classify_refresh_failure none = (unknown, false)
  classify_refresh_failure (some p) = (
    reason_of (p.error_code ∷ p.error ∷ p.error_description ∷ []),
    not (p.error == []) || not (p.error_code == []) || not (p.error_description == []),
  )

  abbrev pub is_unknown : RefreshFailureReason → Bool
  is_unknown unknown = true
  is_unknown r = false

  abbrev pub has_invalid_grant : Option RefreshErrorBody → Bool
  has_invalid_grant none = false
  has_invalid_grant (some p) = codec.equal_fold (trim_space p.error) (codes "invalid_grant")

  -- `isPermanentBadRequest` on the decoded body.
  unfoldable pub is_permanent_bad_request :
      ℕ → Option RefreshErrorBody → RefreshFailureReason → Bool → Bool
  is_permanent_bad_request status p reason parsed =
      if not (eqb status 400) || not parsed
      then false
      else if is_unknown reason
      then has_invalid_grant p
      else true

  unfoldable pub refusal : ℕ → Text → Option RefreshErrorBody → RefreshOutcome
  refusal status body p =
      let (reason, parsed) = classify_refresh_failure p in
      if eqb status 401 && parsed || is_permanent_bad_request status p reason parsed
      then permanent_refresh status body reason
      else transient_refresh status body

  -- The claims of the refreshed id token, if there is one; `none` is an error.
  abbrev refreshed_claims : Text → Option IdTokenClaims
  refreshed_claims id_token =
      if id_token == [] then some no_claims else parse_id_token codec id_token

  -- The answer of success, for the refresh token that was sent.
  unfoldable pub on_refreshed : ℤ → Text → ℕ → Option TokenResponse → RefreshOutcome
  on_refreshed now sent status none = transient_refresh status []
  on_refreshed now sent status (some parsed) =
      if parsed.access_token == []
      then transient_refresh status []
      else elim (refreshed_claims parsed.id_token) [
        | none ↦ transient_refresh status []
        | some claims ↦ refreshed (record {
          access_token = parsed.access_token;
          refresh_token = if parsed.refresh_token == [] then sent else parsed.refresh_token;
          id_token = parsed.id_token;
          id_claims = claims;
          expires_at = expiry now claims.expires_at parsed.expires_in;
        })
      ]

  unfoldable pub on_refresh : ℤ → Text → Fetched → RefreshOutcome
  on_refresh now sent no_request = misuse
  on_refresh now sent no_response = transient_refresh 0 []
  on_refresh now sent (unread status e) = transient_refresh status []
  on_refresh now sent (fetched status body) =
      if is_success status
      then on_refreshed now sent status (codec.token_response body)
      else refusal status body (codec.refresh_error_body body)

  unfoldable pub refresh : Answers → Text → M RefreshOutcome
  refresh env refresh_token =
      if trim_space refresh_token == []
      then pure misuse
      else elim (codec.refresh_body client.client_id refresh_token) [
        | none ↦ pure misuse
        | some body ↦ do
          f ← fetch codec env (client.issuer ++ codes "/oauth/token") body
          (λ log. (on_refresh (env.now log) refresh_token f, log))
      ]
