-- ===== src/ChatGpt/Device.antt =====
-- The device code and a single poll for its approval (internal/auth/chatgpt/device_flow.go).
use kraclaw.Prelude.{
  ℕ, ◌/◌, eqb, Bool, false, ◌||◌, ◌&&◌, Text, ◌==◌, codes, trim_space, map, [], ◌∷◌, ◌++◌, Option,
  none, some, if◌then◌else◌,
}
use kraclaw.Prelude.Int.{ℤ, pos, ltb_ℤ}
use kraclaw.Prelude.Trace.{pure, ◌>>=◌}
use kraclaw.ChatGpt.{
  authorization_pending, slow_down, access_denied, bad_status, failed, Outcome, ok, err, Codec,
  Client, Answers, M, first_non_empty, Fetched, no_request, no_response, unread, fetched, fetch,
  UserCodeResponse, CodeSuccessResponse, PollErrorBody,
}

pub record DeviceCode : Type 0 where
  pub user_code : Text
  pub verification_url : Text
  pub interval : ℤ
  pub device_auth_id : Text

pub record AuthorizationCode : Type 0 where
  pub code : Text
  pub code_verifier : Text

abbrev pub default_poll_interval : ℤ
default_poll_interval = pos 5000000000

abbrev pub verification_url : Client → Text
verification_url c = c.issuer ++ codes "/codex/device"

abbrev pub is_success : ℕ → Bool
is_success status = eqb (status / 100) 2

-- `intervalString.UnmarshalJSON`, which is not called on a missing field; `none` is an error.
abbrev pub text_interval : Codec → Option Text → Option ℤ
text_interval codec none = none
text_interval codec (some []) = some (pos 0)
text_interval codec (some (c ∷ s)) = codec.text_nanos (c ∷ s)

unfoldable pub unmarshal_interval : Codec → Option Text → Option ℤ
unmarshal_interval codec none = some (pos 0)
unmarshal_interval codec (some []) = some (pos 0)
unmarshal_interval codec (some (c ∷ s)) =
    if (c ∷ s) == codes "null"
    then some (pos 0)
    else if eqb c b'"'
    then text_interval codec (codec.string (c ∷ s))
    else codec.number_nanos (c ∷ s)

module _ (codec : Codec) (client : Client) where
  -- The checks behind the decoding of the answer.
  unfoldable pub device_code : UserCodeResponse → ℤ → Outcome DeviceCode
  device_code parsed interval =
      let user_code = first_non_empty (parsed.user_code ∷ parsed.user_code_alt ∷ []) in
      if parsed.device_auth_id == [] || user_code == []
      then err (failed (codes "missing device_auth_id or user_code"))
      else ok (record {
        user_code = user_code;
        verification_url = verification_url client;
        interval = if ltb_ℤ (pos 0) interval then interval else default_poll_interval;
        device_auth_id = parsed.device_auth_id;
      })

  abbrev decoded : Option UserCodeResponse → Outcome DeviceCode
  decoded none = err (failed (codes "decode device-code response"))
  decoded (some parsed) = elim (unmarshal_interval codec parsed.interval) [
    | none ↦ err (failed (codes "decode device-code response"))
    | some interval ↦ device_code parsed interval
  ]

  unfoldable pub on_user_code : Fetched → Outcome DeviceCode
  on_user_code no_request = err (failed (codes "build device-code request"))
  on_user_code no_response = err (failed (codes "device-code request"))
  on_user_code (unread status e) = err e
  on_user_code (fetched status body) =
      if eqb status 404
      then err (failed (codes "device-code login is not enabled"))
      else if is_success status
      then decoded (codec.user_code_response body)
      else err (bad_status status body)

  unfoldable pub request_device_code : Answers → M (Outcome DeviceCode)
  request_device_code env = elim (codec.client_body client.client_id) [
    | none ↦ pure (err (failed (codes "marshal device-code request")))
    | some body ↦ do
      f ← fetch codec env (client.issuer ++ codes "/api/accounts/deviceauth/usercode") body
      pure (on_user_code f)
  ]

  abbrev pub normalize_poll_error_code : Text → Text
  normalize_poll_error_code code = map codec.to_lower_rune (trim_space code)

  -- `pollErrorCode`; `none` is an error.
  abbrev nested_code : PollErrorBody → Option (Text × Text) → Option Text
  nested_code parsed none = none
  nested_code parsed (some (code, error_code)) = some (
      normalize_poll_error_code
        (first_non_empty (code ∷ error_code ∷ parsed.code ∷ parsed.error_code ∷ [])))

  abbrev error_code_of : PollErrorBody → Option Text
  error_code_of parsed =
      if parsed.error == [] || parsed.error == codes "null"
      then some (normalize_poll_error_code (first_non_empty (parsed.code ∷ parsed.error_code ∷ [])))
      else elim (codec.string parsed.error) [
        | some code ↦ some (
            normalize_poll_error_code
              (first_non_empty (code ∷ parsed.code ∷ parsed.error_code ∷ [])))
        | none ↦ nested_code parsed (codec.nested_codes parsed.error)
      ]

  unfoldable pub poll_error_code : Text → Option Text
  poll_error_code body = elim (codec.poll_error_body body) [
    | none ↦ none
    | some parsed ↦ error_code_of parsed
  ]

  abbrev pub is_poll_error_status : ℕ → Bool
  is_poll_error_status status = eqb status 400 || eqb status 403 || eqb status 404

  abbrev pub is_pending_code : Text → Bool
  is_pending_code code =
      code == codes "authorization_pending"
      || code == codes "deviceauth_authorization_pending"
      || code == codes "deviceauth_authorization_unknown"
      || code == codes "authorization_unknown"

  abbrev pub is_slow_code : Text → Bool
  is_slow_code code = code == codes "slow_down"

  abbrev pub is_denied_code : Text → Bool
  is_denied_code code = code == codes "access_denied" || code == codes "expired_token"

  -- `pollPendingCode`, without the error that is only logged.
  unfoldable pub poll_pending_code : ℕ → Text → Text
  poll_pending_code status body =
      if is_poll_error_status status
      then elim (poll_error_code body) [
        | none ↦ []
        | some code ↦ if is_pending_code code || is_slow_code code then code else []
      ]
      else []

  -- `pollTerminalCode` without the error that is only logged: whether access is denied.
  unfoldable pub poll_terminal_code : ℕ → Text → Bool
  poll_terminal_code status body =
      is_poll_error_status status
      && elim (poll_error_code body) [ none ↦ false | some code ↦ is_denied_code code ]

  abbrev success_code : Option CodeSuccessResponse → Outcome AuthorizationCode
  success_code none = err (failed (codes "decode poll success response"))
  success_code (some parsed) =
      if parsed.authorization_code == [] || parsed.code_verifier == []
      then err (failed (codes "missing authorization_code or code_verifier"))
      else ok (record { code = parsed.authorization_code; code_verifier = parsed.code_verifier })

  unfoldable pub on_poll : Fetched → Outcome AuthorizationCode
  on_poll no_request = err (failed (codes "build poll request"))
  on_poll no_response = err (failed (codes "poll request"))
  on_poll (unread status e) = err e
  on_poll (fetched status body) =
      let code = poll_pending_code status body in
      if is_success status
      then success_code (codec.code_success_response body)
      else if is_pending_code code
      then err authorization_pending
      else if is_slow_code code
      then err slow_down
      else if poll_terminal_code status body
      then err access_denied
      else err (bad_status status body)

  unfoldable pub poll_once : Answers → DeviceCode → M (Outcome AuthorizationCode)
  poll_once env dc =
      if dc.device_auth_id == [] || dc.user_code == []
      then pure (err (failed (codes "device code is empty")))
      else elim (codec.poll_body dc.device_auth_id dc.user_code) [
        | none ↦ pure (err (failed (codes "marshal poll request")))
        | some body ↦ do
          f ← fetch codec env (client.issuer ++ codes "/api/accounts/deviceauth/token") body
          pure (on_poll f)
      ]
