-- ===== src/ChatGpt.antt =====
-- The sign-in with ChatGPT (internal/auth/chatgpt/client.go): the client, its errors and what it
-- uses of other code, which are the issuer's answers, the clock, and JSON, base64 and URLs.
pub mod Jwt
pub mod Device
pub mod Poll
pub mod Tokens
pub mod Refresh
mod Samples
use kraclaw.Prelude.{
  ℕ, ◌+◌, ◌^◌, ltb, Bool, true, false, ◌||◌, Text, ◌==◌, codes, has_prefix, trim_right_of, List, [],
  ◌∷◌, ◌++◌, take, length, Option, none, some, if◌then◌else◌,
}
use kraclaw.Prelude.Int.{ℤ, pos, ltb_ℤ}
use kraclaw.Prelude.Trace.{Run}

-- The errors that callers tell apart; the others are their text, without what they wrap.
-- `slow_down` wraps `authorization_pending`, and `context_done` is the caller's `ctx.Err()`.
pub data ChatGptError : Type 0 where
  authorization_pending slow_down access_denied device_auth_timeout response_too_large
        context_done :
      ChatGptError
  bad_status : ℕ → Text → ChatGptError
  failed : Text → ChatGptError

pub data Outcome (A : Type 0) : Type 0 where
  ok : A → Outcome A
  err : ChatGptError → Outcome A

-- The bytes that a body yields, and whether the reading fails behind them.
pub record Body : Type 0 where
  pub bytes : Text
  pub breaks : Bool

pub record Response : Type 0 where
  pub status : ℕ
  pub body : Body

abbrev pub max_response_body_size : ℕ
max_response_body_size = 2 ^ 20

-- `readCappedBody`: one byte more than the cap is asked for.
pub read_capped_body : Body → Outcome Text
read_capped_body b =
    if ltb max_response_body_size (length b.bytes)
    then err response_too_large
    else if b.breaks
    then err (failed (codes "read"))
    else ok b.bytes

-- The bodies that `json.Unmarshal` yields; a missing field is empty, a missing number 0.
pub record AuthClaims : Type 0 where
  pub chatgpt_plan_type : Text
  pub chatgpt_user_id : Text
  pub user_id : Text
  pub chatgpt_account_id : Text
  pub chatgpt_account_is_fedramp : Bool

pub record RawClaims : Type 0 where
  pub email : Text
  pub exp : ℤ
  -- The email of the profile, and the claims of the account.
  pub profile : Option Text
  pub auth : Option AuthClaims

pub record UserCodeResponse : Type 0 where
  pub device_auth_id : Text
  pub user_code : Text
  pub user_code_alt : Text
  -- The JSON of the interval, which has its own decoder.
  pub interval : Option Text

pub record CodeSuccessResponse : Type 0 where
  pub authorization_code : Text
  pub code_verifier : Text

pub record TokenResponse : Type 0 where
  pub id_token : Text
  pub access_token : Text
  pub refresh_token : Text
  pub expires_in : ℤ

-- The error of a poll: the JSON of `error`, and the two codes.
pub record PollErrorBody : Type 0 where
  pub error : Text
  pub code : Text
  pub error_code : Text

pub record RefreshErrorBody : Type 0 where
  pub error : Text
  pub error_code : Text
  pub error_description : Text

pub record Codec : Type 0 where
  pub raw_claims : Text → Option RawClaims
  pub user_code_response : Text → Option UserCodeResponse
  pub code_success_response : Text → Option CodeSuccessResponse
  pub token_response : Text → Option TokenResponse
  pub poll_error_body : Text → Option PollErrorBody
  -- The JSON of `error` as a string, and as an object with the two codes.
  pub string : Text → Option Text
  pub nested_codes : Text → Option (Text × Text)
  pub refresh_error_body : Text → Option RefreshErrorBody
  -- `time.Duration(secs * float64(time.Second))` behind `strconv.ParseFloat`, and behind the
  -- decoding of a JSON number.
  pub text_nanos : Text → Option ℤ
  pub number_nanos : Text → Option ℤ
  pub url_base64 : Text → Option Text
  pub std_base64 : Text → Option Text
  pub to_lower_rune : ℕ → ℕ
  pub equal_fold : Text → Text → Bool
  -- `json.Marshal` of what is posted, and `url.Values.Encode`.
  pub client_body : Text → Option Text
  pub poll_body : Text → Text → Option Text
  pub refresh_body : Text → Text → Option Text
  pub form : List (Text × Text) → Text
  -- Whether `http.NewRequestWithContext` accepts the URL.
  pub is_url : Text → Bool

-- The fields of `Client` but the transport, which is `Answers`; times are in nanoseconds.
pub record Client : Type 0 where
  pub issuer : Text
  pub client_id : Text
  pub poll_timeout : ℤ
  pub poll_override : ℤ

abbrev pub default_poll_timeout : ℕ
default_poll_timeout = 900000000000

abbrev pub default_issuer : Text
default_issuer = codes "https://auth.openai.com"

abbrev pub default_client_id : Text
default_client_id = codes "app_EMoamEEZ73f0CkXaXp7hrann"

abbrev or_default : Text → Text → Text
or_default d s = if s == [] then d else s

-- `NewClient`; the transport, the clock and the logger have no place in the record.
unfoldable pub new_client : Client → Option Client
new_client cfg =
    let issuer = or_default default_issuer (trim_right_of b'/' cfg.issuer) in
    if has_prefix issuer (codes "http://") || has_prefix issuer (codes "https://")
    then some (record {
      issuer = issuer;
      client_id = or_default default_client_id cfg.client_id;
      poll_timeout =
          if ltb_ℤ (pos 0) cfg.poll_timeout then cfg.poll_timeout else pos default_poll_timeout;
      poll_override = cfg.poll_override;
    })
    else none

-- What the client does: post a body to a URL, and wait for a number of nanoseconds, as the 64 bits
-- of a signed number.
pub data Call : Type 0 where
  post : Text → Text → Call
  wait : ℕ → Call

-- How a wait ends: the caller's context or the context of the polling is done, or the timer fires.
pub data Wake : Type 0 where
  caller_done deadline_passed timer_fired : Wake

-- The answers to the calls made so far; `none` is an error of the transport.
pub record Answers : Type 0 where
  pub response : List Call → Option Response
  pub wake : List Call → Wake
  -- `ctx.Err() != nil`, and `pollCtx.Err()` being the deadline.
  pub is_cancelled : List Call → Bool
  pub is_late : List Call → Bool
  pub now : List Call → ℤ

abbrev pub M : Type 0 → Type 0
M A = Run (List Call) A

-- `firstNonEmpty`.
unfoldable pub first_non_empty : List Text → Text
first_non_empty [] = []
first_non_empty ([] ∷ vs) = first_non_empty vs
first_non_empty ((c ∷ v) ∷ vs) = c ∷ v

-- Post a body and read the answer: the status and the body, or the error of the transport and of
-- the reading.
pub data Fetched : Type 0 where
  no_request no_response : Fetched
  unread : ℕ → ChatGptError → Fetched
  fetched : ℕ → Text → Fetched

abbrev pub received : Option Response → Fetched
received none = no_response
received (some r) = elim (read_capped_body r.body) [
  | err e ↦ unread r.status e
  | ok body ↦ fetched r.status body
]

abbrev pub fetch : Codec → Answers → Text → Text → M Fetched
fetch codec env url body log =
    if codec.is_url url
    then (received (env.response (post url body ∷ log)), post url body ∷ log)
    else (no_request, log)
