-- ===== src/ChatGpt/Jwt.antt =====
-- The claims of an id token (internal/auth/chatgpt/jwt.go).
pub mod Laws
use kraclaw.Prelude.{
  ℕ, ◌-◌, ◌%◌, eqb, Bool, true, false, Text, ◌==◌, codes, split_on, replicate, byte_len, List, [],
  ◌∷◌, ◌++◌, Option, none, some, if◌then◌else◌,
}
use kraclaw.Prelude.Int.{ℤ, pos, ◌*ℤ◌, ltb_ℤ}
use kraclaw.ChatGpt.{Codec, RawClaims, AuthClaims, first_non_empty}

pub record IdTokenClaims : Type 0 where
  pub email : Text
  pub account_id : Text
  pub user_id : Text
  pub plan_type : Text
  pub is_fedramp : Bool
  -- In nanoseconds; `none` is the zero time.
  pub expires_at : Option ℤ

abbrev pub no_claims : IdTokenClaims
no_claims = record {
  email = [];
  account_id = [];
  user_id = [];
  plan_type = [];
  is_fedramp = false;
  expires_at = none;
}

-- `seg` with the padding that it lacks.
abbrev pub padded : Text → Text
padded seg = if eqb (byte_len seg % 4) 0 then seg else seg ++ replicate (4 - byte_len seg % 4) b'='

unfoldable pub decode_jwt_segment : Codec → Text → Option Text
decode_jwt_segment codec seg = elim (codec.url_base64 (padded seg)) [
  | some b ↦ some b
  | none ↦ codec.std_base64 (padded seg)
]

-- The email of the claims, else of the profile.
abbrev email_of : RawClaims → Text
email_of raw = if raw.email == [] then elim raw.profile [ none ↦ [] | some e ↦ e ] else raw.email

abbrev with_auth : Option AuthClaims → IdTokenClaims → IdTokenClaims
with_auth none c = c
with_auth (some a) c = record c {
  account_id = a.chatgpt_account_id;
  user_id = if a.chatgpt_user_id == [] then a.user_id else a.chatgpt_user_id;
  plan_type = a.chatgpt_plan_type;
  is_fedramp = a.chatgpt_account_is_fedramp;
}

-- What follows the decoding of the claims.
unfoldable pub claims_of : RawClaims → IdTokenClaims
claims_of raw = with_auth raw.auth (record no_claims {
  email = email_of raw;
  expires_at = if ltb_ℤ (pos 0) raw.exp then some (raw.exp *ℤ pos 1000000000) else none;
})

-- The three parts of a token; `none` is an error.
abbrev pub claims_of_parts : Codec → List Text → Option IdTokenClaims
claims_of_parts codec (head ∷ payload ∷ signature ∷ []) = elim (decode_jwt_segment codec payload) [
  | none ↦ none
  | some b ↦ elim (codec.raw_claims b) [ none ↦ none | some raw ↦ some (claims_of raw) ]
]
claims_of_parts codec parts = none

-- The test for the empty token stands in front, since `Split` yields one part of it.
unfoldable pub parse_id_token : Codec → Text → Option IdTokenClaims
parse_id_token codec token =
    if token == [] then none else claims_of_parts codec (split_on b'.' token)
