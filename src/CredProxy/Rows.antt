-- ===== src/CredProxy/Rows.antt =====
-- Credentials and their validation (internal/credproxy/credential_store.go), and the row of the
-- table `credentials`.
use kraclaw.Prelude.{
  ℕ, ◌≢◌, ◌≡◌, Bool, true, false, not, ◌&&◌, Text, ◌==◌, codes, [], Option, none, some,
  if◌then◌else◌,
}
use kraclaw.Prelude.Int.{ℤ, ltb_ℤ}

-- `AuthMode`; the empty string is `unset`.
pub data AuthMode : Type 0 where
  unset api_key chatgpt : AuthMode
  other_mode : Text → AuthMode

abbrev pub mode_text : AuthMode → Text
mode_text unset = []
mode_text api_key = codes "api_key"
mode_text chatgpt = codes "chatgpt"
mode_text (other_mode s) = s

unfoldable pub mode_of : Text → AuthMode
mode_of s =
    if s == []
    then unset
    else if s == codes "api_key"
    then api_key
    else if s == codes "chatgpt"
    then chatgpt
    else other_mode s

-- The zero time is `none`.
pub record ChatGptTokens : Type 0 where
  pub access_token : Text
  pub refresh_token : Text
  pub id_token : Text
  pub account_id : Text
  pub expires_at : Option ℤ
  pub is_fedramp : Bool

pub record Credential : Type 0 where
  pub group_jid : Text
  pub provider : Text
  pub auth_mode : AuthMode
  pub key : Text
  pub chat_gpt : Option ChatGptTokens

abbrev is_given : Text → Bool
is_given s = not (s == [])

abbrev has_time : Option ℤ → Bool
has_time none = false
has_time (some t) = true

-- `validateStructure`; the validators say whether there is no error.
abbrev pub validate_structure : ChatGptTokens → Bool
validate_structure t =
    is_given t.access_token
    && is_given t.refresh_token
    && is_given t.account_id
    && has_time t.expires_at

-- `validateFresh`; the zero time is never in the future.
abbrev pub validate_fresh : ℤ → ChatGptTokens → Bool
validate_fresh now t = elim t.expires_at [ none ↦ false | some e ↦ ltb_ℤ now e ]

abbrev pub validate_tokens : ℤ → ChatGptTokens → Bool
validate_tokens now t = validate_structure t && validate_fresh now t

-- The switch over the mode, with the test of the tokens.
abbrev pub validate_mode : (ChatGptTokens → Bool) → AuthMode → Text → Option ChatGptTokens → Bool
validate_mode test unset key tokens = is_given key && elim tokens [ none ↦ true | some t ↦ false ]
validate_mode test api_key key tokens = is_given key && elim tokens [ none ↦ true | some t ↦ false ]
validate_mode test chatgpt key none = false
validate_mode test chatgpt key (some t) = key == [] && test t
validate_mode test (other_mode m) key tokens = false

-- `Credential.Validate` and `validateForRead`.
abbrev pub validate : ℤ → Credential → Bool
validate now c =
    is_given c.group_jid
    && is_given c.provider
    && validate_mode (validate_tokens now) c.auth_mode c.key c.chat_gpt

abbrev pub validate_for_read : Credential → Bool
validate_for_read c =
    is_given c.group_jid
    && is_given c.provider
    && validate_mode validate_structure c.auth_mode c.key c.chat_gpt

-- `NewAPIKeyCredential` and `NewChatGPTCredential`; `none` is an error.
abbrev pub new_api_key_credential : ℤ → Text → Text → Text → Option Credential
new_api_key_credential now group_jid provider key =
    let c : Credential = record {
      group_jid = group_jid;
      provider = provider;
      auth_mode = api_key;
      key = key;
      chat_gpt = none;
    } in
    if validate now c then some c else none

abbrev pub new_chatgpt_credential : ℤ → Text → Text → Option ChatGptTokens → Option Credential
new_chatgpt_credential now group_jid provider tokens =
    let c : Credential = record {
      group_jid = group_jid;
      provider = provider;
      auth_mode = chatgpt;
      key = [];
      chat_gpt = tokens;
    } in
    if validate now c then some c else none

-- A row but its key `group_jid`; `none` is NULL.
pub record Row : Type 0 where
  pub provider : Text
  pub auth_mode : Text
  pub api_key_encrypted : Option Text
  pub oauth_access_token_encrypted : Option Text
  pub oauth_refresh_token_encrypted : Option Text
  pub oauth_id_token_encrypted : Option Text
  pub oauth_account_id : Option Text
  pub oauth_expires_at : Option ℤ
  pub oauth_is_fedramp : Bool

-- The interface `encrypter`. An encryption draws a nonce, so it depends on the number of the call.
pub record Encrypter : Type 0 where
  pub encrypt : ℕ → Text → Option Text
  pub decrypt : Text → Option Text

-- What the store relies on: what was encrypted decrypts to itself, and is not empty.
pub record IsEncrypter (e : Encrypter) : Type 0 where
  pub decrypt-encrypt :
      (n : ℕ) (plain cipher : Text)
      → e.encrypt n plain ≡ some cipher
      → e.decrypt cipher ≡ some plain
  pub encrypt-nonempty :
      (n : ℕ) (plain cipher : Text) → e.encrypt n plain ≡ some cipher → cipher ≢ []
