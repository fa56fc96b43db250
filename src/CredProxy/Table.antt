-- ===== src/CredProxy/Table.antt =====
-- The store of the credentials (internal/credproxy/credential_store.go). A statement of SQL reads or
-- writes the table, whose key is `group_jid`; whether it succeeds is a parameter.

pub mod Laws
pub mod Reads
mod Samples
use kraclaw.Prelude.{
  ℕ, suc, Bool, true, false, ◌||◌, Text, ◌==◌, List, [], ◌∷◌, Map, insert, remove, lookup, Option,
  none, some, if◌then◌else◌,
}
use kraclaw.Prelude.Int.{ℤ}
use kraclaw.CredProxy.{
  AuthMode, unset, api_key, chatgpt, other_mode, mode_text, mode_of, ChatGptTokens, Credential,
  validate, validate_for_read, validate_tokens, Row, Encrypter,
}

-- What a statement meets: whether it succeeds, and what a column `DATETIME` keeps of a time.
pub record Database : Type 0 where
  pub works : Bool
  pub column_time : ℤ → ℤ

module _ (enc : Encrypter) (db : Database) where
  -- A nullable column that is not NULL, and not empty where that is asked for.
  abbrev pub optional_text : Option Text → Option Text
  optional_text none = some []
  optional_text (some []) = some []
  optional_text (some (c ∷ s)) = enc.decrypt (c ∷ s)

  -- `decryptChatGPTTokens`; `none` is an error.
  abbrev pub tokens_of :
      Option Text → Option Text → Option Text → Text → ℤ → Bool → Option ChatGptTokens
  tokens_of (some access) (some refresh) (some id) account expires fedramp = some (record {
    access_token = access;
    refresh_token = refresh;
    id_token = id;
    account_id = account;
    expires_at = some expires;
    is_fedramp = fedramp;
  })
  tokens_of access refresh id account expires fedramp = none

  abbrev pub decrypt_column : Option Text → Option Text
  decrypt_column none = none
  decrypt_column (some s) = enc.decrypt s

  abbrev given_account : Text → ℤ → Row → Option ChatGptTokens
  given_account [] expires row = none
  given_account (c ∷ account) expires row =
      tokens_of (decrypt_column row.oauth_access_token_encrypted)
        (decrypt_column row.oauth_refresh_token_encrypted)
        (optional_text row.oauth_id_token_encrypted) (c ∷ account) expires row.oauth_is_fedramp

  abbrev pub with_expiry : Option Text → Option ℤ → Row → Option ChatGptTokens
  with_expiry none expires row = none
  with_expiry (some account) none row = none
  with_expiry (some account) (some expires) row = given_account account expires row

  unfoldable pub decrypt_chatgpt_tokens : Row → Option ChatGptTokens
  decrypt_chatgpt_tokens row = with_expiry row.oauth_account_id row.oauth_expires_at row

  abbrev api_key_credential : Text → Row → Option Text → Option Credential
  api_key_credential group_jid row none = none
  api_key_credential group_jid row (some key) = some (record {
    group_jid = group_jid;
    provider = row.provider;
    auth_mode = api_key;
    key = key;
    chat_gpt = none;
  })

  abbrev pub chatgpt_credential : Text → Row → Option ChatGptTokens → Option Credential
  chatgpt_credential group_jid row none = none
  chatgpt_credential group_jid row (some tokens) = some (record {
    group_jid = group_jid;
    provider = row.provider;
    auth_mode = chatgpt;
    key = [];
    chat_gpt = some tokens;
  })

  -- The switch over the mode of the row.
  abbrev pub credential_of : Text → Row → AuthMode → Option Credential
  credential_of group_jid row unset =
      api_key_credential group_jid row (decrypt_column row.api_key_encrypted)
  credential_of group_jid row api_key =
      api_key_credential group_jid row (decrypt_column row.api_key_encrypted)
  credential_of group_jid row chatgpt =
      chatgpt_credential group_jid row (decrypt_chatgpt_tokens row)
  credential_of group_jid row (other_mode m) = none

  abbrev pub checked : Option Credential → Option (Option Credential)
  checked none = none
  checked (some c) = if validate_for_read c then some (some c) else none

  -- `GetCredential`: an error is `none`, no row `some none`.
  unfoldable pub get_credential : Text → Map Row → Option (Option Credential)
  get_credential group_jid table =
      if db.works
      then elim (lookup group_jid table) [
        | none ↦ some none
        | some row ↦ checked (credential_of group_jid row (mode_of row.auth_mode))
      ]
      else none

  -- The columns of the tokens: the encryptions are the calls n, n + 1 and n + 2.
  abbrev pub encrypt_optional : ℕ → Text → Option (Option Text)
  encrypt_optional n [] = some none
  encrypt_optional n (c ∷ s) = elim (enc.encrypt n (c ∷ s)) [ none ↦ none | some e ↦ some (some e) ]

  abbrev pub column_expiry : Option ℤ → Option ℤ
  column_expiry none = none
  column_expiry (some t) = some (db.column_time t)

  abbrev pub chatgpt_row :
      Text → ChatGptTokens → Option Text → Option Text → Option (Option Text) → Option Row
  chatgpt_row provider t (some access) (some refresh) (some id) = some (record {
    provider = provider;
    auth_mode = mode_text chatgpt;
    api_key_encrypted = none;
    oauth_access_token_encrypted = some access;
    oauth_refresh_token_encrypted = some refresh;
    oauth_id_token_encrypted = id;
    oauth_account_id = some t.account_id;
    oauth_expires_at = column_expiry t.expires_at;
    oauth_is_fedramp = t.is_fedramp;
  })
  chatgpt_row provider t access refresh id = none

  abbrev pub encrypted_row : ℕ → Text → ChatGptTokens → Option Row
  encrypted_row n provider t =
      chatgpt_row provider t (enc.encrypt n t.access_token) (enc.encrypt (suc n) t.refresh_token)
        (encrypt_optional (suc (suc n)) t.id_token)

  -- `REPLACE INTO credentials`; the result says whether there was no error.
  abbrev pub replace_row : Text → Option Row → Map Row → Bool × Map Row
  replace_row group_jid none table = (false, table)
  replace_row group_jid (some row) table =
      if db.works then (true, insert group_jid row table) else (false, table)

  abbrev pub api_key_row : Text → Option Text → Option Row
  api_key_row provider none = none
  api_key_row provider (some key) = some (record {
    provider = provider;
    auth_mode = mode_text api_key;
    api_key_encrypted = some key;
    oauth_access_token_encrypted = none;
    oauth_refresh_token_encrypted = none;
    oauth_id_token_encrypted = none;
    oauth_account_id = none;
    oauth_expires_at = none;
    oauth_is_fedramp = false;
  })

  abbrev pub upsert_mode :
      ℕ → Credential → AuthMode → Option ChatGptTokens → Map Row → Bool × Map Row
  upsert_mode n c api_key tokens table =
      replace_row c.group_jid (api_key_row c.provider (enc.encrypt n c.key)) table
  upsert_mode n c chatgpt (some t) table =
      replace_row c.group_jid (encrypted_row n c.provider t) table
  upsert_mode n c m tokens table = (false, table)

  -- `UpsertCredential`; the mode `unset` is refused in front of the validation.
  unfoldable pub upsert_credential : ℤ → ℕ → Credential → Map Row → Bool × Map Row
  upsert_credential now n c table =
      if validate now c then upsert_mode n c c.auth_mode c.chat_gpt table else (false, table)

  -- The `UPDATE` of `RefreshChatGPTTokens`: a row of the mode keeps its provider and its key.
  abbrev pub refreshed_row : Row → Row → Row
  refreshed_row new old = record new {
    provider = old.provider;
    api_key_encrypted = old.api_key_encrypted;
  }

  abbrev pub update_row : Text → Option Row → Map Row → Bool × Map Row
  update_row group_jid none table = (false, table)
  update_row group_jid (some new) table = elim (lookup group_jid table) [
    | none ↦ (false, table)
    | some old ↦
        if old.auth_mode == mode_text chatgpt
        then (if db.works
            then (true, insert group_jid (refreshed_row new old) table)
            else (false, table))
        else (false, table)
  ]

  unfoldable pub refresh_chatgpt_tokens : ℤ → ℕ → Text → ChatGptTokens → Map Row → Bool × Map Row
  refresh_chatgpt_tokens now n group_jid t table =
      if group_jid == []
      then (false, table)
      else if validate_tokens now t
      then update_row group_jid (encrypted_row n [] t) table
      else (false, table)

  -- `DeleteCredential`.
  unfoldable pub delete_credential : Text → Map Row → Bool × Map Row
  delete_credential group_jid table =
      if db.works then (true, remove group_jid table) else (false, table)
