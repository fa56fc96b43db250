-- ===== src/CredProxy/Table/Reads.antt =====
-- A stored credential is read back (internal/credproxy/credential_store.go).
use kraclaw.Prelude.{
  ℕ, suc, true, false, Text, ◌==◌, codes, [], ◌∷◌, Map, Option, none, some, ◌≡◌, refl, ◌∙◌, ap,
  arith, if_cases,
}
use kraclaw.Prelude.Int.{ℤ}
use kraclaw.CredProxy.{
  AuthMode, unset, api_key, chatgpt, other_mode, mode_of, ChatGptTokens, Credential, validate,
  validate_for_read, validate_structure, Row, Encrypter, IsEncrypter,
}
use kraclaw.CredProxy.Table.{
  Database, get_credential, decrypt_chatgpt_tokens, decrypt_column, optional_text, tokens_of,
  with_expiry, chatgpt_credential, chatgpt_row, encrypt_optional, replace_row, upsert_mode,
  upsert_credential, column_expiry,
}
use kraclaw.CredProxy.Table.Laws.{
  stored, IsRead, with_tokens, key-IsRead, id_back, replace_row-IsRead,
}

module _ (enc : Encrypter) (db : Database) (law : IsEncrypter enc) (table : Map Row)
    (group_jid provider : Text) where
  abbrev kept : ChatGptTokens → ChatGptTokens
  kept t = record t { expires_at = column_expiry enc db t.expires_at }

  -- The columns of the tokens are decrypted to what they were encrypted from.
  columns_back :
      (t : ChatGptTokens) (account : Text) (expires : Option ℤ) (row : Row)
      → decrypt_column enc db row.oauth_access_token_encrypted ≡ some t.access_token
      → decrypt_column enc db row.oauth_refresh_token_encrypted ≡ some t.refresh_token
      → optional_text enc db row.oauth_id_token_encrypted ≡ some t.id_token
      → validate_structure (record t { account_id = account; expires_at = expires }) ≡ true
      → with_expiry enc db (some account) expires row
        ≡ some (record t {
          account_id = account;
          expires_at = expires;
          is_fedramp = row.oauth_is_fedramp;
        })
  columns_back t account none row a r i valid = ground arith
  columns_back t [] (some e) row a r i valid = unfold ◌==◌ in ground arith
  columns_back t (c ∷ account) (some e) row a r i valid =
      ap
        (λ x.
          tokens_of enc db x (decrypt_column enc db row.oauth_refresh_token_encrypted)
            (optional_text enc db row.oauth_id_token_encrypted) (c ∷ account) e
            row.oauth_is_fedramp)
        a
      ∙ (ap
            (λ x.
              tokens_of enc db (some t.access_token) x
                (optional_text enc db row.oauth_id_token_encrypted) (c ∷ account) e
                row.oauth_is_fedramp)
            r
          ∙ ap
              (λ x.
                tokens_of enc db (some t.access_token) (some t.refresh_token) x (c ∷ account) e
                  row.oauth_is_fedramp)
              i)

  tokens-IsRead :
      (n : ℕ) (t : ChatGptTokens) (a r : Option Text) (i : Option (Option Text))
      → enc.encrypt n t.access_token ≡ a
      → enc.encrypt (suc n) t.refresh_token ≡ r
      → encrypt_optional enc db (suc (suc n)) t.id_token ≡ i
      → validate_structure (kept t) ≡ true
      → validate_for_read (with_tokens enc db group_jid provider (kept t)) ≡ true
      → IsRead enc db
          (with_tokens enc db group_jid provider t)
          (replace_row enc db group_jid (chatgpt_row enc db provider t a r i) table)
  tokens-IsRead n t none r i ea er ei whole valid = λ failed. cc
  tokens-IsRead n t (some a) none i ea er ei whole valid = λ failed. cc
  tokens-IsRead n t (some a) (some r) none ea er ei whole valid = λ failed. cc
  tokens-IsRead n t (some a) (some r) (some i) ea er ei whole valid =
      replace_row-IsRead enc db (with_tokens enc db group_jid provider t) row table
        (unfold mode_of ◌==◌ in ap (chatgpt_credential enc db group_jid row) back) valid
    where
      row : Row
      row = record {
        provider = provider;
        auth_mode = codes "chatgpt";
        api_key_encrypted = none;
        oauth_access_token_encrypted = some a;
        oauth_refresh_token_encrypted = some r;
        oauth_id_token_encrypted = i;
        oauth_account_id = some t.account_id;
        oauth_expires_at = column_expiry enc db t.expires_at;
        oauth_is_fedramp = t.is_fedramp;
      }

      back : decrypt_chatgpt_tokens enc db row ≡ some (kept t)
      back =
          unfold decrypt_chatgpt_tokens in
          columns_back t t.account_id (column_expiry enc db t.expires_at) row
            (law.decrypt-encrypt n t.access_token a ea)
            (law.decrypt-encrypt (suc n) t.refresh_token r er)
            (id_back enc db law table group_jid provider (suc (suc n)) t.id_token i ei) whole

  kept_valid :
      (now : ℤ) (t : ChatGptTokens)
      → validate now (with_tokens enc db group_jid provider t) ≡ true
      → (validate_structure (kept t) ≡ true)
        × (validate_for_read (with_tokens enc db group_jid provider (kept t)) ≡ true)
  kept_valid now t valid = (ground arith, ground arith)

  mode-IsRead :
      (now : ℤ) (n : ℕ) (key : Text) (mode : AuthMode) (tokens : Option ChatGptTokens)
      → let c : Credential = record {
        group_jid = group_jid;
        provider = provider;
        auth_mode = mode;
        key = key;
        chat_gpt = tokens;
      } in
        validate now c ≡ true → IsRead enc db c (upsert_mode enc db n c mode tokens table)
  mode-IsRead now n key unset tokens valid = λ failed. cc
  mode-IsRead now n key (other_mode m) tokens valid = λ failed. cc
  mode-IsRead now n key api_key none valid =
      key-IsRead enc db law table group_jid provider n key (enc.encrypt n key) refl valid
  mode-IsRead now n key api_key (some t) valid = ground arith
  mode-IsRead now n key chatgpt none valid = λ failed. cc
  mode-IsRead now n [] chatgpt (some t) valid =
      tokens-IsRead n t (enc.encrypt n t.access_token) (enc.encrypt (suc n) t.refresh_token)
        (encrypt_optional enc db (suc (suc n)) t.id_token) refl refl refl (kept_valid now t valid).0
        (kept_valid now t valid).1
  mode-IsRead now n (b ∷ key) chatgpt (some t) valid = unfold ◌==◌ in ground arith

-- With an encryption that decrypts to what it was given: if a credential, which is written out here,
-- is stored without an error, then reading the group's credential with the same database yields
-- it, with the expiry of its tokens as the column keeps it.
pub upsert_credential-IsRead :
    (enc : Encrypter) (db : Database) (now : ℤ) (n : ℕ) (group_jid provider key : Text)
    (mode : AuthMode) (tokens : Option ChatGptTokens) (table : Map Row)
    → IsEncrypter enc
    → let c : Credential = record {
      group_jid = group_jid;
      provider = provider;
      auth_mode = mode;
      key = key;
      chat_gpt = tokens;
    } in
      let r = upsert_credential enc db now n c table in
      r.0 ≡ true
      → get_credential enc db group_jid r.1
        ≡ some (some (record c { chat_gpt = stored enc db tokens }))
unfolding upsert_credential
upsert_credential-IsRead enc db now n group_jid provider key mode tokens table law =
    if_cases (IsRead enc db c) (validate now c) (upsert_mode enc db n c mode tokens table)
      (false, table) (mode-IsRead enc db law table group_jid provider now n key mode tokens)
      (λ _ failed. cc)
  where
    c : Credential
    c = record {
      group_jid = group_jid;
      provider = provider;
      auth_mode = mode;
      key = key;
      chat_gpt = tokens;
    }
