-- ===== src/CredProxy/Table/Laws.antt =====
-- What is read of a credential that was stored (internal/credproxy/credential_store.go).
use kraclaw.Prelude.{
  ℕ, Bool, true, false, Text, ◌==◌, ==_refl, [], ◌∷◌, Map, insert, lookup, lookup-insert, Option,
  none, some, if◌then◌else◌, ◌≡◌, ◌≢◌, refl, ◌∙◌, ap, subst, if_cases, option_cases,
}
use kraclaw.CredProxy.{
  api_key, chatgpt, mode_of, ChatGptTokens, Credential, validate_for_read, Row, Encrypter,
  IsEncrypter,
}
use kraclaw.CredProxy.Table.{
  Database, credential_of, checked, get_credential, api_key_row, replace_row, column_expiry,
  encrypt_optional, optional_text,
}

module _ (enc : Encrypter) (db : Database) where
  get_inserted :
      (group_jid : Text) (row : Row) (c : Credential) (table : Map Row)
      → db.works ≡ true
      → credential_of enc db group_jid row (mode_of row.auth_mode) ≡ some c
      → validate_for_read c ≡ true
      → get_credential enc db group_jid (insert group_jid row table) ≡ some (some c)
  unfolding get_credential
  get_inserted group_jid row c table works read valid =
      if_cases (λ (o : Option (Option Credential)). o ≡ some (some c)) db.works _ none
        (λ _.
          ap found (lookup-insert group_jid group_jid row table ∙ here)
          ∙ (ap (checked enc db) read ∙ valid_checked))
        (λ broken. cc)
    where
      found : Option Row → Option (Option Credential)
      found o = elim o [
        | none ↦ some none
        | some r ↦ checked enc db (credential_of enc db group_jid r (mode_of r.auth_mode))
      ]

      here : (if group_jid == group_jid then some row else lookup group_jid table) ≡ some row
      here = rw (==_refl group_jid) refl

      valid_checked : checked enc db (some c) ≡ some (some c)
      valid_checked = ap (λ b. if b then some (some c) else none) valid

  -- What the table keeps of tokens.
  abbrev pub stored : Option ChatGptTokens → Option ChatGptTokens
  stored none = none
  stored (some t) = some (record t { expires_at = column_expiry enc db t.expires_at })

  abbrev pub IsRead : Credential → Bool × Map Row → Type 0
  IsRead c r =
      r.0 ≡ true
      → get_credential enc db c.group_jid r.1
        ≡ some (some (record c { chat_gpt = stored c.chat_gpt }))

  pub replace_row-IsRead :
      (c : Credential) (row : Row) (table : Map Row)
      → credential_of enc db c.group_jid row (mode_of row.auth_mode)
        ≡ some (record c { chat_gpt = stored c.chat_gpt })
      → validate_for_read (record c { chat_gpt = stored c.chat_gpt }) ≡ true
      → IsRead c (replace_row enc db c.group_jid (some row) table)
  replace_row-IsRead c row table read valid =
      if_cases (IsRead c) db.works (true, insert c.group_jid row table) (false, table)
        (λ works _.
          get_inserted c.group_jid row (record c { chat_gpt = stored c.chat_gpt }) table works read
            valid)
        (λ _ failed. cc)

  -- The credentials of the two modes.
  abbrev pub with_key : Text → Text → Text → Credential
  with_key group_jid provider key = record {
    group_jid = group_jid;
    provider = provider;
    auth_mode = api_key;
    key = key;
    chat_gpt = none;
  }

  abbrev pub with_tokens : Text → Text → ChatGptTokens → Credential
  with_tokens group_jid provider t = record {
    group_jid = group_jid;
    provider = provider;
    auth_mode = chatgpt;
    key = [];
    chat_gpt = some t;
  }

  module _ (law : IsEncrypter enc) (table : Map Row) (group_jid provider : Text) where
    pub key-IsRead :
        (n : ℕ) (key : Text) (o : Option Text)
        → enc.encrypt n key ≡ o
        → validate_for_read (with_key group_jid provider key) ≡ true
        → IsRead
            (with_key group_jid provider key)
            (replace_row enc db group_jid (api_key_row enc db provider o) table)
    key-IsRead n key none e valid = λ failed. cc
    key-IsRead n key (some cipher) e valid =
        replace_row-IsRead (with_key group_jid provider key) _ table
          (unfold mode_of ◌==◌ in
            ap (api_key_credential_of group_jid) (law.decrypt-encrypt n key cipher e))
          valid
      where
        api_key_credential_of : Text → Option Text → Option Credential
        api_key_credential_of g o = elim o [ none ↦ none | some k ↦ some (with_key g provider k) ]

    pub id_back :
        (n : ℕ) (id : Text) (o : Option Text)
        → encrypt_optional enc db n id ≡ some o
        → optional_text enc db o ≡ some id
    id_back n [] none e = refl
    id_back n [] (some s) e = cc
    id_back n (c ∷ id) o e =
        option_cases
          (λ (x : Option (Option Text)). x ≡ some o → optional_text enc db o ≡ some (c ∷ id))
          (enc.encrypt n (c ∷ id)) none (λ s. some (some s)) (λ _ h. cc)
          (λ s encrypted h.
            subst (λ (x : Option Text). optional_text enc db x ≡ some (c ∷ id)) (inner h)
              (whole s (law.encrypt-nonempty n (c ∷ id) s encrypted)
                ∙ law.decrypt-encrypt n (c ∷ id) s encrypted))
          e
      where
        inner : {x y : Option Text} → some x ≡ some y → x ≡ y
        inner h = cc

        whole : (s : Text) → s ≢ [] → optional_text enc db (some s) ≡ enc.decrypt s
        whole [] ne = absurd (ne refl)
        whole (b ∷ s) ne = refl
