-- ===== src/CredProxy/Table/Samples.antt =====
-- A credential behind a cipher that hides nothing, for the examples.
use kraclaw.Prelude.{
  eqb, true, false, ◌==◌, codes, [], ◌∷◌, none, some, if◌then◌else◌, ◌≡◌, refl, arith,
}
use kraclaw.Prelude.Int.{pos}
use kraclaw.CredProxy.{chatgpt, ChatGptTokens, Credential, Encrypter, IsEncrypter}
use kraclaw.CredProxy.Encrypt.{Crypto, IsCrypto, encryptor, encryptor-IsEncrypter}
use kraclaw.CredProxy.Table.{Database, get_credential, upsert_credential}
use kraclaw.CredProxy.Table.Laws.{stored}
use kraclaw.CredProxy.Table.Reads.{upsert_credential-IsRead}

abbrev crypto : Crypto
crypto = record {
  Gcm = Unit;
  hex_decode = λ s. some s;
  new_gcm = λ key. some tt;
  nonce_size = λ g. 1;
  seal = λ g n p. p;
  open_sealed = λ g n s. some s;
  base64_encode = λ s. s;
  base64_decode = λ s. some s;
  random = λ n size. if eqb size 1 then some (n ∷ []) else none;
}

crypto-IsCrypto : IsCrypto crypto
crypto-IsCrypto = record {
  open-seal = λ g n p e. refl;
  decode-encode = λ s. refl;
  encode-nonempty = λ s h. h;
  nonce-positive = λ g. omega arith;
  random-length = λ n size s e. ground arith;
}

encryptor-IsEncrypter_example : IsEncrypter (encryptor crypto tt)
encryptor-IsEncrypter_example = encryptor-IsEncrypter crypto crypto-IsCrypto tt

abbrev cipher : Encrypter
cipher = encryptor crypto tt

cipher-IsEncrypter : IsEncrypter cipher
cipher-IsEncrypter = encryptor-IsEncrypter crypto crypto-IsCrypto tt

abbrev database : Database
database = record { works = true; column_time = λ t. t }

abbrev tokens : ChatGptTokens
tokens = record {
  access_token = codes "a";
  refresh_token = codes "r";
  id_token = [];
  account_id = codes "acc";
  expires_at = some (pos 9);
  is_fedramp = false;
}

abbrev own : Credential
own = record {
  group_jid = codes "g";
  provider = codes "openai";
  auth_mode = chatgpt;
  key = [];
  chat_gpt = some tokens;
}

upsert_credential-IsRead_example :
    get_credential cipher database
      (codes "g")
      (upsert_credential cipher database (pos 7) 0 own []).1
    ≡ some (some (record own { chat_gpt = stored cipher database (some tokens) }))
upsert_credential-IsRead_example =
    upsert_credential-IsRead cipher database (pos 7) 0 (codes "g") (codes "openai") [] chatgpt
      (some tokens) [] cipher-IsEncrypter works
  where
    works : (upsert_credential cipher database (pos 7) 0 own []).0 ≡ true
    works = unfold upsert_credential ◌==◌ in refl
