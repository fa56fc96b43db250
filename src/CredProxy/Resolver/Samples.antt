-- ===== src/CredProxy/Resolver/Samples.antt =====
-- A request of a group with an OpenAI key, for the example.
use kraclaw.Prelude.{true, Text, ◌==◌, codes, [], ◌∷◌, Option, none, some, if◌then◌else◌, ◌≡◌, refl}
use kraclaw.CredProxy.{api_key, Credential}
use kraclaw.CredProxy.Resolver.{
  ProxyConfig, Proxy, is_allowed_host, from_key, credential_middleware, resolve,
}
use kraclaw.CredProxy.Resolver.Laws.{own, IsPermitted, credential_middleware-IsPermitted}

abbrev cfg : ProxyConfig
cfg = record {
  openai_api_key = [];
  openai_upstream_url = codes "o";
  anthropic_api_key = codes "k";
  anthropic_upstream_url = codes "a";
}

abbrev proxy : Proxy
proxy = record {
  has_resolver = true;
  allowed_host = codes "a";
  allowed_upstream_hosts = codes "o" ∷ codes "a" ∷ [];
}

abbrev group_key : Credential
group_key = record {
  group_jid = codes "g";
  provider = codes "openai";
  auth_mode = api_key;
  key = codes "own";
  chat_gpt = none;
}

-- A store with the one credential.
abbrev store : Option (Text → Option (Option Credential))
store = some (λ g. some (if g == codes "g" then some group_key else none))

-- A URL is its host.
abbrev parse : Text → Option Text
parse s = some s

abbrev host : Text → Text
host u = u

credential_middleware-IsPermitted_example :
    IsPermitted cfg (codes "openai") (own cfg store (codes "g")) (from_key cfg group_key)
    × (parse (codes "o") ≡ some (codes "o"))
    × (is_allowed_host proxy (codes "o") ≡ true)
unfolding ◌==◌ resolve credential_middleware
credential_middleware-IsPermitted_example =
    credential_middleware-IsPermitted cfg parse host proxy store (codes "g") (codes "openai")
      (from_key cfg group_key) (codes "o") refl
