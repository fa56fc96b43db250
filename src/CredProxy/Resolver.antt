-- ===== src/CredProxy/Resolver.antt =====
-- Which credential a request gets, and where it may go (internal/credproxy/proxy.go).

pub mod Laws
mod Samples
use kraclaw.Prelude.{
  ℕ, eqb, Bool, true, false, not, ◌||◌, ◌&&◌, Text, ◌==◌, codes, has_prefix, drop, trim_right_of,
  List, [], ◌∷◌, ◌++◌, any, Option, none, some, if◌then◌else◌,
}
use kraclaw.Provider.{provider_openai, provider_anthropic}
use kraclaw.CredProxy.{AuthMode, unset, api_key, chatgpt, other_mode, ChatGptTokens, Credential}

pub record ResolvedCredential : Type 0 where
  pub provider : Text
  pub auth_mode : AuthMode
  pub key : Text
  pub account_id : Text
  pub is_fedramp : Bool
  pub upstream_url : Text

-- What the resolver uses of `config.ProxyConfig`.
pub record ProxyConfig : Type 0 where
  pub openai_api_key : Text
  pub openai_upstream_url : Text
  pub anthropic_api_key : Text
  pub anthropic_upstream_url : Text

abbrev pub with_api_key : Text → Text → Text → ResolvedCredential
with_api_key provider key url = record {
  provider = provider;
  auth_mode = api_key;
  key = key;
  account_id = [];
  is_fedramp = false;
  upstream_url = url;
}

abbrev pub is_for : Text → Text → Bool
is_for requested provider = requested == [] || provider == requested

module _ (cfg : ProxyConfig) where
  abbrev pub openai_platform : ResolvedCredential
  openai_platform = with_api_key provider_openai cfg.openai_api_key cfg.openai_upstream_url

  abbrev pub anthropic_platform : ResolvedCredential
  anthropic_platform =
      with_api_key provider_anthropic cfg.anthropic_api_key cfg.anthropic_upstream_url

  -- The fallback to the keys of the platform; `none` is an error.
  unfoldable pub resolve_platform : Text → Option ResolvedCredential
  resolve_platform requested =
      if requested == provider_openai
      then (if cfg.openai_api_key == [] then none else some openai_platform)
      else if requested == provider_anthropic
      then (if cfg.anthropic_api_key == [] then none else some anthropic_platform)
      else if not (cfg.anthropic_api_key == [])
      then some anthropic_platform
      else if cfg.openai_api_key == []
      then none
      else some openai_platform

  abbrev pub from_tokens : ChatGptTokens → ResolvedCredential
  from_tokens t = record {
    provider = provider_openai;
    auth_mode = chatgpt;
    key = t.access_token;
    account_id = t.account_id;
    is_fedramp = t.is_fedramp;
    upstream_url = codes "https://chatgpt.com/backend-api/codex";
  }

  abbrev pub from_key : Credential → ResolvedCredential
  from_key c = with_api_key c.provider c.key (
      if c.provider == provider_openai then cfg.openai_upstream_url else cfg.anthropic_upstream_url)

  -- A credential of the group that is for the provider. One of the mode `chatgpt` has tokens, as
  -- the validation of what is read demands; the source would panic without them.
  abbrev pub from_group : Credential → AuthMode → Option ChatGptTokens → Option ResolvedCredential
  from_group c chatgpt (some t) = some (from_tokens t)
  from_group c chatgpt none = none
  from_group c m tokens = some (from_key c)

  -- What follows the question for the group's credential; `none` is an error, `some none` no
  -- credential.
  abbrev pub on_credential : Text → Option (Option Credential) → Option ResolvedCredential
  on_credential requested none = none
  on_credential requested (some none) = resolve_platform requested
  on_credential requested (some (some c)) =
      if is_for requested c.provider
      then from_group c c.auth_mode c.chat_gpt
      else resolve_platform requested

  -- `Resolve`, for a store of credentials with its `GetCredential`, or without one.
  unfoldable pub resolve :
      Option (Text → Option (Option Credential)) → Text → Text → Option ResolvedCredential
  unfolding resolve_platform
  resolve none group_jid requested = resolve_platform requested
  resolve (some get_credential) group_jid requested =
      if group_jid == []
      then resolve_platform requested
      else on_credential requested (get_credential group_jid)

-- `strings.TrimLeft(s, "/")` and `strings.TrimPrefix(s, "/v1")`.
abbrev trim_left_of : ℕ → Text → Text
trim_left_of cut [] = []
trim_left_of cut (c ∷ s) = if eqb c cut then trim_left_of cut s else c ∷ s

abbrev chatgpt_path : Text → Text
chatgpt_path path =
    let rest = if has_prefix path (codes "/v1") then drop 3 path else path in
    if rest == [] then codes "/" else rest

abbrev pub is_root : Text → Bool
is_root p = p == [] || p == codes "/"

abbrev pub join_path : Text → Text → Text
join_path base path =
    if is_root base
    then path
    else if is_root path
    then base
    else trim_right_of b'/' base ++ (codes "/" ++ trim_left_of b'/' path)

unfoldable pub upstream_path : Text → Text → AuthMode → Text
upstream_path base path chatgpt = join_path base (chatgpt_path path)
upstream_path base path mode = join_path base path

-- The fields of `Proxy` that decide on hosts.
pub record Proxy : Type 0 where
  pub has_resolver : Bool
  pub allowed_host : Text
  pub allowed_upstream_hosts : List Text

abbrev pub is_allowed_host : Proxy → Text → Bool
is_allowed_host p host =
    not (any (λ (h : Text). true) p.allowed_upstream_hosts)
    || any (λ (h : Text). h == host) p.allowed_upstream_hosts

-- `hostGuard` on the host of the request's URL: whether the request goes on.
unfoldable pub host_guard : Proxy → Text → Bool
host_guard p host =
    if p.has_resolver && not (host == []) && not (is_allowed_host p host)
    then false
    else not (not (host == []) && not (host == p.allowed_host))

-- What the middleware does with a request: it refuses it with a status, or passes it on, with a
-- resolved credential and the upstream's URL or without.
pub data Passed (Url : Type 0) : Type 0 where
  refused : ℕ → Passed Url
  passed : Passed Url
  passed_with : ResolvedCredential → Url → Passed Url

module _ {Url : Type 0} (parse_url : Text → Option Url) (host_of : Url → Text) (p : Proxy) where
  abbrev pub with_upstream : ResolvedCredential → Option Url → Passed Url
  with_upstream cred none = refused 502
  with_upstream cred (some u) =
      if is_allowed_host p (host_of u) then passed_with cred u else refused 403

  abbrev pub with_credential : Option ResolvedCredential → Passed Url
  with_credential none = refused 502
  with_credential (some cred) = with_upstream cred (parse_url cred.upstream_url)

  -- `credentialMiddleware` on the headers `X-Kraclaw-Group` and `X-Kraclaw-Provider`, with the
  -- resolver's `Resolve`.
  unfoldable pub credential_middleware :
      (Text → Text → Option ResolvedCredential) → Text → Text → Passed Url
  credential_middleware resolve_for group_jid requested =
      if p.has_resolver && not (group_jid == [])
      then with_credential (resolve_for group_jid requested)
      else passed
