-- ===== src/CredProxy/Resolver/Laws.antt =====
-- What leaves the proxy (internal/credproxy/proxy.go).
use kraclaw.Prelude.{
  true, false, Bool, if◌then◌else◌, ◌≢◌, ==_iff, not, ◌||◌, ◌&&◌, Text, ◌==◌, eq_of_==, [], Option,
  none, some, ◌≡◌, refl, sym, subst, arith, ◌⊎◌, inl, inr, if_cases,
}
use kraclaw.Provider.{provider_openai, provider_anthropic}
use kraclaw.CredProxy.{AuthMode, unset, api_key, chatgpt, other_mode, ChatGptTokens, Credential}
use kraclaw.CredProxy.Resolver.{
  ResolvedCredential, ProxyConfig, is_for, openai_platform, anthropic_platform, resolve_platform,
  from_tokens, from_key, from_group, on_credential, resolve, Proxy, is_allowed_host, Passed,
  refused, passed, passed_with, with_upstream, with_credential, credential_middleware,
}

module _ (cfg : ProxyConfig) where
  -- A key of the platform that is set, and for a known provider that is requested, of that one; for
  -- any other request Anthropic's goes first.
  abbrev pub IsPlatform : Text → ResolvedCredential → Type 0
  IsPlatform requested r =
      ((r ≡ openai_platform cfg)
        × ((cfg.openai_api_key == []) ≡ false)
        × ((requested == provider_anthropic) ≡ false)
        × ((requested == provider_openai || cfg.anthropic_api_key == []) ≡ true))
      ⊎ ((r ≡ anthropic_platform cfg)
          × ((cfg.anthropic_api_key == []) ≡ false)
          × ((requested == provider_openai) ≡ false))

  abbrev IsSound : (ResolvedCredential → Type 0) → Option ResolvedCredential → Type 0
  IsSound P none = Unit
  IsSound P (some r) = P r

  resolve_platform-IsPlatform :
      (requested : Text) → IsSound (IsPlatform requested) (resolve_platform cfg requested)
  unfolding resolve_platform
  resolve_platform-IsPlatform requested =
      let P : Option ResolvedCredential → Type 0 = IsSound (IsPlatform requested) in
      if_cases P (requested == provider_openai) _ _
        (λ openai.
          if_cases P (cfg.openai_api_key == []) none (some (openai_platform cfg)) (λ _. tt)
            (λ given.
              inl (refl, given, not_anthropic (eq_of_== _ _ openai), ground (arith, openai))))
        (λ other.
          if_cases P (requested == provider_anthropic) _ _
            (λ _.
              if_cases P (cfg.anthropic_api_key == []) none (some (anthropic_platform cfg))
                (λ _. tt) (λ given. inr (refl, given, other)))
            (λ neither.
              if_cases P (not (cfg.anthropic_api_key == [])) (some (anthropic_platform cfg)) _
                (λ given. inr (refl, ground (arith), other))
                (λ unset'.
                  if_cases P (cfg.openai_api_key == []) none (some (openai_platform cfg)) (λ _. tt)
                    (λ given. inl (refl, given, neither, ground (arith, unset'))))))
    where
      not_anthropic : requested ≡ provider_openai → (requested == provider_anthropic) ≡ false
      not_anthropic e =
          subst (λ (t : Text). (t == provider_anthropic) ≡ false) (sym e) (unfold ◌==◌ in refl)

  -- What a group's credential gives by its mode: its tokens in the mode `chatgpt`, its key in any
  -- other.
  abbrev pub Gives : Credential → ResolvedCredential → Type 0
  Gives c r =
      ((c.auth_mode ≢ chatgpt) × (r ≡ from_key cfg c))
      ⊎ ((c.auth_mode ≡ chatgpt)
          × ((t : ChatGptTokens) × (c.chat_gpt ≡ some t) × (r ≡ from_tokens cfg t)))

  -- With a credential of the group that is for the requested provider, what it gives; with one for
  -- another provider, or none, a key of the platform; behind an error, nothing.
  abbrev pub IsPermitted : Text → Option (Option Credential) → ResolvedCredential → Type 0
  IsPermitted requested none r = ⊥
  IsPermitted requested (some none) r = IsPlatform requested r
  IsPermitted requested (some (some c)) r =
      (((requested ≡ []) ⊎ (requested ≡ c.provider)) × Gives c r)
      ⊎ ((requested ≢ []) × (requested ≢ c.provider) × IsPlatform requested r)

  -- The answer that counts for a group: that of the store for this very group, and none without a
  -- store or for the empty id.
  abbrev pub own : Option (Text → Option (Option Credential)) → Text → Option (Option Credential)
  own none group_jid = some none
  own (some get_credential) group_jid =
      if group_jid == [] then some none else get_credential group_jid

  from_group-Gives :
      (c : Credential) (m : AuthMode) (tokens : Option ChatGptTokens)
      → c.auth_mode ≡ m
      → c.chat_gpt ≡ tokens
      → IsSound (Gives c) (from_group cfg c m tokens)
  from_group-Gives c unset tokens h e = inl (λ k. cc, refl)
  from_group-Gives c api_key tokens h e = inl (λ k. cc, refl)
  from_group-Gives c (other_mode m) tokens h e = inl (λ k. cc, refl)
  from_group-Gives c chatgpt none h e = tt
  from_group-Gives c chatgpt (some t) h e = inr (h, (t, e, refl))

  weaken :
      (P Q : ResolvedCredential → Type 0) (o : Option ResolvedCredential)
      → ((r : ResolvedCredential) → P r → Q r)
      → IsSound P o
      → IsSound Q o
  weaken P Q none f h = tt
  weaken P Q (some r) f h = f r h

  on_credential-IsPermitted :
      (requested : Text) (got : Option (Option Credential))
      → IsSound (IsPermitted requested got) (on_credential cfg requested got)
  on_credential-IsPermitted requested none = tt
  on_credential-IsPermitted requested (some none) = resolve_platform-IsPlatform requested
  on_credential-IsPermitted requested (some (some c)) =
      if_cases (IsSound (IsPermitted requested (some (some c)))) (is_for requested c.provider)
        (from_group cfg c c.auth_mode c.chat_gpt) (resolve_platform cfg requested)
        (λ yes'.
          weaken (Gives c) (IsPermitted requested (some (some c)))
            (from_group cfg c c.auth_mode c.chat_gpt) (λ r h. inl (matches yes', h))
            (from_group-Gives c c.auth_mode c.chat_gpt refl refl))
        (λ no'.
          weaken (IsPlatform requested) (IsPermitted requested (some (some c)))
            (resolve_platform cfg requested) (λ r h. inr ((misses no').0, (misses no').1, h))
            (resolve_platform-IsPlatform requested))
    where
      matches : is_for requested c.provider ≡ true → (requested ≡ []) ⊎ (requested ≡ c.provider)
      matches h = ground (arith, ==_iff requested [], ==_iff c.provider requested)

      misses : is_for requested c.provider ≡ false → (requested ≢ []) × (requested ≢ c.provider)
      misses h = ground (arith, ==_iff requested [], ==_iff c.provider requested)

  resolve-IsPermitted :
      (store : Option (Text → Option (Option Credential))) (group_jid requested : Text)
      → IsSound
          (IsPermitted requested (own store group_jid))
          (resolve cfg store group_jid requested)
  unfolding resolve
  resolve-IsPermitted none group_jid requested = resolve_platform-IsPlatform requested
  resolve-IsPermitted (some get_credential) group_jid requested = split (group_jid == [])
    where
      split :
          (b : Bool)
          → IsSound (IsPermitted requested (if b then some none else get_credential group_jid)) (
              if b
              then resolve_platform cfg requested
              else on_credential cfg requested (get_credential group_jid))
      split true = resolve_platform-IsPlatform requested
      split false = on_credential-IsPermitted requested (get_credential group_jid)

  module _ {Url : Type 0} (parse_url : Text → Option Url) (host_of : Url → Text) (p : Proxy) where
    abbrev IsChecked :
        Text → Option (Option Credential) → ResolvedCredential → Url → Passed Url → Type 0
    IsChecked requested got r u x =
        x ≡ passed_with r u
        → IsPermitted requested got r
          × (parse_url r.upstream_url ≡ some u)
          × (is_allowed_host p (host_of u) ≡ true)

    upstream-IsChecked :
        (requested : Text) (got : Option (Option Credential)) (cred r : ResolvedCredential)
        (u : Url) (o : Option Url)
        → IsPermitted requested got cred
        → parse_url cred.upstream_url ≡ o
        → IsChecked requested got r u (with_upstream parse_url host_of p cred o)
    upstream-IsChecked requested got cred r u none h e = λ x. cc
    upstream-IsChecked requested got cred r u (some v) h e =
        if_cases (IsChecked requested got r u) (is_allowed_host p (host_of v)) (passed_with cred v)
          (refused 403) (λ ok x. subst (λ (y : Passed Url). Tells y) x (h, e, ok)) (λ _ x. cc)
      where
        Tells : Passed Url → Type 0
        Tells (passed_with c w) =
            IsPermitted requested got c
            × (parse_url c.upstream_url ≡ some w)
            × (is_allowed_host p (host_of w) ≡ true)
        Tells passed = Unit
        Tells (refused n) = Unit

    credential-IsChecked :
        (requested : Text) (got : Option (Option Credential)) (r : ResolvedCredential) (u : Url)
        (o : Option ResolvedCredential)
        → IsSound (IsPermitted requested got) o
        → IsChecked requested got r u (with_credential parse_url host_of p o)
    credential-IsChecked requested got r u none h = λ x. cc
    credential-IsChecked requested got r u (some cred) h =
        upstream-IsChecked requested got cred r u (parse_url cred.upstream_url) h refl

    -- A request that is passed on with a credential: if the store answers for the request's own
    -- group with a credential whose provider is the requested one, or none is requested, then what
    -- is passed on are its tokens in the mode `chatgpt`, and its key in any other; if it answers
    -- with a credential of another provider or with none, a key of the platform that is set: that
    -- of the requested provider, or where neither Anthropic nor OpenAI is requested, Anthropic's,
    -- or else OpenAI's; and it does not fail. The request goes to the upstream that comes with the credential, whose host is allowed
    -- if there is a list of allowed hosts.
    pub credential_middleware-IsPermitted :
        (store : Option (Text → Option (Option Credential))) (group_jid requested : Text)
        (r : ResolvedCredential) (u : Url)
        → credential_middleware parse_url host_of p (resolve cfg store) group_jid requested
          ≡ passed_with r u
        → IsPermitted requested (own store group_jid) r
          × (parse_url r.upstream_url ≡ some u)
          × (is_allowed_host p (host_of u) ≡ true)
    unfolding credential_middleware
    credential_middleware-IsPermitted store group_jid requested r u =
        if_cases (IsChecked requested (own store group_jid) r u)
          (p.has_resolver && not (group_jid == []))
          (with_credential parse_url host_of p (resolve cfg store group_jid requested)) passed
          (λ _.
            credential-IsChecked requested (own store group_jid) r u
              (resolve cfg store group_jid requested)
              (resolve-IsPermitted store group_jid requested))
          (λ _ x. cc)
