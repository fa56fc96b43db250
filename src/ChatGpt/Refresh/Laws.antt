-- ===== src/ChatGpt/Refresh/Laws.antt =====
-- Which refreshes succeed, and which failures are final (internal/auth/chatgpt/refresh.go).
use kraclaw.Prelude.{
  ℕ, eqb, ◌||◌, ◌&&◌, true, false, Text, codes, ◌==◌, ==_iff, ==_refl, trim_space, List, [], ◌∷◌,
  Option, inl, inr, none, some, if◌then◌else◌, ◌≡◌, ◌≢◌, ◌↔◌, ◌⊎◌, refl, sym, ◌∙◌, subst, arith,
  if_cases, option_cases,
}
use mathlib.Core.Bool.{true≢false}
use kraclaw.ChatGpt.Jwt.{no_claims, parse_id_token}
use kraclaw.Prelude.Int.{ℤ}
use kraclaw.ChatGpt.{
  Codec, Client, Call, Answers, M, Fetched, no_request, no_response, unread, fetched, TokenResponse,
  RefreshErrorBody,
}
use kraclaw.ChatGpt.Device.{is_success}
use kraclaw.ChatGpt.Refresh.{
  RefreshOutcome, refreshed, misuse, refused, permanent_refresh, transient_refresh, permanent,
  lowered, reason_of, is_unknown, classify_refresh_failure, is_permanent_bad_request, refusal,
  on_refreshed, on_refresh, refresh,
}

-- What a caller may rely on: an access token and a refresh token.
abbrev pub IsUsable : RefreshOutcome → Type 0
IsUsable (refreshed t) = (t.access_token ≢ []) × (t.refresh_token ≢ [])
IsUsable misuse = Unit
IsUsable (refused e) = Unit

module _ (codec : Codec) (client : Client) where
  on_refreshed-IsUsable :
      (now : ℤ) (sent : Text) (status : ℕ) (p : Option TokenResponse)
      → sent ≢ []
      → IsUsable (on_refreshed codec client now sent status p)
  unfolding on_refreshed
  on_refreshed-IsUsable now sent status none given = tt
  on_refreshed-IsUsable now sent status (some p) given =
      if_cases IsUsable (p.access_token == []) _ _ (λ _. tt)
        (λ access.
          option_cases IsUsable
            (if p.id_token == [] then some no_claims else parse_id_token codec p.id_token) _ _
            (λ _. tt)
            (λ _ _. (
              λ e. absurd (true≢false (sym (nonempty p.access_token e) ∙ access)),
              if_cases (λ t. t ≢ []) (p.refresh_token == []) _ _ (λ _. given)
                  (λ fresh e. absurd (true≢false (sym (nonempty p.refresh_token e) ∙ fresh))),
            )))
    where
      nonempty : (s : Text) → s ≡ [] → (s == []) ≡ true
      nonempty s e = subst (λ x. (x == []) ≡ true) (sym e) (==_refl [])

  refusal-IsUsable :
      (status : ℕ) (body : Text) (p : Option RefreshErrorBody)
      → IsUsable (refusal codec client status body p)
  unfolding refusal
  refusal-IsUsable status body p =
      let c = classify_refresh_failure codec client p in
      if_cases IsUsable
        (eqb status 401 && c.1 || is_permanent_bad_request codec client status p c.0 c.1)
        (permanent_refresh status body c.0) (transient_refresh status body) (λ _. tt) (λ _. tt)

  on_refresh-IsUsable :
      (now : ℤ) (sent : Text) (f : Fetched)
      → sent ≢ []
      → IsUsable (on_refresh codec client now sent f)
  unfolding on_refresh
  on_refresh-IsUsable now sent no_request given = tt
  on_refresh-IsUsable now sent no_response given = tt
  on_refresh-IsUsable now sent (unread status e) given = tt
  on_refresh-IsUsable now sent (fetched status body) given =
      if_cases IsUsable (is_success status) _ _
        (λ _. on_refreshed-IsUsable now sent status (codec.token_response body) given)
        (λ _. refusal-IsUsable status body (codec.refresh_error_body body))

  -- A refresh that succeeds yields an access token and a refresh token that are not empty.
  pub refresh-IsUsable :
      (env : Answers) (refresh_token : Text) (log : List Call)
      → IsUsable (refresh codec client env refresh_token log).0
  unfolding refresh
  refresh-IsUsable env refresh_token log =
      if_cases (λ (c : M RefreshOutcome). IsUsable (c log).0) (trim_space refresh_token == []) _ _
        (λ _. tt)
        (λ given.
          option_cases (λ (c : M RefreshOutcome). IsUsable (c log).0)
            (codec.refresh_body client.client_id refresh_token) _ _ (λ _. tt)
            (λ body _.
              on_refresh-IsUsable _ refresh_token _
                (λ e. absurd (true≢false (sym (blank e) ∙ given)))))
    where
      blank : refresh_token ≡ [] → (trim_space refresh_token == []) ≡ true
      blank e = subst (λ t. (trim_space t == []) ≡ true) (sym e) (unfold trim_space ◌==◌ in refl)

  -- The error body has a field that is not empty.
  abbrev pub HasField : RefreshErrorBody → Type 0
  HasField p = (p.error ≢ []) ⊎ ((p.error_code ≢ []) ⊎ (p.error_description ≢ []))

  -- A field that is a known reason but for the spaces around it and the case of its letters.
  abbrev pub IsReason : Text → Type 0
  IsReason field =
      (lowered codec client field ≡ codes "refresh_token_expired")
      ⊎ ((lowered codec client field ≡ codes "refresh_token_reused")
          ⊎ (lowered codec client field ≡ codes "refresh_token_invalidated"))

  abbrev pub HasReason : List Text → Type 0
  HasReason [] = ⊥
  HasReason (field ∷ fields) = IsReason field ⊎ HasReason fields

  reason_of-HasReason_iff :
      (fields : List Text)
      → (is_unknown codec client (reason_of codec client fields) ≡ false) ↔ HasReason fields
  unfolding reason_of
  reason_of-HasReason_iff [] = ground arith
  reason_of-HasReason_iff (field ∷ fields) = ground (
    arith,
    ==_iff (lowered codec client field) (codes "refresh_token_expired"),
    ==_iff (lowered codec client field) (codes "refresh_token_reused"),
    ==_iff (lowered codec client field) (codes "refresh_token_invalidated"),
    reason_of-HasReason_iff fields,
  )

  abbrev pub IsInvalidGrant : RefreshErrorBody → Type 0
  IsInvalidGrant p = codec.equal_fold (trim_space p.error) (codes "invalid_grant") ≡ true

  -- A status and an error body that ask for a new sign-in.
  abbrev pub AsksForSignIn : ℕ → RefreshErrorBody → Type 0
  AsksForSignIn status p =
      HasField p
      × ((status ≡ 401)
          ⊎ ((status ≡ 400)
              × (HasReason (p.error_code ∷ p.error ∷ p.error_description ∷ []) ⊎ IsInvalidGrant p)))

  abbrev pub IsPermanent : RefreshOutcome → Type 0
  IsPermanent (refused e) = e.kind ≡ permanent
  IsPermanent r = ⊥

  refusal-IsPermanent_iff :
      (status : ℕ) (body : Text) (p : RefreshErrorBody)
      → IsPermanent (refusal codec client status body (some p)) ↔ AsksForSignIn status p
  unfolding refusal classify_refresh_failure is_permanent_bad_request
  refusal-IsPermanent_iff status body p = ground (
    arith,
    ==_iff p.error [],
    ==_iff p.error_code [],
    ==_iff p.error_description [],
    reason_of-HasReason_iff (p.error_code ∷ p.error ∷ p.error_description ∷ []),
  )

  refusal_undecoded :
      (status : ℕ) (body : Text) → ¬ IsPermanent (refusal codec client status body none)
  unfolding refusal classify_refresh_failure is_permanent_bad_request
  refusal_undecoded status body = ground arith

  -- What a request yields that asks for a new sign-in.
  abbrev pub IsRefusedFor : Fetched → Type 0
  IsRefusedFor (fetched status body) =
      (p : RefreshErrorBody) × (codec.refresh_error_body body ≡ some p) × AsksForSignIn status p
  IsRefusedFor f = ⊥

  abbrev Decides : RefreshOutcome → Fetched → Type 0
  Decides r f = IsPermanent r ↔ IsRefusedFor f

  decided :
      (status : ℕ) (body : Text) (p : Option RefreshErrorBody)
      → codec.refresh_error_body body ≡ p
      → Decides (refusal codec client status body p) (fetched status body)
  decided status body none e = (λ k. absurd (refusal_undecoded status body k), λ (p, d, asks). cc)
  decided status body (some p) e = (
    λ k. (p, e, (refusal-IsPermanent_iff status body p).0 k),
    λ (p', d, asks).
        (refusal-IsPermanent_iff status body p).1
          (subst (AsksForSignIn status) (option_inner (sym d ∙ e)) asks),
  )
    where
      option_inner : {a b : RefreshErrorBody} → some a ≡ some b → a ≡ b
      option_inner h = cc

  on_refreshed_transient :
      (now : ℤ) (sent : Text) (status : ℕ) (p : Option TokenResponse)
      → ¬ IsPermanent (on_refreshed codec client now sent status p)
  unfolding on_refreshed
  on_refreshed_transient now sent status none = λ k. cc
  on_refreshed_transient now sent status (some p) = ground arith

  refused_fails :
      (status : ℕ) (p : RefreshErrorBody) → AsksForSignIn status p → is_success status ≡ false
  refused_fails status p (field, inl e) = rw e refl
  refused_fails status p (field, inr (e, r)) = rw e refl

  -- A refresh, on what the request yielded, asks for a new sign-in exactly if there was an answer
  -- whose body decodes to an error body with a field that is not empty, and its status is 401, or
  -- it is 400 and a field is one of the three known reasons, but for the spaces around it and the
  -- case, or the field for the error is an invalid grant.
  pub on_refresh-IsPermanent_iff :
      (now : ℤ) (sent : Text) (f : Fetched)
      → IsPermanent (on_refresh codec client now sent f) ↔ IsRefusedFor f
  unfolding on_refresh
  on_refresh-IsPermanent_iff now sent no_request = (λ k. absurd k, λ k. absurd k)
  on_refresh-IsPermanent_iff now sent no_response = (λ k. cc, λ k. absurd k)
  on_refresh-IsPermanent_iff now sent (unread status e) = (λ k. cc, λ k. absurd k)
  on_refresh-IsPermanent_iff now sent (fetched status body) =
      if_cases (λ r. Decides r (fetched status body)) (is_success status)
        (on_refreshed codec client now sent status (codec.token_response body))
        (refusal codec client status body (codec.refresh_error_body body))
        (λ success. (
          λ k. absurd (on_refreshed_transient now sent status (codec.token_response body) k),
          λ (p, d, asks). absurd (true≢false (sym success ∙ refused_fails status p asks)),
        ))
        (λ _. decided status body (codec.refresh_error_body body) refl)
