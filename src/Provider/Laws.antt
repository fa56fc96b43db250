-- ===== src/Provider/Laws.antt =====
-- Which models the registry accepts (internal/provider/registry.go).
use kraclaw.Prelude.{
  true, Text, ◌==◌, ==_iff, List, [], ◌∷◌, map, none, some, lookup, if◌then◌else◌, ◌≡◌, refl, subst,
  subst₂, sym, ◌↔◌, ◌⊎◌, inl, inr, arith, any, Elem, Option-cases,
}
use kraclaw.Provider.{
  ModelInfo, ProviderInfo, Registry, new_registry, validate_model, invalid_model, valid,
  provider_anthropic, provider_openai, anthropic_info, openai_info,
}

abbrev pub ids : List ModelInfo → List Text
ids = map (λ m. m.id)

any_iff :
    (name : Text) (ms : List ModelInfo)
    → (any (λ (m : ModelInfo). m.id == name) ms ≡ true) ↔ Elem name (ids ms)
any_iff name [] = (λ h. cc, λ h. absurd h)
any_iff name (m ∷ ms) =
    let (to, from) = any_iff name ms in
    (λ h. ground (arith, ==_iff m.id name), λ h. ground (arith, ==_iff m.id name))

accepted :
    (p : ProviderInfo) (name : Text)
    → ((if name == []
          then none
          else if any (λ (m : ModelInfo). m.id == name) p.models
          then none
          else some invalid_model)
        ≡ none)
      ↔ ((name ≡ []) ⊎ Elem name (ids p.models))
accepted p name =
    let (to, from) = any_iff name p.models in
    (λ h. ground (arith, ==_iff name []), λ h. ground (arith, ==_iff name []))

-- A model is accepted exactly when its provider is known and the model is empty or listed there.
pub validate_model_iff :
    (r : Registry) (provider_id name : Text)
    → (validate_model r provider_id name ≡ none) ↔ (
        (p : ProviderInfo) × (lookup provider_id r ≡ some p)
        × ((name ≡ []) ⊎ Elem name (ids p.models)))
unfolding validate_model
validate_model_iff r provider_id name = elim (Option-cases (lookup provider_id r)) [
  | inl unknown ↦ (λ h. ground arith, λ w. ground (arith, w.1))
  | inr (p, known) ↦ (
    λ h. (p, known, (accepted p name).0 (rw (known, validate_model) at h)),
    λ w.
        let same : w.0 ≡ p = cc in
        rw (known, validate_model)
          ((accepted p name).1 (subst (λ q. (name ≡ []) ⊎ Elem name (ids q.models)) same w.2)),
  )
]

-- What a record of the registry must satisfy.
abbrev pub IsConsistent : Text → ProviderInfo → Type 0
IsConsistent id p = (p.id ≡ id) × Elem p.default_model (ids p.models) × (valid p.auth_mode ≡ true)

consistent_records :
    (id : Text) (p : ProviderInfo)
    → lookup id new_registry ≡ some p
    → ((id ≡ provider_anthropic) × (p ≡ anthropic_info))
      ⊎ ((id ≡ provider_openai) × (p ≡ openai_info))
unfolding new_registry lookup ◌==◌
consistent_records id p h = ground (arith, ==_iff provider_anthropic id, ==_iff provider_openai id)

anthropic-IsConsistent : IsConsistent provider_anthropic anthropic_info
unfolding valid
anthropic-IsConsistent = (refl, inr (inl refl), refl)

openai-IsConsistent : IsConsistent provider_openai openai_info
unfolding valid
openai-IsConsistent = (refl, inl refl, refl)

-- Every provider of the built-in registry stands under its own name, lists its default model, and
-- has a valid way to authenticate; so its default model passes `ValidateModel`.
pub new_registry-IsConsistent :
    (id : Text) (p : ProviderInfo)
    → lookup id new_registry ≡ some p
    → IsConsistent id p × (validate_model new_registry id p.default_model ≡ none)
new_registry-IsConsistent id p h =
    let c : IsConsistent id p = elim (consistent_records id p h) [
      | inl (e, q) ↦ subst₂ IsConsistent (sym e) (sym q) anthropic-IsConsistent
      | inr (e, q) ↦ subst₂ IsConsistent (sym e) (sym q) openai-IsConsistent
    ] in
    (c, (validate_model_iff new_registry id p.default_model).1 (p, h, inr c.1))
