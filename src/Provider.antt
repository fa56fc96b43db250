-- ===== src/Provider.antt =====
-- The registry of model providers (internal/provider/registry.go).
pub mod Laws
use kraclaw.Prelude.{
  Bool, true, false, ◌&&◌, Text, ◌==◌, codes, List, [], ◌∷◌, map, Option, none, some, Map, lookup,
  insert, if◌then◌else◌, any,
}

abbrev pub provider_anthropic : Text
provider_anthropic = codes "anthropic"

abbrev pub provider_openai : Text
provider_openai = codes "openai"

pub data AuthMode : Type 0 where
  api_key chatgpt : AuthMode
  other_mode : Text → AuthMode

unfoldable pub valid : AuthMode → Bool
valid api_key = true
valid chatgpt = true
valid (other_mode name) = false

pub record ModelInfo : Type 0 where
  pub id : Text
  pub display_name : Text

pub record ProviderInfo : Type 0 where
  pub id : Text
  pub display_name : Text
  pub models : List ModelInfo
  pub default_model : Text
  pub auth_mode : AuthMode

abbrev pub Registry : Type 0
Registry = Map ProviderInfo

abbrev model : Text → Text → ModelInfo
model id name = record { id = id; display_name = name }

abbrev anthropic_info : ProviderInfo
anthropic_info = record {
  id = provider_anthropic;
  display_name = codes "Anthropic";
  default_model = codes "claude-sonnet-4-6";
  auth_mode = api_key;
  models =
      model (codes "claude-opus-4-6") (codes "Claude Opus 4.6")
      ∷ model (codes "claude-sonnet-4-6") (codes "Claude Sonnet 4.6")
      ∷ model (codes "claude-haiku-4-5") (codes "Claude Haiku 4.5")
      ∷ model (codes "claude-sonnet-4-5") (codes "Claude Sonnet 4.5")
      ∷ model (codes "claude-opus-4-5") (codes "Claude Opus 4.5")
      ∷ model (codes "claude-opus-4-1") (codes "Claude Opus 4.1")
      ∷ model (codes "claude-sonnet-4-0") (codes "Claude Sonnet 4")
      ∷ model (codes "claude-opus-4-0") (codes "Claude Opus 4")
      ∷ [];
}

abbrev openai_info : ProviderInfo
openai_info = record {
  id = provider_openai;
  display_name = codes "OpenAI";
  default_model = codes "gpt-5.5";
  auth_mode = chatgpt;
  models =
      model (codes "gpt-5.5") (codes "GPT-5.5")
      ∷ model (codes "gpt-5.4") (codes "GPT-5.4")
      ∷ model (codes "gpt-5.4-mini") (codes "GPT-5.4 Mini")
      ∷ model (codes "gpt-5.3-codex") (codes "GPT-5.3 Codex")
      ∷ model (codes "gpt-5.3-codex-spark") (codes "GPT-5.3 Codex Spark")
      ∷ model (codes "gpt-5.2-codex") (codes "GPT-5.2 Codex")
      ∷ model (codes "gpt-5.2") (codes "GPT-5.2")
      ∷ model (codes "gpt-5.1-codex-max") (codes "GPT-5.1 Codex Max")
      ∷ model (codes "gpt-5.1") (codes "GPT-5.1")
      ∷ model (codes "gpt-5-codex") (codes "GPT-5 Codex")
      ∷ model (codes "gpt-5-codex-mini") (codes "GPT-5 Codex Mini")
      ∷ [];
}

unfoldable pub new_registry : Registry
unfolding insert
new_registry = insert provider_openai openai_info (insert provider_anthropic anthropic_info [])

-- `none` is the panic of `NewRegistryForTest`.
unfoldable pub new_registry_for_test : Registry → Option Registry
unfolding valid
new_registry_for_test [] = some []
new_registry_for_test ((id, p) ∷ ps) =
    let rest = new_registry_for_test ps in
    if valid p.auth_mode then (elim rest [ none ↦ none | some r ↦ some ((id, p) ∷ r) ]) else none

pub data ModelError : Type 0 where
  unknown_provider invalid_model : ModelError

-- `ValidateModel`; `none` is the nil error.
unfoldable pub validate_model : Registry → Text → Text → Option ModelError
validate_model r provider_id name = elim (lookup provider_id r) [
  | none ↦ some unknown_provider
  | some p ↦
      if name == []
      then none
      else if any (λ (m : ModelInfo). m.id == name) p.models
      then none
      else some invalid_model
]

-- `Models`: the copy of the list, or nil.
unfoldable pub models : Registry → Text → List ModelInfo
models r provider_id = elim (lookup provider_id r) [ none ↦ [] | some p ↦ p.models ]

-- `Providers`; Go leaves the order of a map open.
unfoldable pub providers : Registry → List Text
providers r = map (λ e. e.0) r
