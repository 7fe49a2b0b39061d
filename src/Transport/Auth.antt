-- ===== src/Transport/Auth.antt =====
-- internal/infrastructure/auth/auth.go: who a request comes from. Startup, the readiness check and the
-- JSON of an error are left out.
use jungle_gaming_backend_te.Prelude.{
  ℕ, String, Bool, false, not, ◌||◌, Option, none, some, List, [], ◌∷◌, str_eq, if◌then◌else◌,
}

pub record Principal : Type 0 where
  pub subject : String
  pub provider_id : String
  pub roles : List String

-- `Principal{}`, which a context without a principal gives.
abbrev pub nobody : Principal
nobody = record { subject = ""; provider_id = ""; roles = [] }

-- `HasRole`
unfoldable pub has_role : String → List String → Bool
has_role role [] = false
has_role role (r ∷ rs) = str_eq r role || has_role role rs

-- A verified token: its subject and its claims by name, each as JSON, or none where they are no object.
pub record Token : Type 0 where
  pub subject : String
  pub claims : Option (List (String × String))

-- What the authenticator takes from packages outside the repository, and its settings.
pub record Authenticator : Type 0 where
  -- `strings.Fields`
  pub fields : String → List String
  -- `strings.EqualFold`
  pub equal_fold : String → String → Bool
  -- `IDTokenVerifier.Verify` of go-oidc, once the provider was discovered
  pub verifier : Option (String → Option Token)
  -- `json.Unmarshal` into a string, and into the roles of a realm
  pub string_of : String → Option String
  pub roles_of : String → Option (List String)
  pub provider_claim : String
  pub internal_role : String

pub data Admission : Type 0 where
  refused : ℕ → String → Admission
  admitted : Principal → Admission

-- The claim of a name.
unfoldable pub claim : String → List (String × String) → Option String
claim name [] = none
claim name ((key, raw) ∷ rest) = if str_eq key name then some raw else claim name rest

-- A claim that may be absent, but must be well formed where it is there.
unfoldable pub read_claim {ℓ} : {A : Type ℓ} → (String → Option A) → A → Option String → Option A
read_claim decode absent none = some absent
read_claim decode absent (some raw) = decode raw

module _ (a : Authenticator) where
  unfoldable pub principal_of : String → Option String → Option (List String) → Option Principal
  principal_of subject (some provider_id) (some roles) =
      some (record { subject = subject; provider_id = provider_id; roles = roles })
  principal_of subject _ _ = none

  -- `principal`
  unfoldable pub principal : Token → Option Principal
  unfolding principal_of
  principal token = elim (token.claims) [
    | none ↦ none
    | some claims ↦
        principal_of token.subject (read_claim a.string_of "" (claim a.provider_claim claims))
          (read_claim a.roles_of [] (claim "realm_access" claims))
  ]

  unfoldable pub admit_principal : Option Principal → Admission
  admit_principal none = refused 401 "INVALID_TOKEN_CLAIMS"
  admit_principal (some p) = admitted p

  unfoldable pub admit_token : Option Token → Admission
  unfolding admit_principal
  admit_token none = refused 401 "INVALID_TOKEN"
  admit_token (some token) = admit_principal (principal token)

  unfoldable pub verify : String → Option (String → Option Token) → Admission
  unfolding admit_token
  verify raw none = refused 503 "IDENTITY_UNAVAILABLE"
  verify raw (some verifier) = admit_token (verifier raw)

  -- The parts of the header `Authorization`.
  unfoldable pub admit_parts : List String → Admission
  unfolding verify
  admit_parts (scheme ∷ raw ∷ []) =
      if not (a.equal_fold scheme "Bearer")
      then refused 401 "AUTHENTICATION_REQUIRED"
      else verify raw a.verifier
  admit_parts _ = refused 401 "AUTHENTICATION_REQUIRED"

  -- `Middleware`
  unfoldable pub authenticate : String → Admission
  unfolding admit_parts
  authenticate header = admit_parts (a.fields header)

  -- `RequireInternal`, for the principal of the context.
  unfoldable pub require_internal : Principal → Admission
  require_internal p =
      if has_role a.internal_role p.roles then admitted p else refused 403 "INTERNAL_ROLE_REQUIRED"
