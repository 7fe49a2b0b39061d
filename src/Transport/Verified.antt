-- ===== src/Transport/Verified.antt =====
-- Who the middleware of internal/infrastructure/auth/auth.go admits.
use jungle_gaming_backend_te.Prelude.{
  List, [], ◌∷◌, String, ◌≡◌, refl, true, false, Option, none, some, inl, inr, eq_iff, is_empty,
  arith, Bool-cases,
}
use jungle_gaming_backend_te.Transport.Auth.{
  Principal, Token, Authenticator, admitted, authenticate, claim, read_claim, principal_of,
  principal, admit_principal, admit_token, verify, admit_parts,
}

module _ (a : Authenticator) (header_text : String) where
  -- The token that a header carries, as the verifier accepts it, and the provider that it names.
  pub record IsVerified (p : Principal) : Type 0 where
    pub scheme : String
    pub raw : String
    pub verifier : String → Option Token
    pub token : Token
    pub claims : List (String × String)
    pub provider_json : String
    pub parts : a.fields header_text ≡ scheme ∷ raw ∷ []
    pub bearer : a.equal_fold scheme "Bearer" ≡ true
    pub ready : a.verifier ≡ some verifier
    pub verified : verifier raw ≡ some token
    pub readable : token.claims ≡ some claims
    pub provider_claim : claim a.provider_claim claims ≡ some provider_json
    pub provider : a.string_of provider_json ≡ some p.provider_id

  -- A provider that is named is named by the claim.
  read_provider :
      (o : Option String) (id : String)
      → read_claim a.string_of "" o ≡ some id
      → is_empty id ≡ false
      → (json : String) × (o ≡ some json) × (a.string_of json ≡ some id)
  unfolding read_claim
  read_provider none id h named = ground (arith, eq_iff id "")
  read_provider (some json) id h named = (json, refl, h)

  principal_of-some :
      (subject : String) (provider : Option String) (roles : Option (List String)) (p : Principal)
      → principal_of a subject provider roles ≡ some p
      → provider ≡ some p.provider_id
  unfolding principal_of
  principal_of-some subject (some id) (some roles) p h = ground arith
  principal_of-some subject (some id) none p h = cc
  principal_of-some subject none roles p h = cc

  token_names :
      (token : Token) (claims : Option (List (String × String))) (p : Principal)
      → token.claims ≡ claims
      → principal a token ≡ some p
      → is_empty p.provider_id ≡ false
      → (found : List (String × String)) × (json : String) × (token.claims ≡ some found)
        × (claim a.provider_claim found ≡ some json)
        × (a.string_of json ≡ some p.provider_id)
  unfolding principal
  token_names token none p is_claims h named = cc
  token_names token (some claims) p is_claims h named =
      let provider = principal_of-some token.subject _ _ p (rw is_claims at h) in
      let (json, there, decoded) = read_provider _ p.provider_id provider named in
      (claims, json, is_claims, there, decoded)

  token_admitted :
      (o : Option Token) (p : Principal)
      → admit_token a o ≡ admitted p
      → (token : Token) × (o ≡ some token) × (principal a token ≡ some p)
  unfolding admit_token admit_principal
  token_admitted none p h = cc
  token_admitted (some token) p h = (token, refl, ground arith)

  verify-admitted :
      (raw : String) (v : Option (String → Option Token)) (p : Principal)
      → verify a raw v ≡ admitted p
      → (verifier : String → Option Token) × (token : Token) × (v ≡ some verifier)
        × (verifier raw ≡ some token)
        × (principal a token ≡ some p)
  unfolding verify
  verify-admitted raw none p h = cc
  verify-admitted raw (some verifier) p h =
      let (token, verified, named) = token_admitted (verifier raw) p h in
      (verifier, token, refl, verified, named)

  parts_admitted :
      (parts : List String) (p : Principal)
      → admit_parts a parts ≡ admitted p
      → (scheme : String) × (raw : String) × (parts ≡ scheme ∷ raw ∷ [])
        × (a.equal_fold scheme "Bearer" ≡ true)
        × (verify a raw a.verifier ≡ admitted p)
  unfolding admit_parts
  parts_admitted [] p h = cc
  parts_admitted (scheme ∷ []) p h = cc
  parts_admitted (scheme ∷ raw ∷ more ∷ rest) p h = cc
  parts_admitted (scheme ∷ raw ∷ []) p h = elim (Bool-cases (a.equal_fold scheme "Bearer")) [
    | inl bearer ↦ (scheme, raw, refl, bearer, rw bearer at h)
    | inr other ↦ absurd (ground (arith, other))
  ]

  pub authenticate-IsVerified :
      (p : Principal)
      → is_empty p.provider_id ≡ false
      → authenticate a header_text ≡ admitted p
      → IsVerified p
  unfolding authenticate
  authenticate-IsVerified p named h =
      let (scheme, raw, header, bearer, second) = parts_admitted (a.fields header_text) p h in
      let (verifier, token, ready, verified, third) = verify-admitted raw a.verifier p second in
      let (claims, json, readable, there, decoded) = token_names token _ p refl third named in
      record {
        scheme = scheme;
        raw = raw;
        verifier = verifier;
        token = token;
        claims = claims;
        provider_json = json;
        parts = header;
        bearer = bearer;
        ready = ready;
        verified = verified;
        readable = readable;
        provider_claim = there;
        provider = decoded;
      }
