-- ===== src/ChatGpt/Jwt/Laws.antt =====
-- Which tokens are read (internal/auth/chatgpt/jwt.go).
use kraclaw.Prelude.{
  subst, ℕ, eqb, false, Text, ◌==◌, eqb_iff, ap₂, split_on, split_first, List, [], ◌∷◌, ◌++◌,
  Option, none, some, ◌≡◌, ◌≢◌, ◌↔◌, refl, sym, ◌∙◌, ap, arith, All, option_cases, if_cases,
}
use kraclaw.ChatGpt.{Codec, RawClaims}
use kraclaw.ChatGpt.Jwt.{
  IdTokenClaims, decode_jwt_segment, claims_of, claims_of_parts, parse_id_token,
}

-- A text without a dot.
abbrev pub NoDot : Text → Type 0
NoDot s = All (λ c. c ≢ b'.') s

split_first-append :
    (p s : Text)
    → NoDot p
    → split_first b'.' (p ++ (b'.' ∷ s)) ≡ (p, (split_first b'.' s).0 ∷ (split_first b'.' s).1)
split_first-append [] s h = refl
split_first-append (c ∷ p) s (h, hs) = rw (split_first-append p s hs) (ground (arith))

split_first-NoDot : (s : Text) → NoDot s → split_first b'.' s ≡ (s, [])
split_first-NoDot [] h = refl
split_first-NoDot (c ∷ s) (h, hs) = rw (split_first-NoDot s hs) (ground (arith))

-- The parts with dots between them.
abbrev joined : Text → List Text → Text
joined p [] = p
joined p (q ∷ qs) = p ++ (b'.' ∷ joined q qs)

joined-split : (s : Text) → joined (split_first b'.' s).0 (split_first b'.' s).1 ≡ s
joined-split [] = refl
joined-split (c ∷ s) =
    if_cases (λ (r : Text × List Text). joined r.0 r.1 ≡ c ∷ s) (eqb c b'.')
      ([], (split_first b'.' s).0 ∷ (split_first b'.' s).1)
      (c ∷ (split_first b'.' s).0, (split_first b'.' s).1)
      (λ dot. ap₂ ◌∷◌ (sym ((eqb_iff c b'.').0 dot)) (joined-split s))
      (λ _.
        joined-cons c (split_first b'.' s).0 (split_first b'.' s).1
        ∙ ap (λ x. c ∷ x) (joined-split s))
  where
    joined-cons : (c : ℕ) (p : Text) (ps : List Text) → joined (c ∷ p) ps ≡ c ∷ joined p ps
    joined-cons c p [] = refl
    joined-cons c p (q ∷ ps) = refl

split-NoDot : (s : Text) → NoDot (split_first b'.' s).0 × All NoDot (split_first b'.' s).1
split-NoDot [] = (tt, tt)
split-NoDot (c ∷ s) =
    if_cases (λ (r : Text × List Text). NoDot r.0 × All NoDot r.1) (eqb c b'.')
      ([], (split_first b'.' s).0 ∷ (split_first b'.' s).1)
      (c ∷ (split_first b'.' s).0, (split_first b'.' s).1) (λ _. (tt, split-NoDot s))
      (λ other. ((ground (arith), (split-NoDot s).0), (split-NoDot s).1))

-- A signed token: three parts without a dot, of which the second decodes to the claims.
abbrev pub IsToken : Codec → Text → IdTokenClaims → Type 0
IsToken codec token claims =
    (head : Text) × (payload : Text) × (signature : Text) × (b : Text) × (raw : RawClaims) × (token
      ≡ head ++ (b'.' ∷ payload ++ (b'.' ∷ signature)))
    × NoDot head
    × NoDot payload
    × NoDot signature
    × (decode_jwt_segment codec payload ≡ some b)
    × (codec.raw_claims b ≡ some raw)
    × (claims ≡ claims_of raw)

claims_of_parts-IsToken :
    (codec : Codec) (p : Text) (ps : List Text) (claims : IdTokenClaims)
    → NoDot p × All NoDot ps
    → claims_of_parts codec (p ∷ ps) ≡ some claims
    → IsToken codec (joined p ps) claims
claims_of_parts-IsToken codec p (payload ∷ signature ∷ []) claims (hp, (h, (k, _))) e =
    option_cases
      (λ (o : Option IdTokenClaims).
        o ≡ some claims → IsToken codec (joined p (payload ∷ signature ∷ [])) claims)
      (decode_jwt_segment codec payload) none
      (λ b. elim (codec.raw_claims b) [ none ↦ none | some raw ↦ some (claims_of raw) ])
      (λ _ e'. cc)
      (λ b decoded.
        option_cases
          (λ (o : Option IdTokenClaims).
            o ≡ some claims → IsToken codec (joined p (payload ∷ signature ∷ [])) claims)
          (codec.raw_claims b) none (λ raw. some (claims_of raw)) (λ _ e'. cc)
          (λ raw read e'. (p, payload, signature, b, raw, refl, hp, h, k, decoded, read, cc)))
      e
claims_of_parts-IsToken codec p ps claims h e = cc

parse_dotted :
    (codec : Codec) (head payload signature : Text)
    → NoDot head
    → NoDot payload
    → NoDot signature
    → parse_id_token codec (head ++ (b'.' ∷ payload ++ (b'.' ∷ signature)))
      ≡ claims_of_parts codec (head ∷ payload ∷ signature ∷ [])
unfolding parse_id_token split_on
parse_dotted codec head payload signature hh hp hs =
    rw
      (
        not_empty head,
        split_first-append head (payload ++ (b'.' ∷ signature)) hh,
        split_first-append payload signature hp,
        split_first-NoDot signature hs,
      )
      refl
  where
    not_empty : (s : Text) → (s ++ (b'.' ∷ payload ++ (b'.' ∷ signature)) == []) ≡ false
    not_empty [] = unfold ◌==◌ in refl
    not_empty (c ∷ s) = unfold ◌==◌ in refl

claims_of_decoded :
    (codec : Codec) (head payload signature b : Text) (raw : RawClaims)
    → decode_jwt_segment codec payload ≡ some b
    → codec.raw_claims b ≡ some raw
    → claims_of_parts codec (head ∷ payload ∷ signature ∷ []) ≡ some (claims_of raw)
claims_of_decoded codec head payload signature b raw decoded read =
    ap
      (λ (o : Option Text). elim o as (λ _. Option IdTokenClaims) [
        | none ↦ none
        | some t ↦ elim (codec.raw_claims t) [ none ↦ none | some x ↦ some (claims_of x) ]
      ])
      decoded
    ∙ ap
        (λ (o : Option RawClaims). elim o as (λ _. Option IdTokenClaims) [
          | none ↦ none
          | some x ↦ some (claims_of x)
        ])
        read

-- A token is read exactly if it consists of three parts without a dot with dots between them, the
-- second of which base64 and JSON decode to claims: then they are the result.
pub parse_id_token_iff :
    (codec : Codec) (token : Text) (claims : IdTokenClaims)
    → (parse_id_token codec token ≡ some claims) ↔ IsToken codec token claims
unfolding parse_id_token split_on
parse_id_token_iff codec token claims = (sound, complete)
  where
    sound : parse_id_token codec token ≡ some claims → IsToken codec token claims
    sound =
        unfold parse_id_token split_on in
        if_cases (λ (o : Option IdTokenClaims). o ≡ some claims → IsToken codec token claims)
          (token == []) none
          (claims_of_parts codec ((split_first b'.' token).0 ∷ (split_first b'.' token).1))
          (λ _ e. cc)
          (λ _ e.
            subst (λ (t : Text). IsToken codec t claims) (joined-split token)
              (claims_of_parts-IsToken codec (split_first b'.' token).0 (split_first b'.' token).1
                claims (split-NoDot token) e))

    complete : IsToken codec token claims → parse_id_token codec token ≡ some claims
    complete (head, payload, signature, b, raw, e, hh, hp, hs, decoded, read, is) = rw e (
        parse_dotted codec head payload signature hh hp hs
        ∙ claims_of_decoded codec head payload signature b raw decoded read
        ∙ ap some (sym is))
