-- ===== src/Metrics/Auth.antt =====
-- TokenAuthenticator (internal/metrics/implementations.go) and the bearer token of AuthMiddleware
-- (internal/metrics/handler.go) and of the Gin middleware (internal/metrics/gin_adapter.go).
use message_queue.Prelude.{
  ◌≡◌, refl, sym, ◌∙◌, ◌⊎◌, ◌↔◌, ◌≢◌, inl, inr, Bool, true, List, [], ◌∷◌, Bool-cases,
  if◌then◌else◌,
}
use message_queue.Prelude.Text.{Text, codes, text_eq, text_eq_iff, is_empty}
use message_queue.Prelude.Strings.{fields, fields_loop, equal_fold}

-- An empty expected token switches authentication off.
pub authenticate : Text → Text → Bool
authenticate expected token = if is_empty expected then true else text_eq token expected

abbrev pub token_of : List Text → Text
token_of (scheme ∷ token ∷ []) = if equal_fold scheme (codes "Bearer") then token else []
token_of _ = []

-- The token of an Authorization header; empty where there is none.
pub bearer_token : Text → Text
bearer_token header = if is_empty header then [] else token_of (fields header)

-- The middleware lets a request pass, or answers 401.
pub authorized : Text → Text → Bool
authorized expected header = authenticate expected (bearer_token header)

-- The only headers that carry a token.
pub record Carries (header token : Text) : Type 0 where
  pub scheme : Text
  pub two_fields : fields header ≡ scheme ∷ token ∷ []
  pub bearer : equal_fold scheme (codes "Bearer") ≡ true

token_of-Carries :
    (header : Text) (words : List Text) (token : Text)
    → fields header ≡ words
    → token_of words ≡ token
    → token ≢ []
    → Carries header token
token_of-Carries header [] token e h n = absurd (n (sym h))
token_of-Carries header (s ∷ []) token e h n = absurd (n (sym h))
token_of-Carries header (s ∷ t ∷ []) token e h n =
    elim (Bool-cases (equal_fold s (codes "Bearer"))) [
      | inl b ↦
          let same : t ≡ token = rw b at h in
          record { scheme = s; two_fields = e ∙ rw same; bearer = b }
      | inr other ↦ let none_left : [] ≡ token = rw other at h in absurd (n (sym none_left))
    ]
token_of-Carries header (s ∷ t ∷ u ∷ words) token e h n = absurd (n (sym h))

bearer_token-Carries :
    (header token : Text) → token ≢ [] → (bearer_token header ≡ token) ↔ Carries header token
unfolding bearer_token fields fields_loop
bearer_token-Carries [] token n = (λ h. absurd (n (sym h)), λ c. absurd (cc (c.two_fields)))
bearer_token-Carries (d ∷ header) token n = (
  λ h. token_of-Carries (d ∷ header) (fields (d ∷ header)) token refl h n,
  λ c. rw (c.two_fields, c.bearer) refl,
)

-- With a token configured, a request passes exactly when its header is two words, the first of them
-- "Bearer" in any case and the second the token. With none configured every request passes.
pub authorized_iff :
    (expected header : Text)
    → (authorized expected header ≡ true) ↔ ((expected ≡ []) ⊎ Carries header expected)
unfolding authorized authenticate
authorized_iff [] header = (λ _. inl refl, λ _. refl)
authorized_iff (c ∷ expected) header =
    let iff = bearer_token-Carries header (c ∷ expected) (λ e. cc) in
    (
      λ h. inr (iff.0 ((text_eq_iff (bearer_token header) (c ∷ expected)).0 h)),
      λ p. elim p [
        | inl e ↦ absurd (cc e)
        | inr carries ↦ (text_eq_iff (bearer_token header) (c ∷ expected)).1 (iff.1 carries)
      ],
    )
