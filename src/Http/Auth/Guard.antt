-- ===== src/Http/Auth/Guard.antt =====
-- `BasicAuthMiddleware` lets exactly the configured credentials through.
use waitinglist.Prelude.{
  ◌≡◌, ◌⊎◌, inl, inr, refl, String, Bool, true, Bool-cases, Option, none, some, arith,
}
use waitinglist.Prelude.Text.{str_eq}
use waitinglist.Store.{World}
use waitinglist.Store.Action.{Action, reply}
use waitinglist.Http.Types.{Request, Response}
use waitinglist.Http.Auth.{unauthorized, check_credentials, basic_auth_middleware}

module _ (matches_hash : String → String → Bool) (username hash realm : String)
    (next : String → Request → Action Response) where
  -- The header names the configured user, with a password that the hash matches.
  abbrev pub Authorized : Option (String × String) → Type 0
  Authorized none = ⊥
  Authorized (some (user, pass)) = (str_eq user username ≡ true) × (matches_hash hash pass ≡ true)

  credentials-cases :
      (auth : Option (String × String)) (r : Request) (w : World)
      → (Authorized auth
          × (check_credentials matches_hash username hash realm next auth r w ≡ next username r w))
        ⊎ ((Authorized auth → ⊥)
            × (check_credentials matches_hash username hash realm next auth r w
                ≡ (unauthorized realm, w)))
  unfolding check_credentials reply
  credentials-cases none r w = inr ((λ h. h), refl)
  credentials-cases (some (user, pass)) r w = elim (Bool-cases (str_eq user username)) [
    | inl same ↦ elim (Bool-cases (matches_hash hash pass)) [
      | inl match ↦ inl ((same, match), rw (same, match) refl)
      | inr other ↦ inr ((λ h. absurd (ground arith)), rw (same, other) refl)
    ]
    | inr other ↦ inr ((λ h. absurd (ground arith)), rw other refl)
  ]

  -- With credentials that name the configured user, with a password that the hash matches, the
  -- request reaches the next handler, which is told that user; any other request, without
  -- credentials too, is answered 401 with the realm, and changes nothing.
  pub basic_auth_middleware-cases :
      (r : Request) (w : World)
      → (Authorized r.basic_auth
          × (basic_auth_middleware matches_hash username hash realm next r w ≡ next username r w))
        ⊎ ((Authorized r.basic_auth → ⊥)
            × (basic_auth_middleware matches_hash username hash realm next r w
                ≡ (unauthorized realm, w)))
  unfolding basic_auth_middleware
  basic_auth_middleware-cases r w = credentials-cases r.basic_auth r w
