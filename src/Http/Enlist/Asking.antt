-- ===== src/Http/Enlist/Asking.antt =====
-- What `handleGetUsersByEmail` asks for, and answers.
use waitinglist.Prelude.{
  ◌≡◌, ◌≢◌, ◌⊎◌, inl, inr, refl, ap, ◌∙◌, sym, subst, String, true, not, Bool-cases, Option, none,
  some, List, [], ◌∷◌, In, here, there, if◌then◌else◌, map,
}
use mathlib.Core.Option.{some-injective}
use waitinglist.Prelude.Text.{str_eq, str_eq-cases, str_eq_refl, trim_space, contains_code}
use waitinglist.Model.{Result, ok, err, Error, Project, UserInfo}
use waitinglist.Store.{World}
use waitinglist.Store.Action.{reply, ◌>>=◌}
use waitinglist.Http.Types.{Request, Response, user_infos, write_json, write_error}
use waitinglist.Http.Enlist.{
  check_emails, on_infos, on_checked, on_emails, handle_get_users_by_email,
}
use waitinglist.Repository.{Repository}

-- An email that is not blank and has an `@`.
abbrev pub IsAccepted : String → Type 0
IsAccepted e = (trim_space e ≢ "") × (contains_code b'@' (trim_space e) ≡ true)

abbrev pub AreAccepted : List String → Type 0
AreAccepted [] = Unit
AreAccepted (e ∷ es) = IsAccepted e × AreAccepted es

-- an email that is refused, with the complaint
Refused : List String → Option String → Type 0
Refused es o = (text : String) × (e : String) × In e es × (IsAccepted e → ⊥) × (o ≡ some text)

-- one round of the loop
abbrev joined : String → Option String × List String → Option String × List String
joined t rest =
    if str_eq t ""
    then (some "email must not be empty", [])
    else if not (contains_code b'@' t)
    then (some "email must contain @", [])
    else (rest.0, t ∷ rest.1)

check_emails-cases :
    (es : List String)
    → ((check_emails es ≡ (none, map trim_space es)) × AreAccepted es)
      ⊎ Refused es (check_emails es).0
unfolding check_emails Refused
check_emails-cases [] = inl (refl, tt)
check_emails-cases (e ∷ es) = elim (str_eq-cases (trim_space e) "") [
  | inl blank ↦
      let empty : str_eq (trim_space e) "" ≡ true =
        subst (λ t. str_eq t "" ≡ true) (sym blank) (str_eq_refl "") in
      inr ("email must not be empty", e, here refl, λ a. a.0 blank, rw empty refl)
  | inr (given, other) ↦ elim (Bool-cases (contains_code b'@' (trim_space e))) [
    | inl at ↦
        let round : joined (trim_space e) (check_emails es)
            ≡ ((check_emails es).0, trim_space e ∷ (check_emails es).1) =
          rw (other, at) refl in
        elim (check_emails-cases es) [
          | inl (same, all) ↦ inl (
            round ∙ ap (λ (r : Option String × List String). (r.0, trim_space e ∷ r.1)) same,
            ((given, at), all),
          )
          | inr (text, x, m, bad, said) ↦
              inr
                (text, x, there m, bad, ap (λ (r : Option String × List String). r.0) round ∙ said)
        ]
    | inr no_at ↦
        inr ("email must contain @", e, here refl, λ a. absurd (cc), rw (other, no_at) refl)
  ]
]

module _ ⦃repo : Repository⦄ where
  open repo use {get_user_info_by_emails}

  -- The answer and the world after it: the fault of the query, or what the repository says of all its
  -- emails.
  pub data IsInfoAnswer (p : Project) (r : Request) (w : World) : Response × World → Type 0 where
    none_given :
        r.query "email" ≡ []
        → IsInfoAnswer p r w (write_error 400 "email query parameter is required", w)
    refused :
        (text e : String)
        → In e (r.query "email")
        → (IsAccepted e → ⊥)
        → IsInfoAnswer p r w (write_error 400 text, w)
    answered :
        (us : List UserInfo)
        → r.query "email" ≢ []
        → AreAccepted (r.query "email")
        → (get_user_info_by_emails p.slug (map trim_space (r.query "email")) w).0 ≡ ok us
        → IsInfoAnswer p r w (
          write_json 200 (user_infos us),
          (get_user_info_by_emails p.slug (map trim_space (r.query "email")) w).1,
        )
    failed :
        (e : Error)
        → r.query "email" ≢ []
        → AreAccepted (r.query "email")
        → (get_user_info_by_emails p.slug (map trim_space (r.query "email")) w).0 ≡ err e
        → IsInfoAnswer p r w (
          write_error 500 "internal server error",
          (get_user_info_by_emails p.slug (map trim_space (r.query "email")) w).1,
        )

  on_infos-IsInfoAnswer :
      (p : Project) (r : Request) (w : World)
      → r.query "email" ≢ []
      → AreAccepted (r.query "email")
      → (a : Result (List UserInfo))
      → (get_user_info_by_emails p.slug (map trim_space (r.query "email")) w).0 ≡ a
      → IsInfoAnswer p r w
          (on_infos a (get_user_info_by_emails p.slug (map trim_space (r.query "email")) w).1)
  unfolding on_infos reply
  on_infos-IsInfoAnswer p r w given all (ok us) h = answered us given all h
  on_infos-IsInfoAnswer p r w given all (err e) h = failed e given all h

  on_checked-asks :
      (p : Project) (r : Request) (w : World)
      → r.query "email" ≢ []
      → AreAccepted (r.query "email")
      → IsInfoAnswer p r w (on_checked p (none, map trim_space (r.query "email")) w)
  unfolding on_checked ◌>>=◌
  on_checked-asks p r w given all =
      on_infos-IsInfoAnswer p r w given all
        (get_user_info_by_emails p.slug (map trim_space (r.query "email")) w).0 refl

  on_checked-refused :
      (p : Project) (c : Option String × List String) (text : String) (w : World)
      → c.0 ≡ some text
      → on_checked p c w ≡ (write_error 400 text, w)
  unfolding on_checked reply
  on_checked-refused p (some said, _) text w h =
      ap (λ (t : String). (write_error 400 t, w)) (some-injective _ _ h)
  on_checked-refused p (none, _) text w h = absurd (cc)

  on_emails-IsInfoAnswer :
      (p : Project) (r : Request) (w : World) (es : List String)
      → r.query "email" ≡ es
      → IsInfoAnswer p r w (on_emails p es w)
  unfolding on_emails reply on_checked ◌>>=◌ Refused
  on_emails-IsInfoAnswer p r w [] h = none_given h
  on_emails-IsInfoAnswer p r w (e ∷ es) h = elim (check_emails-cases (e ∷ es)) [
    | inl (same, all) ↦
        let asked = on_checked-asks p r w (λ k. absurd (cc)) (subst AreAccepted (sym h) all) in
        subst (λ c. IsInfoAnswer p r w (on_checked p c w)) (sym same)
          (subst (λ qs. IsInfoAnswer p r w (on_checked p (none, map trim_space qs) w)) h asked)
    | inr (text, x, m, bad, said) ↦
        subst (IsInfoAnswer p r w) (sym (on_checked-refused p (check_emails (e ∷ es)) text w said))
          (refused text x (subst (In x) (sym h) m) bad)
  ]

  -- For a request of a project `handleGetUsersByEmail` answers 400 and changes nothing where it is given
  -- no email or one that is blank or has no `@`; otherwise it asks the repository for all the emails, in
  -- order and without the space around them, and answers 200 with the users that it answers, or 500 where
  -- that fails, in the world as the repository leaves it.
  pub handle_get_users_by_email-asks :
      (p : Project) (r : Request) (w : World)
      → IsInfoAnswer p r w (handle_get_users_by_email (some p) r w)
  unfolding handle_get_users_by_email
  handle_get_users_by_email-asks p r w = on_emails-IsInfoAnswer p r w (r.query "email") refl
