-- ===== src/Invariant/Lasting.antt =====
-- What no call takes from a user: the row with its identity, and access but for a revocation.
use waitinglist.Prelude.{
  ◌≡◌, ◌≢◌, refl, sym, ap, ◌∙◌, subst, String, Bool, true, false, Option, some, List, [], ◌∷◌, ◌++◌,
  In, In-append_left, map-In, if◌then◌else◌,
}
use waitinglist.Model.{UserEntity}
use waitinglist.Sqlite.Rows.{update_where}
use waitinglist.Invariant.Update.{column-if}

-- The user is still a row, with access if it had access, unless that is the user who may have lost it.
pub record Still (lost : Option String) (u : UserEntity) (users : List UserEntity) : Type 0 where
  pub user : UserEntity
  pub known : In user users
  pub id : user.id ≡ u.id
  pub project : user.project_slug ≡ u.project_slug
  pub email : user.email ≡ u.email
  pub access : u.has_access ≡ true → lost ≢ some u.id → user.has_access ≡ true

-- So it is for every user.
abbrev pub Lasting : Option String → List UserEntity → List UserEntity → Type 0
Lasting lost before users = (u : UserEntity) → In u before → Still lost u users

access_if :
    (f : UserEntity → UserEntity) (v : UserEntity) (b : Bool)
    → (b ≡ true → (f v).has_access ≡ true)
    → v.has_access ≡ true
    → (if b then f v else v).has_access ≡ true
access_if f v true h a = h refl
access_if f v false h a = a

module _ {lost : Option String} where
  pub Lasting-refl : (users : List UserEntity) → Lasting lost users users
  Lasting-refl users u m = record {
    user = u;
    known = m;
    id = refl;
    project = refl;
    email = refl;
    access = λ a spared. a;
  }

  pub Lasting-same : {before users : List UserEntity} → users ≡ before → Lasting lost before users
  Lasting-same {before = before} same = subst (Lasting lost before) (sym same) (Lasting-refl before)

  pub Lasting-snoc :
      (before : List UserEntity) (v : UserEntity) → Lasting lost before (before ++ v ∷ [])
  Lasting-snoc before v u m = record {
    user = u;
    known = In-append_left (v ∷ []) m;
    id = refl;
    project = refl;
    email = refl;
    access = λ a spared. a;
  }

  -- An UPDATE that leaves the identity alone, and takes access at most from the user who may lose it.
  pub Lasting-update :
      (p : UserEntity → Bool) (f : UserEntity → UserEntity) {before users : List UserEntity}
      → ((v : UserEntity) → (f v).id ≡ v.id)
      → ((v : UserEntity) → (f v).project_slug ≡ v.project_slug)
      → ((v : UserEntity) → (f v).email ≡ v.email)
      → ((v : UserEntity) → p v ≡ true → lost ≢ some v.id → (f v).has_access ≡ true)
      → Lasting lost before users
      → Lasting lost before (update_where p f users)
  Lasting-update p f {users = users} same_id same_project same_email access lasts u m =
      let s = lasts u m in
      let v = s.user in
      record {
        user = if p v then f v else v;
        known = map-In (λ (x : UserEntity). if p x then f x else x) s.known;
        id = column-if (p v) (λ (x : UserEntity). x.id) (f v) v (same_id v) ∙ s.id;
        project =
            column-if (p v) (λ (x : UserEntity). x.project_slug) (f v) v (same_project v)
            ∙ s.project;
        email = column-if (p v) (λ (x : UserEntity). x.email) (f v) v (same_email v) ∙ s.email;
        access = λ a spared.
            access_if f v (p v) (λ t. access v t (λ e. spared (e ∙ ap some s.id)))
              (s.access a spared);
      }
