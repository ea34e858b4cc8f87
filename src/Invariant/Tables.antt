-- ===== src/Invariant/Tables.antt =====
-- Changes of the tables that keep them valid: a new user, a new row of the waiting list, an UPDATE
-- of users together with the removal of rows.
use waitinglist.Prelude.{
  ◌≡◌, ◌≢◌, sym, ap, ◌∙◌, subst, ◌⊎◌, inl, inr, false, List, [], ◌∷◌, ◌++◌, In, here, there,
  not-In-nil, In-append, In-append_left,
}
use waitinglist.Model.{UserEntity}
use waitinglist.Store.{Db, WaitingRow}
use waitinglist.Invariant.{IsValid, IsAudited}

-- An entry behind a list is in the list, or is the last one.
In-snoc {ℓ} : {A : Type ℓ} {a x : A} (xs : List A) → In a (xs ++ x ∷ []) → In a xs ⊎ (a ≡ x)
In-snoc xs m = elim (In-append xs _ m) [
  | inl k ↦ inl k
  | inr (here e) ↦ inr e
  | inr (there k) ↦ absurd (not-In-nil k)
]

module _ {db : Db} (v : IsValid db) where
  module _ (n : UserEntity) (new_id : (u : UserEntity) → In u db.user_entity → u.id ≢ n.id)
      (new_address : (u : UserEntity)
        → In u db.user_entity
        → u.project_slug ≡ n.project_slug
        → u.email ≢ n.email)
      (no_access : n.has_access ≡ false) (audited : IsAudited n) where
    not_waiting : (r : WaitingRow) → In r db.waiting_list → n.id ≢ r.user_id
    not_waiting r m e = let k = v.waiting_known r m in new_id k.0 k.1 (k.2 ∙ sym e)

    pub insert_user-IsValid : IsValid (record db { user_entity = db.user_entity ++ n ∷ [] })
    insert_user-IsValid = record {
      user_key = λ u w mu mw e. elim (In-snoc db.user_entity mu) [
        | inl ku ↦ elim (In-snoc db.user_entity mw) [
          | inl kw ↦ v.user_key u w ku kw e
          | inr ew ↦ absurd (new_id u ku (e ∙ ap (λ (x : UserEntity). x.id) ew))
        ]
        | inr eu ↦ elim (In-snoc db.user_entity mw) [
          | inl kw ↦ absurd (new_id w kw (sym e ∙ ap (λ (x : UserEntity). x.id) eu))
          | inr ew ↦ eu ∙ sym ew
        ]
      ];
      address_key = λ u w mu mw ep ee. elim (In-snoc db.user_entity mu) [
        | inl ku ↦ elim (In-snoc db.user_entity mw) [
          | inl kw ↦ v.address_key u w ku kw ep ee
          | inr ew ↦ absurd (
              new_address u ku (ep ∙ ap (λ (x : UserEntity). x.project_slug) ew)
                (ee ∙ ap (λ (x : UserEntity). x.email) ew))
        ]
        | inr eu ↦ elim (In-snoc db.user_entity mw) [
          | inl kw ↦ absurd (
              new_address w kw (sym ep ∙ ap (λ (x : UserEntity). x.project_slug) eu)
                (sym ee ∙ ap (λ (x : UserEntity). x.email) eu))
          | inr ew ↦ eu ∙ sym ew
        ]
      ];
      entry_key = v.entry_key;
      waiting_key = v.waiting_key;
      waiting_known = λ r m. let k = v.waiting_known r m in (k.0, In-append_left (n ∷ []) k.1, k.2);
      waiting_no_access = λ u r mu mr e. elim (In-snoc db.user_entity mu) [
        | inl ku ↦ v.waiting_no_access u r ku mr e
        | inr eu ↦ ap (λ (x : UserEntity). x.has_access) eu ∙ no_access
      ];
      waiting_project = λ u r mu mr e. elim (In-snoc db.user_entity mu) [
        | inl ku ↦ v.waiting_project u r ku mr e
        | inr eu ↦ absurd (not_waiting r mr (sym (ap (λ (x : UserEntity). x.id) eu) ∙ e))
      ];
      audited = λ u mu. elim (In-snoc db.user_entity mu) [
        | inl ku ↦ v.audited u ku
        | inr eu ↦ subst IsAudited (sym eu) audited
      ];
    }

  module _ (n : WaitingRow) (u : UserEntity) (known : In u db.user_entity)
      (same_user : u.id ≡ n.user_id) (no_access : u.has_access ≡ false)
      (same_project : u.project_slug ≡ n.project_slug)
      (new_entry : (r : WaitingRow) → In r db.waiting_list → r.id ≢ n.id)
      (not_waiting : (r : WaitingRow) → In r db.waiting_list → r.user_id ≢ n.user_id) where
    pub insert_waiting-IsValid : IsValid (record db { waiting_list = db.waiting_list ++ n ∷ [] })
    insert_waiting-IsValid = record {
      user_key = v.user_key;
      address_key = v.address_key;
      entry_key = λ r s mr ms e. elim (In-snoc db.waiting_list mr) [
        | inl kr ↦ elim (In-snoc db.waiting_list ms) [
          | inl ks ↦ v.entry_key r s kr ks e
          | inr es ↦ absurd (new_entry r kr (e ∙ ap (λ (x : WaitingRow). x.id) es))
        ]
        | inr er ↦ elim (In-snoc db.waiting_list ms) [
          | inl ks ↦ absurd (new_entry s ks (sym e ∙ ap (λ (x : WaitingRow). x.id) er))
          | inr es ↦ er ∙ sym es
        ]
      ];
      waiting_key = λ r s mr ms e. elim (In-snoc db.waiting_list mr) [
        | inl kr ↦ elim (In-snoc db.waiting_list ms) [
          | inl ks ↦ v.waiting_key r s kr ks e
          | inr es ↦ absurd (not_waiting r kr (e ∙ ap (λ (x : WaitingRow). x.user_id) es))
        ]
        | inr er ↦ elim (In-snoc db.waiting_list ms) [
          | inl ks ↦ absurd (not_waiting s ks (sym e ∙ ap (λ (x : WaitingRow). x.user_id) er))
          | inr es ↦ er ∙ sym es
        ]
      ];
      waiting_known = λ r m. elim (In-snoc db.waiting_list m) [
        | inl k ↦ v.waiting_known r k
        | inr e ↦ (u, known, same_user ∙ sym (ap (λ (x : WaitingRow). x.user_id) e))
      ];
      waiting_no_access = λ w r mw mr e. elim (In-snoc db.waiting_list mr) [
        | inl kr ↦ v.waiting_no_access w r mw kr e
        | inr er ↦
            ap (λ (x : UserEntity). x.has_access)
              (v.user_key w u mw known (e ∙ ap (λ (x : WaitingRow). x.user_id) er ∙ sym same_user))
            ∙ no_access
      ];
      waiting_project = λ w r mw mr e. elim (In-snoc db.waiting_list mr) [
        | inl kr ↦ v.waiting_project w r mw kr e
        | inr er ↦
            ap (λ (x : UserEntity). x.project_slug)
              (v.user_key w u mw known (e ∙ ap (λ (x : WaitingRow). x.user_id) er ∙ sym same_user))
            ∙ same_project
            ∙ sym (ap (λ (x : WaitingRow). x.project_slug) er)
      ];
      audited = v.audited;
    }

  -- Fewer rows wait.
  pub delete_waiting-IsValid :
      (ws : List WaitingRow)
      → ((r : WaitingRow) → In r ws → In r db.waiting_list)
      → IsValid (record db { waiting_list = ws })
  delete_waiting-IsValid ws sub = record {
    user_key = v.user_key;
    address_key = v.address_key;
    entry_key = λ r s mr ms. v.entry_key r s (sub r mr) (sub s ms);
    waiting_key = λ r s mr ms. v.waiting_key r s (sub r mr) (sub s ms);
    waiting_known = λ r m. v.waiting_known r (sub r m);
    waiting_no_access = λ u r mu mr. v.waiting_no_access u r mu (sub r mr);
    waiting_project = λ u r mu mr. v.waiting_project u r mu (sub r mr);
    audited = v.audited;
  }
