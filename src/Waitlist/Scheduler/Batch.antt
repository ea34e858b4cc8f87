-- ===== src/Waitlist/Scheduler/Batch.antt =====
-- The tables of a batch: what is known before it, and what has become of users and list after it.
use waitinglist.Prelude.{
  ◌≡◌, refl, sym, ◌∙◌, subst, arith, ap, String, Bool, true, not, List, [], ◌∷◌, keep, In, here,
  there, In-keep, inl, inr, Bool-cases,
}
use waitinglist.Prelude.Text.{str_eq, str_eq_sound, str_eq_refl}
use waitinglist.Model.{Time, WaitingListEntry}
use waitinglist.Store.{Db, WaitingRow}
use waitinglist.Sqlite.Rows.{is_in, update_where}
use waitinglist.Sqlite.Users.{grant_row}
use waitinglist.Sqlite.Scheduler.{upsert}
use waitinglist.Invariant.{IsValid}
use waitinglist.Invariant.Update.{update_users-IsValid}
use waitinglist.Invariant.Grant.{listed, Granted, Deleted, grant_row-IsAudited}
use waitinglist.Invariant.LetIn.{LetIn, not_matched, granted_user}
use waitinglist.Waitlist.Scheduler.{user_ids, entry_ids, last_success_key}
use waitinglist.Repository.{Repository}
use waitinglist.Repository.Keys.{Valid}
use waitinglist.Waitlist.Scheduler.Keys.{Claims}
use waitinglist.Repository.Contract.{Contract}

-- A user listed by its id was listed by an entry.
pub user_ids-In :
    (id : String) (es : List WaitingListEntry)
    → is_in (user_ids es) id ≡ true
    → (e : WaitingListEntry) × In e es × (e.user_id ≡ id)
unfolding user_ids
user_ids-In id [] h = absurd (cc)
user_ids-In id (e ∷ es) h = elim (Bool-cases (str_eq e.user_id id)) [
  | inl same ↦ (e, here refl, str_eq_sound e.user_id id same)
  | inr other ↦ let r = user_ids-In id es (ground arith) in (r.0, there r.1, r.2)
]

-- A row listed by its id was listed by an entry.
pub entry_ids-In :
    (id : String) (es : List WaitingListEntry)
    → is_in (entry_ids es) id ≡ true
    → (e : WaitingListEntry) × In e es × (e.id ≡ id)
unfolding entry_ids
entry_ids-In id [] h = absurd (cc)
entry_ids-In id (e ∷ es) h = elim (Bool-cases (str_eq e.id id)) [
  | inl same ↦ (e, here refl, str_eq_sound e.id id same)
  | inr other ↦ let r = entry_ids-In id es (ground arith) in (r.0, there r.1, r.2)
]

In-user_ids :
    (e : WaitingListEntry) (es : List WaitingListEntry)
    → In e es
    → is_in (user_ids es) e.user_id ≡ true
unfolding user_ids
In-user_ids e [] m = elim m [ ]
In-user_ids e (x ∷ es) (here same) = rw (← same, str_eq_refl e.user_id) refl
In-user_ids e (x ∷ es) (there m) = ground (arith, In-user_ids e es m)

In-entry_ids :
    (e : WaitingListEntry) (es : List WaitingListEntry) → In e es → is_in (entry_ids es) e.id ≡ true
unfolding entry_ids
In-entry_ids e [] m = elim m [ ]
In-entry_ids e (x ∷ es) (here same) = rw (← same, str_eq_refl e.id) refl
In-entry_ids e (x ∷ es) (there m) = ground (arith, In-entry_ids e es m)

abbrev pub of_entry : List WaitingListEntry → WaitingRow → Bool
of_entry es r = is_in (entry_ids es) r.id

-- Users and list after the batch: those of `start`, with access for the users of the batch, at one
-- instant, and without the rows of the batch. Nothing else of them has changed.
abbrev pub Replaced : Db → List WaitingListEntry → Db → Type 0
Replaced start es db =
    (now : Time) × (db.user_entity
      ≡ update_where (listed (user_ids es)) (grant_row now "scheduler") start.user_entity)
    × (db.waiting_list ≡ keep (λ r. not (of_entry es r)) start.waiting_list)

abbrev pub AllIn : Db → List WaitingListEntry → Db → Type 0
AllIn start es db =
    IsValid db
    × ((e : WaitingListEntry) → In e es → LetIn "scheduler" e.user_id db)
    × Replaced start es db

-- before and after the stamp of the project
abbrev pub Unstamped : Db → List WaitingListEntry → Db → Type 0
Unstamped start es db = AllIn start es db × (db.scheduler_state ≡ start.scheduler_state)

abbrev pub Stamped : Db → String → List WaitingListEntry → Db → Type 0
Stamped start slug es db =
    AllIn start es db
    × ((now : Time) × (db.scheduler_state ≡ upsert slug last_success_key now start.scheduler_state))

module _ ⦃repo : Repository⦄ ⦃c : Contract repo⦄ where
  -- What is so before the transaction, on the tables `start`, and what is so after it.
  abbrev pub ReadIn : Db → List WaitingListEntry → Db → Type 0
  ReadIn start es db =
      Valid c.key db × ((e : WaitingListEntry) → In e es → Claims c.key db e) × (db ≡ start)

  -- The tables between the grant and the deletion.
  module _ (start : Db) (es : List WaitingListEntry) (before : Db)
      (held : ReadIn start es before) where
    -- A row whose user is in the batch is the row of an entry of the batch.
    row_of_batch :
        (r : WaitingRow) (id : String)
        → In r before.waiting_list
        → id ≡ r.user_id
        → is_in (user_ids es) id ≡ true
        → of_entry es r ≡ true
    row_of_batch r id m same t =
        let e = user_ids-In id es t in
        let own = (held.1 e.0 e.1).own r m (sym (e.2 ∙ same)) in
        subst (λ x. is_in (entry_ids es) x ≡ true) (sym own) (In-entry_ids e.0 es e.1)

    module _ (now : Time) where
      abbrev rows : List WaitingRow
      rows = keep (λ r. not (of_entry es r)) before.waiting_list

      abbrev after : Db
      after = record before {
        user_entity =
            update_where (listed (user_ids es)) (grant_row now "scheduler") before.user_entity;
        waiting_list = rows;
      }

      after-IsValid : IsValid after
      after-IsValid =
          update_users-IsValid held.0.0 (listed (user_ids es)) (grant_row now "scheduler") rows
            (λ r m. (In-keep (λ r. not (of_entry es r)) before.waiting_list m).0) (λ u. refl)
            (λ u. refl) (λ u. refl) (λ u a. grant_row-IsAudited now "scheduler" u refl a)
            λ u r mu mr same t.
              let k = In-keep (λ r. not (of_entry es r)) before.waiting_list mr in
              let in_batch = row_of_batch r u.id k.0 same t in
              let out = not_matched (of_entry es) before.waiting_list mr in absurd (cc)

      after-LetIn : (e : WaitingListEntry) → In e es → LetIn "scheduler" e.user_id after
      after-LetIn e m =
          let claim = held.1 e m in
          record {
            user = grant_row now "scheduler" claim.user;
            known =
                granted_user (listed (user_ids es)) now "scheduler" claim.user before.user_entity
                  claim.known
                  (subst (λ x. is_in (user_ids es) x ≡ true) (sym claim.same) (In-user_ids e es m));
            same = claim.same;
            access = refl;
            granted_by = refl;
            off_list = λ r mr.
                let k = In-keep (λ r. not (of_entry es r)) before.waiting_list mr in
                let out = not_matched (of_entry es) before.waiting_list mr in
                elim (Bool-cases (str_eq r.user_id e.user_id)) [
                  | inl still ↦
                      let in_batch =
                        row_of_batch r e.user_id k.0 (sym (str_eq_sound _ _ still))
                          (In-user_ids e es m) in
                      absurd (cc)
                  | inr gone ↦ gone
                ];
          }

  pub batch-Unstamped :
      (start : Db) (es : List WaitingListEntry) (db : Db)
      → Deleted (Granted (ReadIn start es) (user_ids es) "scheduler") (of_entry es) db
      → Unstamped start es db
  batch-Unstamped start es db d =
      let g = d.held in
      let b = g.before in
      let e : db ≡ after start es b g.held g.now =
        d.result
        ∙ ap
            (λ (x : Db). record x { waiting_list = keep (λ r. not (of_entry es r)) x.waiting_list })
            g.result in
      let same = g.held.2 in
      subst (Unstamped start es) (sym e) (
        (
          after-IsValid start es b g.held g.now,
          after-LetIn start es b g.held g.now,
          (
            g.now,
            ap
                (λ (x : Db).
                  update_where (listed (user_ids es)) (grant_row g.now "scheduler") x.user_entity)
                same,
            ap (λ (x : Db). keep (λ r. not (of_entry es r)) x.waiting_list) same,
          ),
        ),
        ap (λ (x : Db). x.scheduler_state) same,
      )
