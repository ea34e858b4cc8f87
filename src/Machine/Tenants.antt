-- ===== src/Machine/Tenants.antt =====
-- The projects of one program do not meet: what is asked or run for one leaves the rows of the others.
use waitinglist.Prelude.{
  ◌≡◌, refl, sym, ap, ◌∙◌, subst, String, Bool, true, false, not, Option, some, none, List, keep,
  In, In-keep, inl, inr,
}
use waitinglist.Prelude.Text.{str_eq, str_eq_refl}
use waitinglist.Prelude.Filters.{keep-snoc, keep-keep, keep-update}
use mathlib.Core.Option.{some-injective}
use waitinglist.Model.{Project, UserEntity, WaitingListEntry}
use waitinglist.Store.{Db, World, WaitingRow, SchedulerRow}
use waitinglist.Notifier.Send.{send_digest}
use waitinglist.Notifier.Send.Reads.{send_digest-Keeps}
use waitinglist.Http.Enlist.Safety.{handle_add-Extends}
use waitinglist.Http.Enlist.Outcome.{Extends}
use waitinglist.Sqlite.Users.{grant_row}
use waitinglist.Sqlite.Scheduler.Stamps.{upsert-others}
use waitinglist.Invariant.{IsValid}
use waitinglist.Invariant.Grant.{listed}
use waitinglist.Waitlist.Scheduler.{user_ids}
use waitinglist.Waitlist.Scheduler.Batch.{of_entry, user_ids-In, entry_ids-In}
use waitinglist.Waitlist.Scheduler.Outcome.{RoundOutcome, process_project-outcome, batch_in}
use waitinglist.Waitlist.Digest.{Sender}
use waitinglist.Waitlist.Digest.Outcome.{DigestOutcome, process_digest_project-outcome, stamped}
use waitinglist.Repository.{Repository}
use waitinglist.Repository.Read.{Read, rows_of, is_of_project}
use waitinglist.Repository.Keys.{Valid}
use waitinglist.Repository.Contract.{Contract}
use waitinglist.Machine.{Event, perform, perform-reads}

abbrev is_other_user : String → UserEntity → Bool
is_other_user slug u = not (str_eq u.project_slug slug)

abbrev is_other_row : String → WaitingRow → Bool
is_other_row slug r = not (is_of_project slug r)

abbrev is_other_state : String → SchedulerRow → Bool
is_other_state slug s = not (str_eq s.project_slug slug)

-- The rows of all other projects.
abbrev pub others : String → Db → Db
others slug db = record {
  user_entity = keep (is_other_user slug) db.user_entity;
  waiting_list = keep (is_other_row slug) db.waiting_list;
  scheduler_state = keep (is_other_state slug) db.scheduler_state;
}

-- the project that an event is about, if it is about one
abbrev pub tenant_of : Event → Option String
tenant_of (Event.add (some p) r) = some p.slug
tenant_of (Event.get_all (some p) r) = some p.slug
tenant_of (Event.users_by_email (some p) r) = some p.slug
tenant_of (Event.schedule cfg p) = some p.slug
tenant_of (Event.digest p) = some p.slug
tenant_of _ = none

others_by :
    (slug : String) (a b : Db)
    → keep (is_other_user slug) a.user_entity ≡ keep (is_other_user slug) b.user_entity
    → keep (is_other_row slug) a.waiting_list ≡ keep (is_other_row slug) b.waiting_list
    → keep (is_other_state slug) a.scheduler_state ≡ keep (is_other_state slug) b.scheduler_state
    → others slug a ≡ others slug b
others_by slug a b u r s i = record { user_entity = u i; waiting_list = r i; scheduler_state = s i }

not_other : (slug own : String) → own ≡ slug → not (str_eq own slug) ≡ false
not_other slug own e = rw (e, str_eq_refl slug) refl

own_row : (slug : String) (r : WaitingRow) → r.project_slug ≡ slug → is_other_row slug r ≡ false
own_row slug r e = not_other slug r.project_slug e

Extends-others :
    {slug : String} {before db : Db} → Extends slug before db → others slug db ≡ others slug before
Extends-others {slug = slug} (inl same) = ap (others slug) same
Extends-others {slug = slug} {before = before} (inr (r, own, inl same)) =
    ap (others slug) same
    ∙ others_by slug _ _ refl
        (keep-snoc (is_other_row slug) before.waiting_list r (own_row slug r own)) refl
Extends-others {slug = slug} {before = before} (inr (r, own, inr (u, own_user, same))) =
    ap (others slug) same
    ∙ others_by slug _ _
        (keep-snoc (is_other_user slug) before.user_entity u
          (not_other slug u.project_slug own_user))
        (keep-snoc (is_other_row slug) before.waiting_list r (own_row slug r own)) refl

of_tenant :
    {own slug : String} (a b : Db)
    → ◌≡◌ {A = Option String} (some own) (some slug)
    → others own a ≡ others own b
    → others slug a ≡ others slug b
of_tenant a b about h = subst (λ s. others s a ≡ others s b) (some-injective _ _ about) h

module _ ⦃repo : Repository⦄ ⦃c : Contract repo⦄ where
  module _ (slug : String) (before : Db) (valid : IsValid before) (es : List WaitingListEntry)
      (rows : (e : WaitingListEntry)
        → In e es
        → Read c.weighted (rows_of slug before.waiting_list) e) where
    read_row :
        (e : WaitingListEntry)
        → In e es
        → (r : WaitingRow) × In r before.waiting_list
          × (r.id ≡ e.id)
          × (r.user_id ≡ e.user_id)
          × (is_other_row slug r ≡ false)
    read_row e m =
        let read = rows e m in
        let k = In-keep (is_of_project slug) before.waiting_list read.known in
        (read.row, k.0, read.id, read.user_id, ap not k.1)

    listed-own :
        (u : UserEntity)
        → In u before.user_entity
        → listed (user_ids es) u ≡ true
        → is_other_user slug u ≡ false
    listed-own u mu h =
        let (e, m, same) = user_ids-In u.id es h in
        let (r, mr, _, of_user, own) = read_row e m in
        rw (valid.waiting_project u r mu mr (sym same ∙ sym of_user)) own

    entry-own :
        (r : WaitingRow)
        → In r before.waiting_list
        → of_entry es r ≡ true
        → is_other_row slug r ≡ false
    entry-own r mr h =
        let (e, m, same) = entry_ids-In r.id es h in
        let (row, known, id, _, own) = read_row e m in
        rw (valid.entry_key r row mr known (sym same ∙ sym id)) own

  RoundOutcome-others :
      {slug : String} {before db : Db}
      → IsValid before
      → RoundOutcome before slug db
      → others slug db ≡ others slug before
  RoundOutcome-others {slug = slug} v (RoundOutcome.unchanged same) = ap (others slug) same
  RoundOutcome-others {slug = slug} {before = before} v
        (batch_in es rows ((valid, in_, (now, users, list)), (stamp, state))) =
      others_by slug _ _
        (ap (keep (is_other_user slug)) users
          ∙ keep-update (is_other_user slug) (listed (user_ids es)) (grant_row now "scheduler")
              before.user_entity (listed-own slug before v es rows) (λ u. refl))
        (ap (keep (is_other_row slug)) list
          ∙ keep-keep (is_other_row slug) (of_entry es) before.waiting_list
              (entry-own slug before v es rows))
        (ap (keep (is_other_state slug)) state ∙ upsert-others slug _ stamp before.scheduler_state)

  DigestOutcome-others :
      {send : Sender} {p : Project} {before db : Db}
      → DigestOutcome send p before db
      → others p.slug db ≡ others p.slug before
  DigestOutcome-others {p = p} (DigestOutcome.unchanged same) = ap (others p.slug) same
  DigestOutcome-others {p = p} {before = before} (stamped now sent same) =
      ap (others p.slug) same
      ∙ others_by p.slug _ _ refl refl (upsert-others p.slug _ now before.scheduler_state)

  -- A sign-up, the public lists, the scheduler and the digest of a project, on valid tables and
  -- wherever the driver fails, leave the users, the entries and the stamps of every other project.
  pub perform-others :
      (e : Event) (slug : String) (w : World)
      → tenant_of e ≡ some slug
      → Valid c.key w.db
      → others slug (perform e w).db ≡ others slug w.db
  unfolding perform
  perform-others (Event.add (some p) r) slug w about v =
      of_tenant _ _ about (Extends-others (handle_add-Extends p r w v))
  perform-others (Event.get_all (some p) r) slug w about v =
      ap (others slug) (perform-reads (Event.get_all (some p) r) w refl)
  perform-others (Event.users_by_email (some p) r) slug w about v =
      ap (others slug) (perform-reads (Event.users_by_email (some p) r) w refl)
  perform-others (Event.schedule cfg p) slug w about v =
      of_tenant _ _ about (RoundOutcome-others v.0 (process_project-outcome cfg p w v))
  perform-others (Event.digest p) slug w about v = of_tenant _ _ about (
      DigestOutcome-others
        (process_digest_project-outcome send_digest p w (send_digest-Keeps {P = λ db. db ≡ w.db})))
  perform-others (Event.add none r) slug w about v = absurd (cc)
  perform-others (Event.get_all none r) slug w about v = absurd (cc)
  perform-others (Event.users_by_email none r) slug w about v = absurd (cc)
  perform-others (Event.grant h r) slug w about v = absurd (cc)
  perform-others (Event.revoke admin r) slug w about v = absurd (cc)
  perform-others (Event.delete_waitlist r) slug w about v = absurd (cc)
  perform-others (Event.dashboard h r) slug w about v = absurd (cc)
  perform-others (Event.list_with_access h r) slug w about v = absurd (cc)
  perform-others (Event.list_waitlist h r) slug w about v = absurd (cc)
  perform-others (Event.send_digest_now h r) slug w about v = absurd (cc)
