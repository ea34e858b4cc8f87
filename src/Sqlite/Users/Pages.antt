-- ===== src/Sqlite/Users/Pages.antt =====
-- `ListWithAccess`: who is on a page, and in which order.
use Prim.Native.String.{◌++◌ as append}
use waitinglist.Prelude.{
  ◌≡◌, ◌<◌, ◌⊎◌, inl, inr, Bool-cases, String, true, false, Option, none, some, List, keep,
}
use waitinglist.Prelude.Int.{ℤ}
use waitinglist.Prelude.Order.{order_by}
use waitinglist.Prelude.Selected.{IsAnswered}
use waitinglist.Prelude.Text.{str_eq, str_eq_sound}
use waitinglist.Model.{Time, Result, ok, err, UserEntity}
use waitinglist.Store.{Db}
use waitinglist.Sqlite.Rows.{like, text_le, limit_rows, offset_rows}
use waitinglist.Sqlite.Users.Lists.{is_listed, latest_first}

-- A text equals another, or the test says no.
str_eq-decides : (s t : String) → ((s ≡ t) × (str_eq s t ≡ true)) ⊎ (str_eq s t ≡ false)
str_eq-decides s t = elim (Bool-cases (str_eq s t)) [
  | inl h ↦ inl (str_eq_sound s t h, h)
  | inr h ↦ inr h
]

-- Whom ListWithAccess is asked for: the users with access, of the project if one is named, and with the
-- text in their email, in the sense of LIKE, if one is given.
pub record HasListing (slug email_like : String) (u : UserEntity) : Type 0 where
  pub access : u.has_access ≡ true
  pub project : (slug ≡ "") ⊎ (u.project_slug ≡ slug)
  pub email : (email_like ≡ "") ⊎ (like (append "%" (append email_like "%")) u.email ≡ true)

-- Of two users the one whose access was granted later comes first, those of equal times by their email,
-- and those without a time last.
abbrev pub GrantedAfter : Option Time → String → Option Time → String → Type 0
GrantedAfter (some a) e (some b) f = (b < a) ⊎ ((a ≡ b) × (text_le e f ≡ true))
GrantedAfter (some a) e none f = Unit
GrantedAfter none e (some b) f = ⊥
GrantedAfter none e none f = text_le e f ≡ true

abbrev pub IsListedBefore : UserEntity → UserEntity → Type 0
IsListedBefore u v = GrantedAfter u.access_granted_at u.email v.access_granted_at v.email

-- The users are a page of rows of the table: of just those who are asked for, the latest first.
abbrev pub IsUserPage : Db → String → String → ℤ → ℤ → Result (List UserEntity) → Type 0
IsUserPage db slug email_like limit offset (err _) = Unit
IsUserPage db slug email_like limit offset (ok us) =
    (rows : List UserEntity) × IsAnswered (HasListing slug email_like) IsListedBefore db.user_entity
      rows
    × (us ≡ limit_rows limit (offset_rows offset rows))

module _ (slug email_like : String) (limit offset : ℤ) where
  abbrev matching : Db → List UserEntity
  matching db = order_by latest_first (keep (is_listed slug email_like) db.user_entity)
