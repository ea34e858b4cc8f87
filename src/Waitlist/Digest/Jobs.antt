-- ===== src/Waitlist/Digest/Jobs.antt =====
-- Which projects' digests have a job.
use waitinglist.Prelude.{
  ◌≡◌, ◌≢◌, ◌⊎◌, inl, inr, refl, sym, subst, String, Bool, true, false, ◌&&◌, List, [], ◌∷◌, keep,
  is_empty, arith,
}
use waitinglist.Prelude.Selected.{IsSelection, keep-IsSelection}
use waitinglist.Prelude.Text.{str_eq, str_eq_refl, str_eq-cases}
use waitinglist.Model.{Project}
use waitinglist.Waitlist.Digest.{Sender, nil, typed_nil, holds, has_schedule, start_digest}

-- A project whose digest goes to somebody, at times that the cron library can read.
pub record IsScheduled (parses : String → Bool) (p : Project) : Type 0 where
  pub recipients : p.digest.recipients ≢ []
  pub schedule : p.digest.schedule ≢ ""
  pub parsed : parses p.digest.schedule ≡ true

is_empty-cases :
    (rs : List String) → ((rs ≡ []) × (is_empty rs ≡ true)) ⊎ ((rs ≢ []) × (is_empty rs ≡ false))
is_empty-cases [] = inl (refl, refl)
is_empty-cases (r ∷ rs) = inr (λ e. absurd (cc), refl)

blank-str_eq : {s : String} → s ≡ "" → str_eq s "" ≡ true
blank-str_eq e = subst (λ t. str_eq t "" ≡ true) (sym e) (str_eq_refl "")

module _ (parses : String → Bool) where
  abbrev is_wanted : Project → Bool
  is_wanted p = has_schedule p && parses p.digest.schedule

  is_wanted_sound : (p : Project) → is_wanted p ≡ true → IsScheduled parses p
  is_wanted_sound p h = elim (is_empty-cases p.digest.recipients) [
    | inl (e, nobody) ↦ absurd (ground arith)
    | inr (somebody, f) ↦ elim (str_eq-cases p.digest.schedule "") [
      | inl e ↦ let blank = blank-str_eq e in absurd (ground arith)
      | inr (given, g) ↦ record { recipients = somebody; schedule = given; parsed = ground arith }
    ]
  ]

  is_wanted_complete : (p : Project) → is_wanted p ≡ false → IsScheduled parses p → ⊥
  is_wanted_complete p h s = elim (is_empty-cases p.digest.recipients) [
    | inl (e, nobody) ↦ s.recipients e
    | inr (somebody, f) ↦ elim (str_eq-cases p.digest.schedule "") [
      | inl e ↦ s.schedule e
      | inr (given, g) ↦ absurd (ground (arith, s.parsed))
    ]
  ]

  typed_nil-keep : (ps : List Project) → start_digest parses typed_nil ps ≡ keep is_wanted ps
  unfolding start_digest
  typed_nil-keep [] = refl
  typed_nil-keep (p ∷ ps) = ground (arith, typed_nil-keep ps)

  holds-keep :
      (s : Sender) (ps : List Project) → start_digest parses (holds s) ps ≡ keep is_wanted ps
  unfolding start_digest
  holds-keep s [] = refl
  holds-keep s (p ∷ ps) = ground (arith, holds-keep s ps)

  keep-IsScheduled : (ps : List Project) → IsSelection (IsScheduled parses) ps (keep is_wanted ps)
  keep-IsScheduled ps =
      keep-IsSelection is_wanted ps
        (record { sound = is_wanted_sound; complete = is_wanted_complete })

-- `StartDigest` registers a job for exactly the projects that have a recipient and a schedule that is not
-- empty and that the cron library accepts, in the order of the projects, if the sender is not nil, and
-- for none if it is. A sender that holds a nil pointer of its type is not nil: its jobs are registered as
-- those of a usable one are.
pub start_digest-registers :
    (parses : String → Bool) (s : Sender) (ps : List Project)
    → (start_digest parses nil ps ≡ [])
      × IsSelection (IsScheduled parses) ps (start_digest parses (holds s) ps)
      × IsSelection (IsScheduled parses) ps (start_digest parses typed_nil ps)
unfolding start_digest
start_digest-registers parses s ps = (
  refl,
  subst (IsSelection (IsScheduled parses) ps) (sym (holds-keep parses s ps))
      (keep-IsScheduled parses ps),
  subst (IsSelection (IsScheduled parses) ps) (sym (typed_nil-keep parses ps))
      (keep-IsScheduled parses ps),
)
