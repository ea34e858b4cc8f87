-- ===== src/Config/Projects.antt =====
-- internal/config/config.go: `ProjectsConfig`.
pub mod Hosts
use waitinglist.Prelude.{
  String, Bool, not, ◌&&◌, Option, none, some, List, [], ◌∷◌, if◌then◌else◌, is_empty, is_some,
}
use waitinglist.Prelude.Int.{ℤ, pos}
use waitinglist.Prelude.Dict.{Dict, lookup, insert}
use waitinglist.Prelude.Text.{str_eq}
use waitinglist.Model.{Duration, ProjectEmail, ProjectDigest, Project}

-- `ProjectDefinition`, whose `Email` and `Digest` have the fields of the model's types
pub record ProjectDefinition : Type 0 where
  pub name : String
  pub url : String
  pub host_mapping : String
  pub email : ProjectEmail
  pub digest : ProjectDigest
  pub entry_batch_size : Option ℤ
  pub entry_window_interval : String
  pub scheduler_disabled : Bool

pub record ProjectsConfig : Type 0 where
  pub header_name : String
  pub default_slug : String
  pub definitions : Dict ProjectDefinition

pub data ConfigError : Type 0 where
  no_definitions : ConfigError
  unknown_default_slug : String → ConfigError
  duplicate_host_mapping : String → ConfigError
  invalid_schedule inaccessible_template : String → ConfigError

-- `parses` is the cron parser without an error, `accessible` is os.Stat without one.
module _ (parses accessible : String → Bool) where
  check_definition : String → ProjectDefinition → Option ConfigError
  check_definition slug def =
      if not (is_empty def.digest.recipients)
        && not (str_eq def.digest.schedule "")
        && not (parses def.digest.schedule)
      then some (invalid_schedule slug)
      else if not (str_eq def.email.template_path "") && not (accessible def.email.template_path)
      then some (inaccessible_template slug)
      else none

  -- The loop of `Validate`: `seen` maps the hosts of the definitions before to their slugs.
  pub check_definitions : Dict String → Dict ProjectDefinition → Option ConfigError
  unfolding check_definition
  check_definitions seen [] = none
  check_definitions seen ((slug, def) ∷ rest) =
      let seen' = if str_eq def.host_mapping "" then seen else insert def.host_mapping slug seen in
      let later = check_definitions seen' rest in
      if not (str_eq def.host_mapping "") && is_some (lookup def.host_mapping seen)
      then some (duplicate_host_mapping def.host_mapping)
      else elim (check_definition slug def) [ some e ↦ some e | none ↦ later ]

  -- `Validate`
  unfoldable pub validate : ProjectsConfig → Option ConfigError
  unfolding check_definitions
  validate p =
      if is_empty p.definitions
      then some no_definitions
      else if not (is_some (lookup p.default_slug p.definitions))
      then some (unknown_default_slug p.default_slug)
      else check_definitions [] p.definitions

add_host : String → ProjectDefinition → Dict String → Dict String
add_host slug def m = if str_eq def.host_mapping "" then m else insert def.host_mapping slug m

pub add_hosts : Dict String → Dict ProjectDefinition → Dict String
unfolding add_host
add_hosts m [] = m
add_hosts m ((slug, def) ∷ rest) = add_hosts (add_host slug def m) rest

-- `BuildHostMapping`
unfoldable pub build_host_mapping : ProjectsConfig → Dict String
unfolding add_hosts
build_host_mapping p = add_hosts [] p.definitions

-- `parse_duration` is time.ParseDuration: a text that it refuses gives an error, which is dropped,
-- and the zero duration.
module _ (parse_duration : String → Option Duration) where
  pub or_zero : Option Duration → Duration
  or_zero none = pos 0
  or_zero (some d) = d

  pub window_override : String → Option Duration
  unfolding or_zero
  window_override s = if str_eq s "" then none else some (or_zero (parse_duration s))

  unfoldable pub project_of : String → ProjectDefinition → Project
  unfolding window_override
  project_of slug def = record {
    slug = slug;
    name = def.name;
    url = def.url;
    email = def.email;
    digest = def.digest;
    entry_batch_size = def.entry_batch_size;
    entry_window_interval = window_override def.entry_window_interval;
    waitlist_check_interval = none;
    scheduler_disabled = def.scheduler_disabled;
  }

  unfoldable pub projects_of : Dict ProjectDefinition → List Project
  unfolding project_of
  projects_of [] = []
  projects_of ((slug, def) ∷ rest) = project_of slug def ∷ projects_of rest

  -- `Projects`
  unfoldable pub projects : ProjectsConfig → List Project
  unfolding projects_of
  projects p = projects_of p.definitions
