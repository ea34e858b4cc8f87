-- ===== src/Startup.antt =====
-- cmd/server/main.go: the configuration as it reaches the resolver of projects.
use waitinglist.Prelude.{
  eq_iff, ◌≡◌, refl, sym, subst, ap, ◌∙◌, String, Bool, true, false, Option, none, some, is_some,
  List, [], ◌∷◌, In, here, there, arith, Bool-cases, inl, inr,
}
use waitinglist.Prelude.Dict.{Dict, lookup}
use waitinglist.Prelude.Text.{str_eq, str_eq_sound}
use waitinglist.Model.{Duration, Project}
use waitinglist.Store.{World}
use waitinglist.Store.Action.{Action}
use waitinglist.Http.Types.{Request, Response}
use waitinglist.Http.Net.{strip_port}
use waitinglist.Http.Tenant.{
  ProjectResolver, new_project_resolver, original_host, resolve_slug, middleware,
}
use waitinglist.Http.Tenant.Routing.{
  resolve_slug-default, middleware-Routed, Routed, served, refused, nameless,
}
use waitinglist.Config.Projects.{
  ProjectDefinition, ProjectsConfig, ConfigError, validate, build_host_mapping, project_of,
  projects_of, projects,
}
use waitinglist.Config.Load.{
  Config, Loaded, loaded, invalid, load, checked, with_defaults, or_if_empty,
}

-- a slug that has a definition
lookup-In :
    (s : String) (m : Dict ProjectDefinition)
    → is_some (lookup s m) ≡ true
    → (d : ProjectDefinition) × In (s, d) m
lookup-In s [] h = absurd (cc)
lookup-In s ((k, d) ∷ m) h = elim (Bool-cases (str_eq k s)) [
  | inl same ↦ (d, here (ap (λ x. (x, d)) (sym (str_eq_sound k s same))))
  | inr other ↦ let r = lookup-In s m (ground arith) in (r.0, there r.1)
]

or_if_empty-nonempty : (s d : String) → str_eq d "" ≡ false → str_eq (or_if_empty s d) "" ≡ false
or_if_empty-nonempty s d h = ground arith

config_of : Config → Loaded → Config
config_of d (loaded c) = c
config_of d (invalid _) = d

unloaded : {a b : Config} → loaded a ≡ loaded b → a ≡ b
unfolding config_of
unloaded {a = a} h = ap (config_of a) h

module _ (parses accessible : String → Bool) (parse_duration : String → Option Duration) where
  -- the resolver that `main` builds
  abbrev pub resolver_of : Config → ProjectResolver
  resolver_of c =
      new_project_resolver c.projects.header_name c.projects.default_slug
        (build_host_mapping c.projects) (projects parse_duration c.projects)

  abbrev pub projects_in : Config → List Project
  projects_in c = projects parse_duration c.projects

  projects_of-In :
      (s : String) (d : ProjectDefinition) (m : Dict ProjectDefinition)
      → In (s, d) m
      → In (project_of parse_duration s d) (projects_of parse_duration m)
  unfolding projects_of
  projects_of-In s d [] h = elim h [ ]
  projects_of-In s d ((k, x) ∷ m) (here e) =
      here (ap (λ (y : String × ProjectDefinition). project_of parse_duration y.0 y.1) e)
  projects_of-In s d ((k, x) ∷ m) (there h) = there (projects_of-In s d m h)

  -- What `Load` gives is validated, and has a default slug.
  record IsLoaded (c : Config) : Type 0 where
    valid : validate parses accessible c.projects ≡ none
    named : str_eq c.projects.default_slug "" ≡ false

  loaded-named :
      (raw c : Config) (o : Option ConfigError)
      → validate parses accessible (with_defaults raw).projects ≡ o
      → checked o (with_defaults raw) ≡ loaded c
      → IsLoaded c
  unfolding checked with_defaults
  loaded-named raw c (some e) v h = absurd (cc)
  loaded-named raw c none v h =
      let same : with_defaults raw ≡ c = unloaded h in
      subst IsLoaded same (record {
        valid = v;
        named = or_if_empty-nonempty raw.projects.default_slug "default" (ground arith);
      })

  load-IsLoaded : (raw c : Config) → load parses accessible raw ≡ loaded c → IsLoaded c
  unfolding load
  load-IsLoaded raw c h = loaded-named raw c _ refl h

  -- A request whose slug has a definition is served for the project of that slug.
  module _ (c : Config) (next : Option Project → Request → Action Response) where
    abbrev pub Reaches : Request → World → String → Type 0
    Reaches r w s =
        (p : Project) × In p (projects_in c)
        × (p.slug ≡ s)
        × (middleware (resolver_of c) next r w ≡ next (some p) r w)

    defined-Reaches :
        (r : Request) (w : World) (s : String) (d : ProjectDefinition) (a : Response × World)
        → a ≡ middleware (resolver_of c) next r w
        → resolve_slug (resolver_of c) r ≡ s
        → str_eq s "" ≡ false
        → In (s, d) c.projects.definitions
        → Routed c.projects.header_name c.projects.default_slug
            (build_host_mapping c.projects)
            (projects_in c)
            next
            r
            w
            a
        → Reaches r w s
    unfolding projects project_of
    defined-Reaches r w s d a same slug given m (served p known e answer) =
        (p, known, e ∙ slug, sym same ∙ answer)
    defined-Reaches r w s d a same slug given m (refused unknown _ _) = absurd (
        unknown (project_of parse_duration s d) (projects_of-In s d c.projects.definitions m)
          (sym slug))
    defined-Reaches r w s d a same slug given m (nameless e _ _) =
        absurd (ground (arith, eq_iff s ""))

    reaches :
        (r : Request) (w : World) (s : String) (d : ProjectDefinition)
        → resolve_slug (resolver_of c) r ≡ s
        → str_eq s "" ≡ false
        → In (s, d) c.projects.definitions
        → Reaches r w s
    reaches r w s d slug given m = defined-Reaches r w s d _ refl slug given m (
        middleware-Routed c.projects.header_name c.projects.default_slug
          (build_host_mapping c.projects) (projects_in c) next r w)

    -- the default, without header and known host
    default-slug :
        (r : Request)
        → r.header c.projects.header_name ≡ ""
        → lookup (strip_port (original_host r)) (build_host_mapping c.projects) ≡ none
        → resolve_slug (resolver_of c) r ≡ c.projects.default_slug
    unfolding new_project_resolver
    default-slug r h k = resolve_slug-default (resolver_of c) r h k

  validate-default :
      (p : ProjectsConfig)
      → validate parses accessible p ≡ none
      → is_some (lookup p.default_slug p.definitions) ≡ true
  unfolding validate
  validate-default p h = ground arith

  -- Once `Load` has accepted the configuration, a request without the header, whose host is not
  -- mapped, is served for the default project: there always is one.
  pub default-served :
      (raw c : Config) (next : Option Project → Request → Action Response) (r : Request) (w : World)
      → load parses accessible raw ≡ loaded c
      → r.header c.projects.header_name ≡ ""
      → lookup (strip_port (original_host r)) (build_host_mapping c.projects) ≡ none
      → Reaches c next r w c.projects.default_slug
  default-served raw c next r w accepted no_header no_host =
      let l = load-IsLoaded raw c accepted in
      let d =
        lookup-In c.projects.default_slug c.projects.definitions
          (validate-default c.projects l.valid) in
      reaches c next r w c.projects.default_slug d.0 (default-slug c next r no_header no_host)
        l.named d.1
