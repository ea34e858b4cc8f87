-- ===== src/Config/Projects/Hosts.antt =====
-- `Validate` makes the host mapping exact.
use waitinglist.Prelude.{
  ◌≡◌, refl, ap, String, Bool, true, false, Bool-cases, inl, inr, not, ◌&&◌, Option, none, some,
  is_some, [], ◌∷◌, In, here, there, arith, if◌then◌else◌, eq_iff,
}
use waitinglist.Prelude.Dict.{Dict, lookup, insert, lookup-insert}
use waitinglist.Prelude.Text.{str_eq, str_eq_refl}
use waitinglist.Config.Projects.{
  ProjectDefinition, ProjectsConfig, ConfigError, check_definition, check_definitions, validate,
  add_host, add_hosts, build_host_mapping,
}

-- the loop of `Validate` marks the hosts as `BuildHostMapping` maps them
module _ (parses accessible : String → Bool) where
  abbrev marked : Dict String → String → ProjectDefinition → Dict String
  marked seen slug def =
      if str_eq def.host_mapping "" then seen else insert def.host_mapping slug seen

  later_checked :
      (dup : Bool) (e : ConfigError) (own : Option ConfigError) (later : Option ConfigError)
      → (if dup then some e else elim own [ some e ↦ some e | none ↦ later ]) ≡ none
      → (dup ≡ false) × (later ≡ none)
  later_checked true e own later h = absurd (cc)
  later_checked false e none later h = (refl, h)
  later_checked false e (some f) later h = absurd (cc)

  head_checked :
      (seen : Dict String) (slug : String) (def : ProjectDefinition) (rest : Dict ProjectDefinition)
      → check_definitions parses accessible seen ((slug, def) ∷ rest) ≡ none
      → ((not (str_eq def.host_mapping "") && is_some (lookup def.host_mapping seen)) ≡ false)
        × (check_definitions parses accessible (marked seen slug def) rest ≡ none)
  unfolding check_definitions
  head_checked seen slug def rest h =
      later_checked _ _ (check_definition parses accessible slug def) _ h

  -- A host that is mapped stays mapped to the same slug.
  mapped-stays :
      (seen : Dict String) (defs : Dict ProjectDefinition) (host slug : String)
      → check_definitions parses accessible seen defs ≡ none
      → lookup host seen ≡ some slug
      → lookup host (add_hosts seen defs) ≡ some slug
  unfolding add_hosts add_host
  mapped-stays seen [] host slug ok_ h = h
  mapped-stays seen ((s, def) ∷ rest) host slug ok_ h =
      let c = head_checked seen s def rest ok_ in
      mapped-stays (marked seen s def) rest host slug c.1
        (elim (Bool-cases (str_eq def.host_mapping "")) [
          | inl none_given ↦ rw none_given h
          | inr given ↦ rw given (
              ground (
                arith,
                c.0,
                lookup-insert def.host_mapping host s seen,
                eq_iff def.host_mapping host,
              ))
        ])

  mapped-In :
      (seen : Dict String) (defs : Dict ProjectDefinition) (slug : String) (def : ProjectDefinition)
      → check_definitions parses accessible seen defs ≡ none
      → In (slug, def) defs
      → str_eq def.host_mapping "" ≡ false
      → lookup def.host_mapping (add_hosts seen defs) ≡ some slug
  unfolding add_hosts add_host
  mapped-In seen [] slug def ok_ m given = elim m [ ]
  mapped-In seen ((s, d) ∷ rest) slug def ok_ (here e) given =
      let c = head_checked seen s d rest ok_ in
      mapped-stays (marked seen s d) rest def.host_mapping slug c.1 (
        let es : slug ≡ s = ap (λ (x : String × ProjectDefinition). x.0) e in
        let ed : def ≡ d = ap (λ (x : String × ProjectDefinition). x.1) e in
        rw (← es, ← ed, given, lookup-insert, str_eq_refl def.host_mapping) refl)
  mapped-In seen ((s, d) ∷ rest) slug def ok_ (there m) given =
      let c = head_checked seen s d rest ok_ in
      mapped-In (marked seen s d) rest slug def c.1 m given

  -- In a configuration that `Validate` accepts, `BuildHostMapping` maps the host of each definition
  -- that names one to that definition's slug: no definition takes another's host.
  pub validate-hosts :
      (p : ProjectsConfig) (slug : String) (def : ProjectDefinition)
      → validate parses accessible p ≡ none
      → In (slug, def) p.definitions
      → str_eq def.host_mapping "" ≡ false
      → lookup def.host_mapping (build_host_mapping p) ≡ some slug
  unfolding validate build_host_mapping
  validate-hosts p slug def accepted m given =
      mapped-In [] p.definitions slug def (ground arith) m given
