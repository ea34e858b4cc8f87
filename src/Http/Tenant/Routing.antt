-- ===== src/Http/Tenant/Routing.antt =====
-- `Middleware` serves a request for a configured project, or not at all.
use waitinglist.Prelude.{
  ◌≡◌, ◌≢◌, inl, inr, refl, subst, String, true, Bool-cases, Option, is_some, none, some, List, [],
  ◌∷◌, In, here, there, arith,
}
use mathlib.Core.Option.{some-injective}
use waitinglist.Prelude.Dict.{Dict, lookup, insert, lookup-insert}
use waitinglist.Prelude.Text.{str_eq, str_eq_sound, str_eq_refl}
use waitinglist.Model.{Project}
use waitinglist.Store.{World}
use waitinglist.Store.Action.{Action, reply}
use waitinglist.Http.Types.{Request, Response}
use waitinglist.Http.Net.{strip_port}
use waitinglist.Http.Tenant.{
  ProjectResolver, by_slug, new_project_resolver, original_host, resolve_slug, serve_project,
  middleware,
}

-- Every project of the map stands under its own slug.
abbrev IsKeyed : Dict Project → (Project → Type 0) → Type 0
IsKeyed m Known = (s : String) (p : Project) → lookup s m ≡ some p → Known p × (p.slug ≡ s)

insert-IsKeyed :
    (Known : Project → Type 0) (p : Project) (m : Dict Project)
    → Known p
    → IsKeyed m Known
    → IsKeyed (insert p.slug p m) Known
insert-IsKeyed Known p m k h s q e = elim (Bool-cases (str_eq p.slug s)) [
  | inl same ↦
      let e' : p ≡ q = some-injective _ _ (ground (arith, lookup-insert p.slug s p m)) in
      subst (λ x. Known x × (x.slug ≡ s)) e' (k, str_eq_sound p.slug s same)
  | inr other ↦ h s q (ground (arith, lookup-insert p.slug s p m))
]

by_slug-IsKeyed :
    (Known : Project → Type 0) (m : Dict Project) (ps : List Project)
    → ((p : Project) → In p ps → Known p)
    → IsKeyed m Known
    → IsKeyed (by_slug m ps) Known
unfolding by_slug
by_slug-IsKeyed Known m [] k h = h
by_slug-IsKeyed Known m (p ∷ ps) k h =
    by_slug-IsKeyed Known (insert p.slug p m) ps (λ q m. k q (there m))
      (insert-IsKeyed Known p m (k p (here refl)) h)

-- A slug that the map has stays, and each project puts its own.
by_slug-keeps :
    (m : Dict Project) (ps : List Project) (s : String)
    → is_some (lookup s m) ≡ true
    → is_some (lookup s (by_slug m ps)) ≡ true
unfolding by_slug
by_slug-keeps m [] s h = h
by_slug-keeps m (p ∷ ps) s h =
    by_slug-keeps (insert p.slug p m) ps s (elim (Bool-cases (str_eq p.slug s)) [
      | inl same ↦ rw (lookup-insert, same) refl
      | inr other ↦ rw (lookup-insert, other) h
    ])

pub by_slug-In :
    (m : Dict Project) (ps : List Project) (p : Project)
    → In p ps
    → is_some (lookup p.slug (by_slug m ps)) ≡ true
unfolding by_slug
by_slug-In m [] p k = elim k [ ]
by_slug-In m (x ∷ ps) p (here e) =
    by_slug-keeps (insert x.slug x m) ps p.slug (rw (e, lookup-insert, str_eq_refl x.slug) refl)
by_slug-In m (x ∷ ps) p (there k) = by_slug-In (insert x.slug x m) ps p k

pub resolve_slug-default :
    (pr : ProjectResolver) (r : Request)
    → r.header pr.header_name ≡ ""
    → lookup (strip_port (original_host r)) pr.host_mapping ≡ none
    → resolve_slug pr r ≡ pr.default_slug
unfolding resolve_slug
resolve_slug-default pr r h k = rw (h, k) refl

module _ (header_name default_slug : String) (hosts : Dict String) (ps : List Project)
    (next : Option Project → Request → Action Response) where
  abbrev resolver : ProjectResolver
  resolver = new_project_resolver header_name default_slug hosts ps

  -- How the middleware can end.
  pub data Routed (r : Request) (w : World) (a : Response × World) : Type 0 where
    -- the next handler, for a configured project of the slug that the request resolves to
    served :
        (p : Project)
        → In p ps
        → p.slug ≡ resolve_slug resolver r
        → a ≡ next (some p) r w
        → Routed r w a
    -- a refusal, since no configured project has the slug
    refused :
        ((p : Project) → In p ps → p.slug ≢ resolve_slug resolver r)
        → a.0.status ≡ 400
        → a.1 ≡ w
        → Routed r w a
    nameless : resolve_slug resolver r ≡ "" → a.0.status ≡ 400 → a.1 ≡ w → Routed r w a

  serve-Routed :
      (r : Request) (w : World) (o : Option Project)
      → lookup (resolve_slug resolver r) (by_slug [] ps) ≡ o
      → Routed r w (serve_project o (resolve_slug resolver r) next r w)
  unfolding reply
  serve-Routed r w none e =
      refused (λ p m same. let k = by_slug-In [] ps p m in absurd (ground arith)) refl refl
  serve-Routed r w (some p) e =
      let k = by_slug-IsKeyed (λ q. In q ps) [] ps (λ q m. m) (λ s q h. absurd (cc)) _ p e in
      served p k.0 k.1 refl

  -- Behind `Middleware` the next handler runs only for a configured project, whose slug is the one
  -- that the request resolves to; where no slug is resolved, or no configured project has it, the
  -- answer is 400 and nothing changes.
  pub middleware-Routed : (r : Request) (w : World) → Routed r w (middleware resolver next r w)
  unfolding middleware reply new_project_resolver
  middleware-Routed r w = elim (Bool-cases (str_eq (resolve_slug resolver r) "")) [
    | inl none_given ↦ rw none_given (nameless (str_eq_sound _ _ none_given) refl refl)
    | inr given ↦ rw given (serve-Routed r w _ refl)
  ]
