-- ===== src/Http/Access.antt =====
-- Who is served: what a server with a manager asks of a request before the store sees it.
use enterprise_workflow_plat.Common.{
  List, [], ◌∷◌, Text-cases, Result-cases, String, some, true, not, ◌&&◌, ◌==◌, ok, ◌≡◌, ◌≢◌, ◌⊎◌,
  refl, arith, eq_iff, inl, inr, Bool-cases,
}
use enterprise_workflow_plat.Common.Texts.{trim_space}
use enterprise_workflow_plat.Domain.{Time}
use enterprise_workflow_plat.Auth.{Role, Claims, Codec, Manager, bearer, parse}
use enterprise_workflow_plat.Auth.RoundTrip.{parse-Passes}
use enterprise_workflow_plat.Http.{
  Store, Json, Endpoint, Request, Response, with_tenant, authorize, handle, is_allowed,
  allowed_roles, tenant_id,
}

-- The role is one of the list.
abbrev pub Listed : Role → List Role → Type 0
Listed role [] = ⊥
Listed role (r ∷ rs) = (r ≡ role) ⊎ Listed role rs

is_allowed-Listed :
    (roles : List Role) (role : Role) → is_allowed roles role ≡ true → Listed role roles
unfolding is_allowed
is_allowed-Listed [] role e = cc
is_allowed-Listed (r ∷ rs) role e = elim (Text-cases r role) [
  | inl same ↦ inl same
  | inr (_, test) ↦ inr (is_allowed-Listed rs role (rw (test, is_allowed) at e))
]

-- A request that carries a token for these claims, may name their tenant only, and has a role that
-- the endpoint allows.
pub record MayUse (codec : Codec) (m : Manager) (now : Time) (endpoint : Endpoint) (r : Request)
    (c : Claims) : Type 0 where
  pub token : String
  pub bears : bearer (r.header "Authorization") ≡ ok token
  pub parses : parse codec m now token ≡ ok c
  pub tenant :
      (trim_space (r.header "X-Tenant-ID") ≡ "")
      ⊎ (trim_space (r.header "X-Tenant-ID") ≡ c.tenant_id)
  pub role : Listed c.role (allowed_roles endpoint)

tenant_id-claims :
    (c : Claims) (r : Request) → c.tenant_id ≢ "" → tenant_id (some c) r ≡ some c.tenant_id
unfolding tenant_id
tenant_id-claims c r h = ground (arith, eq_iff c.tenant_id "")

module _ {W : Type 0} (store : Store W) (json : Json) (codec : Codec) (m : Manager)
    (now : Time) where
  -- What `authorize` answers: it refuses with 401 or 403 and leaves the world alone, or hands the
  -- request on with the claims of its token.
  pub authorize_cases :
      (P : Response × W → Type 0) (endpoint : Endpoint) (r : Request) (w : W)
      → ((response : Response)
          → (response.status ≡ 401) ⊎ (response.status ≡ 403)
          → P (response, w))
      → ((c : Claims)
          → MayUse codec m now endpoint r c
          → P (with_tenant store json endpoint (some c) r w))
      → P (authorize store json codec m now endpoint r w)
  unfolding authorize
  authorize_cases P endpoint r w refused allowed =
      elim (Result-cases (bearer (r.header "Authorization"))) [
        | inl (_, absent) ↦ rw (absent, authorize) (refused _ (inl refl))
        | inr (token, bears) ↦ elim (Result-cases (parse codec m now token)) [
          | inl (_, invalid) ↦ rw (bears, authorize, invalid) (refused _ (inl refl))
          | inr (c, parses) ↦
              let requested = trim_space (r.header "X-Tenant-ID") in
              elim (Bool-cases (not (requested == "") && not (requested == c.tenant_id))) [
                | inl foreign ↦ rw (bears, authorize, parses, foreign) (refused _ (inr refl))
                | inr own ↦ elim (Bool-cases (is_allowed (allowed_roles endpoint) c.role)) [
                  | inr forbidden ↦
                      rw (bears, authorize, parses, own, forbidden) (refused _ (inr refl))
                  | inl role ↦
                      rw (bears, authorize, parses, own, role)
                        (allowed c (record {
                          token = token;
                          bears = bears;
                          parses = parses;
                          tenant =
                              ground (arith, eq_iff requested "", eq_iff requested c.tenant_id);
                          role = is_allowed-Listed (allowed_roles endpoint) c.role role;
                        }))
                ]
              ]
        ]
      ]

  abbrev pub Refused : Response × W → W → Type 0
  Refused answer w = ((answer.0.status ≡ 401) ⊎ (answer.0.status ≡ 403)) × (answer.1 ≡ w)

  with_tenant-claims :
      (endpoint : Endpoint) (c : Claims) (r : Request) (w : W)
      → c.tenant_id ≢ ""
      → with_tenant store json endpoint (some c) r w ≡ handle store json endpoint c.tenant_id r w
  unfolding with_tenant
  with_tenant-claims endpoint c r w h = rw (tenant_id-claims c r h, with_tenant) refl

  -- With a manager, a request to any endpoint is refused with 401 or 403 and changes nothing, or it
  -- carries a token that parses as claims with a role that the endpoint allows, names no tenant or
  -- that of the claims, and is answered by the endpoint's handler for the tenant of the claims.
  pub authorize-MayUse :
      (endpoint : Endpoint) (r : Request) (w : W)
      → Refused (authorize store json codec m now endpoint r w) w
        ⊎ ((c : Claims) × MayUse codec m now endpoint r c
            × (authorize store json codec m now endpoint r w
                ≡ handle store json endpoint c.tenant_id r w))
  authorize-MayUse endpoint r w =
      authorize_cases
        (λ answer.
          Refused answer w
          ⊎ ((c : Claims) × MayUse codec m now endpoint r c
              × (answer ≡ handle store json endpoint c.tenant_id r w)))
        endpoint r w (λ response status. inl (status, refl))
        λ c may. inr (
          c,
          may,
          with_tenant-claims endpoint c r w
              (parse-Passes codec m now may.token c may.parses).tenant,
        )
