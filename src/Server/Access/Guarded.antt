-- ===== src/Server/Access/Guarded.antt =====
-- What the middleware of the routes keeps out.
use warpbox_custom.Prelude.{
  arith, ◌≡◌, ◌≢◌, refl, subst, ap, ◌∙◌, ◌⊎◌, inl, inr, Bool, true, false, not, ◌&&◌, ◌||◌, Option,
  some, Option-cases, Bool-cases, List, [], ◌∷◌, Text, codes, is_empty, text_eq, text_eq→eq,
}
use mathlib.Core.List.{Memᴰ}
use mathlib.Core.List.Memᴰ
use warpbox_custom.Server.Config.{Config}
use warpbox_custom.Server.Actions.{Request, Reply, Runtime}
use warpbox_custom.Server.Access.{
  Endpoint, webdav, http_browser, logs, healthz, stats_json, resync, restart_sync, log_level, pprof,
  landing, chart_js, logo, openapi_json, Route, register_routes, Handler, is_authorized,
  unauthorized, require_auth, csrf_middleware, inner_handler, Outside, endpoint_handler,
  route_handler, serve,
}

-- The router finds a route of the table that takes the method of the request.
abbrev pub Finds : (List Route → Request → Option Route) → Type 0
Finds find_route =
    (routes : List Route) (r : Request) (route : Route)
    → find_route routes r ≡ some route
    → Memᴰ route routes × ((is_empty route.method || text_eq r.method route.method) ≡ true)

abbrev is_action : Endpoint → Bool
is_action resync = true
is_action restart_sync = true
is_action log_level = true
is_action webdav = false
is_action http_browser = false
is_action logs = false
is_action healthz = false
is_action stats_json = false
is_action pprof = false
is_action landing = false
is_action chart_js = false
is_action logo = false
is_action openapi_json = false

-- The endpoints that need no credentials.
abbrev pub is_public : Endpoint → Bool
is_public webdav = true
is_public healthz = true
is_public chart_js = true
is_public logo = true
is_public http_browser = false
is_public logs = false
is_public stats_json = false
is_public resync = false
is_public restart_sync = false
is_public log_level = false
is_public pprof = false
is_public landing = false
is_public openapi_json = false

abbrev is_guarded : Route → Bool
is_guarded route =
    (route.auth || is_public route.endpoint)
    && (not (is_action route.endpoint)
        || (route.auth && route.csrf && text_eq route.method (codes "POST")))

abbrev all_guarded : List Route → Bool
all_guarded [] = true
all_guarded (r ∷ rs) = is_guarded r && all_guarded rs

routes_guarded : (enable_pprof : Bool) → all_guarded (register_routes enable_pprof) ≡ true
unfolding register_routes text_eq
routes_guarded true = refl
routes_guarded false = refl

guarded_of_mem :
    (route : Route) (routes : List Route)
    → all_guarded routes ≡ true
    → Memᴰ route routes
    → is_guarded route ≡ true
guarded_of_mem route [] h m = elim m [ ]
guarded_of_mem route (r ∷ rs) h m = elim (Memᴰ.cases_cons m) [
  | inl e ↦ rw e (and_left (is_guarded r) (all_guarded rs) h)
  | inr later ↦ guarded_of_mem route rs (and_right (is_guarded r) (all_guarded rs) h) later
]
  where
    and_left : (a b : Bool) → (a && b) ≡ true → a ≡ true
    and_left true b h = refl
    and_left false b h = h

    and_right : (a b : Bool) → (a && b) ≡ true → b ≡ true
    and_right true b h = h
    and_right false b h = cc

found_guarded :
    (find_route : List Route → Request → Option Route) (enable_pprof : Bool) (r : Request)
    (route : Route)
    → Finds find_route
    → find_route (register_routes enable_pprof) r ≡ some route
    → is_guarded route ≡ true
found_guarded find_route enable_pprof r route f e =
    guarded_of_mem route (register_routes enable_pprof) (routes_guarded enable_pprof)
      (f _ r route e).0

-- Only the handlers of the actions change the state.
endpoint_handler_keeps :
    (o : Outside) (e : Endpoint) (r : Request) (s : Runtime)
    → is_action e ≡ false
    → (endpoint_handler o e r s).1 ≡ s
unfolding endpoint_handler
endpoint_handler_keeps o resync r s h = cc
endpoint_handler_keeps o restart_sync r s h = cc
endpoint_handler_keeps o log_level r s h = cc
endpoint_handler_keeps o e r s h = refl

-- The request has the credentials of the settings, if they ask for some.
abbrev pub Authorized : Config → Request → Type 0
Authorized cfg r =
    (cfg.auth_enabled ≡ false) ⊎ (r.basic_auth ≡ some (cfg.auth_username, cfg.auth_password))

is_authorized-eq :
    (cfg : Config) (r : Request)
    → is_authorized cfg r ≡ true
    → r.basic_auth ≡ some (cfg.auth_username, cfg.auth_password)
unfolding is_authorized
is_authorized-eq cfg r h = elim (Option-cases r.basic_auth) [
  | inl e ↦ absurd (ground (arith, e, h))
  | inr ((user, pass), e) ↦
      ground (arith, e, h, text_eq→eq user cfg.auth_username, text_eq→eq pass cfg.auth_password)
]

csrf_middleware_cases :
    (token : Text) (next : Handler) (r : Request) (s : Runtime)
    → text_eq r.method (codes "POST") ≡ true
    → ((csrf_middleware token next r s).1 ≡ s) ⊎ (r.csrf_token ≡ token)
unfolding csrf_middleware
csrf_middleware_cases token next r s post = elim (Bool-cases (text_eq r.csrf_token token)) [
  | inl same ↦ inr (text_eq→eq r.csrf_token token same)
  | inr other ↦ inl (ground (arith, post, other))
]

require_auth_cases :
    (cfg : Config) (next : Handler) (r : Request) (s : Runtime)
    → (require_auth cfg next r s ≡ (unauthorized, s))
      ⊎ ((require_auth cfg next r s ≡ next r s) × Authorized cfg r)
unfolding require_auth
require_auth_cases cfg next r s = elim (Bool-cases cfg.auth_enabled) [
  | inr off ↦ inr (ground (arith, off), inl off)
  | inl on ↦ elim (Bool-cases (is_authorized cfg r)) [
    | inl good ↦ inr (ground (arith, on, good), inr (is_authorized-eq cfg r good))
    | inr bad ↦ inl (ground (arith, on, bad))
  ]
]

-- A route that is no action's changes nothing, whatever middleware it has.
route_handler_keeps :
    (cfg : Config) (token : Text) (o : Outside) (route : Route) (r : Request) (s : Runtime)
    → is_action route.endpoint ≡ false
    → (route_handler cfg token o route r s).1 ≡ s
unfolding route_handler require_auth csrf_middleware
route_handler_keeps cfg token o route r s h =
    let e = endpoint_handler_keeps o route.endpoint r s h in ground (arith, e)

-- A request for an action, through both middlewares.
route_handler_action :
    (cfg : Config) (token : Text) (o : Outside) (route : Route) (r : Request) (s : Runtime)
    → route.auth ≡ true
    → route.csrf ≡ true
    → text_eq r.method (codes "POST") ≡ true
    → ((route_handler cfg token o route r s).1 ≡ s) ⊎ ((r.csrf_token ≡ token) × Authorized cfg r)
unfolding route_handler
route_handler_action cfg token o route r s a c post =
    let next = csrf_middleware token (endpoint_handler o route.endpoint) in
    let e : route_handler cfg token o route r s ≡ require_auth cfg next r s =
      ground (arith, a, c) in
    elim (require_auth_cases cfg next r s) [
      | inl refused ↦ inl (ap (λ (x : Reply × Runtime). x.1) (e ∙ refused))
      | inr (passed, good) ↦
          elim (csrf_middleware_cases token (endpoint_handler o route.endpoint) r s post) [
            | inl kept ↦ inl (ap (λ (x : Reply × Runtime). x.1) (e ∙ passed) ∙ kept)
            | inr same ↦ inr (same, good)
          ]
    ]

-- Whatever the other handlers do, a request that starts an action or changes the level, the settings
-- file or anything else of their state was a POST with the token of the server, and with the
-- credentials of the settings if authentication is enabled.
pub serve_guarded :
    (cfg : Config) (enable_pprof : Bool) (token : Text) (o : Outside) (r : Request) (s : Runtime)
    → Finds o.find_route
    → ((serve cfg enable_pprof token o r s).1 ≡ s)
      ⊎ ((text_eq r.method (codes "POST") ≡ true) × (r.csrf_token ≡ token) × Authorized cfg r)
unfolding serve
serve_guarded cfg enable_pprof token o r s f =
    elim (Option-cases (o.find_route (register_routes enable_pprof) r)) [
      | inl e ↦ inl (ground (arith, e))
      | inr (route, e) ↦
          let g = found_guarded o.find_route enable_pprof r route f e in
          let there : (serve cfg enable_pprof token o r s) ≡ route_handler cfg token o route r s =
            ground (arith, e) in
          elim (Bool-cases (is_action route.endpoint)) [
            | inr page ↦ inl (
                ap (λ (x : Reply × Runtime). x.1) there
                ∙ route_handler_keeps cfg token o route r s page)
            | inl action ↦
                let a : route.auth ≡ true = ground (arith, g, action) in
                let c : route.csrf ≡ true = ground (arith, g, action) in
                let m : text_eq route.method (codes "POST") ≡ true = ground (arith, g, action) in
                let post : text_eq r.method (codes "POST") ≡ true =
                  subst (λ method. (is_empty method || text_eq r.method method) ≡ true)
                    (text_eq→eq route.method (codes "POST") m) (f _ r route e).1 in
                elim (route_handler_action cfg token o route r s a c post) [
                  | inl kept ↦ inl (ap (λ (x : Reply × Runtime). x.1) there ∙ kept)
                  | inr good ↦ inr (post, good.0, good.1)
                ]
          ]
    ]

-- With authentication enabled, a request without the credentials that is given to a route gets no
-- more than the reply 401 and changes nothing, unless the endpoint is public: the WebDAV view, the
-- health check, the chart library or the logo.
pub serve-unauthorized :
    (cfg : Config) (enable_pprof : Bool) (token : Text) (o : Outside) (r : Request) (s : Runtime)
    (route : Route)
    → Finds o.find_route
    → cfg.auth_enabled ≡ true
    → r.basic_auth ≢ some (cfg.auth_username, cfg.auth_password)
    → o.find_route (register_routes enable_pprof) r ≡ some route
    → is_public route.endpoint ≡ false
    → serve cfg enable_pprof token o r s ≡ (unauthorized, s)
unfolding serve route_handler
serve-unauthorized cfg enable_pprof token o r s route f on wrong e p =
    let g = found_guarded o.find_route enable_pprof r route f e in
    let a : route.auth ≡ true = ground (arith, g, p) in
    elim (require_auth_cases cfg (inner_handler token o route) r s) [
      | inl refused ↦ ground (arith, e, a, refused)
      | inr (passed, inl off) ↦ cc (on, off)
      | inr (passed, inr good) ↦ absurd (wrong good)
    ]
