-- ===== src/Server/Access.antt =====
-- Who may do what: the table of routes of registerRoutes and csrfMiddleware in internal/server/
-- server.go, and `requireAuth` of auth.go. How the router finds a route, and the handlers of the
-- endpoints that change none of the state of the actions, are arguments.
pub mod Guarded
mod Tests
use warpbox_custom.Prelude.{
  ℕ, Bool, true, false, not, ◌&&◌, ◌||◌, Option, none, some, List, [], ◌∷◌, ◌++◌, Text, codes,
  text_eq, if◌then◌else◌,
}
use warpbox_custom.Server.Config.{Config}
use warpbox_custom.Server.Actions.{
  Request, Reply, reply, Runtime, handle_resync, handle_restart_sync, handle_log_level,
  handle_healthz,
}

-- The handlers that routes are registered with.
pub data Endpoint : Type 0 where
  webdav http_browser logs healthz stats_json resync restart_sync log_level pprof landing chart_js
        logo openapi_json :
      Endpoint

-- An empty method stands for every method; `auth` and `csrf` say which middleware is in front.
pub record Route : Type 0 where
  pub method : Text
  pub pattern : Text
  pub auth : Bool
  pub csrf : Bool
  pub endpoint : Endpoint

abbrev open_route : (method pattern : Text) → Endpoint → Route
open_route method pattern e = record {
  method = method;
  pattern = pattern;
  auth = false;
  csrf = false;
  endpoint = e;
}

abbrev auth_route : (method pattern : Text) → Endpoint → Route
auth_route method pattern e = record {
  method = method;
  pattern = pattern;
  auth = true;
  csrf = false;
  endpoint = e;
}

abbrev action_route : (pattern : Text) → Endpoint → Route
action_route pattern e = record {
  method = codes "POST";
  pattern = pattern;
  auth = true;
  csrf = true;
  endpoint = e;
}

-- `registerRoutes`, in its order.
unfoldable pub register_routes : (enable_pprof : Bool) → List Route
register_routes enable_pprof =
    open_route [] (codes "/webdav/*") webdav
      ∷ open_route [] (codes "/webdav") webdav
      ∷ open_route [] (codes "/infuse/*") webdav
      ∷ open_route [] (codes "/infuse") webdav
      ∷ auth_route (codes "GET") (codes "/http/*") http_browser
      ∷ auth_route (codes "GET") (codes "/http") http_browser
      ∷ auth_route (codes "GET") (codes "/logs") logs
      ∷ auth_route (codes "GET") (codes "/logs/") logs
      ∷ open_route (codes "GET") (codes "/healthz") healthz
      ∷ auth_route (codes "GET") (codes "/stats.json") stats_json
      ∷ action_route (codes "/actions/resync") resync
      ∷ action_route (codes "/actions/restart-sync") restart_sync
      ∷ action_route (codes "/actions/loglevel") log_level
      ∷ (if enable_pprof
          then auth_route [] (codes "/debug/pprof") pprof
            ∷ auth_route [] (codes "/debug/pprof/*") pprof
            ∷ []
          else [])
    ++ (auth_route (codes "GET") (codes "/") landing
        ∷ open_route (codes "GET") (codes "/chart.umd.min.js") chart_js
        ∷ open_route (codes "GET") (codes "/warpbox.svg") logo
        ∷ open_route (codes "GET") (codes "/favicon.ico") logo
        ∷ auth_route (codes "GET") (codes "/openapi.json") openapi_json
        ∷ [])

abbrev pub Handler : Type 0
Handler = Request → Runtime → Reply × Runtime

-- The credentials of the request, compared in constant time.
unfoldable pub is_authorized : Config → Request → Bool
is_authorized cfg r = elim r.basic_auth [
  | none ↦ false
  | some (user, pass) ↦ text_eq user cfg.auth_username && text_eq pass cfg.auth_password
]

abbrev pub unauthorized : Reply
unauthorized = record {
  status = 401;
  authenticate = codes "Basic realm=\"warpbox\"";
  body = codes "Unauthorized";
}

-- `requireAuth`
unfoldable pub require_auth : Config → Handler → Handler
unfolding is_authorized
require_auth cfg next r s =
    if not cfg.auth_enabled
    then next r s
    else if not (is_authorized cfg r)
    then (unauthorized, s)
    else next r s

-- `csrfMiddleware`, with the token of the server.
unfoldable pub csrf_middleware : Text → Handler → Handler
csrf_middleware token next r s =
    if text_eq r.method (codes "POST") && not (text_eq r.csrf_token token)
    then (reply 403 (codes "invalid or missing CSRF token"), s)
    else next r s

-- What is not in the state of the actions: the router, the ping of the database, the other handlers.
pub record Outside : Type 0 where
  pub find_route : List Route → Request → Option Route
  pub ping : Option Text
  pub page : Endpoint → Request → Reply
  pub no_route : Request → Reply

unfoldable pub endpoint_handler : Outside → Endpoint → Handler
endpoint_handler o resync r s = handle_resync s
endpoint_handler o restart_sync r s = handle_restart_sync s
endpoint_handler o log_level r s = handle_log_level r.level s
endpoint_handler o healthz r s = (handle_healthz o.ping, s)
endpoint_handler o webdav r s = (o.page webdav r, s)
endpoint_handler o http_browser r s = (o.page http_browser r, s)
endpoint_handler o logs r s = (o.page logs r, s)
endpoint_handler o stats_json r s = (o.page stats_json r, s)
endpoint_handler o pprof r s = (o.page pprof r, s)
endpoint_handler o landing r s = (o.page landing r, s)
endpoint_handler o chart_js r s = (o.page chart_js r, s)
endpoint_handler o logo r s = (o.page logo r, s)
endpoint_handler o openapi_json r s = (o.page openapi_json r, s)

-- The middleware of a route stands around its handler, the authentication outermost.
unfoldable pub inner_handler : Text → Outside → Route → Handler
inner_handler token o route =
    if route.csrf
    then csrf_middleware token (endpoint_handler o route.endpoint)
    else endpoint_handler o route.endpoint

unfoldable pub route_handler : Config → Text → Outside → Route → Handler
unfolding inner_handler
route_handler cfg token o route r s =
    if route.auth
    then require_auth cfg (inner_handler token o route) r s
    else inner_handler token o route r s

-- A request that is served; without a route the router replies by itself.
unfoldable pub serve : Config → (enable_pprof : Bool) → (token : Text) → Outside → Handler
serve cfg enable_pprof token o r s = elim (o.find_route (register_routes enable_pprof) r) [
  | none ↦ (o.no_route r, s)
  | some route ↦ route_handler cfg token o route r s
]
