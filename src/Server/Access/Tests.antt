-- ===== src/Server/Access/Tests.antt =====
-- A request for a new log level, with and without what it needs.
use warpbox_custom.Prelude.{
  ◌≡◌, ◌≢◌, refl, sym, subst, ◌⊎◌, inl, inr, Bool, true, false, ◌&&◌, ◌||◌, Option, none, some,
  List, [], ◌∷◌, codes, is_empty, text_eq, Bool-cases, if◌then◌else◌, arith,
}
use mathlib.Core.List.{Memᴰ}
use warpbox_custom.Server.Config.{Config}
use warpbox_custom.Server.Samples.{defaults}
use warpbox_custom.Settings.{info_level}
use warpbox_custom.Settings.LogLevel.Samples.{settings, file, settings-IsMapping, settings-IsLogged}
use warpbox_custom.Server.Actions.{Request, reply, Runtime}
use warpbox_custom.Server.Actions.Persisted.{Persisted, handle_log_level-Persisted}
use warpbox_custom.Server.Actions.{handle_log_level}
use warpbox_custom.Settings.{Level, parse_level}
use warpbox_custom.Server.Access.{Route, register_routes, log_level, Outside, unauthorized, serve}
use warpbox_custom.Server.Access.Guarded.{Finds, Authorized, serve_guarded, serve-unauthorized}

-- A router of exact paths.
takes : Request → Route → Bool
takes r route =
    text_eq r.path route.pattern && (is_empty route.method || text_eq r.method route.method)

find_exact : List Route → Request → Option Route
unfolding takes
find_exact [] r = none
find_exact (route ∷ routes) r =
    let rest = find_exact routes r in if takes r route then some route else rest

find_exact-Finds : Finds find_exact
unfolding find_exact takes
find_exact-Finds [] r route h = cc
find_exact-Finds (first ∷ routes) r route h = elim (Bool-cases (takes r first)) [
  | inl t ↦
      let same : first ≡ route = ground (arith, h, t) in
      let taken : (is_empty first.method || text_eq r.method first.method) ≡ true =
        ground (arith, t) in
      (
        Memᴰ.head (sym same),
        subst (λ (x : Route). (is_empty x.method || text_eq r.method x.method) ≡ true) same taken,
      )
  | inr f ↦
      let (there, ok) = find_exact-Finds routes r route (ground (arith, h, f)) in
      (Memᴰ.tail there, ok)
]

abbrev locked : Config
locked = record defaults {
  auth_enabled = true;
  auth_username = codes "admin";
  auth_password = codes "secret";
}

abbrev outside : Outside
outside = record {
  find_route = find_exact;
  ping = none;
  page = λ e r. reply 200 [];
  no_route = λ r. reply 404 [];
}

abbrev request : Request
request = record {
  method = codes "POST";
  path = codes "/actions/loglevel";
  basic_auth = some (codes "admin", codes "guess");
  csrf_token = codes "token";
  level = codes "debug";
}

abbrev runtime : Runtime
runtime = record {
  actions = [];
  config_path = codes "config.yml";
  file = file;
  level = info_level;
  started = [];
}

serve_guarded_example :
    ((serve locked false (codes "token") outside request runtime).1 ≡ runtime)
    ⊎ ((text_eq request.method (codes "POST") ≡ true)
        × (request.csrf_token ≡ codes "token")
        × Authorized locked request)
serve_guarded_example =
    serve_guarded locked false (codes "token") outside request runtime find_exact-Finds

abbrev loglevel_route : Route
loglevel_route = record {
  method = codes "POST";
  pattern = codes "/actions/loglevel";
  auth = true;
  csrf = true;
  endpoint = log_level;
}

wrong_password : request.basic_auth ≢ some (locked.auth_username, locked.auth_password)
wrong_password h = cc

serve-unauthorized_example :
    serve locked false (codes "token") outside request runtime ≡ (unauthorized, runtime)
unfolding find_exact register_routes text_eq
serve-unauthorized_example =
    serve-unauthorized locked false (codes "token") outside request runtime loglevel_route
      find_exact-Finds refl wrong_password refl refl

handle_log_level-Persisted_example :
    ((l : Level) × (parse_level (codes "debug") ≡ some l)
      × Persisted
          (codes "debug")
          l
          settings
          runtime
          (handle_log_level (codes "debug") runtime).0
          (handle_log_level (codes "debug") runtime).1)
    ⊎ ((parse_level (codes "debug") ≡ none)
        × ((handle_log_level (codes "debug") runtime).0.status ≡ 400)
        × ((handle_log_level (codes "debug") runtime).1 ≡ runtime))
handle_log_level-Persisted_example =
    handle_log_level-Persisted (codes "debug") runtime settings refl refl settings-IsMapping
      settings-IsLogged
