-- ===== src/Server/Actions.antt =====
-- internal/server/actions.go and healthz.go: the handlers of the management actions and of the health
-- check. The registered callbacks are their names, and a started callback is added to a list.
pub mod Persisted
use warpbox_custom.Prelude.{
  ℕ, Bool, true, false, Option, none, some, List, [], ◌∷◌, ◌++◌, Text, codes, is_empty, text_eq,
  if◌then◌else◌,
}
use warpbox_custom.Settings.{Level, parse_level}
use warpbox_custom.Settings.LogLevel.{File, update_log_level}

-- What the handlers read of a request: `basic_auth` is the result of `BasicAuth`, `csrf_token` the
-- header "X-CSRF-Token", and `level` the form value.
pub record Request : Type 0 where
  pub method : Text
  pub path : Text
  pub basic_auth : Option (Text × Text)
  pub csrf_token : Text
  pub level : Text

pub record Reply : Type 0 where
  pub status : ℕ
  pub authenticate : Text
  pub body : Text

abbrev pub reply : ℕ → Text → Reply
reply status body = record { status = status; authenticate = []; body = body }

-- What the actions change: the file at the path of the settings, the level of the logger, and the
-- callbacks that run. `actions` holds the names that `SetActions` has been given.
pub record Runtime : Type 0 where
  pub actions : List Text
  pub config_path : Text
  pub file : File
  pub level : Level
  pub started : List Text

unfoldable pub has_action : Text → List Text → Bool
has_action name [] = false
has_action name (n ∷ names) =
    let rest = has_action name names in if text_eq n name then true else rest

-- `SetActions`: a name that is there already keeps its place, with the new callback.
unfoldable pub set_actions : List Text → Runtime → Runtime
unfolding has_action
set_actions [] s = s
set_actions (n ∷ names) s =
    set_actions names
      (record s { actions = if has_action n s.actions then s.actions else n ∷ s.actions })

unfoldable pub handle_resync : Runtime → Reply × Runtime
unfolding has_action
handle_resync s =
    if has_action (codes "resync") s.actions
    then (reply 200 (codes "Resync triggered"), record s { started = codes "resync" ∷ s.started })
    else (reply 500 (codes "Resync not configured"), s)

unfoldable pub handle_restart_sync : Runtime → Reply × Runtime
unfolding has_action
handle_restart_sync s =
    if has_action (codes "restart-sync") s.actions
    then (
      reply 200 (codes "Sync worker restart triggered"),
      record s { started = codes "restart-sync" ∷ s.started },
    )
    else (reply 500 (codes "Restart sync not configured"), s)

-- `handleLogLevel` from the valid level on: the file first, then the level of the logger.
unfoldable pub change_level : Text → Level → Runtime → Reply × Runtime
change_level new_level parsed s =
    let done = reply 200 (codes "Log level changed to " ++ new_level) in
    if is_empty s.config_path
    then (done, record s { level = parsed })
    else (let (e, file) = update_log_level new_level s.file in
        elim e [
          | some message ↦
              (reply 500 (codes "Failed to persist log level"), record s { file = file })
          | none ↦ (done, record s { file = file; level = parsed })
        ])

unfoldable pub handle_log_level : Text → Runtime → Reply × Runtime
unfolding change_level
handle_log_level new_level s =
    if is_empty new_level
    then (reply 400 (codes "Missing 'level' parameter"), s)
    else elim (parse_level new_level) [
      | none ↦ (reply 400 (codes "Invalid level"), s)
      | some parsed ↦ change_level new_level parsed s
    ]

-- `handleHealthz`, by the error of the ping.
unfoldable pub handle_healthz : Option Text → Reply
handle_healthz none = reply 200 (codes "ok")
handle_healthz (some e) = reply 503 (codes "database unreachable")
