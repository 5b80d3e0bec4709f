-- ===== src/Settings/LogLevel/Tests.antt =====
-- A settings file whose level is changed, and one with an empty section.
use warpbox_custom.Prelude.{◌≡◌, refl, none, some, [], codes, text_eq, to_lower, ok}
use warpbox_custom.Settings.{debug_level, parse_level}
use warpbox_custom.Settings.LogLevel.{
  mapping_node, scalar_node, Node, node, nil, cons, text_node, find_value, File, update_log_level,
}
use warpbox_custom.Settings.LogLevel.Pairs.{get, level_of}
use warpbox_custom.Settings.LogLevel.Samples.{settings, file, settings-IsMapping, settings-IsLogged}
use warpbox_custom.Settings.LogLevel.Updated.{
  Outcome, update_log_level-Outcome, update_log_level_lost,
}

valid_debug : parse_level (codes "debug") ≡ some debug_level
unfolding parse_level text_eq to_lower
valid_debug = refl

update_log_level-Outcome_example :
    Outcome
      (codes "debug")
      settings
      file
      (update_log_level (codes "debug") file).0
      (update_log_level (codes "debug") file).1
update_log_level-Outcome_example =
    update_log_level-Outcome (codes "debug") debug_level file settings valid_debug refl
      settings-IsMapping settings-IsLogged

-- "logging:" with nothing behind it is a null.
abbrev empty_section : Node
empty_section =
    node mapping_node (codes "!!map") [] [] (
      cons (text_node (codes "logging") [])
        (cons (node scalar_node (codes "!!null") [] [] nil) nil))

abbrev bare : File
bare = record { tree = ok empty_section; write_error = none }

bare_section :
    get (codes "logging") empty_section ≡ some (node scalar_node (codes "!!null") [] [] nil)
unfolding get find_value text_eq
bare_section = refl

update_log_level_lost_example :
    ((update_log_level (codes "debug") bare).0 ≡ none)
    × ((root' : Node) × ((update_log_level (codes "debug") bare).1.tree ≡ ok root')
        × (level_of root' ≡ none))
update_log_level_lost_example =
    update_log_level_lost (codes "debug") debug_level bare empty_section [] [] valid_debug refl refl
      bare_section refl
