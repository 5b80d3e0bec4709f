-- ===== src/Settings/Tests.antt =====
-- The settings of a file with an API key and one virtual path.
use warpbox_custom.Prelude.{
  ◌≡◌, refl, true, none, some, [], Text, Bool, codes, text_eq, contains, to_lower,
}
use warpbox_custom.Settings.{set_defaults, missing_setting}
use warpbox_custom.Settings.Samples.{written}
use warpbox_custom.Settings.Validate.{validate}

compiles : Text → Bool
compiles pattern = true

defaults_pass : validate compiles (set_defaults written) ≡ none
unfolding validate set_defaults text_eq to_lower contains
defaults_pass = refl

key_required :
    validate compiles (set_defaults (record written { api_key = [] }))
    ≡ some (missing_setting (codes "torbox.api_key"))
unfolding validate set_defaults text_eq to_lower contains
key_required = refl
