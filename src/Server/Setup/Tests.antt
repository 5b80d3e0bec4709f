-- ===== src/Server/Setup/Tests.antt =====
-- A server that is set up with one virtual path.
use warpbox_custom.Prelude.{
  ◌≡◌, refl, true, none, some, ◌++◌, ◌∷◌, List, Text, slash, All, Result, ok, text_eq, contains,
  to_lower, codes,
}
use mathlib.Core.List.{Memᴰ}
use warpbox_custom.Library.{Filter, Regexp}
use warpbox_custom.Settings.{Settings, VirtualPath, set_defaults}
use warpbox_custom.Settings.Samples.{written}
use warpbox_custom.Settings.Validate.{validate}
use warpbox_custom.Server.Routing.{handle_webdav, store_path, webdav_root}
use warpbox_custom.Server.Setup.{filter_of, build_filters, make_virtual_path_map}
use warpbox_custom.Server.Setup.Passed.{compiles, Ordinary}
use warpbox_custom.Server.Setup.Served.{virtual_paths_served}

-- Every expression compiles, to one that matches all.
abbrev compile_all : Text → Result Text Regexp
compile_all pattern = ok (λ name. true)

abbrev settings : Settings
settings = set_defaults written

settings_pass : validate (compiles compile_all) settings ≡ none
unfolding validate set_defaults text_eq to_lower contains
settings_pass = refl

settings-Ordinary : All Ordinary settings.library.virtual_paths
unfolding set_defaults text_eq
settings-Ordinary = (refl, tt)

virtual_paths_served_example :
    (filters : List Filter) × (build_filters compile_all settings.library.virtual_paths
      ≡ ok filters)
    × ((vp : VirtualPath)
        → Memᴰ vp settings.library.virtual_paths
        → (f : Filter) × (filter_of compile_all vp ≡ ok f)
          × ((rest method : Text)
              → (handle_webdav
                  (make_virtual_path_map filters)
                  (webdav_root ++ slash ∷ (vp.name ++ slash ∷ rest))
                  method).filter
                ≡ some f)
          × ((rest : Text)
              → (store_path (
                    handle_webdav
                      (make_virtual_path_map filters)
                      (webdav_root ++ slash ∷ (vp.name ++ slash ∷ rest))
                      (codes "GET"))
                  ≡ rest)
                × (store_path (
                      handle_webdav
                        (make_virtual_path_map filters)
                        (webdav_root ++ slash ∷ (vp.name ++ slash ∷ rest))
                        (codes "HEAD"))
                    ≡ rest)))
virtual_paths_served_example =
    virtual_paths_served compile_all settings settings_pass settings-Ordinary
