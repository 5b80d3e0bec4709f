-- ===== src/Server/Setup/Served.antt =====
-- Validated settings give virtual paths that are served.
use warpbox_custom.Prelude.{
  ℕ, suc, ◌≡◌, refl, ap, ◌∙◌, false, none, some, List, [], ◌∷◌, ◌++◌, Text, codes, slash, text_eq,
  text_eq_refl, text_eq_instance, lookup, insert, lookup-insert_self, lookup-insert_ne, trim_prefix,
  trim_prefix-append, All, Result, ok,
}
use mathlib.Core.List.{Memᴰ}
use warpbox_custom.Library.{Filter, Regexp}
use warpbox_custom.Settings.{Settings, VirtualPath, in_range}
use warpbox_custom.Settings.Validate.{validate, checks, validate_library, validate_paths}
use warpbox_custom.Settings.Bounds.{first_error-get_elem?, validate-Routable, Routable}
use warpbox_custom.Server.Routing.{handle_webdav, store_path, webdav_root}
use warpbox_custom.Server.Routing.Mounts.{store_path-mount}
use warpbox_custom.Prelude.Members.{All-Memᴰ}
use warpbox_custom.Server.Setup.{filter_of, build_filters, map_paths, make_virtual_path_map}
use warpbox_custom.Server.Setup.Passed.{
  Ordinary, compiles, validate_paths-Passed, filter_of-Passed, apart,
}

module _ (compile : Text → Result Text Regexp) where
  -- Filters that are made from paths, one for each.
  abbrev MadeFrom : List Filter → List VirtualPath → Type 0
  MadeFrom [] [] = Unit
  MadeFrom (f ∷ filters) (vp ∷ paths) =
      (filter_of compile vp ≡ ok f) × (f.mount ≡ slash ∷ vp.name) × MadeFrom filters paths
  MadeFrom _ _ = ⊥

  build_filters-MadeFrom :
      (i : ℕ) (seen : List Text) (paths : List VirtualPath)
      → All Ordinary paths
      → validate_paths (compiles compile) i seen paths ≡ none
      → (filters : List Filter) × (build_filters compile paths ≡ ok filters)
        × MadeFrom filters paths
  unfolding build_filters
  build_filters-MadeFrom i seen [] o h = ([], refl, tt)
  build_filters-MadeFrom i seen (vp ∷ paths) (other, o) h =
      let p = validate_paths-Passed compile i seen vp paths other h in
      let (f, e, mount) = filter_of-Passed compile i seen vp paths p in
      let (filters, es, made) = build_filters-MadeFrom (suc i) (vp.name ∷ seen) paths o p.rest in
      (f ∷ filters, built vp paths f filters e es, (e, mount, made))
    where
      built :
          (vp : VirtualPath) (paths : List VirtualPath) (f : Filter) (filters : List Filter)
          → filter_of compile vp ≡ ok f
          → build_filters compile paths ≡ ok filters
          → build_filters compile (vp ∷ paths) ≡ ok (f ∷ filters)
      built vp paths f filters e es = rw (build_filters, e, es) refl

  mount-name :
      (f : Filter) (name : Text) → f.mount ≡ slash ∷ name → trim_prefix f.mount (slash ∷ []) ≡ name
  mount-name f name e =
      ap (λ p. trim_prefix p (slash ∷ [])) e ∙ trim_prefix-append (slash ∷ []) name

  map_paths-keeps :
      (n : Text) (filters : List Filter) (paths : List VirtualPath) (m : List (Text × Filter))
      → MadeFrom filters paths
      → All (λ vp. text_eq vp.name n ≡ false) paths
      → lookup n (map_paths filters m) ≡ lookup n m
  unfolding map_paths
  map_paths-keeps n [] paths m made a = refl
  map_paths-keeps n (f ∷ filters) [] m made a = absurd made
  map_paths-keeps n (f ∷ filters) (vp ∷ paths) m (e, mount, made) (other, a) =
      map_paths-keeps n filters paths (insert (trim_prefix f.mount (slash ∷ [])) f m) made a
      ∙ lookup-insert_ne (trim_prefix f.mount (slash ∷ [])) n f m
          (ap (λ k. text_eq k n) (mount-name f vp.name mount) ∙ other)

  map_paths-finds :
      (i : ℕ) (seen : List Text) (filters : List Filter) (paths : List VirtualPath)
      (m : List (Text × Filter)) (vp : VirtualPath)
      → All Ordinary paths
      → validate_paths (compiles compile) i seen paths ≡ none
      → MadeFrom filters paths
      → Memᴰ vp paths
      → (f : Filter) × (filter_of compile vp ≡ ok f)
        × (lookup vp.name (map_paths filters m) ≡ some f)
  unfolding map_paths
  map_paths-finds i seen filters [] m vp o h made there = elim there [ ]
  map_paths-finds i seen [] (v ∷ paths) m vp o h made there = absurd made
  map_paths-finds i seen (f ∷ filters) (v ∷ paths) m vp (other, o) h (e, mount, made)
        (Memᴰ.head same) =
      let p = validate_paths-Passed compile i seen v paths other h in
      let name = mount-name f v.name mount in
      (
        f,
        ap (filter_of compile) same ∙ e,
        ap
              (λ (w : VirtualPath).
                lookup w.name (map_paths filters (insert (trim_prefix f.mount (slash ∷ [])) f m)))
              same
            ∙ map_paths-keeps v.name filters paths (insert (trim_prefix f.mount (slash ∷ [])) f m)
                made
                (apart compile (suc i) (v.name ∷ seen) paths v.name o p.rest
                  (rw (text_eq_refl v.name) refl))
            ∙ ap (λ k. lookup v.name (insert k f m)) name
            ∙ lookup-insert_self v.name f m,
      )
  map_paths-finds i seen (f ∷ filters) (v ∷ paths) m vp (other, o) h (e, mount, made)
        (Memᴰ.tail there) =
      let p = validate_paths-Passed compile i seen v paths other h in
      map_paths-finds (suc i) (v.name ∷ seen) filters paths
        (insert (trim_prefix f.mount (slash ∷ [])) f m) vp o p.rest made there

-- Settings that pass the validation, with no virtual path that is called "__all__": the filters can
-- be built, and a request below the name of any virtual path is handled with the filter of that path,
-- whatever its method; with GET and HEAD, at the rest of the request's path in the store.
pub virtual_paths_served :
    (compile : Text → Result Text Regexp) (c : Settings)
    → validate (compiles compile) c ≡ none
    → All Ordinary c.library.virtual_paths
    → (filters : List Filter) × (build_filters compile c.library.virtual_paths ≡ ok filters)
      × ((vp : VirtualPath)
          → Memᴰ vp c.library.virtual_paths
          → (f : Filter) × (filter_of compile vp ≡ ok f)
            × ((rest method : Text)
                → (handle_webdav
                    (make_virtual_path_map filters)
                    (webdav_root ++ slash ∷ (vp.name ++ slash ∷ rest))
                    method).filter
                  ≡ some f)
            × ((rest : Text)
                → (store_path (
                      handle_webdav
                        (make_virtual_path_map filters)
                        (webdav_root ++ slash ∷ (vp.name ++ slash ∷ rest))
                        (codes "GET"))
                    ≡ rest)
                  × (store_path (
                        handle_webdav
                          (make_virtual_path_map filters)
                          (webdav_root ++ slash ∷ (vp.name ++ slash ∷ rest))
                          (codes "HEAD"))
                      ≡ rest)))
unfolding validate checks validate_library make_virtual_path_map
virtual_paths_served compile c h o =
    let library : validate_library (compiles compile) c.library ≡ none =
      first_error-get_elem? (checks (compiles compile) c) 14 _ h refl in
    let paths : validate_paths (compiles compile) 0 [] c.library.virtual_paths ≡ none =
      first_error-get_elem?
        (validate_paths (compiles compile) 0 [] c.library.virtual_paths
          ∷ in_range (codes "library.hook_timeout_seconds") 1 3600 c.library.hook_timeout_sec
          ∷ [])
        0 _ library refl in
    let (filters, built, made) =
      build_filters-MadeFrom compile 0 [] c.library.virtual_paths o paths in
    (
      filters,
      built,
      λ vp there.
          let (f, e, known) =
            map_paths-finds compile 0 [] filters c.library.virtual_paths [] vp o paths made there in
          let routable =
            All-Memᴰ Routable c.library.virtual_paths vp (validate-Routable (compiles compile) c h)
              there in
          let ordinary = All-Memᴰ Ordinary c.library.virtual_paths vp o there in
          (
            f,
            e,
            (λ rest method.
                (store_path-mount (make_virtual_path_map filters) vp.name rest method f routable.1
                  ordinary known).0),
            (λ rest. (
              (store_path-mount (make_virtual_path_map filters) vp.name rest (codes "GET") f
                  routable.1 ordinary known).1,
              (store_path-mount (make_virtual_path_map filters) vp.name rest (codes "HEAD") f
                  routable.1 ordinary known).1,
            )),
          ),
    )
