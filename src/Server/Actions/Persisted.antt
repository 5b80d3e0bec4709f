-- ===== src/Server/Actions/Persisted.antt =====
-- The change of the log level by `handleLogLevel`.
use warpbox_custom.Prelude.{
  arith, ◌≡◌, refl, sym, subst, ◌⊎◌, inl, inr, false, Option, none, some, Option-cases, [], Text,
  is_empty, text_eq, to_lower, ◌∷◌, ok,
}
use warpbox_custom.Settings.{Level, parse_level}
use warpbox_custom.Settings.LogLevel.{Node, File, update_log_level}
use warpbox_custom.Settings.LogLevel.Pairs.{IsMapping}
use warpbox_custom.Settings.LogLevel.Updated.{IsLogged, Updated, Outcome, update_log_level-Outcome}
use warpbox_custom.Server.Actions.{Reply, Runtime, change_level, handle_log_level}

-- The change is made, in the logger and in the file; or nothing is.
abbrev pub Persisted : Text → Level → Node → Runtime → Reply → Runtime → Type 0
Persisted level l root s r s' =
    ((r.status ≡ 200)
      × (s'.level ≡ l)
      × ((root' : Node) × (s'.file.tree ≡ ok root') × Updated level root root'))
    ⊎ ((r.status ≡ 500) × (s' ≡ s) × ((e : Text) × (s.file.write_error ≡ some e)))

persist_cases :
    (level : Text) (l : Level) (root : Node) (s : Runtime) (e : Option Text) (f : File)
    → is_empty s.config_path ≡ false
    → update_log_level level s.file ≡ (e, f)
    → Outcome level root s.file e f
    → Persisted level l root s (change_level level l s).0 (change_level level l s).1
unfolding change_level
persist_cases level l root s none f p h (root', there, u) =
    inl (ground (arith, p, h), ground (arith, p, h), (root', ground (arith, p, h, there), u))
persist_cases level l root s (some e) f p h (failed, same) =
    inr (ground (arith, p, h), ground (arith, p, h, same), (e, failed))

change_level-eq :
    (level : Text) (l : Level) (s : Runtime)
    → is_empty level ≡ false
    → parse_level level ≡ some l
    → handle_log_level level s ≡ change_level level l s
unfolding handle_log_level
change_level-eq level l s full valid = ground (arith, full, valid)

full_of_valid : (level : Text) (l : Level) → parse_level level ≡ some l → is_empty level ≡ false
unfolding parse_level text_eq to_lower
full_of_valid [] l h = cc
full_of_valid (c ∷ level) l h = refl

invalid_refused :
    (level : Text) (s : Runtime)
    → parse_level level ≡ none
    → ((handle_log_level level s).0.status ≡ 400) × ((handle_log_level level s).1 ≡ s)
unfolding handle_log_level
invalid_refused level s h = ground (arith, h)

-- With a path for the settings, and a file whose root and whose section "logging", if it has one, are
-- mappings, the level in it, if it has one, being a string: a request for a valid level is answered with 200, the logger having the level and the
-- file giving it with all else as it was; or with 500, if the file cannot be written, and then
-- nothing has changed. A text that is no level is answered with 400, and nothing changes.
pub handle_log_level-Persisted :
    (level : Text) (s : Runtime) (root : Node)
    → is_empty s.config_path ≡ false
    → s.file.tree ≡ ok root
    → IsMapping root
    → IsLogged root
    → ((l : Level) × (parse_level level ≡ some l)
        × Persisted level l root s (handle_log_level level s).0 (handle_log_level level s).1)
      ⊎ ((parse_level level ≡ none)
          × ((handle_log_level level s).0.status ≡ 400)
          × ((handle_log_level level s).1 ≡ s))
handle_log_level-Persisted level s root p t m logged = elim (Option-cases (parse_level level)) [
  | inl invalid ↦
      inr (invalid, (invalid_refused level s invalid).0, (invalid_refused level s invalid).1)
  | inr (l, valid) ↦
      let o = update_log_level-Outcome level l s.file root valid t m logged in
      let e = change_level-eq level l s (full_of_valid level l valid) valid in
      let good = persist_cases level l root s _ _ p refl o in
      inl (l, valid, subst (λ (x : Reply × Runtime). Persisted level l root s x.0 x.1) (sym e) good)
]
