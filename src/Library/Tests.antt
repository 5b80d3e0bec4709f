-- ===== src/Library/Tests.antt =====
-- Tests of internal/library/filter.go on three files of two items.
use warpbox_custom.Prelude.{
  ◌≡◌, refl, none, some, true, keep, List, [], ◌∷◌, codes, has_prefix, pos, lookup, insert, text_eq,
  cut,
}
use warpbox_custom.Metadata.{FileRecord, zero_record, source_usenet}
use warpbox_custom.Library.{
  Filter, keep_largest, largest_step, apply, match_cached, extract_directory, match_directory,
  match_file, extract_relative_path,
}
use warpbox_custom.Library.Matching.{Largest, apply-Shown, shows}

abbrev sample : FileRecord
sample = record zero_record { item_id = 7; path = codes "show/sample.mkv"; size = pos 10 }

abbrev film : FileRecord
film = record zero_record { item_id = 7; path = codes "show/film.mkv"; size = pos 900 }

abbrev usenet : FileRecord
usenet = record zero_record {
  item_id = 7;
  source = source_usenet;
  path = codes "other.mkv";
  size = pos 3;
}

abbrev files : List FileRecord
files = sample ∷ usenet ∷ film ∷ []

-- No file of a directory that has "show" in its name.
abbrev no_shows : Filter
no_shows = record {
  mount = codes "all";
  directory_include = none;
  directory_exclude = some (λ name. has_prefix name (codes "show"));
  file_regex = some (λ name. has_prefix name (codes "other"));
  largest_file_only = true;
}

keep_largest_run : keep_largest files ≡ film ∷ usenet ∷ []
unfolding keep_largest largest_step lookup insert
keep_largest_run = refl

apply_run : apply no_shows files ≡ usenet ∷ []
unfolding apply keep_largest match_cached lookup insert text_eq extract_directory cut
    match_directory match_file extract_relative_path largest_step has_prefix
apply_run = refl

apply-Shown_example : Largest (keep (shows no_shows) files) (apply no_shows files)
apply-Shown_example = apply-Shown no_shows files
