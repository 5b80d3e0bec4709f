-- ===== src/Metadata/Tests.antt =====
-- Runs of the metadata store and of its sync at concrete inputs, and their theorems there.
use warpbox_custom.Prelude.{
  ℕ, ◌≡◌, refl, false, Option, none, some, [], ◌∷◌, Text, codes, arith, ok, err, if◌then◌else◌, ltb,
  ◌==◌, text_eq, cut,
}
use warpbox_custom.Metadata.Samples.{film, item, old_row, two_rows, worker, usenet_row}
use warpbox_custom.Metadata.Store.{
  uncounted, Store, prune_by_sync_tag, find_path, find_id, get_cdn_url, set_cdn_url, to_second,
}
use warpbox_custom.Metadata.Store.Prune.{Pruned, prune_by_sync_tag-Pruned}
use warpbox_custom.Metadata.Store.CdnUrl.{get_cdn_url-set_cdn_url}
use warpbox_custom.Metadata.Store.Rows.{without_id}
use warpbox_custom.Metadata.Sync.{SyncWorker, sync_once, listed, virtual_path, is_reserved}
use warpbox_custom.Metadata.Sync.Consistency.{Consistent, sync_once-Consistent}
use warpbox_custom.Metadata.Sync.Written.{last_with_path}
use warpbox_custom.Metadata.Sync.View.{no_errors, find_path-sync_once}
use warpbox_custom.Metadata.Sync.Paths.{virtual_path-clean}

two_rows-Consistent : Consistent two_rows
unfolding text_eq
two_rows-Consistent = record {
  unique = ((refl, tt), (tt, tt));
  tagged = (omega arith, (omega arith, tt));
}

-- The first batch is deleted, and its number is not known.
prune_by_sync_tag-Pruned_example :
    (n : ℕ) × (e : Option Text) × (s' : Store) × (prune_by_sync_tag
        (λ n. uncounted (codes "no count"))
        3
        4
        two_rows
      ≡ some (n, e, s'))
    × Pruned 4 two_rows n e s'
prune_by_sync_tag-Pruned_example =
    prune_by_sync_tag-Pruned (λ n. uncounted (codes "no count")) 3 4 two_rows (omega arith)

-- A database that is locked at the first attempt.
locked_once : ℕ → Option Text
locked_once attempt = if attempt == 0 then some (codes "database is locked") else none

abbrev url : Text
url = codes "https://cdn/new"

get_cdn_url-set_cdn_url_example :
    ((set_cdn_url locked_once 1 url 5_500_000_000 two_rows).0 ≡ none)
    × ((now : ℕ)
        → get_cdn_url now 1 (set_cdn_url locked_once 1 url 5_500_000_000 two_rows).2
          ≡ (if ltb (to_second 5_500_000_000) now then [] else url))
    × ((now j : ℕ)
        → (1 == j) ≡ false
        → get_cdn_url now j (set_cdn_url locked_once 1 url 5_500_000_000 two_rows).2
          ≡ get_cdn_url now j two_rows)
unfolding find_id locked_once
get_cdn_url-set_cdn_url_example =
    get_cdn_url-set_cdn_url locked_once 1 url 5_500_000_000 two_rows old_row 1 (omega arith) refl
      refl refl

find_path-sync_once_example :
    without_id (
      find_path
        (codes "show/a_b.mp4")
        (sync_once none no_errors 9 (ok (item ∷ [])) (err (codes "502")) worker).store.files)
    ≡ without_id
        (last_with_path (codes "show/a_b.mp4") (listed 5 (ok (item ∷ [])) (err (codes "502"))))
find_path-sync_once_example =
    find_path-sync_once 9 (ok (item ∷ [])) (err (codes "502")) worker (codes "show/a_b.mp4")
      two_rows-Consistent refl

abbrev after_failure : SyncWorker
after_failure = sync_once none no_errors 9 (err (codes "502")) (ok (item ∷ [])) worker

after_failure_row : find_path (codes "show/a_b.mp4") after_failure.store.files ≡ some usenet_row
unfolding find_path sync_once text_eq cut
after_failure_row = refl

sync_once-Consistent_example :
    Consistent (sync_once (some (codes "no table")) no_errors 9 (ok []) (ok []) worker).store
sync_once-Consistent_example =
    sync_once-Consistent (some (codes "no table")) no_errors 9 (ok []) (ok []) worker
      two_rows-Consistent

virtual_path_run : virtual_path film ≡ codes "show/a_b.mp4"
unfolding is_reserved
virtual_path_run =
    virtual_path-clean film (codes "hash") (codes "show/a:b.mp4") refl
      (refl, (refl, (refl, (refl, tt)))) refl refl
