-- ===== src/Metadata/Store/Listing.antt =====
-- `ListDir` of internal/metadata/store.go. The operator LIKE of SQLite and its order by name are
-- arguments.
use warpbox_custom.Prelude.{
  Bool, Option, none, some, List, [], ◌++◌, map, Text, codes, keep, Result, ok, err,
}
use warpbox_custom.Metadata.{FileRecord}
use warpbox_custom.Metadata.Store.{Store}

-- The columns of the query.
unfoldable pub listed_columns : FileRecord → FileRecord
listed_columns r = record r { cdn_url = []; cdn_url_expiry = none; sync_tag = 0 }

unfoldable pub list_dir :
    (like : Text → Text → Bool)
    → (by_name : List FileRecord → List FileRecord) → Option Text
    → Text
    → Store
    → Result Text (List FileRecord)
unfolding listed_columns
list_dir like by_name (some e) prefix s = err (codes "querying files: " ++ e)
list_dir like by_name none prefix s =
    ok (map listed_columns (by_name (keep (λ r. like (prefix ++ codes "%") r.path) s.files)))
