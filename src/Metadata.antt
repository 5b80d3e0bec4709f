-- ===== src/Metadata.antt =====
-- internal/metadata: the records of the metadata store, the store, and the worker that fills it.
pub mod Store
pub mod Sync
pub mod Stats
mod Samples
mod Tests
use warpbox_custom.Prelude.{ℕ, Bool, true, false, ◌≡◌, refl, Option, none, [], Text, ℤ, pos, Eq}

-- `FileSource`
pub data FileSource : Type 0 where
  source_torrent source_usenet : FileSource

abbrev pub source_same : FileSource → FileSource → Bool
source_same source_torrent source_torrent = true
source_same source_torrent source_usenet = false
source_same source_usenet source_torrent = false
source_same source_usenet source_usenet = true

pub source_same_refl : (s : FileSource) → source_same s s ≡ true
source_same_refl source_torrent = refl
source_same_refl source_usenet = refl

pub source_same→eq : (s t : FileSource) → source_same s t ≡ true → s ≡ t
source_same→eq source_torrent source_torrent h = refl
source_same→eq source_torrent source_usenet h = cc
source_same→eq source_usenet source_torrent h = cc
source_same→eq source_usenet source_usenet h = refl

-- `FileRecord`. The expiry of the CDN URL, stored as RFC 3339 text, is a time in nanoseconds, and
-- `none` for the empty text.
pub record FileRecord : Type 0 where
  pub id : ℕ
  pub item_id : ℕ
  pub file_id : ℕ
  pub source : FileSource
  pub name : Text
  pub path : Text
  pub size : ℤ
  pub mime_type : Text
  pub created_at : Text
  pub cdn_url : Text
  pub cdn_url_expiry : Option ℕ
  pub sync_tag : ℕ

-- Go's zero value.
abbrev pub zero_record : FileRecord
zero_record = record {
  id = 0;
  item_id = 0;
  file_id = 0;
  source = source_torrent;
  name = [];
  path = [];
  size = pos 0;
  mime_type = [];
  created_at = [];
  cdn_url = [];
  cdn_url_expiry = none;
  sync_tag = 0;
}
