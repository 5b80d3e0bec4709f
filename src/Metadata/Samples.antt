-- ===== src/Metadata/Samples.antt =====
-- Rows and a worker for the runs of the metadata store and of its sync.
use warpbox_custom.Prelude.{none, [], ◌∷◌, codes, pos, false}
use warpbox_custom.Torbox.{Torrent, TorrentFile}
use warpbox_custom.Metadata.{FileRecord, zero_record, source_usenet}
use warpbox_custom.Metadata.Store.{Store}
use warpbox_custom.Metadata.Sync.{SyncWorker}

abbrev pub film : TorrentFile
film = record {
  id = 3;
  name = codes "film";
  size = pos 900;
  mime_type = codes "video/mp4";
  s3_path = codes "hash/show/a:b.mp4";
  short_name = codes "a:b.mp4";
}

abbrev pub item : Torrent
item = record {
  id = 7;
  name = codes "show";
  download_state = codes "cached";
  download_present = false;
  files = film ∷ [];
  created_at = [];
}

-- A row of an earlier cycle, with a cached URL.
abbrev pub old_row : FileRecord
old_row = record zero_record {
  id = 1;
  item_id = 7;
  file_id = 3;
  path = codes "show/a_b.mp4";
  cdn_url = codes "https://cdn";
  sync_tag = 4;
}

abbrev pub gone_row : FileRecord
gone_row = record zero_record { id = 2; path = codes "gone.mp4"; sync_tag = 3 }

abbrev pub two_rows : Store
two_rows = record { files = old_row ∷ gone_row ∷ []; next_id = 3; tag_counter = 4; lock_errors = 0 }

abbrev pub worker : SyncWorker
worker = record { store = two_rows; last_error = none; last_success = none }

-- The film as a Usenet file, over the old row.
abbrev pub usenet_row : FileRecord
usenet_row = record zero_record {
  id = 1;
  item_id = 7;
  file_id = 3;
  source = source_usenet;
  name = codes "a_b.mp4";
  path = codes "show/a_b.mp4";
  size = pos 900;
  mime_type = codes "video/mp4";
  sync_tag = 5;
}
