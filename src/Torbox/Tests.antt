-- ===== src/Torbox/Tests.antt =====
-- The client at concrete replies, and its theorems there.
use warpbox_custom.Prelude.{
  ℕ, min, ◌≡◌, refl, true, some, none, List, [], ◌∷◌, arith, Text, codes, drop, take, pos, Result,
  ok, err,
}
use warpbox_custom.Torbox.{
  Torrent, ApiResponse, Reply, replied, do_request, request_page, page_size_of, list_generic,
  status_error,
}
use warpbox_custom.Torbox.Pages.{list_generic_complete}

abbrev torrent : ℕ → Torrent
torrent n = record {
  id = n;
  name = codes "show";
  download_state = codes "cached";
  download_present = true;
  files = [];
  created_at = codes "2026-01-15T10:30:00Z";
}

abbrev account : List Torrent
account = torrent 1 ∷ torrent 2 ∷ torrent 3 ∷ []

-- A server that writes the offset and the limit into its body, and the decoder that goes with it.
abbrev echo : ℕ → ℕ → Reply
echo o l = replied 200 (o ∷ l ∷ [])

abbrev decode : ℕ → Text → Result Text (ApiResponse (List Torrent))
decode most (o ∷ l ∷ []) =
    ok (record { content = take (min l most) (drop o account); error = none })
decode most _ = err (codes "unexpected end of JSON input")

list_generic_complete_example :
    list_generic 4 (codes "/mylist") (codes "torrents") (decode 2) echo (pos 2) 0
    ≡ some (ok (drop 0 account))
unfolding page_size_of request_page
list_generic_complete_example =
    list_generic_complete account 2 4 0 (pos 2) (codes "/mylist") (codes "torrents") (decode 2) echo
      (λ o l. refl) (omega arith) (omega arith) (omega arith)

rate_limited :
    do_request (codes "GET") (codes "/x") (replied 429 []) ≡ (err (status_error 429), true)
unfolding do_request
rate_limited = refl
