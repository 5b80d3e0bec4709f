-- ===== src/Server/Links.antt =====
-- The hrefs that internal/server/propfind.go and internal/server/http_browser.go write without
-- percent-encoding, and the path of the request that a client makes for one. What the client and
-- net/http make of an href is an argument: a text that means nothing else in a URL stays as it is.
use warpbox_custom.Prelude.{
  ℕ, ◌≡◌, Bool, true, not, ◌&&◌, ◌||◌, List, [], ◌∷◌, Text, codes, slash, leb, ◌==◌, trim_right,
  text_eq,
}
use warpbox_custom.Metadata.Sync.{split}

-- No control character, and none of "%", "#", "?" and the backslash.
abbrev plain_char : ℕ → Bool
plain_char c = leb 32 c && not (c == 127 || c == b'%' || c == b'#' || c == b'?' || c == b'\\')

unfoldable all_plain : Text → Bool
all_plain [] = true
all_plain (c ∷ s) = let rest = all_plain s in plain_char c && rest

unfoldable no_dots : List Text → Bool
unfolding text_eq
no_dots [] = true
no_dots (p ∷ parts) =
    let rest = no_dots parts in not (text_eq p (codes ".") || text_eq p (codes "..")) && rest

-- Such characters only, no segment of one or two dots, and no space at the end.
unfoldable pub is_plain : Text → Bool
unfolding all_plain no_dots split trim_right text_eq
is_plain s = all_plain s && no_dots (split slash s) && text_eq (trim_right 32 s) s

-- What a client requests for an href.
pub record Follows (request_path : Text → Text) : Type 0 where
  pub plain : (href : Text) → is_plain href ≡ true → request_path href ≡ href
