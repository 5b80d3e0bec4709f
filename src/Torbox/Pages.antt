-- ===== src/Torbox/Pages.antt =====
-- Paging through a list endpoint gives the whole list, if the page size is within the server's cap.
use warpbox_custom.Prelude.{
  ℕ, zero, suc, ◌+◌, ◌≤◌, ◌<◌, ◌≡◌, refl, min, some, List, [], ◌++◌, append_assoc, arith, Text,
  length, length-take, length-drop, take, drop, take_all, drop-drop, take-append-drop, Result, ok,
  ap, ◌∙◌, lt→ltb, ℤ, le→ltb, dec_lt,
}
use mathlib.Core.Path.{fun_ext}
use warpbox_custom.Torbox.{
  Torrent, ApiResponse, Reply, list_pages, request_page, page_size_of, list_generic,
}

-- A server that holds `items` and answers with at most `cap` of them.
abbrev pub capped {ℓ} : {A : Type ℓ} → List A → ℕ → ℕ → ℕ → Result Text (List A)
capped items most offset limit = ok (take (min limit most) (drop offset items))

module _ {ℓ} {A : Type ℓ} (page : ℕ → ℕ → Result Text (List A)) (fuel size offset : ℕ)
    (all got : List A) where
  -- A short page ends the list.
  list_pages_short :
      page offset size ≡ ok got
      → length got < size
      → list_pages page (suc fuel) size offset all ≡ some (ok (all ++ got))
  unfolding list_pages
  list_pages_short e h = rw (e, list_pages, lt→ltb _ _ h) refl

  -- A full page is followed by the request for the next.
  list_pages_full :
      page offset size ≡ ok got
      → size ≤ length got
      → list_pages page (suc fuel) size offset all
        ≡ list_pages page fuel size (offset + length got) (all ++ got)
  unfolding list_pages
  list_pages_full e h = rw (e, list_pages, le→ltb _ _ h) refl

module _ {ℓ} {A : Type ℓ} (items : List A) (most size : ℕ) (within : size ≤ most)
    (some_size : 0 < size) where
  -- With a page size within the cap, and a round of fuel more than there are items, the pages are
  -- put together to all items from the offset on, in order.
  pub list_pages_complete :
      (fuel offset : ℕ) (all : List A)
      → length items < fuel + offset
      → offset ≤ length items
      → list_pages (capped items most) fuel size offset all ≡ some (ok (all ++ drop offset items))
  unfolding list_pages
  list_pages_complete zero offset all f o = absurd (omega arith)
  list_pages_complete (suc fuel) offset all f o =
      let rest = drop offset items in
      let whole : min size most ≡ size = omega arith in
      let left = length-drop offset items in
      elim (dec_lt (length rest) size) [
        | yes short ↦
            let got : take (min size most) rest ≡ rest =
              take_all (min size most) rest (omega arith) in
            list_pages_short (capped items most) fuel size offset all rest (ap ok got) short
        | no long ↦
            let full : length (take size rest) ≡ size = omega (arith, length-take size rest) in
            list_pages_full (capped items most) fuel size offset all (take size rest)
              (ap (λ k. ok (take k rest)) whole) (omega arith)
            ∙ rw full (
                list_pages_complete fuel (offset + size) (all ++ take size rest) (omega arith)
                  (omega arith)
                ∙ ap (λ (l : List A). some (ok l))
                    (append_assoc all (take size rest) (drop (offset + size) items)
                      ∙ ap (λ (l : List A). all ++ l)
                          (rw (← drop-drop size offset items) (take-append-drop size rest))))
      ]

-- With a page size above the cap of a server that holds more items than its cap behind the offset,
-- only the first page is returned: the items behind it are lost.
list_pages-capped {ℓ} :
    {A : Type ℓ} (items : List A) (most size fuel offset : ℕ)
    → most < size
    → list_pages (capped items most) (suc fuel) size offset []
      ≡ some (ok (take most (drop offset items)))
unfolding list_pages
list_pages-capped items most size fuel offset h =
    let whole : min size most ≡ most = omega arith in
    let short : length (take most (drop offset items)) < size =
      omega (arith, length-take most (drop offset items)) in
    list_pages_short (capped items most) fuel size offset [] (take most (drop offset items))
      (ap (λ k. ok (take k (drop offset items))) whole) short

page_size_of-pos : (n : ℤ) → 0 < page_size_of n
unfolding page_size_of
page_size_of-pos n = ground arith

-- Against a server that answers each request with at most `most` of the items behind the offset,
-- where the page size in use is within that cap, `listGeneric` returns all items from the offset
-- on, in order; a round more than there are items is fuel enough.
pub list_generic_complete :
    (items : List Torrent) (most fuel offset : ℕ) (page_size : ℤ) (endpoint label : Text)
    (decode : Text → Result Text (ApiResponse (List Torrent))) (server : ℕ → ℕ → Reply)
    → ((o l : ℕ)
        → request_page endpoint label decode (server o l) ≡ ok (take (min l most) (drop o items)))
    → page_size_of page_size ≤ most
    → length items < fuel + offset
    → offset ≤ length items
    → list_generic fuel endpoint label decode server page_size offset
      ≡ some (ok (drop offset items))
unfolding list_generic
list_generic_complete items most fuel offset page_size endpoint label decode server answers w f o =
    rw
      (fun_ext {f = λ o l. request_page endpoint label decode (server o l)} {g = capped items most}
        (λ o. fun_ext (answers o)))
      (list_pages_complete items most (page_size_of page_size) w (page_size_of-pos page_size) fuel
        offset [] f o)

-- Against a server whose cap is below the page size in use, `listGeneric` returns only the first
-- `most` items from the offset on, whatever lies behind them.
list_generic_truncated :
    (items : List Torrent) (most fuel offset : ℕ) (page_size : ℤ) (endpoint label : Text)
    (decode : Text → Result Text (ApiResponse (List Torrent))) (server : ℕ → ℕ → Reply)
    → ((o l : ℕ)
        → request_page endpoint label decode (server o l) ≡ ok (take (min l most) (drop o items)))
    → most < page_size_of page_size
    → list_generic (suc fuel) endpoint label decode server page_size offset
      ≡ some (ok (take most (drop offset items)))
unfolding list_generic
list_generic_truncated items most fuel offset page_size endpoint label decode server answers w =
    rw
      (fun_ext {f = λ o l. request_page endpoint label decode (server o l)} {g = capped items most}
        (λ o. fun_ext (answers o)))
      (list_pages-capped items most (page_size_of page_size) fuel offset w)
