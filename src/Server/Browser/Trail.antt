-- ===== src/Server/Browser/Trail.antt =====
-- Where the trail of links on a page leads.
use warpbox_custom.Prelude.{
  ◌≡◌, refl, sym, ap, ◌∙◌, subst, inl, inr, true, false, Bool-cases, List, [], ◌∷◌, ◌++◌,
  append_assoc, append-nil, Text, codes, slash, le→ltb, arith, Lacks, All, is_empty, trim_prefix,
  trim_prefix-append, trim_right, trim_right-append, trim_right-end, trim_right-Lacks, ◌==◌,
}
use mathlib.Core.List.{head-eq_of_cons-eq, tail-eq_of_cons-eq}
use warpbox_custom.Metadata.Sync.{split}
use warpbox_custom.Server.Links.{Follows, is_plain}
use warpbox_custom.Server.Routing.Mounts.{trim_slash}
use warpbox_custom.Server.Browser.{count_of, raw_virtual_path}
use warpbox_custom.Server.Browser.Page.{Breadcrumb, crumb_of, root_crumb, crumb_loop, breadcrumbs}

-- The parts of a path between its slashes, none of them empty.
abbrev Part : Text → Type 0
Part p = (is_empty p ≡ false) × Lacks slash p

-- A slash and a part, for each part.
abbrev joined : List Text → Text
joined [] = []
joined (p ∷ parts) = slash ∷ (p ++ joined parts)

split_cons :
    (s : Text)
    → (part : Text) × (parts : List Text) × (split slash s ≡ part ∷ parts)
      × All (Lacks slash) (part ∷ parts)
unfolding split
split_cons [] = ([], [], refl, (tt, tt))
split_cons (x ∷ s) =
    let (part, parts, e, lacks) = split_cons s in
    elim (Bool-cases (x == slash)) [
      | inl t ↦ ([], split slash s, rw t refl, (tt, subst (All (Lacks slash)) (sym e) lacks))
      | inr f ↦ (x ∷ part, parts, rw (f, e) refl, ((f, lacks.0), lacks.1))
    ]

split-Lacks : (s : Text) → All (Lacks slash) (split slash s)
split-Lacks s =
    let (part, parts, e, lacks) = split_cons s in subst (All (Lacks slash)) (sym e) lacks

split_part : (p : Text) → Lacks slash p → split slash p ≡ p ∷ []
unfolding split
split_part [] h = refl
split_part (x ∷ p) (h, rest) = rw (h, split_part p rest) refl

split_slash : (p s : Text) → Lacks slash p → split slash (p ++ slash ∷ s) ≡ p ∷ split slash s
unfolding split
split_slash [] s h = refl
split_slash (x ∷ p) s (h, rest) = rw (h, split_slash p s rest) refl

split-joined :
    (p : Text) (parts : List Text)
    → Lacks slash p
    → All Part parts
    → split slash (p ++ joined parts) ≡ p ∷ parts
split-joined p [] h all = ap (split slash) (append-nil p) ∙ split_part p h
split-joined p (q ∷ parts) h (part, all) =
    split_slash p (q ++ joined parts) h ∙ ap (λ l. p ∷ l) (split-joined q parts part.1 all)

full : (p : Text) (parts : List Text) → Part p → is_empty (p ++ joined parts) ≡ false
full [] parts part = cc (part.0)
full (x ∷ p) parts part = refl

trim_right-joined :
    (p : Text) (parts : List Text)
    → Part p
    → All Part parts
    → trim_right slash (p ++ joined parts) ≡ p ++ joined parts
trim_right-joined p [] part all =
    ap (trim_right slash) (append-nil p) ∙ trim_right-Lacks slash p part.1 ∙ sym (append-nil p)
trim_right-joined p (q ∷ parts) part (next, all) =
    trim_right-append slash p (slash ∷ (q ++ joined parts)) refl (
      trim_right-append slash (slash ∷ []) (q ++ joined parts) (full q parts next)
        (trim_right-joined q parts next all))

-- The link of a crumb, behind the root, leads to the parts up to it.
raw-crumb :
    (p : Text) (parts : List Text)
    → Part p
    → All Part parts
    → raw_virtual_path (codes "/http" ++ joined (p ∷ parts) ++ slash ∷ []) ≡ p ++ joined parts
unfolding raw_virtual_path count_of
raw-crumb p parts part all =
    rw (raw_virtual_path, trimmed, le→ltb (count_of slash (codes "/http/" ++ body)) 2 (omega arith))
      (ap (λ q. trim_prefix q (slash ∷ [])) (trim_prefix-append (codes "/http") (slash ∷ body))
        ∙ trim_slash body)
  where
    body : Text
    body = p ++ joined parts

    trimmed : trim_right slash (codes "/http/" ++ (body ++ slash ∷ [])) ≡ codes "/http/" ++ body
    trimmed =
        trim_right-end slash (codes "/http/" ++ body)
        ∙ trim_right-append slash (codes "/http/") body (full p parts part)
            (trim_right-joined p parts part all)

raw-root : breadcrumbs (raw_virtual_path (codes "/http/")) ≡ root_crumb ∷ []
unfolding breadcrumbs raw_virtual_path split count_of trim_right trim_prefix crumb_loop
raw-root = refl

-- A crumb of the loop, the parts up to it, and the trail of those parts.
up_to :
    (accum : Text) (parts : List Text) (front back : List Breadcrumb) (c : Breadcrumb)
    → All (Lacks slash) parts
    → crumb_loop accum parts ≡ front ++ c ∷ back
    → (p : Text) × (segments : List Text) × Part p
      × All Part segments
      × (c.href ≡ codes "/http" ++ (accum ++ joined (p ∷ segments)) ++ slash ∷ [])
      × (crumb_loop accum (p ∷ segments) ≡ front ++ c ∷ [])
unfolding crumb_loop
up_to accum [] [] back c lacks e = cc (e)
up_to accum [] (f ∷ front) back c lacks e = cc (e)
up_to accum (p ∷ parts) [] back c (lack, lacks) e = elim (Bool-cases (is_empty p)) [
  | inl t ↦ up_to accum parts [] back c lacks (rw (crumb_loop, t) at e)
  | inr f ↦
      let e' : crumb_of (accum ++ slash ∷ p) p ∷ crumb_loop (accum ++ slash ∷ p) parts ≡ c ∷ back =
        rw (crumb_loop, f) at e in
      let same = head-eq_of_cons-eq e' in
      (
        p,
        [],
        (f, lack),
        tt,
        ap (λ (k : Breadcrumb). k.href) (sym same)
            ∙ ap (λ q. codes "/http" ++ (accum ++ slash ∷ q) ++ slash ∷ []) (sym (append-nil p)),
        rw (crumb_loop, f) (ap (λ k. k ∷ []) same),
      )
]
up_to accum (p ∷ parts) (first ∷ front) back c (lack, lacks) e = elim (Bool-cases (is_empty p)) [
  | inl t ↦ up_to accum parts (first ∷ front) back c lacks (rw (crumb_loop, t) at e)
  | inr f ↦
      let e' : crumb_of (accum ++ slash ∷ p) p ∷ crumb_loop (accum ++ slash ∷ p) parts
          ≡ first ∷ (front ++ c ∷ back) =
        rw (crumb_loop, f) at e in
      let (q, segments, part, all, href, trail) =
        up_to (accum ++ slash ∷ p) parts front back c lacks (tail-eq_of_cons-eq e') in
      (
        p,
        q ∷ segments,
        (f, lack),
        (part, all),
        href
            ∙ ap (λ (path : Text). codes "/http" ++ path ++ slash ∷ [])
                (append_assoc accum (slash ∷ p) (joined (q ∷ segments))),
        rw (crumb_loop, f)
            (ap (λ k. k ∷ crumb_loop (accum ++ slash ∷ p) (q ∷ segments)) (head-eq_of_cons-eq e')
              ∙ ap (λ l. first ∷ l) trail),
      )
]

trail-raw_virtual_path :
    (raw : Text) (front back : List Breadcrumb) (c : Breadcrumb)
    → breadcrumbs raw ≡ front ++ c ∷ back
    → breadcrumbs (raw_virtual_path c.href) ≡ front ++ c ∷ []
unfolding breadcrumbs
trail-raw_virtual_path raw [] back c e =
    let same : root_crumb ≡ c = head-eq_of_cons-eq e in
    subst (λ (k : Breadcrumb). breadcrumbs (raw_virtual_path k.href) ≡ k ∷ []) same raw-root
trail-raw_virtual_path raw (first ∷ front) back c e =
    let (p, segments, part, all, href, trail) =
      up_to [] (split slash raw) front back c (split-Lacks raw) (tail-eq_of_cons-eq e) in
    ap (λ path. breadcrumbs (raw_virtual_path path)) href
    ∙ ap breadcrumbs (raw-crumb p segments part all)
    ∙ ap (λ parts. root_crumb ∷ crumb_loop [] parts) (split-joined p segments part.1 all)
    ∙ ap (λ l. root_crumb ∷ l) trail
    ∙ ap (λ k. k ∷ (front ++ c ∷ [])) (head-eq_of_cons-eq e)

-- In the trail of any path, if the href of a crumb has no character that means something else in a
-- URL: the path that `handleHTTP` takes from a request for it has the trail up to that crumb.
pub breadcrumbs-raw_virtual_path :
    (request_path : Text → Text) (raw : Text) (front back : List Breadcrumb) (c : Breadcrumb)
    → Follows request_path
    → breadcrumbs raw ≡ front ++ c ∷ back
    → is_plain c.href ≡ true
    → breadcrumbs (raw_virtual_path (request_path c.href)) ≡ front ++ c ∷ []
breadcrumbs-raw_virtual_path request_path raw front back c follows e plain =
    ap (λ path. breadcrumbs (raw_virtual_path path)) (follows.plain c.href plain)
    ∙ trail-raw_virtual_path raw front back c e
