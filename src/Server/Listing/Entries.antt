-- ===== src/Server/Listing/Entries.antt =====
-- What `appendResponse` keeps: no href is listed twice, and none is lost.
use warpbox_custom.Prelude.{
  ℕ, ◌≡◌, ◌≤◌, refl, sym, ap, ◌∙◌, subst, ◌⊎◌, inl, inr, Bool, true, false, ◌||◌, some, List, [],
  ◌∷◌, ◌++◌, map, Text, ℤ, length, arith, text_eq, text_eq_refl, text_eq→eq, Bool-cases, le→ltb,
}
use mathlib.Core.List.{Memᴰ}
use mathlib.Core.List.Memᴰ
use warpbox_custom.Server.Listing.{
  Clock, parsed_or_now, format_last_modified, Response, Listed, is_listed, response_for,
  append_response,
}

-- A time that is empty, or long enough to be sliced.
abbrev pub Dated : Text → Type 0
Dated created_at = (created_at ≡ []) ⊎ (19 ≤ length created_at)

format_last_modified-Dated :
    (clock : Clock) (k : ℕ) (created_at : Text)
    → Dated created_at
    → (modified : Text) × (format_last_modified clock k created_at ≡ some modified)
unfolding format_last_modified
format_last_modified-Dated clock k created_at (inl e) = (clock.now k, rw e refl)
format_last_modified-Dated clock k [] (inr h) = (clock.now k, refl)
format_last_modified-Dated clock k (c ∷ created_at) (inr h) =
    (parsed_or_now clock k (c ∷ created_at), rw (le→ltb (length (c ∷ created_at)) 19 h) refl)

-- No text stands twice.
abbrev pub Distinct : List Text → Type 0
Distinct [] = Unit
Distinct (h ∷ hs) = (is_listed h hs ≡ false) × Distinct hs

pub text_eq_sym : (a b : Text) → text_eq a b ≡ text_eq b a
text_eq_sym a b = elim (Bool-cases (text_eq a b)) [
  | inl t ↦ let e = text_eq→eq a b t in rw e refl
  | inr f ↦ elim (Bool-cases (text_eq b a)) [
    | inr g ↦ f ∙ sym g
    | inl t ↦ let e = text_eq→eq b a t in rw e refl
  ]
]

is_listed-append :
    (h k : Text) (hs : List Text) → is_listed h (hs ++ k ∷ []) ≡ (text_eq k h || is_listed h hs)
unfolding is_listed
is_listed-append h k [] = refl
is_listed-append h k (j ∷ hs) =
    rw (is_listed-append h k hs) (swap (text_eq j h) (text_eq k h) (is_listed h hs))
  where
    swap : (a b c : Bool) → (a || (b || c)) ≡ (b || (a || c))
    swap a b c = ground arith

pub Distinct-append :
    (k : Text) (hs : List Text) → Distinct hs → is_listed k hs ≡ false → Distinct (hs ++ k ∷ [])
unfolding is_listed
Distinct-append k [] d h = (refl, tt)
Distinct-append k (j ∷ hs) (out, d) h =
    let parts = or_false (text_eq j k) (is_listed k hs) h in
    (
      is_listed-append j k hs ∙ rw (text_eq_sym k j, parts.0, out) refl,
      Distinct-append k hs d parts.1,
    )
  where
    or_false : (a b : Bool) → (a || b) ≡ false → (a ≡ false) × (b ≡ false)
    or_false a b e = ground arith

abbrev pub hrefs : List Response → List Text
hrefs = map λ r. r.href

hrefs-append : (rs : List Response) (r : Response) → hrefs (rs ++ r ∷ []) ≡ hrefs rs ++ r.href ∷ []
hrefs-append [] r = refl
hrefs-append (s ∷ rs) r = ap (λ hs. s.href ∷ hs) (hrefs-append rs r)

-- The hrefs are distinct, and `seen` holds them.
pub record Inv (l : Listed) : Type 0 where
  pub distinct : Distinct (hrefs l.responses)
  pub agrees : (h : Text) → is_listed h l.seen ≡ is_listed h (hrefs l.responses)

-- What comes of a listing by more entries, which all satisfy `P`.
pub record Extends (P : Response → Type 0) (l l' : Listed) : Type 0 where
  pub inv : Inv l → Inv l'
  pub sound :
      ((r : Response) → Memᴰ r l.responses → P r) → (r : Response) → Memᴰ r l'.responses → P r
  pub keeps : (h : Text) → is_listed h l.seen ≡ true → is_listed h l'.seen ≡ true

pub Extends-refl : (P : Response → Type 0) (l : Listed) → Extends P l l
Extends-refl P l = record { inv = λ i. i; sound = λ f. f; keeps = λ h e. e }

pub Extends-trans :
    (P : Response → Type 0) (l m n : Listed) → Extends P l m → Extends P m n → Extends P l n
Extends-trans P l m n a b = record {
  inv = λ i. b.inv (a.inv i);
  sound = λ f. b.sound (a.sound f);
  keeps = λ h e. b.keeps h (a.keeps h e);
}

-- The listing with an entry that was not there.
new_lem :
    (P : Response → Type 0) (r : Response) (l : Listed)
    → is_listed r.href l.seen ≡ false
    → P r
    → Extends P l (record { responses = l.responses ++ r ∷ []; seen = r.href ∷ l.seen })
unfolding is_listed
new_lem P r l f p = record {
  inv = λ i. record {
    distinct =
        subst Distinct (sym (hrefs-append l.responses r))
          (Distinct-append r.href (hrefs l.responses) i.distinct (sym (i.agrees r.href) ∙ f));
    agrees = λ h.
        ap (λ b. text_eq r.href h || b) (i.agrees h)
        ∙ sym (
            ap (is_listed h) (hrefs-append l.responses r)
            ∙ is_listed-append h r.href (hrefs l.responses));
  };
  sound = λ old s m. elim (Memᴰ.append_cases l.responses m) [
    | inl there ↦ old s there
    | inr last ↦ subst P (sym (Memᴰ.eq_of_singleton last)) p
  ];
  keeps = λ h e. rw e (or_true (text_eq r.href h));
}
  where
    or_true : (a : Bool) → (a || true) ≡ true
    or_true a = ground arith

pub response_for-href :
    (href : Text) (is_dir : Bool) (size : ℤ) (name mime modified : Text)
    → (response_for href is_dir size name mime modified).href ≡ href
unfolding response_for
response_for-href href true size name mime modified = refl
response_for-href href false size name mime modified = refl

module _ (clock : Clock) (P : Response → Type 0) where
  -- An entry is appended, or was there.
  pub append_response-Extends :
      (href : Text) (is_dir : Bool) (size : ℤ) (name mime created_at : Text) (l : Listed)
      → Dated created_at
      → ((modified : Text) → P (response_for href is_dir size name mime modified))
      → (l' : Listed) × (append_response clock href is_dir size name mime created_at l ≡ some l')
        × Extends P l l'
        × (is_listed href l'.seen ≡ true)
  unfolding append_response is_listed
  append_response-Extends href is_dir size name mime created_at l d p =
      elim (Bool-cases (is_listed href l.seen)) [
        | inl t ↦ (l, rw t refl, Extends-refl P l, t)
        | inr f ↦
            let (modified, e) =
              format_last_modified-Dated clock (length l.responses) created_at d in
            (
              record {
                responses = l.responses ++ response_for href is_dir size name mime modified ∷ [];
                seen = href ∷ l.seen;
              },
              rw (f, e) refl,
              subst
                  (λ h. Extends P l (record {
                    responses =
                        l.responses ++ response_for href is_dir size name mime modified ∷ [];
                    seen = h ∷ l.seen;
                  }))
                  (response_for-href href is_dir size name mime modified)
                  (new_lem P (response_for href is_dir size name mime modified) l
                    (ap (λ h. is_listed h l.seen)
                        (response_for-href href is_dir size name mime modified)
                      ∙ f)
                    (p modified)),
              rw (text_eq_refl href) refl,
            )
      ]
