-- ===== src/Api/Paths.antt =====
-- The paths of requests, as `http.ServeMux` cuts and cleans them: that of `NewServer` in
-- internal/api/server.go redirects a path that is not clean to the clean one.
use cca_go_indexer.Base.{
  ℕ, ◌≡◌, refl, ap, ◌∙◌, Bool, true, false, Option, none, some, ◌&&◌, ◌||◌, not, List, [], ◌∷◌,
  ◌++◌, leb, ◌==◌, if◌then◌else◌, arith, Bool-cases, inl, inr,
}
use cca_go_indexer.Text.{Text, codes, text_eq, text_eq_iff}

-- The parts between the slashes, the part before the first one put first.
abbrev cut : ℕ → List Text → List Text
cut c [] = (c ∷ []) ∷ []
cut c (part ∷ parts) = if c == b'/' then [] ∷ part ∷ parts else (c ∷ part) ∷ parts

unfoldable pub parts : Text → List Text
parts [] = [] ∷ []
parts (c ∷ s) = cut c (parts s)

abbrev is_dot : Text → Bool
is_dot part = text_eq part (codes ".")

abbrev is_dots : Text → Bool
is_dots part = text_eq part (codes "..")

-- `path.Clean` of a path that begins with a slash: the parts that are kept so far, the last one first.
abbrev dropped : List Text → List Text
dropped [] = []
dropped (part ∷ kept) = kept

abbrev keep : Text → List Text → List Text
keep part kept =
    if text_eq part [] || is_dot part
    then kept
    else (if is_dots part then dropped kept else part ∷ kept)

abbrev cleaned : List Text → List Text → List Text
cleaned [] kept = kept
cleaned (part ∷ rest) kept = cleaned rest (keep part kept)

abbrev prepended : List Text → Text → Text
prepended [] s = s
prepended (part ∷ kept) s = prepended kept (b'/' ∷ part ++ s)

abbrev ends_empty : List Text → Bool
ends_empty [] = false
ends_empty (part ∷ []) = text_eq part []
ends_empty (part ∷ next ∷ rest) = ends_empty (next ∷ rest)

-- The slash at the end is put back; the root alone is a slash.
abbrev rooted : List Text → Bool → Text
rooted [] slash = codes "/"
rooted (part ∷ kept) slash = prepended (part ∷ kept) (if slash then codes "/" else [])

abbrev cleaned_path : List Text → Text
cleaned_path ps = rooted (cleaned ps []) (ends_empty ps)

-- What a `ServeMux` redirects to, and whether it does.
unfoldable pub clean_path : Text → Text
unfolding parts
clean_path path = cleaned_path (parts path)

unfoldable pub is_clean : Text → Bool
unfolding clean_path
is_clean path = text_eq (clean_path path) path

-- `/api/v1/auctions/{address}`, where the address is not empty and, as in a clean path, no dots.
unfoldable pub auction_path : List Text → Option Text
auction_path (root ∷ a ∷ b ∷ d ∷ address ∷ []) =
    if text_eq root []
      && (text_eq a (codes "api")
          && (text_eq b (codes "v1")
              && (text_eq d (codes "auctions")
                  && not (text_eq address [] || (is_dot address || is_dots address)))))
    then some address
    else none
auction_path _ = none

-- A path of letters, digits and the signs that need no escape, which begins with a slash.
abbrev is_plain_char : ℕ → Bool
is_plain_char c =
    (leb b'a' c && leb c b'z')
    || (leb b'A' c && leb c b'Z')
    || (leb b'0' c && leb c b'9')
    || ((c == b'/') || (c == b'-') || (c == b'.') || (c == b'_') || (c == b'~'))

abbrev are_plain : Text → Bool
are_plain [] = true
are_plain (c ∷ s) = is_plain_char c && are_plain s

unfoldable pub is_plain : Text → Bool
is_plain [] = false
is_plain (c ∷ s) = (c == b'/') && are_plain s

-- The parts, with a slash before each but the first, are the path.
abbrev slashed : List Text → Text
slashed [] = []
slashed (part ∷ rest) = b'/' ∷ part ++ slashed rest

abbrev joined : List Text → Text
joined [] = []
joined (part ∷ rest) = part ++ slashed rest

cut-joined : (c : ℕ) (ps : List Text) → joined (cut c ps) ≡ c ∷ joined ps
cut-joined c [] = refl
cut-joined c (part ∷ rest) = ground arith

parts-joined : (path : Text) → joined (parts path) ≡ path
unfolding parts
parts-joined [] = refl
parts-joined (c ∷ s) = cut-joined c (parts s) ∙ ap (λ t. c ∷ t) (parts-joined s)

abbrev auction_parts : Text → List Text
auction_parts address = [] ∷ codes "api" ∷ codes "v1" ∷ codes "auctions" ∷ address ∷ []

address-clean :
    (address : Text)
    → text_eq address [] ≡ false
    → is_dot address ≡ false
    → is_dots address ≡ false
    → cleaned_path (auction_parts address) ≡ joined (auction_parts address)
address-clean address h dot dots = rw (h, dot, dots) refl

all_true :
    (a b c d e : Bool)
    → (a && (b && (c && (d && not e)))) ≡ true
    → (a ≡ true) × (b ≡ true) × (c ≡ true) × (d ≡ true) × (e ≡ false)
all_true a b c d e h = ground arith

none_true : (a b c : Bool) → (a || (b || c)) ≡ false → (a ≡ false) × (b ≡ false) × (c ≡ false)
none_true a b c h = ground arith

some_only : (b : Bool) (a e : Text) → (if b then some a else none) ≡ some e → b ≡ true
some_only true a e h = refl
some_only false a e h = cc

joined-clean :
    (ps : List Text) (address : Text) → auction_path ps ≡ some address → cleaned_path ps ≡ joined ps
unfolding auction_path
joined-clean [] address h = cc
joined-clean (r ∷ []) address h = cc
joined-clean (r ∷ a ∷ []) address h = cc
joined-clean (r ∷ a ∷ b ∷ []) address h = cc
joined-clean (r ∷ a ∷ b ∷ d ∷ []) address h = cc
joined-clean (r ∷ a ∷ b ∷ d ∷ e ∷ []) address h =
    let (root, api, v1, auctions, whole) =
      all_true (text_eq r []) (text_eq a (codes "api")) (text_eq b (codes "v1"))
        (text_eq d (codes "auctions")) (text_eq e [] || (is_dot e || is_dots e))
        (some_only _ e address h) in
    let (full, dot, dots) = none_true (text_eq e []) (is_dot e) (is_dots e) whole in
    rw
      (
        (text_eq_iff r []).0 root,
        (text_eq_iff a (codes "api")).0 api,
        (text_eq_iff b (codes "v1")).0 v1,
        (text_eq_iff d (codes "auctions")).0 auctions,
      )
      (address-clean e full dot dots)
joined-clean (r ∷ a ∷ b ∷ d ∷ e ∷ g ∷ ps) address h = cc

-- The path of an auction is clean, and so are those of the probes.
pub auction_path-clean :
    (path address : Text) → auction_path (parts path) ≡ some address → is_clean path ≡ true
unfolding is_clean clean_path
auction_path-clean path address h =
    (text_eq_iff (cleaned_path (parts path)) path).1
      (joined-clean (parts path) address h ∙ parts-joined path)

pub probe-clean :
    (path : Text)
    → (text_eq path (codes "/health") || text_eq path (codes "/ready")) ≡ true
    → is_clean path ≡ true
unfolding is_clean clean_path parts
probe-clean path h = elim (Bool-cases (text_eq path (codes "/health"))) [
  | inl p ↦ rw ((text_eq_iff path (codes "/health")).0 p) refl
  | inr p ↦ elim (Bool-cases (text_eq path (codes "/ready"))) [
    | inl q ↦ rw ((text_eq_iff path (codes "/ready")).0 q) refl
    | inr q ↦ absurd (ground arith)
  ]
]
