-- ===== src/Document/Tags.antt =====
-- The tags of the outbounds.
use varmlen_cli_linux.Common.{
  ◌≡◌, ◌≢◌, refl, ap, true, false, ◌||◌, Option, none, some, List, [], ◌∷◌, map, arith,
}
use varmlen_cli_linux.Common.Lists.{is_empty, All, All-map}
use varmlen_cli_linux.Common.Text.{Text, text_eq, text_eq_iff}
use varmlen_cli_linux.Common.Json.{Value}
use varmlen_cli_linux.Document.{one_of, tag_of, fresh, fresh_tags}

abbrev pub Distinct : List Text → Type 0
Distinct [] = Unit
Distinct (t ∷ ts) = All (λ other. other ≢ t) ts × Distinct ts

-- Each value has a tag of its own, which is not empty.
abbrev pub AreTagged : List Text → List Value → Type 0
AreTagged tags vs = (map tag_of vs ≡ map some tags) × All (λ t. t ≢ []) tags × Distinct tags

-- A text that is none of these differs from the first, and is none of the others.
pub one_of-ne :
    (tag : Text) (seen : List Text) (t : Text) → (text_eq t tag || one_of seen t) ≡ false → t ≢ tag
one_of-ne tag seen t f = ground (arith, text_eq_iff t tag)

pub one_of_rest :
    (tag : Text) (seen : List Text) (t : Text)
    → (text_eq t tag || one_of seen t) ≡ false
    → one_of seen t ≡ false
one_of_rest tag seen t f = ground arith

pub is_empty-ne : (t : Text) → is_empty t ≡ false → t ≢ []
is_empty-ne [] h = cc
is_empty-ne (c ∷ t) h = λ e. cc

fresh-Distinct :
    (seen : List Text) (os : List (Option Text))
    → fresh seen os ≡ true
    → (tags : List Text) × (os ≡ map some tags)
      × All (λ t. t ≢ []) tags
      × Distinct tags
      × All (λ t. one_of seen t ≡ false) tags
unfolding fresh
fresh-Distinct seen [] h = ([], refl, tt, tt, tt)
fresh-Distinct seen (none ∷ os) h = cc
fresh-Distinct seen (some tag ∷ os) h =
    let (tags, e, full, distinct, outside) = fresh-Distinct (tag ∷ seen) os (ground arith) in
    (
      tag ∷ tags,
      ap (λ r. some tag ∷ r) e,
      (is_empty-ne tag (ground arith), full),
      (All-map _ _ (λ t f. one_of-ne tag seen t f) tags outside, distinct),
      (ground arith, All-map _ _ (λ t f. one_of_rest tag seen t f) tags outside),
    )

pub fresh_tags-AreTagged :
    (vs : List Value) → fresh_tags vs ≡ true → (tags : List Text) × AreTagged tags vs
unfolding fresh_tags
fresh_tags-AreTagged vs h =
    let (tags, e, full, distinct, outside) = fresh-Distinct [] (map tag_of vs) h in
    (tags, (e, full, distinct))
