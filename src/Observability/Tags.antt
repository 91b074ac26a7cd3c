-- ===== src/Observability/Tags.antt =====
-- internal/observability/observability.go: attributesFromTags against the tags that a list of attributes is.
use quorum_quest.Prelude.{ℕ, suc, ◌+◌, ◌≤◌, String, List, [], ◌∷◌, ◌++◌, ◌≡◌, refl, ap, arith}
use quorum_quest.Observability.{attributes_from_tags}

abbrev pub tags_of : List (String × String) → List String
tags_of [] = []
tags_of ((k, v) ∷ attrs) = k ∷ v ∷ tags_of attrs

-- The attributes that are written as tags, each key before its value, are read back in their order; a
-- last tag that is alone changes nothing.
pub attributes_from_tags-tags_of :
    (attrs : List (String × String)) (tag : String)
    → (attributes_from_tags (tags_of attrs) ≡ attrs)
      × (attributes_from_tags (tags_of attrs ++ (tag ∷ [])) ≡ attrs)
unfolding attributes_from_tags
attributes_from_tags-tags_of [] tag = (refl, refl)
attributes_from_tags-tags_of ((k, v) ∷ attrs) tag =
    let (whole, cut) = attributes_from_tags-tags_of attrs tag in
    (ap (λ bs. (k, v) ∷ bs) whole, ap (λ bs. (k, v) ∷ bs) cut)

abbrev pub size {ℓ} : {A : Type ℓ} → List A → ℕ
size [] = 0
size (x ∷ xs) = suc (size xs)

-- No tag is lost but a last one that is alone.
pub attributes_from_tags-size :
    (tags : List String)
    → let n = size (attributes_from_tags tags) in (n + n ≤ size tags) × (size tags ≤ suc (n + n))
unfolding attributes_from_tags
attributes_from_tags-size [] = ground arith
attributes_from_tags-size (k ∷ []) = ground arith
attributes_from_tags-size (k ∷ v ∷ tags) = ground (arith, attributes_from_tags-size tags)
