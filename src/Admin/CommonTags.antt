-- ===== src/Admin/CommonTags.antt =====
-- `POST_config_common_tags` of admin/admin_server.cc, and `UpdateCommonTag` and `EraseCommonTag` of
-- spectator/registry.cc. The common tags are a map ordered by key.
pub mod Laws
use spectatord.Base.{
  ℕ, ◌≡◌, refl, ap, ◌∙◌, List, [], ◌∷◌, Option, none, some, Bool, true, false, ◌||◌, if◌then◌else◌,
  arith, inl, inr, ◌⊎◌, Option-cases, Bool-cases, subst,
}
use spectatord.CText.{chars, text_eq, strcmp_lt}
use spectatord.CText.Order.{text_eq→eq, text_eq_refl}

abbrev pub CommonTags : Type 0
CommonTags = List (List ℕ × List ℕ)

-- `EraseCommonTag`
unfoldable pub erase_common_tag : CommonTags → List ℕ → CommonTags
erase_common_tag [] k = []
erase_common_tag (tag ∷ tags) k =
    if text_eq tag.0 k then erase_common_tag tags k else tag ∷ erase_common_tag tags k

-- `UpdateCommonTag`: a new key goes where the order has it.
unfoldable pub update_common_tag : CommonTags → List ℕ → List ℕ → CommonTags
update_common_tag [] k v = (k, v) ∷ []
update_common_tag (tag ∷ tags) k v =
    if text_eq tag.0 k
    then (tag.0, v) ∷ tags
    else if strcmp_lt k tag.0
    then (k, v) ∷ tag ∷ tags
    else tag ∷ update_common_tag tags k v

-- What the parser makes of a body. A value of an object is a text, or `none` for what is none.
pub data Json : Type 0 where
  parse_error : Json
  not_an_object : Json
  object : List (List ℕ × Option (List ℕ)) → Json

abbrev pub is_allowed : List (List ℕ) → List ℕ → Bool
is_allowed [] k = false
is_allowed (t ∷ allowed_tags) k = text_eq t k || is_allowed allowed_tags k

-- The first loop: the message of the first entry that is refused.
unfoldable pub refusal : List (List ℕ) → List (List ℕ × Option (List ℕ)) → Option (List ℕ)
refusal allowed_tags [] = none
refusal allowed_tags ((k, none) ∷ entries) =
    if is_allowed allowed_tags k
    then some (chars "tag values must be strings")
    else some (chars "only allowed tags may be set")
refusal allowed_tags ((k, some v) ∷ entries) =
    if is_allowed allowed_tags k
    then refusal allowed_tags entries
    else some (chars "only allowed tags may be set")

abbrev pub set_one : CommonTags → List ℕ → Option (List ℕ) → CommonTags
set_one tags k none = tags
set_one tags k (some []) = erase_common_tag tags k
set_one tags k (some (c ∷ v)) = update_common_tag tags k (c ∷ v)

-- The second loop; the first one has seen that every value is a text.
unfoldable pub set_all : CommonTags → List (List ℕ × Option (List ℕ)) → CommonTags
set_all tags [] = tags
set_all tags (e ∷ entries) = set_all (set_one tags e.0 e.1) entries

abbrev pub answer :
    CommonTags → List (List ℕ × Option (List ℕ)) → Option (List ℕ) → CommonTags × ℕ × List ℕ
answer tags entries (some message) = (tags, 400, message)
answer tags entries none = (set_all tags entries, 200, chars "common tags updated")

-- The tags after the request, its status, and its message.
unfoldable pub set_common_tags : List (List ℕ) → CommonTags → Json → CommonTags × ℕ × List ℕ
set_common_tags allowed_tags tags Json.parse_error = (tags, 400, chars "json parse exception")
set_common_tags allowed_tags tags Json.not_an_object = (tags, 400, chars "expected a json object")
set_common_tags allowed_tags tags (Json.object entries) =
    answer tags entries (refusal allowed_tags entries)

unfoldable pub lookup : CommonTags → List ℕ → Option (List ℕ)
lookup [] k = none
lookup (tag ∷ tags) k = if text_eq tag.0 k then some tag.1 else lookup tags k
