-- ===== src/Request/Marker.antt =====
-- convert.go: `ensureCacheMarker`, which works on the messages in place.
pub mod Laws
use qoder_model_gateway.Base.{
  ℕ, zero, suc, ◌+◌, ◌-◌, ◌*◌, ◌/◌, ◌%◌, ◌^◌, ◌≤◌, ◌<◌, ◌≡◌, refl, sym, ap, ◌∙◌, ◌≢◌, ◌↔◌, ◌⊎◌, inl,
  inr, Bool, true, false, not, ◌&&◌, ◌||◌, Option, none, some, List, [], ◌∷◌, ◌++◌, map, append-nil,
  append_assoc, arith, ltb, leb, ◌==◌, if◌then◌else◌, ltb→lt, lt→ltb, leb→le, ==_iff, Bool-cases,
  Option-cases, is_some, ◌>>=◌, length, get_elem?, take, drop, replicate, is_nil, get_last?,
  length-append, take-append-drop, length-take, length-drop, length-replicate, take-append_exact,
  drop-append_exact, All, All-append, Text, codes, text_eq, text_eq_iff, text_eq_refl, has_prefix,
  trim_prefix, has_prefix-append, has_suffix, trim_suffix, join, is_space, trim_left, trim_right,
  trim_space,
}
use qoder_model_gateway.Request.Message.{
  CacheControl, UpPart, UpMessage, tool, text_type, image_type,
}

unfoldable pub cacheable_part : Text → Bool
cacheable_part t = text_eq t text_type || text_eq t image_type

abbrev pub ephemeral : CacheControl
ephemeral = record { type = codes "ephemeral" }

abbrev pub is_marked : UpPart → Bool
is_marked p = is_some p.cache_control

unfoldable pub any_marked : List UpPart → Bool
any_marked [] = false
any_marked (p ∷ ps) = is_marked p || any_marked ps

unfoldable pub has_marker : List UpMessage → Bool
has_marker [] = false
has_marker (m ∷ ms) = any_marked m.contents || has_marker ms

-- The last cacheable part gets the marker; `none` when there is none.
unfoldable pub mark_parts : List UpPart → Option (List UpPart)
mark_parts [] = none
mark_parts (p ∷ ps) = elim (mark_parts ps) [
  | some qs ↦ some (p ∷ qs)
  | none ↦
      if cacheable_part p.type
      then some (record p { cache_control = some ephemeral } ∷ ps)
      else none
]

unfoldable pub mark_message : UpMessage → Option UpMessage
mark_message m =
    if text_eq m.role tool
    then none
    else elim (mark_parts m.contents) [ none ↦ none | some ps ↦ some (record m { contents = ps }) ]

-- The last message that takes the marker gets it.
unfoldable pub mark_last : List UpMessage → Option (List UpMessage)
mark_last [] = none
mark_last (m ∷ ms) = elim (mark_last ms) [
  | some rest ↦ some (m ∷ rest)
  | none ↦ elim (mark_message m) [ none ↦ none | some n ↦ some (n ∷ ms) ]
]

unfoldable pub ensure_cache_marker : List UpMessage → List UpMessage
ensure_cache_marker ms =
    if has_marker ms then ms else elim (mark_last ms) [ none ↦ ms | some ns ↦ ns ]
