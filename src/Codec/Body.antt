-- ===== src/Codec/Body.antt =====
-- native_body_codec.go: the request body in base64 over its own alphabet, with the outer thirds
-- exchanged. `none` is the error of `Decode`.
pub mod Swap
pub mod RoundTrip
use qoder_model_gateway.Base.{
  ℕ, zero, suc, ◌+◌, ◌-◌, ◌*◌, ◌/◌, ◌%◌, ◌^◌, ◌≤◌, ◌<◌, ◌≡◌, refl, sym, ap, ◌∙◌, ◌≢◌, ◌↔◌, ◌⊎◌, inl,
  inr, Bool, true, false, not, ◌&&◌, ◌||◌, Option, none, some, List, [], ◌∷◌, ◌++◌, map, append-nil,
  append_assoc, arith, ltb, leb, ◌==◌, if◌then◌else◌, ltb→lt, lt→ltb, leb→le, ==_iff, Bool-cases,
  Option-cases, is_some, ◌>>=◌, length, get_elem?, take, drop, replicate, is_nil, get_last?,
  length-append, take-append-drop, length-take, length-drop, length-replicate, take-append_exact,
  drop-append_exact, All, All-append, Text, codes, text_eq, text_eq_iff, text_eq_refl, has_prefix,
  trim_prefix, has_prefix-append, has_suffix, trim_suffix, join, is_space, trim_left, trim_right,
  trim_space,
}
use qoder_model_gateway.Codec.Base64.{Alphabet, has_line_break}
use qoder_model_gateway.Codec.Base64

abbrev pub body_alphabet : Alphabet
body_alphabet = record {
  letters = codes "_doRTgHZBKcGVjlvpC,@aFSx#DPuNJme&i*MzLOEn)sUrthbf%Y^w.(kIQyXqWA!";
  pad = b'$';
}

unfoldable pub swap_outer_thirds : Text → Text
swap_outer_thirds src =
    let n = length src in
    let q = n / 3 in drop (n - q) src ++ (take (n - q - q) (drop q src) ++ take q src)

unfoldable pub encode : Text → Text
encode raw = swap_outer_thirds (Base64.encode body_alphabet raw)

-- The check that only the canonical encoding of a body is accepted.
unfoldable pub canonical : Text → Text → Option Text
canonical encoded decoded = if text_eq (encode decoded) encoded then some decoded else none

unfoldable pub decode : Text → Option Text
decode encoded =
    if has_line_break encoded
    then none
    else Base64.decode body_alphabet (swap_outer_thirds encoded) >>= canonical encoded
