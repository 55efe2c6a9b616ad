-- ===== src/Server/Catalog/Usable.antt =====
-- What the entries of a loaded catalogue (main.go) have.
use qoder_model_gateway.Base.{
  ◌≡◌, refl, inl, inr, Bool, true, false, not, ◌&&◌, Option, none, some, List, [], ◌∷◌, ◌++◌, map,
  arith, Bool-cases, Option-cases, is_nil, All, Text, text_eq, is_space, trim_left, trim_right,
  trim_space,
}
use qoder_model_gateway.Model.Config.{ModelConfig}
use qoder_model_gateway.Model.Resolver.{put, put_all}
use qoder_model_gateway.Model.Context.{apply_context_preference, apply_context_preferences}
use qoder_model_gateway.Upstream.{Float64}
use qoder_model_gateway.Server.Catalog.{
  Spec, specs, builtin, Group, builtin_catalog, normalize_entry, is_wanted, merge_entry,
  merge_entries, merge_catalog, base_catalog, load_catalog,
}

-- A key that is not blank, a format and a source, and enabled.
pub record IsUsable (mc : ModelConfig) : Type 0 where
  pub keyed : is_nil (trim_space mc.key) ≡ false
  pub formatted : is_nil mc.format ≡ false
  pub sourced : is_nil mc.source ≡ false
  pub enabled : mc.enable ≡ true

normalize-IsUsable :
    (locked : Bool) (mc : ModelConfig) → is_wanted locked mc ≡ true → IsUsable (normalize_entry mc)
unfolding is_wanted normalize_entry
normalize-IsUsable locked mc h = record {
  keyed = ground (arith, h);
  formatted = ground arith;
  sourced = ground arith;
  enabled = refl;
}

put-All :
    (mc : ModelConfig) (ms : List ModelConfig)
    → IsUsable mc
    → All IsUsable ms
    → All IsUsable (put mc ms)
unfolding put
put-All mc [] h a = (h, tt)
put-All mc (m ∷ ms) h a = elim (Bool-cases (text_eq m.key mc.key)) [
  | inl e ↦ rw (e, put) (h, a.1)
  | inr e ↦ rw (e, put) (a.0, put-All mc ms h a.1)
]

merge_entry-All :
    (locked : Bool) (e : Option ModelConfig) (ms : List ModelConfig)
    → All IsUsable ms
    → All IsUsable (merge_entry locked e ms)
unfolding merge_entry
merge_entry-All locked none ms a = a
merge_entry-All locked (some mc) ms a = elim (Bool-cases (is_wanted locked mc)) [
  | inl h ↦ rw (h, merge_entry) (put-All (normalize_entry mc) ms (normalize-IsUsable locked mc h) a)
  | inr h ↦ rw (h, merge_entry) a
]

merge_entries-All :
    (locked : Bool) (es : Group) (ms : List ModelConfig)
    → All IsUsable ms
    → All IsUsable (merge_entries locked es ms)
unfolding merge_entries
merge_entries-All locked [] ms a = a
merge_entries-All locked (e ∷ es) ms a =
    merge_entries-All locked es (merge_entry locked e ms) (merge_entry-All locked e ms a)

put_all-All :
    (cs ms : List ModelConfig) → All IsUsable cs → All IsUsable ms → All IsUsable (put_all cs ms)
unfolding put_all
put_all-All [] ms c a = a
put_all-All (m ∷ cs) ms c a = put_all-All cs (put m ms) c.1 (put-All m ms c.0 a)

abbrev has_key : Spec → Bool
has_key s = not (is_nil (trim_space s.key))

unfoldable all_keyed : List Spec → Bool
all_keyed [] = true
all_keyed (s ∷ ss) = has_key s && all_keyed ss

builtin-IsUsable : (one : Float64) (s : Spec) → has_key s ≡ true → IsUsable (builtin one s)
unfolding builtin
builtin-IsUsable one s h = record {
  keyed = ground (arith, h);
  formatted = refl;
  sourced = refl;
  enabled = refl;
}

builtin-All :
    (one : Float64) (ss : List Spec) → all_keyed ss ≡ true → All IsUsable (map (builtin one) ss)
unfolding all_keyed
builtin-All one [] h = tt
builtin-All one (s ∷ ss) h =
    let k : has_key s ≡ true = ground (arith, h) in
    let rest : all_keyed ss ≡ true = ground (arith, h) in
    (builtin-IsUsable one s k, builtin-All one ss rest)

specs_keyed : all_keyed specs ≡ true
unfolding all_keyed trim_space trim_left trim_right is_space
specs_keyed = refl

base_catalog-All : (locked : Bool) (one : Float64) → All IsUsable (base_catalog locked one)
unfolding base_catalog builtin_catalog
base_catalog-All true one = tt
base_catalog-All false one = builtin-All one specs specs_keyed

apply-All :
    (ms : List ModelConfig) → All IsUsable ms → All IsUsable (apply_context_preferences ms [])
unfolding apply_context_preferences apply_context_preference
apply-All [] a = tt
apply-All (m ∷ ms) a =
    let u = a.0 in
    let head : IsUsable (apply_context_preference [] m) = record {
      keyed = u.keyed;
      formatted = u.formatted;
      sourced = u.sourced;
      enabled = u.enabled;
    } in
    (head, apply-All ms a.1)

merge_catalog-All :
    (locked : Bool) (ms : List ModelConfig) (g : Group)
    → All IsUsable ms
    → All IsUsable (merge_catalog locked ms g)
unfolding merge_catalog
merge_catalog-All locked ms [] a = a
merge_catalog-All locked ms (e ∷ es) a =
    apply-All _ (merge_entries-All locked (e ∷ es) _ (put_all-All ms [] a tt))

-- Whatever the file or the cache holds, null entries, blank keys and undecodable groups included: every
-- entry of the loaded catalogue has a key that is not blank, a format and a source, and is enabled.
pub load_catalog-IsUsable :
    (locked : Bool) (one : Float64) (decode : Text → Option (Group × Group × Group)) (raw : Text)
    → All IsUsable (load_catalog locked one decode raw)
unfolding load_catalog
load_catalog-IsUsable locked one decode [] = apply-All _ (base_catalog-All locked one)
load_catalog-IsUsable locked one decode (c ∷ raw) = elim (Option-cases (decode (c ∷ raw))) [
  | inl h ↦ rw (h, load_catalog) (apply-All _ (base_catalog-All locked one))
  | inr (g, h) ↦
      rw (h, load_catalog)
        (merge_catalog-All locked (base_catalog locked one) (g.0 ++ (g.1 ++ g.2))
          (base_catalog-All locked one))
]
