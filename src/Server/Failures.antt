-- ===== src/Server/Failures.antt =====
-- proxy.go: `rememberBody`, `forgetBody` and `dumpFailure`, by which a request that fails leaves its body
-- and its error in the directory for diagnoses. `dumpMu` makes each access of `pending` one step. The
-- directory, whether the system makes it and which files it writes are parameters.
pub mod Own
use qoder_model_gateway.Base.{
  ℕ, zero, suc, ◌+◌, ◌-◌, ◌*◌, ◌/◌, ◌%◌, ◌^◌, ◌≤◌, ◌<◌, ◌≡◌, refl, sym, ap, ◌∙◌, ◌≢◌, ◌↔◌, ◌⊎◌, inl,
  inr, Bool, true, false, not, ◌&&◌, ◌||◌, Option, none, some, List, [], ◌∷◌, ◌++◌, map, append-nil,
  append_assoc, arith, ltb, leb, ◌==◌, if◌then◌else◌, ltb→lt, lt→ltb, leb→le, ==_iff, Bool-cases,
  Option-cases, is_some, ◌>>=◌, length, get_elem?, take, drop, replicate, is_nil, get_last?,
  length-append, take-append-drop, length-take, length-drop, length-replicate, take-append_exact,
  drop-append_exact, All, All-append, Text, codes, text_eq, text_eq_iff, text_eq_refl, has_prefix,
  trim_prefix, has_prefix-append, has_suffix, trim_suffix, join, is_space, trim_left, trim_right,
  trim_space,
}

-- The map by request, a later entry before an earlier one, and the files, the latest write first. A
-- missing entry of the map is `nil`, which no body is.
pub record Failures : Type 0 where
  pub pending : List (Text × Text)
  pub files : List (Text × Text)

unfoldable pub find_body : Text → List (Text × Text) → Option Text
find_body id [] = none
find_body id (x ∷ xs) = let rest = find_body id xs in if text_eq x.0 id then some x.1 else rest

unfoldable pub delete_body : Text → List (Text × Text) → List (Text × Text)
delete_body id [] = []
delete_body id (x ∷ xs) = let rest = delete_body id xs in if text_eq x.0 id then rest else x ∷ rest

-- What a handler does with the body of its request.
pub data Use : Type 0 where
  remember : Text → Text → Use
  forget : Text → Use
  dump : Text → Text → Use

unfoldable pub request_of : Use → Text
request_of (remember id body) = id
request_of (forget id) = id
request_of (dump id msg) = id

-- The path of `filepath.Join`, for a directory whose path is clean. An identifier has more than eight
-- characters, so its slice is no panic.
unfoldable pub base : Text → Text → Text
base dump_dir id = dump_dir ++ codes "/" ++ take 8 id

unfoldable pub write_file : (Text → Bool) → Text → Text → Failures → Failures
write_file write_ok name content s =
    if write_ok name then record s { files = (name, content) ∷ s.files } else s

module _ (mkdir_ok : Bool) (write_ok : Text → Bool) (dump_dir : Text) where
  unfoldable pub remember_body : Text → Text → Failures → Failures
  remember_body id body s =
      if is_nil dump_dir then s else record s { pending = (id, body) ∷ delete_body id s.pending }

  unfoldable pub forget_body : Text → Failures → Failures
  forget_body id s = if is_nil dump_dir then s else record s { pending = delete_body id s.pending }

  unfoldable pub write_failure : Text → Text → Text → Failures → Failures
  write_failure id msg body s =
      if not mkdir_ok
      then s
      else if not (write_ok (base dump_dir id ++ codes ".body.json"))
      then s
      else write_file write_ok (base dump_dir id ++ codes ".error.txt") msg
          (write_file write_ok (base dump_dir id ++ codes ".body.json") body s)

  unfoldable pub dump_failure : Text → Text → Failures → Failures
  dump_failure id msg s =
      if is_nil dump_dir
      then s
      else elim (find_body id s.pending) [ none ↦ s | some body ↦ write_failure id msg body s ]

  unfoldable pub use_body : Use → Failures → Failures
  use_body (remember id body) s = remember_body id body s
  use_body (forget id) s = forget_body id s
  use_body (dump id msg) s = dump_failure id msg s

  unfoldable pub use_bodies : List Use → Failures → Failures
  use_bodies [] s = s
  use_bodies (u ∷ us) s = use_bodies us (use_body u s)
