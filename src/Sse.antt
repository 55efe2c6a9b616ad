-- ===== src/Sse.antt =====
-- proxy.go: `readSSE`, the reader of a server-sent event stream. The body is the bytes that arrive
-- until the reader reports its end, and how it ends; a callback passes its state explicitly.
-- `strings.TrimSpace` is over ASCII white space.
pub mod RoundTrip
pub mod Invariant
use qoder_model_gateway.Base.{
  ℕ, zero, suc, ◌+◌, ◌-◌, ◌*◌, ◌/◌, ◌%◌, ◌^◌, ◌≤◌, ◌<◌, ◌≡◌, refl, sym, ap, ◌∙◌, ◌≢◌, ◌↔◌, ◌⊎◌, inl,
  inr, Bool, true, false, not, ◌&&◌, ◌||◌, Option, none, some, List, [], ◌∷◌, ◌++◌, map, append-nil,
  append_assoc, arith, ltb, leb, ◌==◌, if◌then◌else◌, ltb→lt, lt→ltb, leb→le, ==_iff, Bool-cases,
  Option-cases, is_some, ◌>>=◌, length, get_elem?, take, drop, replicate, is_nil, get_last?,
  length-append, take-append-drop, length-take, length-drop, length-replicate, take-append_exact,
  drop-append_exact, All, All-append, Text, codes, text_eq, text_eq_iff, text_eq_refl, has_prefix,
  trim_prefix, has_prefix-append, has_suffix, trim_suffix, join, is_space, trim_left, trim_right,
  trim_space,
}

pub record Frame : Type 0 where
  pub event : Text
  pub payload : Text

-- What the callback answers: read on, or stop.
pub data Turn {ℓ} (S : Type ℓ) : Type ℓ where
  go_on : S → Turn S
  halt : S → Turn S

-- How the body ends: at its end, or with a transport error.
pub data Ending : Type 0 where
  eof broken : Ending

-- `closed` is the nil error of `readSSE`.
pub data Outcome : Type 0 where
  closed read_error : Outcome

abbrev pub newline : ℕ
newline = 10

abbrev pub carriage_return : ℕ
carriage_return = 13

-- The results of `ReadString('\n')`, without the newline; a last line may lack it.
unfoldable pub lines_from : Text → Text → List Text
lines_from cur [] = if is_nil cur then [] else cur ∷ []
lines_from cur (c ∷ s) = elim (c == newline) [
  | true ↦ cur ∷ lines_from [] s
  | false ↦ lines_from (cur ++ c ∷ []) s
]

unfoldable pub lines : Text → List Text
unfolding lines_from
lines s = lines_from [] s

abbrev pub is_line_end : ℕ → Bool
is_line_end c = (c == carriage_return) || (c == newline)

pub data LineResult : Type 0 where
  pending : Frame → LineResult
  complete : Frame → LineResult

abbrev pub empty_frame : Frame
empty_frame = record { event = []; payload = [] }

-- `flush`, but for the call of the callback.
unfoldable pub flush : Frame → LineResult
flush f = if is_nil f.payload && is_nil f.event then pending f else complete f

abbrev pub event_field : Text
event_field = codes "event:"

abbrev pub data_field : Text
data_field = codes "data:"

unfoldable pub add_event : Text → Frame → Frame
add_event v f = record f {
  event = (if is_nil f.event then [] else f.event ++ 32 ∷ []) ++ trim_space v;
}

unfoldable pub add_data : Text → Frame → Frame
add_data v f =
    let d = trim_prefix v (codes " ") in
    record f { payload = (if is_nil f.payload then [] else f.payload ++ newline ∷ []) ++ d }

-- One line, without its line end.
unfoldable pub read_field : Text → Frame → LineResult
read_field trim f =
    if is_nil trim
    then flush f
    else if has_prefix trim event_field
    then pending (add_event (trim_prefix trim event_field) f)
    else if has_prefix trim data_field
    then pending (add_data (trim_prefix trim data_field) f)
    else pending f

unfoldable pub read_line : Text → Frame → LineResult
read_line line f = read_field (trim_right is_line_end line) f

module _ {ℓ} {S : Type ℓ} (fn : Frame → S → Turn S) where
  -- The end of the body: a frame that is still pending is handed over only at a proper end.
  unfoldable pub read_end : Ending → Frame → S → S × Outcome
  read_end broken f s = (s, read_error)
  read_end eof f s = elim (flush f) [
    | pending g ↦ (s, closed)
    | complete g ↦ elim (fn g s) [ go_on t ↦ (t, closed) | halt t ↦ (t, closed) ]
  ]

  unfoldable pub read_lines : List Text → Ending → Frame → S → S × Outcome
  read_lines [] e f s = read_end e f s
  read_lines (l ∷ ls) e f s = elim (read_line l f) [
    | pending g ↦ read_lines ls e g s
    | complete g ↦ elim (fn g s) [ go_on t ↦ read_lines ls e empty_frame t | halt t ↦ (t, closed) ]
  ]

  unfoldable pub read_sse : Text → Ending → S → S × Outcome
  read_sse body e s = read_lines (lines body) e empty_frame s

-- The format of every event that the gateway writes: `event: %s\ndata: %s\n\n`.
unfoldable pub write_frame : Frame → Text
write_frame f =
    codes "event: "
    ++ (f.event ++ newline ∷ (codes "data: " ++ (f.payload ++ newline ∷ newline ∷ [])))

unfoldable pub write_frames : List Frame → Text
write_frames [] = []
write_frames (f ∷ fs) = write_frame f ++ write_frames fs
