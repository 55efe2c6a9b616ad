-- ===== src/Sse/RoundTrip.antt =====
-- The reader of proxy.go gives back the frames that the gateway's writers print.
use qoder_model_gateway.Base.{
  ℕ, ◌≡◌, refl, ap, ◌∙◌, Bool, false, List, [], ◌∷◌, ◌++◌, append-nil, append_assoc, arith, is_nil,
  drop-append_exact, All, All-append, Text, codes, has_prefix, trim_prefix, has_prefix-append,
  trim_left, trim_right, trim_space,
}
use mathlib.Core.List.{reverse, reverse-cons, reverse-reverse}
use qoder_model_gateway.Sse.{
  Frame, Turn, go_on, halt, Ending, eof, closed, newline, lines_from, lines, is_line_end, pending,
  complete, empty_frame, flush, event_field, data_field, add_event, add_data, read_field, read_line,
  read_end, read_lines, read_sse, write_frame, write_frames,
}

-- No byte of the text is a line end.
abbrev pub IsLine : Text → Type 0
IsLine = All (λ c. is_line_end c ≡ false)

lines_from_line :
    (l cur s : Text) → IsLine l → lines_from cur (l ++ newline ∷ s) ≡ (cur ++ l) ∷ lines_from [] s
unfolding lines_from
lines_from_line [] cur s h = rw append-nil
lines_from_line (c ∷ l) cur s h =
    ground (arith, lines_from_line l (cur ++ c ∷ []) s h.1, append_assoc cur (c ∷ []) l)

-- A text without line ends is not shortened at its right end.
trim_left_stop : (p : ℕ → Bool) (s : Text) → All (λ c. p c ≡ false) s → trim_left p s ≡ s
unfolding trim_left
trim_left_stop p [] h = refl
trim_left_stop p (c ∷ s) h = rw h.0 refl

All-reverse : (P : ℕ → Type 0) (s : Text) → All P s → All P (reverse s)
All-reverse P [] h = tt
All-reverse P (c ∷ s) h =
    rw (reverse-cons c s) (All-append P (reverse s) (c ∷ []) (All-reverse P s h.1) (h.0, tt))

trim_right_line : (s : Text) → IsLine s → trim_right is_line_end s ≡ s
unfolding trim_right
trim_right_line s h =
    rw (trim_left_stop is_line_end (reverse s) (All-reverse _ s h)) (reverse-reverse s)

trim_prefix-append : (p s : Text) → trim_prefix (p ++ s) p ≡ s
unfolding trim_prefix
trim_prefix-append p s = rw (has_prefix-append p s) (drop-append_exact p s)

-- The event of a frame survives the trimming of its field.
pub record IsEvent (e : Text) : Type 0 where
  pub nonempty : is_nil e ≡ false
  pub one_line : IsLine e
  pub trimmed : trim_space (32 ∷ e) ≡ e

-- The frames that the gateway writes: the payload is one line.
pub record IsPlain (f : Frame) : Type 0 where
  pub event_ok : IsEvent f.event
  pub payload_ok : IsLine f.payload

event_line :
    (e : Text)
    → IsEvent e
    → read_line (codes "event: " ++ e) empty_frame ≡ pending (record { event = e; payload = [] })
unfolding read_line read_field add_event has_prefix
event_line e v =
    rw
      (
        trim_right_line (codes "event: " ++ e)
            (refl, (refl, (refl, (refl, (refl, (refl, (refl, v.one_line))))))),
        trim_prefix-append event_field (32 ∷ e),
        v.trimmed,
      )
      refl

data_line :
    (e d : Text)
    → IsLine d
    → read_line (codes "data: " ++ d) (record { event = e; payload = [] })
      ≡ pending (record { event = e; payload = d })
unfolding read_line read_field add_data has_prefix
data_line e d h =
    rw
      (
        trim_right_line (codes "data: " ++ d) (refl, (refl, (refl, (refl, (refl, (refl, h)))))),
        trim_prefix-append data_field (32 ∷ d),
        trim_prefix-append (codes " ") d,
      )
      refl

blank_line :
    (e d : Text)
    → IsEvent e
    → read_line [] (record { event = e; payload = d })
      ≡ complete (record { event = e; payload = d })
unfolding read_line trim_right trim_left read_field flush
blank_line e d v = ground arith

-- The three lines of a written frame.
lines-write_frame :
    (f : Frame) (s : Text)
    → IsPlain f
    → lines (write_frame f ++ s)
      ≡ (codes "event: " ++ f.event) ∷ (codes "data: " ++ f.payload) ∷ [] ∷ lines s
unfolding lines write_frame
lines-write_frame f s v =
    rw
      (
        append_assoc f.event _ s,
        lines_from_line f.event _ _ v.event_ok.one_line,
        append_assoc f.payload _ s,
        lines_from_line f.payload _ _ v.payload_ok,
      )
      refl

-- Reading a written frame hands it to the callback, and the reader goes on behind it.
pub read_sse-write_frame {ℓ} :
    {S : Type ℓ} (fn : Frame → S → Turn S) (f : Frame) (s : Text) (e : Ending) (st : S)
    → IsPlain f
    → read_sse fn (write_frame f ++ s) e st
      ≡ elim (fn f st) [ go_on t ↦ read_sse fn s e t | halt t ↦ (t, closed) ]
unfolding read_sse read_lines
read_sse-write_frame fn f s e st v = rw (lines-write_frame f s v) (
    rw (event_line f.event v.event_ok, read_lines)
      (rw (data_line f.event f.payload v.payload_ok, read_lines)
        (rw (blank_line f.event f.payload v.event_ok, read_lines) refl)))

unfoldable pub collect : Frame → List Frame → Turn (List Frame)
collect f fs = go_on (fs ++ f ∷ [])

collect_from :
    (fs seen : List Frame)
    → All IsPlain fs
    → read_sse collect (write_frames fs) eof seen ≡ (seen ++ fs, closed)
unfolding write_frames collect
collect_from [] seen h =
    unfold read_sse read_lines read_end lines lines_from flush in rw append-nil refl
collect_from (f ∷ fs) seen h =
    rw (read_sse-write_frame collect f (write_frames fs) eof seen h.0)
      (collect_from fs (seen ++ f ∷ []) h.1 ∙ ap (λ l. (l, closed)) (append_assoc seen (f ∷ []) fs))

-- A reader of the bytes that the gateway writes for a list of frames gets these frames, in order,
-- and then the proper end, if each event name is a nonempty line without outer white space and each
-- payload is one line.
pub read_sse-write_frames :
    (fs : List Frame) → All IsPlain fs → read_sse collect (write_frames fs) eof [] ≡ (fs, closed)
read_sse-write_frames fs h = collect_from fs [] h
