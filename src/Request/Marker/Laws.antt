-- ===== src/Request/Marker/Laws.antt =====
-- What `ensureCacheMarker` of convert.go does to a prompt.
use qoder_model_gateway.Base.{
  ℕ, ◌+◌, ◌≡◌, refl, ap, ◌⊎◌, inl, inr, Bool, true, false, not, ◌&&◌, ◌||◌, none, some, List, [],
  ◌∷◌, map, arith, ltb, ◌==◌, if◌then◌else◌, Bool-cases, codes, text_eq,
}
use qoder_model_gateway.Request.Message.{UpPart, UpMessage, tool}
use qoder_model_gateway.Request.Marker.{
  cacheable_part, ephemeral, is_marked, any_marked, has_marker, mark_parts, mark_message, mark_last,
  ensure_cache_marker,
}

-- How many parts of a prompt carry a marker.
unfoldable marks : List UpPart → ℕ
marks [] = 0
marks (p ∷ ps) = (if is_marked p then 1 else 0) + marks ps

unfoldable pub markers : List UpMessage → ℕ
unfolding marks
markers [] = 0
markers (m ∷ ms) = marks m.contents + markers ms

-- Whether a part of a message may carry the marker.
unfoldable any_cacheable : List UpPart → Bool
any_cacheable [] = false
any_cacheable (p ∷ ps) = cacheable_part p.type || any_cacheable ps

unfoldable pub has_place : List UpMessage → Bool
unfolding any_cacheable
has_place [] = false
has_place (m ∷ ms) = (not (text_eq m.role tool) && any_cacheable m.contents) || has_place ms

-- The first marked part can take a marker, it carries an ephemeral one, and no part after it could take one.
unfoldable marked_last : List UpPart → Bool
unfolding any_cacheable
marked_last [] = false
marked_last (p ∷ ps) = elim p.cache_control [
  | none ↦ marked_last ps
  | some c ↦ text_eq c.type (codes "ephemeral") && (cacheable_part p.type && not (any_cacheable ps))
]

-- The marker stands in the last place of a prompt, if there is a place.
unfoldable pub marker_at_end : List UpMessage → Bool
unfolding marked_last
marker_at_end [] = true
marker_at_end (m ∷ ms) =
    if any_marked m.contents
    then not (text_eq m.role tool) && (marked_last m.contents && not (has_place ms))
    else marker_at_end ms

-- A prompt without its markers.
abbrev unmark_part : UpPart → UpPart
unmark_part p = record p { cache_control = none }

abbrev unmark_message : UpMessage → UpMessage
unmark_message m = record m { contents = map unmark_part m.contents }

abbrev pub unmark : List UpMessage → List UpMessage
unmark = map unmark_message

marks_lem : (ps : List UpPart) → any_marked ps ≡ ltb 0 (marks ps)
unfolding any_marked marks
marks_lem [] = refl
marks_lem (p ∷ ps) = ground (arith, marks_lem ps)

markers_lem : (ms : List UpMessage) → has_marker ms ≡ ltb 0 (markers ms)
unfolding has_marker markers
markers_lem [] = refl
markers_lem (m ∷ ms) = ground (arith, marks_lem m.contents, markers_lem ms)

-- What marking the parts gives.
record IsMarked (ps qs : List UpPart) : Type 0 where
  one : marks qs ≡ marks ps + 1
  same : map unmark_part qs ≡ map unmark_part ps
  at_end : marked_last qs ≡ true

mark_parts_lem :
    (ps : List UpPart)
    → marks ps ≡ 0
    → ((mark_parts ps ≡ none) × (any_cacheable ps ≡ false))
      ⊎ ((qs : List UpPart) × (mark_parts ps ≡ some qs)
          × (any_cacheable ps ≡ true)
          × IsMarked ps qs)
unfolding mark_parts any_cacheable marks marked_last text_eq
mark_parts_lem [] h = inl (refl, refl)
mark_parts_lem (p ∷ ps) h = elim (mark_parts_lem ps (ground (arith, h))) [
  | inr (qs, e, c, v) ↦ rw e (
      inr (
        p ∷ qs,
        refl,
        ground (arith, c),
        record {
          one = ground (arith, v.one);
          same = ap (◌∷◌ (unmark_part p)) v.same;
          at_end = ground (arith, h, v.at_end);
        },
      ))
  | inl (e, c) ↦ elim (Bool-cases (cacheable_part p.type)) [
    | inl k ↦
        rw (e, k)
          (inr (
            record p { cache_control = some ephemeral } ∷ ps,
            refl,
            refl,
            record { one = ground (arith, h); same = refl; at_end = rw (k, c) refl },
          ))
    | inr k ↦ rw (e, k, c) (inl (refl, refl))
  ]
]

record IsMarkedMessage (m n : UpMessage) : Type 0 where
  one : marks n.contents ≡ marks m.contents + 1
  same : unmark_message n ≡ unmark_message m
  at_end : (not (text_eq n.role tool) && marked_last n.contents) ≡ true

mark_message_lem :
    (m : UpMessage)
    → marks m.contents ≡ 0
    → ((mark_message m ≡ none) × ((not (text_eq m.role tool) && any_cacheable m.contents) ≡ false))
      ⊎ ((n : UpMessage) × (mark_message m ≡ some n)
          × ((not (text_eq m.role tool) && any_cacheable m.contents) ≡ true)
          × IsMarkedMessage m n)
unfolding mark_message
mark_message_lem m h = elim (Bool-cases (text_eq m.role tool)) [
  | inl t ↦ rw t (inl (refl, refl))
  | inr t ↦ elim (mark_parts_lem m.contents h) [
    | inl (e, c) ↦ rw (t, e, c) (inl (refl, refl))
    | inr (ps, e, c, v) ↦
        rw (t, e, c)
          (inr (
            record m { contents = ps },
            refl,
            refl,
            record {
              one = v.one;
              same = ap (λ x. record m { contents = x }) v.same;
              at_end = rw (t, v.at_end) refl;
            },
          ))
  ]
]

record IsMarkedPrompt (ms ns : List UpMessage) : Type 0 where
  one : markers ns ≡ markers ms + 1
  same : unmark ns ≡ unmark ms
  at_end : marker_at_end ns ≡ true

mark_last_lem :
    (ms : List UpMessage)
    → markers ms ≡ 0
    → ((mark_last ms ≡ none) × (has_place ms ≡ false))
      ⊎ ((ns : List UpMessage) × (mark_last ms ≡ some ns)
          × (has_place ms ≡ true)
          × IsMarkedPrompt ms ns)
unfolding mark_last has_place markers marker_at_end
mark_last_lem [] h = inl (refl, refl)
mark_last_lem (m ∷ ms) h = elim (mark_last_lem ms (omega (arith, h))) [
  | inr (ns, e, c, v) ↦ rw e (
      inr (
        m ∷ ns,
        refl,
        ground (arith, c),
        record {
          one = omega (arith, v.one);
          same = ap (◌∷◌ (unmark_message m)) v.same;
          at_end = ground (arith, h, marks_lem m.contents, v.at_end);
        },
      ))
  | inl (e, c) ↦ elim (mark_message_lem m (omega (arith, h))) [
    | inr (n, k, p, v) ↦
        rw (e, k, p)
          (inr (
            n ∷ ms,
            refl,
            refl,
            record {
              one = omega (arith, v.one);
              same = ap (λ x. x ∷ unmark ms) v.same;
              at_end = ground (arith, marks_lem n.contents, v.one, v.at_end, c);
            },
          ))
    | inl (k, p) ↦ rw (e, k, p, c) (inl (refl, refl))
  ]
]

ensure_marked : (ms : List UpMessage) → has_marker ms ≡ true → ensure_cache_marker ms ≡ ms
unfolding ensure_cache_marker
ensure_marked ms h = rw h refl

ensure_unplaced :
    (ms : List UpMessage)
    → has_marker ms ≡ false
    → mark_last ms ≡ none
    → ensure_cache_marker ms ≡ ms
unfolding ensure_cache_marker
ensure_unplaced ms h k = rw (h, k) refl

ensure_placed :
    (ms ns : List UpMessage)
    → has_marker ms ≡ false
    → mark_last ms ≡ some ns
    → ensure_cache_marker ms ≡ ns
unfolding ensure_cache_marker
ensure_placed ms ns h k = rw (h, k) refl

unmarked_at_end : (ms : List UpMessage) → markers ms ≡ 0 → marker_at_end ms ≡ true
unfolding markers marker_at_end
unmarked_at_end [] h = refl
unmarked_at_end (m ∷ ms) h =
    ground (arith, h, marks_lem m.contents, unmarked_at_end ms (omega (arith, h)))

-- A prompt that carries a marker is left as it is. One without any gets exactly one, unless no message
-- but those of tools has a text or an image; it is an ephemeral one, on a text or an image of a message
-- that is not of a tool, and no later part could have taken it. Nothing but markers changes, and a second
-- call changes nothing.
pub ensure_cache_marker_lem :
    (ms : List UpMessage)
    → (markers (ensure_cache_marker ms)
        ≡ (if markers ms == 0 then (if has_place ms then 1 else 0) else markers ms))
      × ((markers ms ≡ 0) ⊎ (ensure_cache_marker ms ≡ ms))
      × ((ltb 0 (markers ms) || marker_at_end (ensure_cache_marker ms)) ≡ true)
      × (unmark (ensure_cache_marker ms) ≡ unmark ms)
      × (ensure_cache_marker (ensure_cache_marker ms) ≡ ensure_cache_marker ms)
ensure_cache_marker_lem ms = elim (Bool-cases (has_marker ms)) [
  | inl h ↦
      let e = ensure_marked ms h in
      rw (e, e)
        (ground (arith, markers_lem ms), inr refl, ground (arith, markers_lem ms, h), refl, refl)
  | inr h ↦
      let zero_marks : markers ms ≡ 0 = ground (arith, markers_lem ms, h) in
      elim (mark_last_lem ms zero_marks) [
        | inl (k, c) ↦
            let e = ensure_unplaced ms h k in
            rw (e, e)
              (
                ground (arith, zero_marks, c),
                inl zero_marks,
                ground (arith, unmarked_at_end ms zero_marks),
                refl,
                refl,
              )
        | inr (ns, k, c, v) ↦
            let now : has_marker ns ≡ true = ground (arith, markers_lem ns, v.one) in
            rw (ensure_placed ms ns h k, ensure_marked ns now)
              (
                ground (arith, zero_marks, c, v.one),
                inl zero_marks,
                ground (arith, v.at_end),
                v.same,
                refl,
              )
      ]
]
