-- ===== src/Responses/Stream/Order.antt =====
-- Every event of `respStreamState` in responses.go comes where a client of the Responses protocol
-- expects it.
use mathlib.Core.Path.{subst}
use qoder_model_gateway.Base.{
  ℕ, suc, ◌+◌, ◌≡◌, refl, sym, ◌∙◌, inl, inr, true, false, Option, none, some, List, [], ◌∷◌, ◌++◌,
  arith, Bool-cases, Option-cases, ◌>>=◌, Text, codes, text_eq_refl,
}
use qoder_model_gateway.Responses.Event.{
  Kind, reasoning, message, function_call, same_kind, Item, reasoning_item, message_item, call_item,
  Body, item_added, part_added, delta, text_done, part_done, item_done, Event, Phase, between,
  added, inside, told, parted, observe, Seen, nothing_seen, take_item, observe_event, observe_all,
}
use qoder_model_gateway.Responses.Stream.{
  RespStreamState, emit, close_part, end_item, close_kind, close_item, is_current, begin_item,
  open_reasoning, open_message, open_function_call,
}

pub observe_all-snoc :
    (c : Seen) (es : List Event) (e : Event)
    → observe_all c (es ++ e ∷ []) ≡ (observe_all c es >>= λ d. observe_event d e)
unfolding observe_all
observe_all-snoc c [] e = elim (Option-cases (observe_event c e)) [
  | inl h ↦ rw h refl
  | inr (d, h) ↦ rw h refl
]
observe_all-snoc c (x ∷ es) e = elim (Option-cases (observe_event c x)) [
  | inl h ↦ rw (h, observe_all) refl
  | inr (d, h) ↦ rw (h, observe_all) (observe_all-snoc d es e)
]

-- A client that read all that was written stands in the phase and has the items.
abbrev pub Sees : RespStreamState → Phase → List Item → Type 0
Sees s p its =
    observe_all nothing_seen s.written ≡ some (record { count = s.seq; phase = p; items = its })

pub emit-Sees :
    (b : Body) (s : RespStreamState) (p q : Phase) (its : List Item)
    → Sees s p its
    → observe p b ≡ some q
    → Sees (emit b s) q (take_item b its)
unfolding emit observe_event
emit-Sees b s p q its h e =
    observe_all-snoc nothing_seen s.written (record { sequence_number = suc s.seq; body = b })
    ∙ rw h (ground (arith, e))

-- The text that the open item has so far.
abbrev pub buffer : Kind → RespStreamState → Text
buffer reasoning s = s.reason_buf
buffer message s = s.text_buf
buffer function_call s = s.args_buf

abbrev pub phase_at : Option Kind → RespStreamState → Phase
phase_at none s = between s.out_index
phase_at (some k) s = inside s.out_index k s.cur_item_id (buffer k s)

-- The reply is between two items or inside one, as the state says, and the client has its items.
abbrev pub IsLive : RespStreamState → Type 0
IsLive s = Sees s (phase_at s.cur_kind s) s.items

Kind-refl : (k : Kind) → same_kind k k ≡ true
Kind-refl reasoning = refl
Kind-refl message = refl
Kind-refl function_call = refl

close_part-Sees :
    (k : Kind) (full : Text) (s : RespStreamState) (its : List Item)
    → Sees s (inside s.out_index k s.cur_item_id full) its
    → Sees (close_part k full s) (parted s.out_index k s.cur_item_id full) its
unfolding close_part observe
close_part-Sees k full s its h =
    let n = s.out_index in
    let i = s.cur_item_id in
    let first =
      emit-Sees (text_done n i k full) s (inside n k i full) (told n k i full) its h
        (ground (arith, text_eq_refl i, text_eq_refl full, Kind-refl k)) in
    emit-Sees (part_done n i k full) (emit (text_done n i k full) s) (told n k i full)
      (parted n k i full) its first (ground (arith, text_eq_refl i, text_eq_refl full, Kind-refl k))

-- After an item ended, the reply is between items.
end_item-IsLive :
    (it : Item) (s t : RespStreamState) (p : Phase)
    → Sees t p s.items
    → observe p (item_done s.out_index it) ≡ some (between (s.out_index + 1))
    → t.items ≡ s.items
    → t.out_index ≡ s.out_index
    → IsLive (end_item it t)
unfolding end_item emit
end_item-IsLive it s t p h e is os =
    let k : observe p (item_done t.out_index it) ≡ some (between (t.out_index + 1)) = rw os e in
    let w : Sees t p t.items = rw is h in
    emit-Sees (item_done t.out_index it) t p (between (t.out_index + 1)) t.items w k

close_kind-IsLive :
    (k : Kind) (s : RespStreamState)
    → Sees s (inside s.out_index k s.cur_item_id (buffer k s)) s.items
    → IsLive (close_kind k s)
unfolding close_kind observe emit close_part
close_kind-IsLive reasoning s h =
    let i = s.cur_item_id in
    end_item-IsLive (reasoning_item i s.reason_buf) s (close_part reasoning s.reason_buf s)
      (parted s.out_index reasoning i s.reason_buf)
      (close_part-Sees reasoning s.reason_buf s s.items h)
      (ground (arith, text_eq_refl i, text_eq_refl s.reason_buf)) refl refl
close_kind-IsLive message s h =
    let i = s.cur_item_id in
    end_item-IsLive (message_item i s.text_buf) s (close_part message s.text_buf s)
      (parted s.out_index message i s.text_buf) (close_part-Sees message s.text_buf s s.items h)
      (ground (arith, text_eq_refl i, text_eq_refl s.text_buf)) refl refl
close_kind-IsLive function_call s h =
    let n = s.out_index in
    let i = s.cur_item_id in
    let b = text_done n i function_call s.args_buf in
    let first =
      emit-Sees b s (inside n function_call i s.args_buf) (told n function_call i s.args_buf)
        s.items h (ground (arith, text_eq_refl i, text_eq_refl s.args_buf)) in
    end_item-IsLive (call_item i s.fc_call_id s.fc_name s.args_buf) s (emit b s)
      (told n function_call i s.args_buf) first
      (ground (arith, text_eq_refl i, text_eq_refl s.args_buf)) refl refl

close_kind-closed : (k : Kind) (s : RespStreamState) → (close_kind k s).cur_kind ≡ none
unfolding close_kind end_item
close_kind-closed reasoning s = refl
close_kind-closed message s = refl
close_kind-closed function_call s = refl

pub live_at :
    (o : Option Kind) (s : RespStreamState)
    → s.cur_kind ≡ o
    → IsLive s
    → Sees s (phase_at o s) s.items
live_at o s e h = subst (λ x. Sees s (phase_at x s) s.items) e h

pub at-IsLive :
    (o : Option Kind) (s : RespStreamState)
    → s.cur_kind ≡ o
    → Sees s (phase_at o s) s.items
    → IsLive s
at-IsLive o s e h = subst (λ x. Sees s (phase_at x s) s.items) (sym e) h

close_none : (s : RespStreamState) → s.cur_kind ≡ none → close_item s ≡ s
unfolding close_item
close_none s e = ground (arith, e)

close_some : (k : Kind) (s : RespStreamState) → s.cur_kind ≡ some k → close_item s ≡ close_kind k s
unfolding close_item
close_some k s e = ground (arith, e)

-- Closing the item, if there is one, leaves the reply between items.
close_item-IsLive :
    (s : RespStreamState) → IsLive s → IsLive (close_item s) × ((close_item s).cur_kind ≡ none)
close_item-IsLive s h = elim (Option-cases s.cur_kind) [
  | inl e ↦ subst (λ t. IsLive t × (t.cur_kind ≡ none)) (sym (close_none s e)) (h, e)
  | inr (k, e) ↦
      subst (λ t. IsLive t × (t.cur_kind ≡ none)) (sym (close_some k s e))
        (close_kind-IsLive k s (live_at (some k) s e h), close_kind-closed k s)
]

pub between_items :
    (s : RespStreamState)
    → IsLive s
    → Sees (close_item s) (between (close_item s).out_index) (close_item s).items
between_items s h = let v = close_item-IsLive s h in live_at none (close_item s) v.1 v.0

-- The reply is inside an item of a kind.
abbrev pub IsInside : Kind → RespStreamState → Type 0
IsInside k s = IsLive s × (s.cur_kind ≡ some k)

pub emit_delta :
    (k : Kind) (d buf : Text) (t u : RespStreamState)
    → Sees t (inside t.out_index k t.cur_item_id buf) t.items
    → u.written ≡ t.written
    → u.seq ≡ t.seq
    → Sees
        (emit (delta t.out_index t.cur_item_id k d) u)
        (inside t.out_index k t.cur_item_id (buf ++ d))
        t.items
unfolding observe
emit_delta k d buf t u h ew es =
    let n = t.out_index in
    let i = t.cur_item_id in
    emit-Sees (delta n i k d) u (inside n k i buf) (inside n k i (buf ++ d)) t.items (rw (ew, es) h)
      (ground (arith, text_eq_refl i, Kind-refl k))

module _ (new_uuid : ℕ → Text) where
  new_part :
      (k : Kind) (it : Item) (i : Text) (u : RespStreamState) (n : ℕ) (its : List Item)
      → Sees u (between n) its
      → observe (between n) (item_added n it) ≡ some (added n k i [])
      → Sees (emit (part_added n i k) (emit (item_added n it) u)) (inside n k i []) its
  unfolding observe
  new_part k it i u n its h e =
      emit-Sees (part_added n i k) (emit (item_added n it) u) (added n k i []) (inside n k i []) its
        (emit-Sees (item_added n it) u (between n) (added n k i []) its h e)
        (ground (arith, text_eq_refl i, Kind-refl k))

  opened_reasoning :
      (s : RespStreamState)
      → IsLive s
      → is_current reasoning s.cur_kind ≡ false
      → IsInside reasoning (open_reasoning new_uuid s)
  unfolding open_reasoning begin_item emit observe
  opened_reasoning s h e =
      let c = close_item s in
      let i = codes "rs_" ++ new_uuid c.drawn in
      let u : RespStreamState = record (begin_item new_uuid reasoning (codes "rs_") c) {
        reason_buf = [];
      } in
      rw e (
        new_part reasoning (reasoning_item i []) i u c.out_index c.items (between_items s h)
            (ground arith),
        refl,
      )

  opened_message :
      (s : RespStreamState)
      → IsLive s
      → is_current message s.cur_kind ≡ false
      → IsInside message (open_message new_uuid s)
  unfolding open_message begin_item emit observe
  opened_message s h e =
      let c = close_item s in
      let i = codes "msg_" ++ new_uuid c.drawn in
      let u : RespStreamState = record (begin_item new_uuid message (codes "msg_") c) {
        text_buf = [];
      } in
      rw e (
        new_part message (message_item i []) i u c.out_index c.items (between_items s h)
            (ground arith),
        refl,
      )

  pub open_function_call-IsInside :
      (id name : Text) (s : RespStreamState)
      → IsLive s
      → IsInside function_call (open_function_call new_uuid id name s)
  unfolding open_function_call begin_item emit observe
  open_function_call-IsInside id name s h =
      let c = close_item s in
      let i = codes "fc_" ++ new_uuid c.drawn in
      let u : RespStreamState = record (begin_item new_uuid function_call (codes "fc_") c) {
        fc_call_id = id;
        fc_name = name;
        args_buf = [];
      } in
      (
        emit-Sees (item_added c.out_index (call_item i id name [])) u (between c.out_index)
            (inside c.out_index function_call i []) c.items (between_items s h) (ground arith),
        refl,
      )

  pub current_kind : (k : Kind) (o : Option Kind) → is_current k o ≡ true → o ≡ some k
  current_kind k none h = absurd (ground arith)
  current_kind reasoning (some reasoning) h = refl
  current_kind message (some message) h = refl
  current_kind function_call (some function_call) h = refl
  current_kind _ _ h = absurd (ground arith)

  pub open_reasoning-IsInside :
      (s : RespStreamState) → IsLive s → IsInside reasoning (open_reasoning new_uuid s)
  open_reasoning-IsInside s h = elim (Bool-cases (is_current reasoning s.cur_kind)) [
    | inl e ↦ unfold open_reasoning in rw e (h, current_kind reasoning s.cur_kind e)
    | inr e ↦ opened_reasoning s h e
  ]

  pub open_message-IsInside :
      (s : RespStreamState) → IsLive s → IsInside message (open_message new_uuid s)
  open_message-IsInside s h = elim (Bool-cases (is_current message s.cur_kind)) [
    | inl e ↦ unfold open_message in rw e (h, current_kind message s.cur_kind e)
    | inr e ↦ opened_message s h e
  ]
