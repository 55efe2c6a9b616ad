-- ===== src/Server/Failures/Own.antt =====
-- A request that fails leaves its own body, whatever the others do meanwhile (proxy.go).
use qoder_model_gateway.Base.{
  ◌≡◌, refl, ap, ◌∙◌, ◌≢◌, inl, inr, Bool, true, false, none, some, List, [], ◌∷◌, ◌++◌, arith,
  Bool-cases, Option-cases, is_nil, All, Text, codes, text_eq, text_eq_iff, text_eq_refl,
}
use qoder_model_gateway.Server.Failures.{
  Failures, find_body, delete_body, Use, remember, forget, dump, request_of, remember_body,
  forget_body, write_file, base, write_failure, dump_failure, use_body, use_bodies,
}

find_body-delete_body :
    (id : Text) (xs : List (Text × Text)) → find_body id (delete_body id xs) ≡ none
unfolding find_body delete_body
find_body-delete_body id [] = refl
find_body-delete_body id (x ∷ xs) =
    ground (arith, find_body-delete_body id xs, Bool-cases (text_eq x.0 id))

find_body-delete_other :
    (id other : Text) (xs : List (Text × Text))
    → other ≢ id
    → find_body id (delete_body other xs) ≡ find_body id xs
unfolding find_body delete_body
find_body-delete_other id other [] h = refl
find_body-delete_other id other (x ∷ xs) h =
    let rest = find_body-delete_other id other xs h in
    elim (Bool-cases (text_eq x.0 other)) [
      | inl g ↦ ground (arith, g, h, rest, text_eq_iff x.0 other, text_eq_iff x.0 id)
      | inr g ↦ ground (arith, g, rest)
    ]

-- No use of a body is of this request.
abbrev pub AreOthers : Text → List Use → Type 0
AreOthers id us = All (λ u. request_of u ≢ id) us

module _ (mkdir_ok : Bool) (write_ok : Text → Bool) (dump_dir : Text) where
  write_file-pending :
      (name content : Text) (s : Failures)
      → (write_file write_ok name content s).pending ≡ s.pending
  unfolding write_file
  write_file-pending name content s = ground (arith, Bool-cases (write_ok name))

  dump_failure-pending :
      (id msg : Text) (s : Failures)
      → (dump_failure mkdir_ok write_ok dump_dir id msg s).pending ≡ s.pending
  unfolding dump_failure write_failure write_file
  dump_failure-pending id msg s = elim (Option-cases (find_body id s.pending)) [
    | inl g ↦ ground (arith, g)
    | inr (body, g) ↦ ground (arith, g)
  ]

  use_body-other :
      (id : Text) (u : Use) (s : Failures)
      → request_of u ≢ id
      → find_body id (use_body mkdir_ok write_ok dump_dir u s).pending ≡ find_body id s.pending
  unfolding use_body request_of remember_body forget_body find_body
  use_body-other id (remember other body) s h =
      ground (arith, h, find_body-delete_other id other s.pending h, text_eq_iff other id)
  use_body-other id (forget other) s h = ground (arith, find_body-delete_other id other s.pending h)
  use_body-other id (dump other msg) s h = ap (find_body id) (dump_failure-pending other msg s)

  use_bodies-others :
      (id : Text) (us : List Use) (s : Failures)
      → AreOthers id us
      → find_body id (use_bodies mkdir_ok write_ok dump_dir us s).pending ≡ find_body id s.pending
  unfolding use_bodies
  use_bodies-others id [] s h = refl
  use_bodies-others id (u ∷ us) s h =
      use_bodies-others id us (use_body mkdir_ok write_ok dump_dir u s) h.1
      ∙ use_body-other id u s h.0

  found-remember_body :
      (id body : Text) (s : Failures)
      → is_nil dump_dir ≡ false
      → find_body id (remember_body mkdir_ok write_ok dump_dir id body s).pending ≡ some body
  unfolding remember_body find_body
  found-remember_body id body s n = ground (arith, n, text_eq_refl id)

  found-forget_body :
      (id : Text) (s : Failures)
      → is_nil dump_dir ≡ false
      → find_body id (forget_body mkdir_ok write_ok dump_dir id s).pending ≡ none
  unfolding forget_body
  found-forget_body id s n = ground (arith, n, find_body-delete_body id s.pending)

  dump_failure-found :
      (id msg body : Text) (s : Failures)
      → is_nil dump_dir ≡ false
      → mkdir_ok ≡ true
      → ((name : Text) → write_ok name ≡ true)
      → find_body id s.pending ≡ some body
      → (dump_failure mkdir_ok write_ok dump_dir id msg s).files
        ≡ (base dump_dir id ++ codes ".error.txt", msg)
          ∷ (base dump_dir id ++ codes ".body.json", body)
          ∷ s.files
  unfolding dump_failure write_failure write_file
  dump_failure-found id msg body s n d w g =
      let name = base dump_dir id in
      rw (n, g, d, w (name ++ codes ".body.json"), w (name ++ codes ".error.txt")) refl

  dump_failure-missing :
      (id msg : Text) (s : Failures)
      → find_body id s.pending ≡ none
      → dump_failure mkdir_ok write_ok dump_dir id msg s ≡ s
  unfolding dump_failure
  dump_failure-missing id msg s g = ground (arith, g)

  -- With a directory for diagnoses that can be written to, whatever was done before a request and whatever
  -- other requests do while it runs: when it fails, the two files named by its identifier get the body that
  -- it remembered and its error. After its handler has returned, and whatever others do from then on, a dump
  -- of it changes nothing.
  pub dump_failure_own :
      (id body msg late : Text) (during after : List Use) (s : Failures)
      → is_nil dump_dir ≡ false
      → mkdir_ok ≡ true
      → ((name : Text) → write_ok name ≡ true)
      → AreOthers id during
      → AreOthers id after
      → let run = use_bodies mkdir_ok write_ok dump_dir in
        let t = run during (remember_body mkdir_ok write_ok dump_dir id body s) in
        let failed = dump_failure mkdir_ok write_ok dump_dir id msg t in
        let over = run after (forget_body mkdir_ok write_ok dump_dir id failed) in
        (failed.files
          ≡ (base dump_dir id ++ codes ".error.txt", msg)
            ∷ (base dump_dir id ++ codes ".body.json", body)
            ∷ t.files)
        × (dump_failure mkdir_ok write_ok dump_dir id late over ≡ over)
  dump_failure_own id body msg late during after s n d w h k =
      let first = remember_body mkdir_ok write_ok dump_dir id body s in
      let t = use_bodies mkdir_ok write_ok dump_dir during first in
      let failed = dump_failure mkdir_ok write_ok dump_dir id msg t in
      let gone = forget_body mkdir_ok write_ok dump_dir id failed in
      let over = use_bodies mkdir_ok write_ok dump_dir after gone in
      (
        dump_failure-found id msg body t n d w
            (use_bodies-others id during first h ∙ found-remember_body id body s n),
        dump_failure-missing id late over
            (use_bodies-others id after gone k ∙ found-forget_body id failed n),
      )
