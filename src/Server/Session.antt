-- ===== src/Server/Session.antt =====
-- proxy.go: `sessionFor`, which gives every model of a client its own session. The lock makes each call
-- one step. `new_uuid` is by the number of identifiers made before.
use mathlib.Core.Path.{subst}
use qoder_model_gateway.Base.{
  ℕ, suc, ◌<◌, ◌≡◌, refl, sym, ap, ◌∙◌, ◌↔◌, inl, inr, Option, none, some, List, [], ◌∷◌, ◌++◌,
  arith, if◌then◌else◌, Bool-cases, Option-cases, Text, codes, text_eq, text_eq_iff, text_eq_refl,
}

-- The map by model, the last entry first, and the number of identifiers made.
pub record Sessions : Type 0 where
  pub sessions : List (Text × Text)
  pub made : ℕ

abbrev pub no_sessions : Sessions
no_sessions = record { sessions = []; made = 0 }

unfoldable pub find_session : Text → List (Text × Text) → Option Text
find_session m [] = none
find_session m (x ∷ xs) = let rest = find_session m xs in if text_eq x.0 m then some x.1 else rest

some_injective : {a b : Text} → some a ≡ some b → a ≡ b
some_injective h = ground (arith, h)

module _ (new_uuid : ℕ → Text) where
  abbrev pub id_of : ℕ → Text
  id_of k = codes "q2a-" ++ new_uuid k

  unfoldable pub session_for : Text → Sessions → Text × Sessions
  session_for m s = elim (find_session m s.sessions) [
    | some id ↦ (id, s)
    | none ↦ (id_of s.made, record { sessions = (m, id_of s.made) ∷ s.sessions; made = suc s.made })
  ]

  -- The sessions of a list of requests.
  unfoldable pub serve_all : List Text → Sessions → Sessions
  serve_all [] s = s
  serve_all (m ∷ ms) s = serve_all ms (session_for m s).1

  -- The identifiers of the entries are those of falling numbers below a bound.
  abbrev IsNumbered : ℕ → List (Text × Text) → Type 0
  IsNumbered b [] = Unit
  IsNumbered b (x ∷ xs) = (k : ℕ) × ((k < b) × ((x.1 ≡ id_of k) × IsNumbered k xs))

  session_for-IsNumbered :
      (m : Text) (s : Sessions)
      → IsNumbered s.made s.sessions
      → IsNumbered (session_for m s).1.made (session_for m s).1.sessions
  unfolding session_for
  session_for-IsNumbered m s v = elim (Option-cases (find_session m s.sessions)) [
    | inl h ↦ rw (h, session_for) (s.made, (omega arith, (refl, v)))
    | inr (id, h) ↦ rw (h, session_for) v
  ]

  serve_all-IsNumbered :
      (ms : List Text) (s : Sessions)
      → IsNumbered s.made s.sessions
      → IsNumbered (serve_all ms s).made (serve_all ms s).sessions
  unfolding serve_all
  serve_all-IsNumbered [] s v = v
  serve_all-IsNumbered (m ∷ ms) s v =
      serve_all-IsNumbered ms (session_for m s).1 (session_for-IsNumbered m s v)

  found_below :
      (m id : Text) (b : ℕ) (xs : List (Text × Text))
      → IsNumbered b xs
      → find_session m xs ≡ some id
      → (k : ℕ) × ((k < b) × (id ≡ id_of k))
  unfolding find_session
  found_below m id b [] v h = absurd (ground (arith, h))
  found_below m id b (x ∷ xs) v h = elim (Bool-cases (text_eq x.0 m)) [
    | inl g ↦ (v.0, (v.1.0, ground (arith, g, h, v.1.1.0)))
    | inr g ↦
        let r = found_below m id v.0 xs v.1.1.1 (ground (arith, g, h)) in
        (r.0, (omega (arith, r.1.0, v.1.0), r.1.1))
  ]

  session_for-found :
      (m : Text) (s : Sessions)
      → find_session m (session_for m s).1.sessions ≡ some (session_for m s).0
  unfolding session_for find_session
  session_for-found m s = elim (Option-cases (find_session m s.sessions)) [
    | inl h ↦ rw (h, session_for) (rw (text_eq_refl m) refl)
    | inr (id, h) ↦ rw (h, session_for) h
  ]

  session_for-stays :
      (m n id : Text) (s : Sessions)
      → find_session m s.sessions ≡ some id
      → find_session m (session_for n s).1.sessions ≡ some id
  unfolding session_for find_session
  session_for-stays m n id s h = elim (Option-cases (find_session n s.sessions)) [
    | inl g ↦ elim (Bool-cases (text_eq n m)) [
      | inl e ↦ absurd (ground (arith, g, h, text_eq_iff n m, e))
      | inr e ↦ rw (g, session_for) (rw e h)
    ]
    | inr (x, g) ↦ rw (g, session_for) h
  ]

  serve_all-stays :
      (ms : List Text) (m id : Text) (s : Sessions)
      → find_session m s.sessions ≡ some id
      → find_session m (serve_all ms s).sessions ≡ some id
  unfolding serve_all
  serve_all-stays [] m id s h = h
  serve_all-stays (n ∷ ms) m id s h =
      serve_all-stays ms m id (session_for n s).1 (session_for-stays m n id s h)

  -- Two models with one identifier are one, where the numbers give different identifiers.
  same_model :
      ((i j : ℕ) → new_uuid i ≡ new_uuid j → i ≡ j)
      → (m n id : Text) (b : ℕ) (xs : List (Text × Text)) → IsNumbered b xs
      → find_session m xs ≡ some id
      → find_session n xs ≡ some id
      → m ≡ n
  unfolding find_session
  same_model inj m n id b [] v h g = absurd (ground (arith, h))
  same_model inj m n id b (x ∷ xs) v h g = elim (Bool-cases (text_eq x.0 m)) [
    | inl e ↦ elim (Bool-cases (text_eq x.0 n)) [
      | inl f ↦ sym ((text_eq_iff x.0 m).0 e) ∙ (text_eq_iff x.0 n).0 f
      | inr f ↦
          let r = found_below n id v.0 xs v.1.1.1 (ground (arith, f, g)) in
          let q : v.0 ≡ r.0 = inj v.0 r.0 (ground (arith, e, h, v.1.1.0, r.1.1)) in
          absurd (omega (arith, q, r.1.0))
    ]
    | inr e ↦ elim (Bool-cases (text_eq x.0 n)) [
      | inl f ↦
          let r = found_below m id v.0 xs v.1.1.1 (ground (arith, e, h)) in
          let q : v.0 ≡ r.0 = inj v.0 r.0 (ground (arith, f, g, v.1.1.0, r.1.1)) in
          absurd (omega (arith, q, r.1.0))
      | inr f ↦ same_model inj m n id v.0 xs v.1.1.1 (ground (arith, e, h)) (ground (arith, f, g))
    ]
  ]

  -- Whatever requests came before, and whatever requests come between two of them: these two have the
  -- same session exactly when they ask for the same model, if the numbers give different identifiers.
  pub session_for_lem :
      ((i j : ℕ) → new_uuid i ≡ new_uuid j → i ≡ j)
      → (before between : List Text) (m n : Text)
      → let x = session_for m (serve_all before no_sessions) in
        ((session_for n (serve_all between x.1)).0 ≡ x.0) ↔ (m ≡ n)
  session_for_lem inj before between m n =
      let s = serve_all before no_sessions in
      let v = serve_all-IsNumbered before no_sessions tt in
      let x = session_for m s in
      let t = serve_all between x.1 in
      let y = session_for n t in
      let here : find_session m y.1.sessions ≡ some x.0 =
        session_for-stays m n x.0 t (serve_all-stays between m x.0 x.1 (session_for-found m s)) in
      let w =
        session_for-IsNumbered n t
          (serve_all-IsNumbered between x.1 (session_for-IsNumbered m s v)) in
      (
        λ e.
            same_model inj m n x.0 y.1.made y.1.sessions w here (session_for-found n t ∙ ap some e),
        λ e. some_injective (
            sym (session_for-found n t)
            ∙ subst (λ k. find_session k y.1.sessions ≡ some x.0) e here),
      )
