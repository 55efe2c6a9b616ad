-- ===== src/Codec/Errors.antt =====
-- protocol_error.go: the errors of the protocol. The texts that only a log shows are left out, so an
-- error is the kind and the public text, and what it wraps is an error again.
use qoder_model_gateway.Base.{
  ◌≡◌, refl, ◌⊎◌, inl, inr, Bool, true, false, ◌||◌, Option, none, some, Text, codes,
}

pub data Kind : Type 0 where
  invalid_input auth_unavailable backend_incompatible entropy_failure : Kind
  backend_failure context_closed : Kind

-- The errors of Go's `context` package, a protocol error with what it wraps, two errors of
-- `errors.Join`, an error of `fmt.Errorf` with the prefix of what it wraps (`%s: %w`), and any other
-- error with its text.
pub data Error : Type 0 where
  canceled deadline_exceeded : Error
  protocol : Kind → Text → Error → Error
  joined : Error → Error → Error
  wrapped : Text → Error → Error
  plain : Text → Error

pub data Result {ℓ} (A : Type ℓ) : Type ℓ where
  ok : A → Result A
  err : Error → Result A

-- The chain of fallible steps, behind its name since `Option` has its own.
abbrev pub then_do {ℓ κ} : {A : Type ℓ} {B : Type κ} → Result A → (A → Result B) → Result B
then_do (ok a) f = f a
then_do (err e) f = err e

abbrev pub of_option {ℓ} : {A : Type ℓ} → Error → Option A → Result A
of_option e none = err e
of_option e (some a) = ok a

-- The protocol error that `errors.As` finds: the first one, through what wraps it.
unfoldable pub protocol_error_from : Error → Option (Kind × Text × Error)
protocol_error_from canceled = none
protocol_error_from deadline_exceeded = none
protocol_error_from (protocol k p i) = some (k, p, i)
protocol_error_from (joined a b) = elim (protocol_error_from a) [
  | some t ↦ some t
  | none ↦ protocol_error_from b
]
protocol_error_from (wrapped m e) = protocol_error_from e
protocol_error_from (plain m) = none

unfoldable pub protocol_error_kind_of : Error → Kind
protocol_error_kind_of e = elim (protocol_error_from e) [ none ↦ backend_failure | some t ↦ t.0 ]

-- Every protocol error of the program wraps an error.
unfoldable pub protocol_internal_error : Error → Error
protocol_internal_error e = elim (protocol_error_from e) [ none ↦ e | some t ↦ t.2 ]

-- `errors.Is` for the two errors of `context`.
unfoldable pub is_canceled : Error → Bool
is_canceled canceled = true
is_canceled deadline_exceeded = false
is_canceled (protocol k p i) = is_canceled i
is_canceled (joined a b) = is_canceled a || is_canceled b
is_canceled (wrapped m e) = is_canceled e
is_canceled (plain m) = false

unfoldable pub is_deadline : Error → Bool
is_deadline canceled = false
is_deadline deadline_exceeded = true
is_deadline (protocol k p i) = is_deadline i
is_deadline (joined a b) = is_deadline a || is_deadline b
is_deadline (wrapped m e) = is_deadline e
is_deadline (plain m) = false

abbrev pub operation_failed : Text
operation_failed = codes "Qoder protocol operation failed"

unfoldable pub normalize_host_dependency_error : Kind → Text → Text → Error → Error
normalize_host_dependency_error kind public action e = elim (protocol_error_from e) [
  | some t ↦ e
  | none ↦ protocol kind public (wrapped action e)
]

unfoldable pub merge_two : Error → Error → Error
merge_two a b = elim (protocol_error_from a) [
  | some t ↦ protocol t.0 t.1 (joined (protocol_internal_error a) (protocol_internal_error b))
  | none ↦ protocol backend_failure operation_failed (joined a (protocol_internal_error b))
]

-- `mergeProtocolErrors`; `none` is the nil error.
unfoldable pub merge_protocol_errors : Option Error → Option Error → Option Error
merge_protocol_errors none b = b
merge_protocol_errors (some a) none = some a
merge_protocol_errors (some a) (some b) = some (merge_two a b)

pub Result-cases {ℓ} :
    {A : Type ℓ} (r : Result A) → ((e : Error) × (r ≡ err e)) ⊎ ((a : A) × (r ≡ ok a))
Result-cases (err e) = inl (e, refl)
Result-cases (ok a) = inr (a, refl)
