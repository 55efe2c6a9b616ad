-- ===== src/Auth/Store.antt =====
-- auth.go: how the login is read from its file and written to it.
use qoder_model_gateway.Base.{
  ℕ, suc, Bool, false, not, ◌&&◌, ◌||◌, Option, none, some, if◌then◌else◌, Text, codes, has_prefix,
  trim_space,
}
use qoder_model_gateway.Base.Int.{ℤ, pos, ltb_ℤ, ◌+ℤ◌}
use qoder_model_gateway.Codec.Errors.{
  backend_failure, Error, protocol, wrapped, Result, ok, err, then_do, protocol_internal_error,
}
use qoder_model_gateway.Auth.User.{UserInfo, Login}
use qoder_model_gateway.Auth.Manager.{
  AuthManager, World, Step, closed_error, read_only_error, tick, put_user,
}

-- `load`: a text that starts with a brace is not encrypted.
unfoldable pub decode_file : World → ℕ → Text → Result UserInfo
decode_file w k b =
    let s = trim_space b in
    if has_prefix s (codes "{")
    then w.unmarshal s
    else elim (w.decrypt k s) [ ok t ↦ w.unmarshal t | err e ↦ err (wrapped (codes "decrypt") e) ]

unfoldable pub encode_user : World → ℕ → UserInfo → Result Text
encode_user w k u = then_do (w.marshal u) (w.encrypt k)

-- `stageCredentialForUserLocked`: the text that the temporary file holds.
unfoldable pub stage_credential : World → UserInfo → AuthManager → Result Text × AuthManager
stage_credential w u s =
    if s.read_only then (err read_only_error, s) else elim (encode_user w s.calls u) [
      | err e ↦ (err e, tick s)
      | ok t ↦ elim (w.write_temp s.calls) [ some e ↦ (err e, tick s) | none ↦ (ok t, tick s) ]
    ]

-- The file has been replaced by the text of this login, which is the one of the manager.
unfoldable pub store : Text → Login → AuthManager → AuthManager
store t l s = record s {
  ui = some l;
  credential_dirty = false;
  retry_at = none;
  outside = record s.outside { file = some t; writes = suc s.outside.writes };
}

-- `publish`, which renames the temporary file, and what follows it.
unfoldable pub publish : World → Text → Login → AuthManager → Step
publish w t l s = elim (w.rename s.calls) [
  | some e ↦ (some e, tick s)
  | none ↦ (none, store t l (tick s))
]

unfoldable pub save_user : World → Login → AuthManager → Step
save_user w l s =
    let r = stage_credential w l.info s in
    elim r.0 [ err e ↦ (some e, r.1) | ok t ↦ publish w t l r.1 ]

unfoldable pub save_locked : World → AuthManager → Step
save_locked w s =
    if s.contexts.closed
    then (some closed_error, s)
    else if s.read_only
    then (some read_only_error, s)
    else elim s.ui [ none ↦ (none, s) | some l ↦ save_user w l (put_user l s) ]

unfoldable pub credential_persistence_error : Text → Error → Error
credential_persistence_error action e =
    protocol backend_failure (codes "Authentication state could not be saved")
      (wrapped action (protocol_internal_error e))

abbrev pub pending : Option Error → Option Error
pending none = none
pending (some e) = some (credential_persistence_error (codes "persist pending credentials") e)

unfoldable pub persist_dirty_credential : World → AuthManager → Step
persist_dirty_credential w s =
    if s.read_only || not s.credential_dirty
    then (none, s)
    else (let r = save_locked w s in (pending r.0, r.1))

-- Thirty seconds in nanoseconds.
abbrev pub credential_persist_retry_delay : ℤ
credential_persist_retry_delay = pos 30_000_000_000

abbrev pub is_too_early : World → AuthManager → Bool
is_too_early w s = elim s.retry_at [ none ↦ false | some t ↦ ltb_ℤ (w.clock s.calls) t ]

-- What a failure leaves.
abbrev pub retry_later : World → Step → AuthManager
retry_later w (none, s) = s
retry_later w (some e, s) = record s {
  retry_at = some (w.clock s.calls +ℤ credential_persist_retry_delay);
}

unfoldable pub persist_dirty_credential_best_effort : World → Bool → AuthManager → AuthManager
persist_dirty_credential_best_effort w force s =
    if (s.read_only || not s.credential_dirty) || (not force && is_too_early w s)
    then s
    else retry_later w (persist_dirty_credential w s)
