-- ===== src/Tests/Retry.antt =====
-- A run of the upstream call of proxy.go with a refused token, an overload and a success.
use qoder_model_gateway.Base.{ℕ, ◌≤◌, ◌≢◌, true, none, [], ◌==◌, if◌then◌else◌, All}
use qoder_model_gateway.Retry.{World, Response, answered, unreachable, call_upstream}
use qoder_model_gateway.Retry.Bounds.{calls, refreshes, IsShort, call_upstream_bounds}

abbrev with_status : ℕ → Response
with_status n = record { status = n; retry_after = []; body = [] }

abbrev pub world : World
world = record {
  upstream = λ n.
      if n == 1
      then answered (with_status 401)
      else if n == 2
      then answered (with_status 503)
      else answered (with_status 200);
  refresh_ok = true;
  sleep_ok = λ n. true;
  overload = λ b. none;
  parse_seconds = λ t. none;
}

call_upstream_bounds_example :
    ((call_upstream world).0 ≢ unreachable)
    × (calls (call_upstream world).1 ≤ 4)
    × (refreshes (call_upstream world).1 ≤ 1)
    × All IsShort (call_upstream world).1
call_upstream_bounds_example = call_upstream_bounds world
