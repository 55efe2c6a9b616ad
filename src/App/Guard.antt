-- ===== src/App/Guard.antt =====
-- native_local.go: `localNativeGuard`, which lets local requests through and at most four inferences at a
-- time. What `net` and `net/url` make of a text is a parameter.
pub mod Slots
use qoder_model_gateway.Base.{
  ℕ, zero, suc, ◌+◌, ◌-◌, ◌*◌, ◌/◌, ◌%◌, ◌^◌, ◌≤◌, ◌<◌, ◌≡◌, refl, sym, ap, ◌∙◌, ◌≢◌, ◌↔◌, ◌⊎◌, inl,
  inr, Bool, true, false, not, ◌&&◌, ◌||◌, Option, none, some, List, [], ◌∷◌, ◌++◌, map, append-nil,
  append_assoc, arith, ltb, leb, ◌==◌, if◌then◌else◌, ltb→lt, lt→ltb, leb→le, ==_iff, Bool-cases,
  Option-cases, is_some, ◌>>=◌, length, get_elem?, take, drop, replicate, is_nil, get_last?,
  length-append, take-append-drop, length-take, length-drop, length-replicate, take-append_exact,
  drop-append_exact, All, All-append, Text, codes, text_eq, text_eq_iff, text_eq_refl, has_prefix,
  trim_prefix, has_prefix-append, has_suffix, trim_suffix, join, is_space, trim_left, trim_right,
  trim_space,
}

unfoldable pub local_host : Text → Bool
local_host name =
    text_eq name (codes "127.0.0.1")
    || (text_eq name (codes "localhost") || text_eq name (codes "::1"))

pub record Request : Type 0 where
  pub host : Text
  pub origin : Text
  pub path : Text

-- `net.SplitHostPort`, and the host name of `url.Parse`; `none` is an error.
pub record Parsers : Type 0 where
  pub split_host_port : Text → Option Text
  pub hostname : Text → Option Text

-- What the guard does with a request: it calls the next handler, with a slot or without, or answers with
-- a status.
pub data Verdict : Type 0 where
  passes takes_slot : Verdict
  refused : ℕ → Verdict

abbrev pub is_local : Option Text → Bool
is_local none = false
is_local (some h) = local_host h

unfoldable pub is_exempt : Text → Bool
is_exempt p =
    text_eq p (codes "/health")
    || (text_eq p (codes "/_qoder/shutdown") || text_eq p (codes "/v1/models"))

abbrev pub max_slots : ℕ
max_slots = 4

-- The handler of a locked-down process.
unfoldable pub judge : Parsers → ℕ → Request → Verdict
judge j used r =
    if not (is_local (j.split_host_port r.host))
    then refused 403
    else if not (is_nil r.origin) && not (is_local (j.hostname r.origin))
    then refused 403
    else if is_exempt r.path
    then passes
    else if ltb used max_slots
    then takes_slot
    else refused 429

-- A request that the guard has let through, and whether it has a slot.
pub record Running : Type 0 where
  pub request : Request
  pub has_slot : Bool

-- The slots taken, the requests that the next handler works on, and the statuses answered so far.
pub record Guard : Type 0 where
  pub used : ℕ
  pub running : List Running
  pub answers : List ℕ

abbrev pub new_guard : Guard
new_guard = record { used = 0; running = []; answers = [] }

unfoldable pub apply_verdict : Request → Verdict → Guard → Guard
apply_verdict r passes g = record g {
  running = g.running ++ record { request = r; has_slot = false } ∷ [];
}
apply_verdict r takes_slot g = record g {
  used = suc g.used;
  running = g.running ++ record { request = r; has_slot = true } ∷ [];
}
apply_verdict r (refused code) g = record g { answers = g.answers ++ code ∷ [] }

-- A process that is not locked down has no guard.
unfoldable pub guard : Bool → Parsers → ℕ → Request → Verdict
guard locked j used r = if locked then judge j used r else passes

unfoldable pub arrive : Bool → Parsers → Request → Guard → Guard
arrive locked j r g = apply_verdict r (guard locked j g.used r) g

-- The handler of one of the running requests returns, and a slot is given back.
abbrev pub give_back : Bool → ℕ → ℕ
give_back b n = if b then n - 1 else n

unfoldable pub leave : ℕ → Guard → Guard
leave i g = elim (get_elem? g.running i) [
  | none ↦ g
  | some x ↦ record g {
    used = give_back x.has_slot g.used;
    running = take i g.running ++ drop (suc i) g.running;
  }
]

pub data Event : Type 0 where
  arrives : Request → Event
  leaves : ℕ → Event

unfoldable pub step : Bool → Parsers → Event → Guard → Guard
step locked j (arrives r) g = arrive locked j r g
step locked j (leaves i) g = leave i g

unfoldable pub run : Bool → Parsers → List Event → Guard → Guard
run locked j [] g = g
run locked j (e ∷ es) g = run locked j es (step locked j e g)
