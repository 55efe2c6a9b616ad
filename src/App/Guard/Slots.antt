-- ===== src/App/Guard/Slots.antt =====
-- What the guard of native_local.go keeps, whatever requests come and go.
use qoder_model_gateway.Base.{
  ℕ, zero, suc, ◌+◌, ◌≤◌, ◌<◌, ◌≡◌, refl, inl, inr, Bool, true, false, not, ◌||◌, some, List, [],
  ◌∷◌, ◌++◌, arith, if◌then◌else◌, Option-cases, get_elem?, take, drop, is_nil, All, All-append,
}
use qoder_model_gateway.App.Guard.{
  Request, Parsers, Verdict, passes, takes_slot, refused, is_local, is_exempt, judge, guard,
  Running, Guard, new_guard, apply_verdict, arrive, leave, Event, arrives, leaves, step, run,
}

abbrev pub slot : Running → ℕ
slot x = if x.has_slot then 1 else 0

unfoldable pub slots : List Running → ℕ
slots [] = 0
slots (x ∷ xs) = slot x + slots xs

slots-snoc : (xs : List Running) (x : Running) → slots (xs ++ x ∷ []) ≡ slots xs + slot x
unfolding slots
slots-snoc [] x = ground arith
slots-snoc (y ∷ xs) x = ground (arith, slots-snoc xs x)

slots-remove :
    (i : ℕ) (xs : List Running) (x : Running)
    → get_elem? xs i ≡ some x
    → slots (take i xs ++ drop (suc i) xs) + slot x ≡ slots xs
unfolding slots
slots-remove i [] x h = ground (arith, h)
slots-remove zero (y ∷ xs) x h = ground (arith, h)
slots-remove (suc i) (y ∷ xs) x h = ground (arith, slots-remove i xs x h)

All-remove {κ} :
    (P : Running → Type κ) (i : ℕ) (xs : List Running)
    → All P xs
    → All P (take i xs ++ drop (suc i) xs)
All-remove P zero [] a = a
All-remove P (suc i) [] a = a
All-remove P zero (x ∷ xs) a = a.1
All-remove P (suc i) (x ∷ xs) a = (a.0, All-remove P i xs a.1)

-- What lets a request through: a local host, and a local origin where there is one; and a slot, where
-- the path is not exempt.
pub record IsAllowed (j : Parsers) (x : Running) : Type 0 where
  pub host_local : is_local (j.split_host_port x.request.host) ≡ true
  pub origin_local : (is_nil x.request.origin || is_local (j.hostname x.request.origin)) ≡ true
  pub slot_or_exempt : x.has_slot ≡ not (is_exempt x.request.path)

pub record IsGuarded (j : Parsers) (g : Guard) : Type 0 where
  pub counted : g.used ≡ slots g.running
  pub at_most : g.used ≤ 4
  pub allowed : All (IsAllowed j) g.running

abbrev let_in : Request → Bool → Running
let_in r b = record { request = r; has_slot = b }

judge-passes :
    (j : Parsers) (n : ℕ) (r : Request)
    → judge j n r ≡ passes
    → (is_local (j.split_host_port r.host) ≡ true)
      × ((is_nil r.origin || is_local (j.hostname r.origin)) ≡ true)
      × (is_exempt r.path ≡ true)
unfolding judge
judge-passes j n r h = ground (arith, h)

judge-takes_slot :
    (j : Parsers) (n : ℕ) (r : Request)
    → judge j n r ≡ takes_slot
    → (is_local (j.split_host_port r.host) ≡ true)
      × ((is_nil r.origin || is_local (j.hostname r.origin)) ≡ true)
      × (is_exempt r.path ≡ false)
      × (n < 4)
unfolding judge
judge-takes_slot j n r h = ground (arith, h)

add-IsGuarded :
    (j : Parsers) (r : Request) (v : Verdict) (g : Guard)
    → judge j g.used r ≡ v
    → IsGuarded j g
    → IsGuarded j (apply_verdict r v g)
unfolding apply_verdict
add-IsGuarded j r passes g h p =
    let q = judge-passes j g.used r h in
    record {
      counted = ground (arith, p.counted, slots-snoc g.running (let_in r false));
      at_most = p.at_most;
      allowed = All-append (IsAllowed j) g.running _ p.allowed (
        record { host_local = q.0; origin_local = q.1; slot_or_exempt = ground (arith, q.2) },
        tt,
      );
    }
add-IsGuarded j r takes_slot g h p =
    let q = judge-takes_slot j g.used r h in
    record {
      counted = ground (arith, p.counted, slots-snoc g.running (let_in r true));
      at_most = ground (arith, q.3);
      allowed = All-append (IsAllowed j) g.running _ p.allowed (
        record { host_local = q.0; origin_local = q.1; slot_or_exempt = ground (arith, q.2) },
        tt,
      );
    }
add-IsGuarded j r (refused code) g h p = record {
  counted = p.counted;
  at_most = p.at_most;
  allowed = p.allowed;
}

leave-IsGuarded : (j : Parsers) (i : ℕ) (g : Guard) → IsGuarded j g → IsGuarded j (leave i g)
unfolding leave
leave-IsGuarded j i g p = elim (Option-cases (get_elem? g.running i)) [
  | inl h ↦ rw (h, leave) p
  | inr (x, h) ↦
      let q = slots-remove i g.running x h in
      simp (h, leave)
        (record {
          counted = ground (arith, p.counted, q);
          at_most = ground (arith, p.at_most);
          allowed = All-remove (IsAllowed j) i g.running p.allowed;
        })
]

step-IsGuarded :
    (j : Parsers) (e : Event) (g : Guard) → IsGuarded j g → IsGuarded j (step true j e g)
unfolding step arrive guard
step-IsGuarded j (arrives r) g p = add-IsGuarded j r (judge j g.used r) g refl p
step-IsGuarded j (leaves i) g p = leave-IsGuarded j i g p

IsGuarded-kept :
    (j : Parsers) (es : List Event) (g : Guard) → IsGuarded j g → IsGuarded j (run true j es g)
unfolding run
IsGuarded-kept j [] g p = p
IsGuarded-kept j (e ∷ es) g p = IsGuarded-kept j es (step true j e g) (step-IsGuarded j e g p)

-- Whatever requests arrive at a locked-down process and return, in whatever order: the slots taken are the running requests that
-- have one, they are never more than four, and each running request has a local host, a local origin if
-- it has any, and a slot unless its path is exempt.
pub run-IsGuarded : (j : Parsers) (es : List Event) → IsGuarded j (run true j es new_guard)
unfolding slots
run-IsGuarded j es =
    IsGuarded-kept j es new_guard (record { counted = refl; at_most = omega arith; allowed = tt })
