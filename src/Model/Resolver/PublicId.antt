-- ===== src/Model/Resolver/PublicId.antt =====
-- The identifiers that `publicID` of proxy.go gives out are resolved to their models.
use qoder_model_gateway.Base.{
  ◌≡◌, refl, sym, ap, ◌∙◌, ◌⊎◌, inl, inr, Bool, true, false, Option, none, some, List, [], ◌∷◌,
  ◌++◌, arith, if◌then◌else◌, Bool-cases, Option-cases, Text, codes, text_eq, text_eq_iff,
  text_eq_refl, has_prefix, trim_prefix, has_prefix-append, has_suffix,
}
use mathlib.Core.Path.{subst}
use qoder_model_gateway.Model.Config.{ModelConfig}
use qoder_model_gateway.Model.Resolver.{
  name_of, find_key, find_name, put, put_all, is_named, select, ModelResolver, new_model_resolver,
  one_m_suffix, model_by_identifier, public_id, by_key_or_synthetic, key_for, resolve_open,
  resolve_locked, resolve,
}

-- No two entries of a list have one key.
abbrev Distinct : List ModelConfig → Type 0
Distinct [] = Unit
Distinct (m ∷ ms) = (find_key m.key ms ≡ none) × Distinct ms

find_key-put :
    (k : Text) (mc : ModelConfig) (ms : List ModelConfig)
    → find_key k (put mc ms) ≡ (if text_eq mc.key k then some mc else find_key k ms)
unfolding find_key put
find_key-put k mc [] = refl
find_key-put k mc (m ∷ ms) = elim (Bool-cases (text_eq m.key mc.key)) [
  | inl e ↦
      let same : text_eq m.key k ≡ text_eq mc.key k =
        ap (λ x. text_eq x k) ((text_eq_iff m.key mc.key).0 e) in
      elim (Bool-cases (text_eq mc.key k)) [
        | inl c ↦ rw (e, c) refl
        | inr c ↦ rw (e, c, same ∙ c) refl
      ]
  | inr e ↦ elim (Bool-cases (text_eq mc.key k)) [
    | inl c ↦
        let other : text_eq m.key k ≡ false =
          sym (ap (text_eq m.key) ((text_eq_iff mc.key k).0 c)) ∙ e in
        rw (e, other, c) (find_key-put k mc ms ∙ rw c refl)
    | inr c ↦ elim (Bool-cases (text_eq m.key k)) [
      | inl d ↦ rw (e, c, d) refl
      | inr d ↦ rw (e, c, d) (find_key-put k mc ms ∙ rw c refl)
    ]
  ]
]

text_eq_sym : (s t : Text) → text_eq s t ≡ false → text_eq t s ≡ false
text_eq_sym s t h = elim (Bool-cases (text_eq t s)) [
  | inl e ↦ absurd (ground (arith, h, (text_eq_iff s t).1 (sym ((text_eq_iff t s).0 e))))
  | inr e ↦ e
]

put-Distinct : (mc : ModelConfig) (ms : List ModelConfig) → Distinct ms → Distinct (put mc ms)
unfolding put
put-Distinct mc [] h = (unfold find_key in refl, tt)
put-Distinct mc (m ∷ ms) h = elim (Bool-cases (text_eq m.key mc.key)) [
  | inl e ↦
      let same = (text_eq_iff m.key mc.key).0 e in
      rw e (ap (λ x. find_key x ms) (sym same) ∙ h.0, h.1)
  | inr e ↦
      let c = text_eq_sym m.key mc.key e in
      rw e (find_key-put m.key mc ms ∙ rw c h.0, put-Distinct mc ms h.1)
]

put_all-Distinct : (mcs ms : List ModelConfig) → Distinct ms → Distinct (put_all mcs ms)
unfolding put_all
put_all-Distinct [] ms h = h
put_all-Distinct (mc ∷ mcs) ms h = put_all-Distinct mcs (put mc ms) (put-Distinct mc ms h)

find_key_key :
    (k : Text) (ms : List ModelConfig) (x : ModelConfig) → find_key k ms ≡ some x → x.key ≡ k
unfolding find_key
find_key_key k [] x h = absurd (ground (arith, h))
find_key_key k (m ∷ ms) x h = elim (Bool-cases (text_eq m.key k)) [
  | inl e ↦
      let same : m ≡ x = ground (arith, h, e) in
      ap (λ y. y.key) (sym same) ∙ (text_eq_iff m.key k).0 e
  | inr e ↦ find_key_key k ms x (ground (arith, h, e))
]

find_key_tail :
    (m : ModelConfig) (ms : List ModelConfig) (x : ModelConfig)
    → find_key m.key ms ≡ none
    → find_key x.key ms ≡ some x
    → find_key x.key (m ∷ ms) ≡ some x
unfolding find_key
find_key_tail m ms x d h = elim (Bool-cases (text_eq m.key x.key)) [
  | inl e ↦
      let clash : find_key m.key ms ≡ some x =
        ap (λ k. find_key k ms) ((text_eq_iff m.key x.key).0 e) ∙ h in
      absurd (ground (arith, d, clash))
  | inr e ↦ rw e h
]

find_key_head : (m : ModelConfig) (ms : List ModelConfig) → find_key m.key (m ∷ ms) ≡ some m
unfolding find_key
find_key_head m ms = rw (text_eq_refl m.key) refl

-- What is found by name among selected entries is the entry of its key.
record IsFound (p : ModelConfig → Bool) (n : Text) (ms : List ModelConfig) (x : ModelConfig)
    : Type 0 where
  by_its_key : find_key x.key ms ≡ some x
  selected : p x ≡ true
  name : name_of x ≡ n

IsFound-tail :
    (p : ModelConfig → Bool) (n : Text) (m : ModelConfig) (ms : List ModelConfig) (x : ModelConfig)
    → find_key m.key ms ≡ none
    → IsFound p n ms x
    → IsFound p n (m ∷ ms) x
IsFound-tail p n m ms x d v = record {
  by_its_key = find_key_tail m ms x d v.by_its_key;
  selected = v.selected;
  name = v.name;
}

find_name-IsFound :
    (p : ModelConfig → Bool) (n : Text) (ms : List ModelConfig) (x : ModelConfig)
    → Distinct ms
    → find_name n (select p ms) ≡ some x
    → IsFound p n ms x
unfolding find_name select
find_name-IsFound p n [] x d h = absurd (ground (arith, h))
find_name-IsFound p n (m ∷ ms) x d h = elim (Bool-cases (p m)) [
  | inr e ↦ IsFound-tail p n m ms x d.0 (find_name-IsFound p n ms x d.1 (ground (arith, h, e)))
  | inl e ↦ elim (Bool-cases (text_eq (name_of m) n)) [
    | inr f ↦ IsFound-tail p n m ms x d.0 (find_name-IsFound p n ms x d.1 (ground (arith, h, e, f)))
    | inl f ↦
        let same : m ≡ x = ground (arith, h, e, f) in
        subst (IsFound p n (m ∷ ms)) same (record {
          by_its_key = find_key_head m ms;
          selected = e;
          name = (text_eq_iff (name_of m) n).0 f;
        })
  ]
]

is_named_key :
    (ms : List ModelConfig) (x keyed : ModelConfig)
    → is_named ms x ≡ true
    → find_key (name_of x) ms ≡ some keyed
    → text_eq keyed.key x.key ≡ true
unfolding is_named
is_named_key ms x keyed h e = ground (arith, h, e)

some_same : (a b : ModelConfig) → some a ≡ some b → a ≡ b
some_same a b h = cc h

module _ (r : ModelResolver) (mc : ModelConfig) (e : find_key mc.key r.by_key ≡ some mc) where
  key_resolves : model_by_identifier r mc.key ≡ some mc
  unfolding model_by_identifier
  key_resolves = rw (e, model_by_identifier) refl

  name_resolves :
      (named : ModelConfig)
      → find_name (name_of mc) r.by_name ≡ some named
      → text_eq named.key mc.key ≡ true
      → IsFound (is_named r.by_key) (name_of mc) r.by_key named
      → model_by_identifier r (name_of mc) ≡ some mc
  unfolding model_by_identifier
  name_resolves named f k v =
      let key : named.key ≡ mc.key = (text_eq_iff named.key mc.key).0 k in
      let same : named ≡ mc =
        some_same named mc (sym v.by_its_key ∙ ap (λ x. find_key x r.by_key) key ∙ e) in
      elim (Option-cases (find_key (name_of mc) r.by_key)) [
        | inl g ↦ rw (g, f, model_by_identifier) (ap some same)
        | inr (keyed, g) ↦
            let own : find_key (name_of named) r.by_key ≡ some keyed =
              ap (λ x. find_key x r.by_key) v.name ∙ g in
            let keyed_key : keyed.key ≡ mc.key =
              (text_eq_iff keyed.key named.key).0 (is_named_key r.by_key named keyed v.selected own)
              ∙ key in
            let at_name : keyed.key ≡ name_of mc = find_key_key (name_of mc) r.by_key keyed g in
            rw (g, model_by_identifier)
              (sym g ∙ ap (λ x. find_key x r.by_key) (sym at_name ∙ keyed_key) ∙ e)
      ]

  public_id_resolves :
      ((named : ModelConfig)
        → find_name (name_of mc) r.by_name ≡ some named
        → IsFound (is_named r.by_key) (name_of mc) r.by_key named)
      → model_by_identifier r (public_id r mc) ≡ some mc
  unfolding public_id
  public_id_resolves found = elim (Bool-cases (has_suffix (name_of mc) one_m_suffix)) [
    | inl a ↦ rw a key_resolves
    | inr a ↦ elim (Option-cases (find_name (name_of mc) r.by_name)) [
      | inl f ↦ rw (a, f) key_resolves
      | inr (named, f) ↦ elim (Bool-cases (text_eq named.key mc.key)) [
        | inl k ↦ rw (a, f, k) (name_resolves named f k (found named f))
        | inr k ↦ rw (a, f, k) key_resolves
      ]
    ]
  ]

abbrev pub address : Text
address = codes "qoder-anthropic/"

-- The public identifier of an entry whose key does not end like a request for the long window.
public_id-bare :
    (r : ModelResolver) (mc : ModelConfig)
    → has_suffix mc.key one_m_suffix ≡ false
    → has_suffix (public_id r mc) one_m_suffix ≡ false
unfolding public_id
public_id-bare r mc h = elim (Option-cases (find_name (name_of mc) r.by_name)) [
  | inl f ↦ ground (arith, h, f)
  | inr (named, f) ↦ ground (arith, h, f)
]

address-trimmed : (s : Text) → trim_prefix (address ++ s) address ≡ s
unfolding trim_prefix
address-trimmed s = rw (has_prefix-append address s) refl

module _ (r : ModelResolver) (mc : ModelConfig) (id : Text)
    (found : model_by_identifier r id ≡ some mc) (direct : (k : Text) → r.mapping k ≡ none) where
  open_resolves : find_key mc.key r.by_key ≡ some mc → resolve_open r false id ≡ mc
  unfolding resolve_open
  open_resolves e =
      let key : key_for r id ≡ mc.key =
        unfold key_for in ground (arith, direct id, direct (codes "*"), found) in
      let entry : by_key_or_synthetic r (key_for r id) ≡ mc =
        ap (by_key_or_synthetic r) key
        ∙ (unfold by_key_or_synthetic in rw (key_resolves r mc e, by_key_or_synthetic) refl) in
      entry

  locked_resolves : mc.enable ≡ true → resolve_locked r false id ≡ some mc
  unfolding resolve_locked
  locked_resolves h = rw (found, h, resolve_locked) refl

  resolves :
      (locked : Bool) (client : Text)
      → find_key mc.key r.by_key ≡ some mc
      → mc.enable ≡ true
      → trim_prefix client address ≡ id
      → has_suffix id one_m_suffix ≡ false
      → resolve r locked client ≡ some mc
  unfolding resolve
  resolves true client e h t n = rw (t, n, resolve) (locked_resolves h)
  resolves false client e h t n = rw (t, n, resolve) (ap some (open_resolves e))

-- Whatever the catalogue holds, entries of one name, names that end in `[1m]`, a name that is the key of
-- another entry and entries of one key included, and in both modes: when no mapping is configured, an
-- enabled entry in the map by key, whose key does not end in `[1m]`, is what a request for its public
-- identifier is resolved to, with its own window: after the prefix of the gateway, and without it when
-- the identifier does not begin like it.
pub resolve-public_id :
    (catalog : List ModelConfig) (mapping : Text → Option Text) (def one_m : Text)
    (mc : ModelConfig) (locked : Bool)
    → find_key mc.key (new_model_resolver catalog mapping def one_m).by_key ≡ some mc
    → ((k : Text) → mapping k ≡ none)
    → mc.enable ≡ true
    → has_suffix mc.key one_m_suffix ≡ false
    → let r = new_model_resolver catalog mapping def one_m in
      (resolve r locked (address ++ public_id r mc) ≡ some mc)
      × ((has_prefix (public_id r mc) address ≡ true)
          ⊎ (resolve r locked (public_id r mc) ≡ some mc))
unfolding new_model_resolver
resolve-public_id catalog mapping def one_m mc locked e direct h n =
    let r = new_model_resolver catalog mapping def one_m in
    let id = public_id r mc in
    let by_key = put_all catalog [] in
    let found : model_by_identifier r id ≡ some mc = public_id_resolves r mc e (λ named f.
      find_name-IsFound (is_named by_key) (name_of mc) by_key named (put_all-Distinct catalog [] tt)
        f) in
    let bare = public_id-bare r mc n in
    (
      resolves r mc id found direct locked (address ++ id) e h (address-trimmed id) bare,
      elim (Bool-cases (has_prefix id address)) [
        | inl p ↦ inl p
        | inr p ↦
            inr (resolves r mc id found direct locked id e h (unfold trim_prefix in rw p refl) bare)
      ],
    )
