-- ===== src/Params/Schema.antt =====
-- What a registry holds, whatever calls have been made: each value has the type of its parameter,
-- and once the registry is sealed each parameter has a value.
use gpuinfra.Prelude.{
  ℕ, ◌+◌, ◌≤◌, ◌≡◌, ◌≢◌, ◌⊎◌, refl, ap, subst, sym, ◌∙◌, inl, inr, true, false, not, ◌||◌, none,
  some, List, [], ◌==◌, arith, length, size_max, Bool-cases, Option-cases,
}
use gpuinfra.Prelude.Maps.{
  eq_list, eq_list_refl, eq_list-≡, lookup, assign, IsDistinct, lookup-assign, lookup-assign_other,
  length-assign_old, assign-IsDistinct, full-lookup,
}
use gpuinfra.Params.{
  ParameterType, string_type, bytes_type, ParameterValue, string_value, bytes_value,
  ParameterRegistry, new_registry, eq_type, eq_value, register_parameter, store_value, set_value,
  set_string, set_bytes, seal,
}

abbrev pub type_of : ParameterValue → ParameterType
type_of (string_value s) = string_type
type_of (bytes_value s) = bytes_type

pub record IsTyped (r : ParameterRegistry) : Type 0 where
  pub schema_keys : IsDistinct r.schema
  pub value_keys : IsDistinct r.values
  pub types :
      (name : List ℕ) (v : ParameterValue)
      → lookup name r.values ≡ some v
      → lookup name r.schema ≡ some (type_of v)
  pub bound : r.revision_number ≤ size_max
  pub complete : r.sealed ≡ true → length r.values ≡ length r.schema

-- The registries that calls on a new one can reach.
pub data Reachable : ParameterRegistry → Type 0 where
  created : Reachable new_registry
  registered :
      {r : ParameterRegistry} (name : List ℕ) (type : ParameterType)
      → Reachable r
      → Reachable (register_parameter r name type).0
  string_set :
      {r : ParameterRegistry} (name value : List ℕ)
      → Reachable r
      → Reachable (set_string r name value).0
  bytes_set :
      {r : ParameterRegistry} (name value : List ℕ)
      → Reachable r
      → Reachable (set_bytes r name value).0
  was_sealed : {r : ParameterRegistry} → Reachable r → Reachable (seal r).0

eq_type-≡ : (a b : ParameterType) → eq_type a b ≡ true → a ≡ b
eq_type-≡ string_type string_type e = refl
eq_type-≡ string_type bytes_type e = ground (arith, e)
eq_type-≡ bytes_type string_type e = ground (arith, e)
eq_type-≡ bytes_type bytes_type e = refl

name-cases : (a b : List ℕ) → (a ≡ b) ⊎ (a ≢ b)
name-cases a b = elim (Bool-cases (eq_list a b)) [
  | inl e ↦ inl (eq_list-≡ a b e)
  | inr e ↦ inr (λ z.
      let f = subst (λ x. eq_list a x ≡ false) (sym z) e in
      let r = eq_list_refl a in ground (arith, f, r))
]

value_key-schema :
    (r : ParameterRegistry)
    → IsTyped r
    → (name : List ℕ) → lookup name r.values ≢ none
    → lookup name r.schema ≢ none
value_key-schema r t name h = elim (Option-cases (lookup name r.values)) [
  | inl e ↦ absurd (h e)
  | inr (v, e) ↦ let known = t.types name v e in λ z. ground (arith, known, z)
]

-- Where the registry is sealed, each parameter has a value of its type.
pub complete-value :
    (r : ParameterRegistry)
    → IsTyped r
    → r.sealed ≡ true
    → (name : List ℕ) (type : ParameterType) → lookup name r.schema ≡ some type
    → (v : ParameterValue) × (lookup name r.values ≡ some v) × (type_of v ≡ type)
complete-value r t on name type known = elim (Option-cases (lookup name r.values)) [
  | inl e ↦ absurd (
      full-lookup r.values r.schema name t.value_keys (value_key-schema r t) (t.complete on)
        (λ z. ground (arith, known, z)) e)
  | inr (v, e) ↦ let same = t.types name v e in (v, e, ground (arith, same, known))
]

register-IsTyped :
    (r : ParameterRegistry) (name : List ℕ) (type : ParameterType)
    → IsTyped r
    → IsTyped (register_parameter r name type).0
unfolding register_parameter
register-IsTyped r name type t = elim (Bool-cases (r.sealed || eq_list name [])) [
  | inl stop ↦
      let kept : (register_parameter r name type).0 ≡ r = ground (arith, stop) in
      subst IsTyped (sym kept) t
  | inr go_on ↦ elim (Option-cases (lookup name r.schema)) [
    | inr (found, e) ↦
        let kept : (register_parameter r name type).0 ≡ r = ground (arith, go_on, e) in
        subst IsTyped (sym kept) t
    | inl e ↦
        let added : (register_parameter r name type).0
            ≡ record r { schema = assign name type r.schema } =
          ground (arith, go_on, e) in
        subst IsTyped (sym added) (record {
          schema_keys = assign-IsDistinct name type r.schema t.schema_keys;
          value_keys = t.value_keys;
          types = λ j v h. elim (name-cases j name) [
            | inl same ↦
                let old = subst (λ x. lookup x r.schema ≡ some (type_of v)) same (t.types j v h) in
                absurd (ground (arith, old, e))
            | inr apart ↦ lookup-assign_other name type j r.schema apart ∙ t.types j v h
          ];
          bound = t.bound;
          complete = λ on. ground (arith, on, go_on);
        })
  ]
]

-- A value is stored, and the revision advances.
pub record IsStored (r : ParameterRegistry) (name : List ℕ) (type : ParameterType)
    (value : ParameterValue) : Type 0 where
  pub known : lookup name r.schema ≡ some type
  pub changed : lookup name r.values ≢ some value
  pub room : r.revision_number ≢ size_max
  pub result : set_value r name type value ≡ (
    record r { values = assign name value r.values; revision_number = r.revision_number + 1 },
    true,
  )

eq_value-≡ : (a b : ParameterValue) → eq_value a b ≡ true → a ≡ b
eq_value-≡ (string_value a) (string_value b) e = ap string_value (eq_list-≡ a b e)
eq_value-≡ (string_value a) (bytes_value b) e = ground (arith, e)
eq_value-≡ (bytes_value a) (string_value b) e = ground (arith, e)
eq_value-≡ (bytes_value a) (bytes_value b) e = ap bytes_value (eq_list-≡ a b e)

eq_value_refl : (a : ParameterValue) → eq_value a a ≡ true
eq_value_refl (string_value a) = eq_list_refl a
eq_value_refl (bytes_value a) = eq_list_refl a

-- A value is refused, is there already, or is stored.
pub set_value-cases :
    (r : ParameterRegistry) (name : List ℕ) (type : ParameterType) (value : ParameterValue)
    → (set_value r name type value ≡ (r, false))
      ⊎ (((set_value r name type value ≡ (r, true)) × (lookup name r.values ≡ some value))
          ⊎ IsStored r name type value)
unfolding set_value store_value
set_value-cases r name type value = elim (Option-cases (lookup name r.schema)) [
  | inl e ↦ inl (ground (arith, e))
  | inr (found, e) ↦ elim (Bool-cases (eq_type found type)) [
    | inr bad ↦ inl (ground (arith, e, bad))
    | inl good ↦
        let known : lookup name r.schema ≡ some type = e ∙ ap some (eq_type-≡ found type good) in
        elim (Bool-cases (r.revision_number == size_max)) [
          | inl full ↦ elim (Option-cases (lookup name r.values)) [
            | inl n ↦ inl (ground (arith, e, good, full, n))
            | inr (v, n) ↦ elim (Bool-cases (eq_value v value)) [
              | inl same ↦
                  inr
                    (inl (ground (arith, e, good, n, same), n ∙ ap some (eq_value-≡ v value same)))
              | inr other ↦ inl (ground (arith, e, good, full, n, other))
            ]
          ]
          | inr room ↦ elim (Option-cases (lookup name r.values)) [
            | inl n ↦ inr (
                inr (record {
                  known = known;
                  changed = λ z. ground (arith, z, n);
                  room = λ z. ground (arith, z, room);
                  result = ground (arith, e, good, room, n);
                }))
            | inr (v, n) ↦ elim (Bool-cases (eq_value v value)) [
              | inl same ↦
                  inr
                    (inl (ground (arith, e, good, n, same), n ∙ ap some (eq_value-≡ v value same)))
              | inr other ↦ inr (
                  inr (record {
                    known = known;
                    changed = λ z.
                        let w : v ≡ value = ground (arith, z, n) in
                        let f = subst (λ x. eq_value x value ≡ false) w other in
                        let t = eq_value_refl value in ground (arith, f, t);
                    room = λ z. ground (arith, z, room);
                    result = ground (arith, e, good, room, n, other);
                  }))
            ]
          ]
        ]
  ]
]

set_value-IsTyped :
    (r : ParameterRegistry) (name : List ℕ) (value : ParameterValue)
    → IsTyped r
    → IsTyped (set_value r name (type_of value) value).0
set_value-IsTyped r name value t = elim (set_value-cases r name (type_of value) value) [
  | inl e ↦ subst IsTyped (sym (ap (λ x. x.0) e)) t
  | inr rest ↦ elim rest [
    | inl (e, there) ↦ subst IsTyped (sym (ap (λ x. x.0) e)) t
    | inr s ↦ subst IsTyped (sym (ap (λ x. x.0) s.result)) (record {
      schema_keys = t.schema_keys;
      value_keys = assign-IsDistinct name value r.values t.value_keys;
      types = λ j v h. elim (name-cases j name) [
        | inl same ↦
            let new = lookup-assign name value r.values in
            let got : some value ≡ some v =
              sym new ∙ subst (λ x. lookup x (assign name value r.values) ≡ some v) same h in
            let known = s.known in
            subst (λ x. lookup x r.schema ≡ some (type_of v)) (sym same)
              (known ∙ ap (λ o. elim o [ none ↦ some (type_of v) | some x ↦ some (type_of x) ]) got)
        | inr apart ↦ t.types j v (sym (lookup-assign_other name value j r.values apart) ∙ h)
      ];
      bound = let b = t.bound in let room = s.room in omega (arith, b, room);
      complete = λ on.
          let (w, e, sort) = complete-value r t on name (type_of value) s.known in
          length-assign_old name value r.values (λ z. ground (arith, z, e)) ∙ t.complete on;
    })
  ]
]

seal-IsTyped : (r : ParameterRegistry) → IsTyped r → IsTyped (seal r).0
unfolding seal
seal-IsTyped r t =
    elim (Bool-cases
      (r.sealed || length r.schema == 0 || not (length r.values == length r.schema))) [
        | inl stop ↦ let kept : (seal r).0 ≡ r = ground (arith, stop) in subst IsTyped (sym kept) t
        | inr go_on ↦
            let done : (seal r).0 ≡ record r { sealed = true } = ground (arith, go_on) in
            subst IsTyped (sym done) (record {
              schema_keys = t.schema_keys;
              value_keys = t.value_keys;
              types = t.types;
              bound = t.bound;
              complete = λ on. ground (arith, go_on);
            })
      ]

pub Reachable-IsTyped : (r : ParameterRegistry) → Reachable r → IsTyped r
unfolding set_string set_bytes
Reachable-IsTyped _ created = record {
  schema_keys = tt;
  value_keys = tt;
  types = λ name v h. ground (arith, h);
  bound = omega arith;
  complete = λ on. refl;
}
Reachable-IsTyped _ (registered {r} name type h) =
    register-IsTyped r name type (Reachable-IsTyped r h)
Reachable-IsTyped _ (string_set {r} name value h) =
    set_value-IsTyped r name (string_value value) (Reachable-IsTyped r h)
Reachable-IsTyped _ (bytes_set {r} name value h) =
    set_value-IsTyped r name (bytes_value value) (Reachable-IsTyped r h)
Reachable-IsTyped _ (was_sealed {r} h) = seal-IsTyped r (Reachable-IsTyped r h)
