-- ===== src/Params/Laws.antt =====
-- What the tasks may rely on when they read the parameters of a graph.
use gpuinfra.Prelude.{
  ℕ, ◌+◌, ◌≤◌, ◌≡◌, ◌≢◌, ◌⊎◌, refl, ap, subst, sym, ◌∙◌, inl, inr, true, none, some, List, arith,
  Option-cases,
}
use gpuinfra.Prelude.Maps.{lookup, lookup-assign, lookup-assign_other}
use gpuinfra.Params.{
  ParameterType, string_type, bytes_type, ParameterValue, string_value, bytes_value,
  ParameterSnapshot, ParameterRegistry, get_string, get_bytes, register_parameter, set_value,
  set_string, set_bytes, seal, snapshot,
}
use gpuinfra.Params.Schema.{type_of, Reachable, Reachable-IsTyped, complete-value, set_value-cases}

-- A successful write: the value is there, the rest is as it was, and the revision is the same only
-- where nothing has changed.
pub record IsUpdated (r : ParameterRegistry) (name : List ℕ) (value : ParameterValue)
    (r' : ParameterRegistry) : Type 0 where
  pub there : lookup name r'.values ≡ some value
  pub others : (j : List ℕ) → j ≢ name → lookup j r'.values ≡ lookup j r.values
  pub schema : r'.schema ≡ r.schema
  pub sealed : r'.sealed ≡ r.sealed
  pub revision :
      (r' ≡ r)
      ⊎ ((r'.revision_number ≡ r.revision_number + 1) × (lookup name r.values ≢ some value))

pub set_value-IsUpdated :
    (r : ParameterRegistry) (name : List ℕ) (type : ParameterType) (value : ParameterValue)
    → (set_value r name type value).1 ≡ true
    → IsUpdated r name value (set_value r name type value).0
set_value-IsUpdated r name type value ok = elim (set_value-cases r name type value) [
  | inl e ↦ absurd (ground (arith, e, ok))
  | inr rest ↦ elim rest [
    | inl (e, found) ↦ subst (IsUpdated r name value) (sym (ap (λ x. x.0) e)) (record {
      there = found;
      others = λ j n. refl;
      schema = refl;
      sealed = refl;
      revision = inl refl;
    })
    | inr s ↦ subst (IsUpdated r name value) (sym (ap (λ x. x.0) s.result)) (record {
      there = lookup-assign name value r.values;
      others = λ j n. lookup-assign_other name value j r.values n;
      schema = refl;
      sealed = refl;
      revision = inr (refl, s.changed);
    })
  ]
]

-- The contents of a registry, as `snapshot` copies them.
abbrev pub contents : ParameterRegistry → ParameterSnapshot
contents r = record { values = r.values; revision_number = r.revision_number }

pub sealed-snapshot : (r : ParameterRegistry) → r.sealed ≡ true → snapshot r ≡ some (contents r)
unfolding snapshot
sealed-snapshot r on = ground (arith, on)

module _ (s t : ParameterSnapshot) (j : List ℕ) (e : lookup j s.values ≡ lookup j t.values) where
  get_string-same : get_string s j ≡ get_string t j
  unfolding get_string
  get_string-same =
      ap
        (λ o. elim o [
          | none ↦ none
          | some v ↦ elim v [ string_value x ↦ some x | bytes_value x ↦ none ]
        ])
        e

  get_bytes-same : get_bytes s j ≡ get_bytes t j
  unfolding get_bytes
  get_bytes-same =
      ap
        (λ o. elim o [
          | none ↦ none
          | some v ↦ elim v [ string_value x ↦ none | bytes_value x ↦ some x ]
        ])
        e

get_string-found :
    (s : ParameterSnapshot) (name x : List ℕ)
    → lookup name s.values ≡ some (string_value x)
    → get_string s name ≡ some x
unfolding get_string
get_string-found s name x e = ground (arith, e)

get_bytes-found :
    (s : ParameterSnapshot) (name x : List ℕ)
    → lookup name s.values ≡ some (bytes_value x)
    → get_bytes s name ≡ some x
unfolding get_bytes
get_bytes-found s name x e = ground (arith, e)

found-get_string :
    (s : ParameterSnapshot) (name x : List ℕ)
    → get_string s name ≡ some x
    → lookup name s.values ≡ some (string_value x)
unfolding get_string
found-get_string s name x e = elim (Option-cases (lookup name s.values)) [
  | inl n ↦ ground (arith, n, e)
  | inr (v, n) ↦ string_only v n
]
  where
    string_only :
        (v : ParameterValue)
        → lookup name s.values ≡ some v
        → lookup name s.values ≡ some (string_value x)
    string_only (string_value y) n = ground (arith, n, e)
    string_only (bytes_value y) n = ground (arith, n, e)

string_type-value :
    (v : ParameterValue) → type_of v ≡ string_type → (x : List ℕ) × (v ≡ string_value x)
string_type-value (string_value x) e = (x, refl)
string_type-value (bytes_value x) e = ground (arith, e)

bytes_type-value :
    (v : ParameterValue) → type_of v ≡ bytes_type → (x : List ℕ) × (v ≡ bytes_value x)
bytes_type-value (string_value x) e = ground (arith, e)
bytes_type-value (bytes_value x) e = (x, refl)

-- A sealed registry that calls on a new one can reach can be copied, and its copy has a string for
-- each parameter that was registered as one, and bytes for each that was registered as bytes.
pub snapshot_complete :
    (r : ParameterRegistry)
    → Reachable r
    → r.sealed ≡ true
    → (snapshot r ≡ some (contents r))
      × ((name : List ℕ)
          → lookup name r.schema ≡ some string_type
          → (x : List ℕ) × (get_string (contents r) name ≡ some x))
      × ((name : List ℕ)
          → lookup name r.schema ≡ some bytes_type
          → (x : List ℕ) × (get_bytes (contents r) name ≡ some x))
snapshot_complete r h on =
    let t = Reachable-IsTyped r h in
    (
      sealed-snapshot r on,
      λ name known.
          let (v, e, sort) = complete-value r t on name string_type known in
          let (x, is) = string_type-value v sort in
          (x, get_string-found (contents r) name x (e ∙ ap some is)),
      λ name known.
          let (v, e, sort) = complete-value r t on name bytes_type known in
          let (x, is) = bytes_type-value v sort in
          (x, get_bytes-found (contents r) name x (e ∙ ap some is)),
    )

-- When setString succeeds on a sealed registry, a snapshot has the new string and every other
-- parameter as before, and either nothing has changed, with the revision, or the string is new and
-- the revision advances by one.
pub set_string-get_string :
    (r : ParameterRegistry) (name value : List ℕ)
    → r.sealed ≡ true
    → (set_string r name value).1 ≡ true
    → (snapshot (set_string r name value).0 ≡ some (contents (set_string r name value).0))
      × (get_string (contents (set_string r name value).0) name ≡ some value)
      × ((j : List ℕ)
          → j ≢ name
          → (get_string (contents (set_string r name value).0) j ≡ get_string (contents r) j)
            × (get_bytes (contents (set_string r name value).0) j ≡ get_bytes (contents r) j))
      × ((contents (set_string r name value).0 ≡ contents r)
          ⊎ (((set_string r name value).0.revision_number ≡ r.revision_number + 1)
              × (get_string (contents r) name ≢ some value)))
unfolding set_string
set_string-get_string r name value on ok =
    let u = set_value-IsUpdated r name string_type (string_value value) ok in
    let r' = (set_string r name value).0 in
    let found = u.there in
    let kept = u.sealed in
    (
      sealed-snapshot r' (kept ∙ on),
      get_string-found (contents r') name value found,
      λ j n. (
        get_string-same (contents r') (contents r) j (u.others j n),
        get_bytes-same (contents r') (contents r) j (u.others j n),
      ),
      elim u.revision [
        | inl same ↦ inl (ap contents same)
        | inr (more, new) ↦ inr (more, λ e. new (found-get_string (contents r) name value e))
      ],
    )

-- Calls on a registry, one after the other.
pub data Later : ParameterRegistry → ParameterRegistry → Type 0 where
  now : {r : ParameterRegistry} → Later r r
  then_register :
      {r r' : ParameterRegistry} (name : List ℕ) (type : ParameterType)
      → Later r r'
      → Later r (register_parameter r' name type).0
  then_string :
      {r r' : ParameterRegistry} (name value : List ℕ)
      → Later r r'
      → Later r (set_string r' name value).0
  then_bytes :
      {r r' : ParameterRegistry} (name value : List ℕ)
      → Later r r'
      → Later r (set_bytes r' name value).0
  then_seal : {r r' : ParameterRegistry} → Later r r' → Later r (seal r').0

-- The revision does not go back, and is the same only with the same contents.
abbrev Advances : ParameterRegistry → ParameterRegistry → Type 0
Advances r r' =
    (r.revision_number ≤ r'.revision_number)
    × (r'.revision_number ≡ r.revision_number → r'.values ≡ r.values)

set_value-Advances :
    (r₀ r : ParameterRegistry) (name : List ℕ) (type : ParameterType) (value : ParameterValue)
    → Advances r₀ r
    → Advances r₀ (set_value r name type value).0
set_value-Advances r₀ r name type value (le, same) = elim (set_value-cases r name type value) [
  | inl e ↦ subst (Advances r₀) (sym (ap (λ x. x.0) e)) (le, same)
  | inr rest ↦ elim rest [
    | inl (e, found) ↦ subst (Advances r₀) (sym (ap (λ x. x.0) e)) (le, same)
    | inr s ↦
        subst (Advances r₀) (sym (ap (λ x. x.0) s.result))
          (omega (arith, le), λ h. absurd (omega (arith, le, h)))
  ]
]

register_parameter-values :
    (r : ParameterRegistry) (name : List ℕ) (type : ParameterType)
    → ((register_parameter r name type).0.values ≡ r.values)
      × ((register_parameter r name type).0.revision_number ≡ r.revision_number)
unfolding register_parameter
register_parameter-values r name type = elim (Option-cases (lookup name r.schema)) [
  | inl e ↦ ground (arith, e)
  | inr (found, e) ↦ ground (arith, e)
]

seal-values :
    (r : ParameterRegistry)
    → ((seal r).0.values ≡ r.values) × ((seal r).0.revision_number ≡ r.revision_number)
unfolding seal
seal-values r = ground arith

-- After any calls on a registry its revision is not below the earlier one, and where the two are
-- equal the values are those of the earlier one, so a task that has applied a revision may skip a
-- snapshot of the same one.
pub Later-revision :
    (r r' : ParameterRegistry)
    → Later r r'
    → (r.revision_number ≤ r'.revision_number)
      × (r'.revision_number ≡ r.revision_number → r'.values ≡ r.values)
unfolding set_string set_bytes
Later-revision r _ now = (omega arith, λ h. refl)
Later-revision r _ (then_register {r' = m} name type l) =
    let (le, same) = Later-revision r m l in
    let (v, n) = register_parameter-values m name type in
    (ground (arith, le, n), λ h. v ∙ same (sym n ∙ h))
Later-revision r _ (then_string {r' = m} name value l) =
    set_value-Advances r m name string_type (string_value value) (Later-revision r m l)
Later-revision r _ (then_bytes {r' = m} name value l) =
    set_value-Advances r m name bytes_type (bytes_value value) (Later-revision r m l)
Later-revision r _ (then_seal {r' = m} l) =
    let (le, same) = Later-revision r m l in
    let (v, n) = seal-values m in (ground (arith, le, n), λ h. v ∙ same (sym n ∙ h))
