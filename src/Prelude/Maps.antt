-- ===== src/Prelude/Maps.antt =====
-- Maps from strings as association lists: the first pair with a key counts.
use Prim.Native.Nat.{ℕ, suc, ◌≤◌, ◌<◌}
use mathlib.Core.Path.{◌≡◌, refl, sym, ◌∙◌, subst}
use mathlib.Core.Logic.{◌≢◌, inl, inr}
use mathlib.Core.Bool.{Bool, true, false, ◌&&◌}
use mathlib.Core.Option.{Option, none, some}
use mathlib.Core.List.{List, [], ◌∷◌}
use native.Mathlib.Omega.{arith}
use gpuinfra.Prelude.Tests.{◌==◌, if◌then◌else◌, Bool-cases}
use gpuinfra.Prelude.Lists.{length}

abbrev pub eq_list : List ℕ → List ℕ → Bool
eq_list [] [] = true
eq_list [] (y ∷ ys) = false
eq_list (x ∷ xs) [] = false
eq_list (x ∷ xs) (y ∷ ys) = x == y && eq_list xs ys

pub eq_list_refl : (xs : List ℕ) → eq_list xs xs ≡ true
eq_list_refl [] = refl
eq_list_refl (x ∷ xs) = ground (arith, eq_list_refl xs)

pub eq_list-≡ : (xs ys : List ℕ) → eq_list xs ys ≡ true → xs ≡ ys
eq_list-≡ [] [] e = refl
eq_list-≡ [] (y ∷ ys) e = ground (arith, e)
eq_list-≡ (x ∷ xs) [] e = ground (arith, e)
eq_list-≡ (x ∷ xs) (y ∷ ys) e =
    let rest : eq_list xs ys ≡ true = ground (arith, e) in
    let same = eq_list-≡ xs ys rest in ground (arith, e, same)

-- `find`
abbrev pub lookup {ℓ} : {A : Type ℓ} → List ℕ → List (List ℕ × A) → Option A
lookup k [] = none
lookup k ((k', v) ∷ m) = let rest = lookup k m in if eq_list k' k then some v else rest

-- `map[key] = value`
abbrev pub assign {ℓ} : {A : Type ℓ} → List ℕ → A → List (List ℕ × A) → List (List ℕ × A)
assign k v [] = (k, v) ∷ []
assign k v ((k', v') ∷ m) =
    let rest = assign k v m in if eq_list k' k then (k', v) ∷ m else (k', v') ∷ rest

-- No key stands twice, so the length is the size of the map.
abbrev pub IsDistinct {ℓ} : {A : Type ℓ} → List (List ℕ × A) → Type ℓ
IsDistinct [] = Unit
IsDistinct ((k, v) ∷ m) = (lookup k m ≡ none) × IsDistinct m

abbrev without {ℓ} : {A : Type ℓ} → List ℕ → List (List ℕ × A) → List (List ℕ × A)
without k [] = []
without k ((k', v) ∷ m) = let rest = without k m in if eq_list k' k then rest else (k', v) ∷ rest

module _ {ℓ} {A : Type ℓ} (k : List ℕ) (v : A) where
  pub lookup-assign : (m : List (List ℕ × A)) → lookup k (assign k v m) ≡ some v
  lookup-assign [] = ground (arith, eq_list_refl k)
  lookup-assign ((k', v') ∷ m) = ground (arith, lookup-assign m)

  pub lookup-assign_other :
      (j : List ℕ) (m : List (List ℕ × A)) → j ≢ k → lookup j (assign k v m) ≡ lookup j m
  lookup-assign_other j [] n = elim (Bool-cases (eq_list k j)) [
    | inl e ↦ absurd (n (sym (eq_list-≡ k j e)))
    | inr e ↦ ground (arith, e)
  ]
  lookup-assign_other j ((k', v') ∷ m) n =
      let rest = lookup-assign_other j m n in
      elim (Bool-cases (eq_list k' k)) [
        | inl e ↦ elim (Bool-cases (eq_list k' j)) [
          | inl e' ↦ absurd (n (sym (eq_list-≡ k' j e') ∙ eq_list-≡ k' k e))
          | inr e' ↦ ground (arith, e, e')
        ]
        | inr e ↦ ground (arith, e, rest)
      ]

  pub length-assign_new :
      (m : List (List ℕ × A)) → lookup k m ≡ none → length (assign k v m) ≡ suc (length m)
  length-assign_new [] h = refl
  length-assign_new ((k', v') ∷ m) h = elim (Bool-cases (eq_list k' k)) [
    | inl e ↦ absurd (ground (arith, h, e))
    | inr e ↦ let rest = length-assign_new m (ground (arith, h, e)) in ground (arith, e, rest)
  ]

  pub length-assign_old :
      (m : List (List ℕ × A)) → lookup k m ≢ none → length (assign k v m) ≡ length m
  length-assign_old [] h = absurd (h refl)
  length-assign_old ((k', v') ∷ m) h = elim (Bool-cases (eq_list k' k)) [
    | inl e ↦ ground (arith, e)
    | inr e ↦
        let rest = length-assign_old m (λ z. h (ground (arith, z, e))) in ground (arith, e, rest)
  ]

  pub assign-IsDistinct : (m : List (List ℕ × A)) → IsDistinct m → IsDistinct (assign k v m)
  assign-IsDistinct [] d = (refl, tt)
  assign-IsDistinct ((k', v') ∷ m) (new, d) = elim (Bool-cases (eq_list k' k)) [
    | inl e ↦
        let done : assign k v ((k', v') ∷ m) ≡ (k', v) ∷ m = ground (arith, e) in
        subst IsDistinct (sym done) (new, d)
    | inr e ↦
        let apart : k' ≢ k = λ z.
          let r = eq_list_refl k in
          let f = subst (λ x. eq_list x k ≡ false) z e in ground (arith, r, f) in
        let done : assign k v ((k', v') ∷ m) ≡ (k', v') ∷ assign k v m = ground (arith, e) in
        subst IsDistinct (sym done) (lookup-assign_other k' m apart ∙ new, assign-IsDistinct m d)
  ]

module _ {ℓ} {A : Type ℓ} (k : List ℕ) where
  length-without_le : (m : List (List ℕ × A)) → length (without k m) ≤ length m
  length-without_le [] = omega arith
  length-without_le ((k', v) ∷ m) = ground (arith, length-without_le m)

  length-without : (m : List (List ℕ × A)) → lookup k m ≢ none → length (without k m) < length m
  length-without [] h = absurd (h refl)
  length-without ((k', v) ∷ m) h = elim (Bool-cases (eq_list k' k)) [
    | inl e ↦ ground (arith, e, length-without_le m)
    | inr e ↦ let rest = length-without m (λ z. h (ground (arith, z, e))) in ground (arith, e, rest)
  ]

  lookup-without_other :
      (j : List ℕ) (m : List (List ℕ × A)) → j ≢ k → lookup j (without k m) ≡ lookup j m
  lookup-without_other j [] n = refl
  lookup-without_other j ((k', v) ∷ m) n =
      let rest = lookup-without_other j m n in
      elim (Bool-cases (eq_list k' k)) [
        | inl e ↦ elim (Bool-cases (eq_list k' j)) [
          | inl e' ↦ absurd (n (sym (eq_list-≡ k' j e') ∙ eq_list-≡ k' k e))
          | inr e' ↦ ground (arith, e, e', rest)
        ]
        | inr e ↦ ground (arith, e, rest)
      ]

-- A map whose keys are all keys of another one is no larger.
length-le {ℓ} :
    {A B : Type ℓ} (m : List (List ℕ × A)) (n : List (List ℕ × B))
    → IsDistinct m
    → ((k : List ℕ) → lookup k m ≢ none → lookup k n ≢ none)
    → length m ≤ length n
length-le [] n d sub = omega arith
length-le ((k, v) ∷ m) n (new, d) sub =
    let here : lookup k n ≢ none = sub k (λ z. ground (arith, z, eq_list_refl k)) in
    let kept : (j : List ℕ) → lookup j m ≢ none → lookup j (without k n) ≢ none = λ j h z.
      let apart : j ≢ k = λ e. h (subst (λ x. lookup x m ≡ none) (sym e) new) in
      let there : lookup j n ≢ none = sub j (λ y. elim (Bool-cases (eq_list k j)) [
        | inl e ↦ apart (sym (eq_list-≡ k j e))
        | inr e ↦ h (ground (arith, y, e))
      ]) in
      there (sym (lookup-without_other k j n apart) ∙ z) in
    let rest = length-le m (without k n) d kept in omega (arith, rest, length-without k n here)

-- Where it is as large, it has all the keys of the other.
pub full-lookup {ℓ} :
    {A B : Type ℓ} (m : List (List ℕ × A)) (n : List (List ℕ × B)) (j : List ℕ)
    → IsDistinct m
    → ((k : List ℕ) → lookup k m ≢ none → lookup k n ≢ none)
    → length m ≡ length n
    → lookup j n ≢ none
    → lookup j m ≢ none
full-lookup m n j d sub same here missing =
    let kept : (k : List ℕ) → lookup k m ≢ none → lookup k (without j n) ≢ none = λ k h z.
      let apart : k ≢ j = λ e. h (subst (λ x. lookup x m ≡ none) (sym e) missing) in
      sub k h (sym (lookup-without_other j k n apart) ∙ z) in
    omega (arith, length-le m (without j n) d kept, length-without j n here, same)
