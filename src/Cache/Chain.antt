-- ===== src/Cache/Chain.antt =====
-- A doubly linked list as a sequence of indices: what the links of the two lists stand for, and
-- what a write to one link does. `previous` and `next` are the links, `n` bounds the indices.
use gpuinfra.Prelude.{
  ℕ, ◌<◌, ◌≡◌, ◌≢◌, refl, Option, none, some, List, [], ◌∷◌, ◌++◌, arith, ◌==◌, if◌then◌else◌, sym,
  subst,
}

abbrev pub Absent : ℕ → List ℕ → Type 0
Absent i [] = Unit
Absent i (x ∷ xs) = (i ≢ x) × Absent i xs

abbrev pub Distinct : List ℕ → Type 0
Distinct [] = Unit
Distinct (x ∷ xs) = Absent x xs × Distinct xs

-- The links run through `xs`: from `f`, with `p` before the first, to the last `l`, with `e` behind.
abbrev pub Chain :
    (ℕ → Option ℕ) → (ℕ → Option ℕ) → Option ℕ → Option ℕ → List ℕ → Option ℕ → Option ℕ → Type 0
Chain previous next p f [] l e = (f ≡ e) × (l ≡ p)
Chain previous next p f (x ∷ xs) l e =
    (f ≡ some x) × (previous x ≡ p) × Chain previous next (some x) (next x) xs l e

abbrev pub update : (ℕ → Option ℕ) → ℕ → Option ℕ → ℕ → Option ℕ
update g i v j = if i == j then v else g j

abbrev pub update? : (ℕ → Option ℕ) → Option ℕ → Option ℕ → ℕ → Option ℕ
update? g none v = g
update? g (some i) v = update g i v

update?-ne : (g : ℕ → Option ℕ) (l v : Option ℕ) (x : ℕ) → l ≢ some x → update? g l v x ≡ g x
update?-ne g none v x h = refl
update?-ne g (some m) v x h = ground arith

module _ (previous next : ℕ → Option ℕ) where
  -- Links at an index outside the list may change.
  pub Chain-next :
      (p f : Option ℕ) (xs : List ℕ) (l e : Option ℕ) (i : ℕ) (v : Option ℕ)
      → Absent i xs
      → Chain previous next p f xs l e
      → Chain previous (update next i v) p f xs l e
  Chain-next p f [] l e i v a c = c
  Chain-next p f (x ∷ xs) l e i v a c =
      ground (arith, Chain-next (some x) (next x) xs l e i v a.1 c.2)

  pub Chain-previous :
      (p f : Option ℕ) (xs : List ℕ) (l e : Option ℕ) (i : ℕ) (v : Option ℕ)
      → Absent i xs
      → Chain previous next p f xs l e
      → Chain (update previous i v) next p f xs l e
  Chain-previous p f [] l e i v a c = c
  Chain-previous p f (x ∷ xs) l e i v a c =
      (c.0, ground arith, Chain-previous (some x) (next x) xs l e i v a.1 c.2)

  pub Chain-append :
      (p f : Option ℕ) (xs : List ℕ) (l f' : Option ℕ) (ys : List ℕ) (l' e : Option ℕ)
      → Chain previous next p f xs l f'
      → Chain previous next l f' ys l' e
      → Chain previous next p f (xs ++ ys) l' e
  Chain-append p f [] l f' ys l' e c d = rw c.0 (rw (← c.1) d)
  Chain-append p f (x ∷ xs) l f' ys l' e c d =
      (c.0, c.1, Chain-append (some x) (next x) xs l f' ys l' e c.2 d)

  pub Chain-split :
      (p f : Option ℕ) (xs ys : List ℕ) (l e : Option ℕ)
      → Chain previous next p f (xs ++ ys) l e
      → (m : Option ℕ) × (g : Option ℕ) × Chain previous next p f xs m g
        × Chain previous next m g ys l e
  Chain-split p f [] ys l e c = (p, f, (refl, refl), c)
  Chain-split p f (x ∷ xs) ys l e c =
      let (m, g, first, second) = Chain-split (some x) (next x) xs ys l e c.2 in
      (m, g, (c.0, c.1, first), second)

  -- The last index of a non-empty chain is in it.
  pub Chain-last_ne :
      (p f : Option ℕ) (x : ℕ) (xs : List ℕ) (l e : Option ℕ) (i : ℕ)
      → Chain previous next p f (x ∷ xs) l e
      → Absent i (x ∷ xs)
      → l ≢ some i
  Chain-last_ne p f x [] l e i c a = ground arith
  Chain-last_ne p f x (y ∷ xs) l e i c a = Chain-last_ne (some x) (next x) y xs l e i c.2 a.1

  -- A write behind the last index.
  pub Chain-end :
      (p f : Option ℕ) (x : ℕ) (xs : List ℕ) (l e v : Option ℕ)
      → Distinct (x ∷ xs)
      → Chain previous next p f (x ∷ xs) l e
      → Chain previous (update? next l v) p f (x ∷ xs) l v
  Chain-end p f x [] none e v d c = cc (c.2.1)
  Chain-end p f x [] (some m) e v d c = ground arith
  Chain-end p f x (y ∷ xs) l e v d c =
      let ne = Chain-last_ne (some x) (next x) y xs l e x c.2 d.0 in
      let rest : Chain previous (update? next l v) (some x) (next x) (y ∷ xs) l v =
        Chain-end (some x) (next x) y xs l e v d.1 c.2 in
      (c.0, c.1, (rw (update?-ne next l v x ne) rest.0, rest.1, rest.2))

  -- A write before the first index.
  pub Chain-start :
      (p f : Option ℕ) (x : ℕ) (xs : List ℕ) (l e p' : Option ℕ)
      → Distinct (x ∷ xs)
      → Chain previous next p f (x ∷ xs) l e
      → Chain (update previous x p') next p' f (x ∷ xs) l e
  Chain-start p f x xs l e p' d c =
      (c.0, ground arith, Chain-previous (some x) (next x) xs l e x p' d.0 c.2)

Absent-append : (i : ℕ) (xs ys : List ℕ) → Absent i (xs ++ ys) → Absent i xs × Absent i ys
Absent-append i [] ys a = (tt, a)
Absent-append i (x ∷ xs) ys a = let (b, c) = Absent-append i xs ys a.1 in ((a.0, b), c)

append-Absent : (i : ℕ) (xs ys : List ℕ) → Absent i xs → Absent i ys → Absent i (xs ++ ys)
append-Absent i [] ys a b = b
append-Absent i (x ∷ xs) ys a b = (a.0, append-Absent i xs ys a.1 b)

-- No index of the first list is in the second.
abbrev Apart : List ℕ → List ℕ → Type 0
Apart [] ys = Unit
Apart (x ∷ xs) ys = Absent x ys × Apart xs ys

Distinct-append : (xs ys : List ℕ) → Distinct (xs ++ ys) → Distinct xs × Distinct ys × Apart xs ys
Distinct-append [] ys d = (tt, d, tt)
Distinct-append (x ∷ xs) ys d =
    let (a, b) = Absent-append x xs ys d.0 in
    let (dx, dy, ap) = Distinct-append xs ys d.1 in ((a, dx), dy, (b, ap))

append-Distinct : (xs ys : List ℕ) → Distinct xs → Distinct ys → Apart xs ys → Distinct (xs ++ ys)
append-Distinct [] ys dx dy a = dy
append-Distinct (x ∷ xs) ys dx dy a =
    (append-Absent x xs ys dx.0 a.0, append-Distinct xs ys dx.1 dy a.1)

Apart-cons : (xs : List ℕ) (y : ℕ) (ys : List ℕ) → Apart xs (y ∷ ys) → Absent y xs × Apart xs ys
Apart-cons [] y ys a = (tt, tt)
Apart-cons (x ∷ xs) y ys a =
    let (b, c) = Apart-cons xs y ys a.1 in (((λ e. a.0.0 (sym e)), b), (a.0.1, c))

Absent-Apart : (xs : List ℕ) (i : ℕ) → Absent i xs → Apart xs (i ∷ [])
Absent-Apart [] i a = tt
Absent-Apart (x ∷ xs) i a = (((λ e. a.0 (sym e)), tt), Absent-Apart xs i a.1)

-- The links of one list.
pub record Links : Type 0 where
  pub previous : ℕ → Option ℕ
  pub next : ℕ → Option ℕ
  pub first : Option ℕ
  pub last : Option ℕ

-- The links run through `xs`, from the first to the last.
pub record Threads (k : Links) (xs : List ℕ) : Type 0 where
  pub chain : Chain k.previous k.next none k.first xs k.last none
  pub distinct : Distinct xs

abbrev pub or_else : Option ℕ → Option ℕ → Option ℕ
or_else none a = a
or_else (some i) a = some i

-- An index behind the last.
abbrev pub push_back : Links → ℕ → Links
push_back k i = record {
  previous = update k.previous i k.last;
  next = update? (update k.next i none) k.last (some i);
  first = elim k.last [ none ↦ some i | some _ ↦ k.first ];
  last = some i;
}

-- An index taken out.
abbrev pub unlink : Links → ℕ → Links
unlink k i = record {
  previous = update (update? k.previous (k.next i) (k.previous i)) i none;
  next = update (update? k.next (k.previous i) (k.next i)) i none;
  first = elim (k.previous i) [ none ↦ k.next i | some _ ↦ k.first ];
  last = elim (k.next i) [ none ↦ k.previous i | some _ ↦ k.last ];
}

Chain-some :
    (previous next : ℕ → Option ℕ) (p f : Option ℕ) (x : ℕ) (xs : List ℕ) (l e : Option ℕ)
    → Chain previous next p f (x ∷ xs) l e
    → (m : ℕ) × (l ≡ some m)
Chain-some previous next p f x [] l e c = (x, c.2.1)
Chain-some previous next p f x (y ∷ xs) l e c =
    Chain-some previous next (some x) (next x) y xs l e c.2

pub push_back-Threads :
    (k : Links) (xs : List ℕ) (i : ℕ)
    → Absent i xs
    → Threads k xs
    → Threads (push_back k i) (xs ++ i ∷ [])
push_back-Threads k [] i a t = record { chain = ground (arith, t.chain); distinct = (tt, tt) }
push_back-Threads k (x ∷ xs) i a t =
    let c = Chain-next k.previous k.next none k.first (x ∷ xs) k.last none i none a t.chain in
    let c₁ =
      Chain-previous k.previous (update k.next i none) none k.first (x ∷ xs) k.last none i k.last a
        c in
    let c₂ =
      Chain-end (update k.previous i k.last) (update k.next i none) none k.first x xs k.last none
        (some i) t.distinct c₁ in
    let (m, e) = Chain-some k.previous k.next none k.first x xs k.last none t.chain in
    let ne = Chain-last_ne k.previous k.next none k.first x xs k.last none i t.chain a in
    let ends = update?-ne (update k.next i none) k.last (some i) i ne in
    let same : (push_back k i).first ≡ k.first = rw e refl in
    record {
      chain = rw same (
          Chain-append (push_back k i).previous (push_back k i).next none k.first (x ∷ xs) k.last
            (some i) (i ∷ []) (some i) none c₂ (refl, ground arith, (ground arith, refl)));
      distinct = append-Distinct (x ∷ xs) (i ∷ []) t.distinct (tt, tt) (Absent-Apart (x ∷ xs) i a);
    }

abbrev Absent? : Option ℕ → List ℕ → Type 0
Absent? none xs = Unit
Absent? (some i) xs = Absent i xs

module _ (previous next : ℕ → Option ℕ) where
  Chain-next? :
      (p f : Option ℕ) (xs : List ℕ) (l e : Option ℕ) (j v : Option ℕ)
      → Absent? j xs
      → Chain previous next p f xs l e
      → Chain previous (update? next j v) p f xs l e
  Chain-next? p f xs l e none v a c = c
  Chain-next? p f xs l e (some j) v a c = Chain-next previous next p f xs l e j v a c

  Chain-previous? :
      (p f : Option ℕ) (xs : List ℕ) (l e : Option ℕ) (j v : Option ℕ)
      → Absent? j xs
      → Chain previous next p f xs l e
      → Chain (update? previous j v) next p f xs l e
  Chain-previous? p f xs l e none v a c = c
  Chain-previous? p f xs l e (some j) v a c = Chain-previous previous next p f xs l e j v a c

  -- The part in front of an index, joined to what is behind it.
  Chain-front :
      (f : Option ℕ) (ys : List ℕ) (m g n : Option ℕ)
      → Chain previous next none f ys m g
      → Distinct ys
      → Chain previous (update? next m n) none (elim m [ none ↦ n | some _ ↦ f ]) ys m n
  Chain-front f [] m g n c d = rw c.1 (refl, refl)
  Chain-front f (y ∷ ys) m g n c d =
      let (q, e) = Chain-some previous next none f y ys m g c in
      let same : elim m [ none ↦ n | some _ ↦ f ] ≡ f = rw e refl in
      rw same (Chain-end previous next none f y ys m g n d c)

  -- The part behind an index, joined to what is in front of it.
  Chain-back :
      (p n : Option ℕ) (zs : List ℕ) (l m : Option ℕ)
      → Chain previous next p n zs l none
      → Distinct zs
      → Chain (update? previous n m) next m n zs (elim n [ none ↦ m | some _ ↦ l ]) none
  Chain-back p n [] l m c d = rw c.0 (refl, refl)
  Chain-back p n (z ∷ zs) l m c d =
      subst
        (λ (q : Option ℕ).
          Chain (update? previous q m) next m q (z ∷ zs) (elim q [ none ↦ m | some _ ↦ l ]) none)
        (sym c.0) (Chain-start previous next p (some z) z zs l none m d (refl, c.1, c.2))

  Chain-last-Absent :
      (p f : Option ℕ) (ys zs : List ℕ) (l e : Option ℕ)
      → p ≡ none
      → Chain previous next p f ys l e
      → Apart ys zs
      → Absent? l zs
  Chain-last-Absent p f [] zs l e h c a = rw c.1 (rw h tt)
  Chain-last-Absent p f (y ∷ ys) zs l e h c a = last-Absent p f y ys zs l e c a
    where
      last-Absent :
          (p f : Option ℕ) (y : ℕ) (ys zs : List ℕ) (l e : Option ℕ)
          → Chain previous next p f (y ∷ ys) l e
          → Apart (y ∷ ys) zs
          → Absent? l zs
      last-Absent p f y [] zs l e c a = rw c.2.1 a.0
      last-Absent p f y (x ∷ ys) zs l e c a = last-Absent (some y) (next y) x ys zs l e c.2 a.1

  Chain-first-Absent :
      (p f : Option ℕ) (ys zs : List ℕ) (l : Option ℕ)
      → Chain previous next p f zs l none
      → Apart ys zs
      → Absent? f ys
  Chain-first-Absent p f ys [] l c a = rw c.0 tt
  Chain-first-Absent p f ys (z ∷ zs) l c a = rw c.0 (Apart-cons ys z zs a).0

-- Unlinking an index leaves the others in their order.
pub unlink-Threads :
    (k : Links) (ys : List ℕ) (i : ℕ) (zs : List ℕ)
    → Threads k (ys ++ i ∷ zs)
    → Threads (unlink k i) (ys ++ zs)
unlink-Threads k ys i zs t =
    let (dys, dzs, apart) = Distinct-append ys (i ∷ zs) t.distinct in
    let (away, apart') = Apart-cons ys i zs apart in
    let (m₀, g, before₀, here) =
      Chain-split k.previous k.next none k.first ys (i ∷ zs) k.last none t.chain in
    let m = k.previous i in
    let before : Chain k.previous k.next none k.first ys m g =
      subst (λ (q : Option ℕ). Chain k.previous k.next none k.first ys q g) (sym here.1) before₀ in
    let n = k.next i in
    let front = Chain-front k.previous k.next k.first ys m g n before dys in
    let back = Chain-back k.previous k.next (some i) n zs k.last m here.2 dzs.1 in
    let m_away = Chain-last-Absent k.previous k.next none k.first ys zs m g refl before apart' in
    let n_away = Chain-first-Absent k.previous k.next (some i) n ys zs k.last here.2 apart' in
    let next' = update? k.next m n in
    let previous' = update? k.previous n m in
    let front₁ = Chain-previous? k.previous next' none _ ys m n n m n_away front in
    let back₁ = Chain-next? previous' k.next m n zs _ none m n m_away back in
    let front₂ = Chain-next previous' next' none _ ys m n i none away front₁ in
    let back₂ = Chain-next previous' next' m n zs _ none i none dzs.0 back₁ in
    let front₃ = Chain-previous previous' (update next' i none) none _ ys m n i none away front₂ in
    let back₃ = Chain-previous previous' (update next' i none) m n zs _ none i none dzs.0 back₂ in
    record {
      chain =
          (Chain-append (update previous' i none) (update next' i none) none _ ys m n zs _ none
            front₃ back₃);
      distinct = append-Distinct ys zs dys dzs.1 apart';
    }

-- An index that a link may hold: below `n`, or none.
abbrev pub InRange? : ℕ → Option ℕ → Type 0
InRange? n none = Unit
InRange? n (some i) = i < n

abbrev pub Below : ℕ → List ℕ → Type 0
Below n [] = Unit
Below n (x ∷ xs) = (x < n) × Below n xs

Below-append : (n : ℕ) (xs ys : List ℕ) → Below n (xs ++ ys) → Below n xs × Below n ys
Below-append n [] ys b = (tt, b)
Below-append n (x ∷ xs) ys b = let (p, q) = Below-append n xs ys b.1 in ((b.0, p), q)

Chain-last-Below :
    (previous next : ℕ → Option ℕ) (p f : Option ℕ) (xs : List ℕ) (l e : Option ℕ) (n : ℕ)
    → Chain previous next p f xs l e
    → InRange? n p
    → Below n xs
    → InRange? n l
Chain-last-Below previous next p f [] l e n c h b = rw c.1 h
Chain-last-Below previous next p f (x ∷ xs) l e n c h b =
    Chain-last-Below previous next (some x) (next x) xs l e n c.2 b.0 b.1

Chain-last-ne :
    (previous next : ℕ → Option ℕ) (f : Option ℕ) (xs : List ℕ) (l e : Option ℕ) (i : ℕ)
    → Chain previous next none f xs l e
    → Absent i xs
    → l ≢ some i
Chain-last-ne previous next f [] l e i c a = ground arith
Chain-last-ne previous next f (x ∷ xs) l e i c a = Chain-last_ne previous next none f x xs l e i c a

pub last_range :
    (k : Links) (xs : List ℕ)
    → Threads k xs
    → (n : ℕ) → Below n xs
    → (i : ℕ) → Absent i xs
    → InRange? n k.last × (k.last ≢ some i)
last_range k xs t n b i a = (
  Chain-last-Below k.previous k.next none k.first xs k.last none n t.chain tt b,
  Chain-last-ne k.previous k.next k.first xs k.last none i t.chain a,
)

Chain-first-Below :
    (previous next : ℕ → Option ℕ) (p f : Option ℕ) (xs : List ℕ) (l : Option ℕ) (n : ℕ)
    → Chain previous next p f xs l none
    → Below n xs
    → InRange? n f
Chain-first-Below previous next p f [] l n c b = rw c.0 tt
Chain-first-Below previous next p f (x ∷ xs) l n c b = rw c.0 b.0

-- What the links of an index in the list hold.
pub neighbours :
    (k : Links) (ys : List ℕ) (i : ℕ) (zs : List ℕ)
    → Threads k (ys ++ i ∷ zs)
    → (n : ℕ) → Below n (ys ++ i ∷ zs)
    → (i < n) × InRange? n (k.previous i) × InRange? n (k.next i) × (k.previous i ≢ some i)
neighbours k ys i zs t n b =
    let (dys, dzs, apart) = Distinct-append ys (i ∷ zs) t.distinct in
    let (away, apart') = Apart-cons ys i zs apart in
    let (m, g, before, here) =
      Chain-split k.previous k.next none k.first ys (i ∷ zs) k.last none t.chain in
    let (low, high) = Below-append n ys (i ∷ zs) b in
    (
      high.0,
      rw here.1 (Chain-last-Below k.previous k.next none k.first ys m g n before tt low),
      Chain-first-Below k.previous k.next (some i) (k.next i) zs k.last n here.2 high.1,
      rw here.1 (Chain-last-ne k.previous k.next k.first ys m g i before away),
    )
