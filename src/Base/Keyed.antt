-- ===== src/Base/Keyed.antt =====
-- HashSet and HashMap as lists without duplicate keys, in insertion order. A set is keyed by the
-- part of its elements that the element type's equality compares.
use irn.Base.Tests.{Eq, ◌==◌, if◌then◌else◌, leb, if_elim}
use irn.Base.Lists.{
  take, drop, length, get_elem?, retain, All, length-append, length-retain-le, map-append-one,
}
use Prim.Native.Nat.{ℕ, zero, suc, ◌+◌, ◌≤◌, ◌<◌}
use mathlib.Core.Path.{◌≡◌, refl, sym, subst, ◌∙◌}
use mathlib.Core.Bool.{Bool, true, false, not, ◌||◌}
use mathlib.Core.List.{List, [], ◌∷◌, ◌++◌, map, append-nil, append_assoc}
use mathlib.Core.Option.{Option, none, some}
use native.Mathlib.Omega.{arith}

module _ {A K : Type 0} ⦃e : Eq K⦄ (key : A → K) where
  -- The first element with the key.
  abbrev pub find : K → List A → Option A
  find k [] = none
  find k (x ∷ xs) = if key x == k then some x else find k xs

  abbrev pub contains : K → List A → Bool
  contains k [] = false
  contains k (x ∷ xs) = (key x == k) || contains k xs

  -- An element that is there already is kept, and the new one is dropped.
  abbrev pub insert : A → List A → List A
  insert x xs = if contains (key x) xs then xs else xs ++ x ∷ []

  abbrev pub remove : K → List A → List A
  remove k = retain (λ x. not (key x == k))

  -- A map's insertion: the entry with the key is replaced.
  abbrev pub put : A → List A → List A
  put x [] = x ∷ []
  put x (y ∷ ys) = if key y == key x then x ∷ ys else y ∷ put x ys

  -- The elements of the second that the first lacks.
  abbrev pub difference : List A → List A → List A
  difference xs ys = retain (λ y. not (contains (key y) xs)) ys

  -- The larger set, the first one of two equal sizes, then the elements of the other that it lacks: of
  -- two elements with the same key the one of the larger set is kept.
  abbrev pub union : List A → List A → List A
  union xs ys =
      if leb (length ys) (length xs) then xs ++ difference xs ys else ys ++ difference ys xs

  -- Collecting into a set.
  abbrev pub insert_all : List A → List A → List A
  insert_all xs [] = xs
  insert_all xs (y ∷ ys) = insert_all (insert y xs) ys

  abbrev pub of_list : List A → List A
  of_list = insert_all []

  abbrev pub Distinct : List A → Type 0
  Distinct [] = Unit
  Distinct (x ∷ xs) = (contains (key x) xs ≡ false) × Distinct xs

  pub contains-append :
      (k : K) (xs ys : List A) → contains k (xs ++ ys) ≡ (contains k xs || contains k ys)
  contains-append k [] ys = refl
  contains-append k (x ∷ xs) ys = ground (arith, contains-append k xs ys)

  pub contains-insert :
      (k : K) (x : A) (xs : List A) → contains k (insert x xs) ≡ ((key x == k) || contains k xs)
  contains-insert k x xs = ground (arith, contains-append k xs (x ∷ []), e.beq_iff (key x) k)

  pub contains-remove :
      (j k : K) (xs : List A) → contains j (remove k xs) ≡ (if k == j then false else contains j xs)
  contains-remove j k [] = ground arith
  contains-remove j k (x ∷ xs) =
      ground
        (arith, contains-remove j k xs, e.beq_iff k j, e.beq_iff (key x) k, e.beq_iff (key x) j)

  pub contains-get_elem? :
      (xs : List A) (i : ℕ) (x : A) → get_elem? xs i ≡ some x → contains (key x) xs ≡ true
  contains-get_elem? [] i x h = cc
  contains-get_elem? (y ∷ xs) zero x h = ground (arith, e.beq_iff (key y) (key x))
  contains-get_elem? (y ∷ xs) (suc i) x h = ground (arith, contains-get_elem? xs i x)

  pub find-put :
      (k : K) (x : A) (xs : List A) → find k (put x xs) ≡ (if key x == k then some x else find k xs)
  find-put k x [] = refl
  find-put k x (y ∷ ys) =
      ground (
        arith,
        find-put k x ys,
        e.beq_iff (key y) (key x),
        e.beq_iff (key y) k,
        e.beq_iff (key x) k,
      )

  pub contains-put :
      (k : K) (x : A) (xs : List A) → contains k (put x xs) ≡ ((key x == k) || contains k xs)
  contains-put k x [] = refl
  contains-put k x (y ∷ ys) = ground (
    arith,
    contains-put k x ys,
    e.beq_iff (key y) (key x),
    e.beq_iff (key y) k,
    e.beq_iff (key x) k,
  )

  pub find-remove :
      (j k : K) (xs : List A) → find j (remove k xs) ≡ (if k == j then none else find j xs)
  find-remove j k [] = ground arith
  find-remove j k (x ∷ xs) =
      ground (arith, find-remove j k xs, e.beq_iff k j, e.beq_iff (key x) k, e.beq_iff (key x) j)

  -- A key is in the set exactly when a search finds it.
  pub contains-find :
      (k : K) (xs : List A) → contains k xs ≡ elim (find k xs) [ none ↦ false | some x ↦ true ]
  contains-find k [] = refl
  contains-find k (x ∷ xs) = ground (arith, contains-find k xs)

  pub find-key : (k : K) (xs : List A) (x : A) → find k xs ≡ some x → key x ≡ k
  find-key k [] x h = cc
  find-key k (y ∷ xs) x h = ground (arith, find-key k xs x, e.beq_iff (key y) k)

  pub length-insert-le : (x : A) (xs : List A) → length (insert x xs) ≤ length xs + 1
  length-insert-le x xs = ground (arith, length-append xs (x ∷ []))

  pub length-remove :
      (k : K) (xs : List A) → contains k xs ≡ true → length (remove k xs) < length xs
  length-remove k [] h = cc
  length-remove k (x ∷ xs) h =
      ground (arith, length-remove k xs, length-retain-le (λ y. not (key y == k)) xs)

  pub remove_absent : (k : K) (xs : List A) → contains k xs ≡ false → remove k xs ≡ xs
  remove_absent k [] h = refl
  remove_absent k (x ∷ xs) h = ground (arith, remove_absent k xs)

  pub contains-retain :
      (k : K) (p : A → Bool) (xs : List A)
      → contains k xs ≡ false
      → contains k (retain p xs) ≡ false
  contains-retain k p [] h = refl
  contains-retain k p (x ∷ xs) h = ground (arith, contains-retain k p xs)

  pub Distinct-retain : (p : A → Bool) (xs : List A) → Distinct xs → Distinct (retain p xs)
  Distinct-retain p [] h = tt
  Distinct-retain p (x ∷ xs) h = ground (arith, Distinct-retain p xs, contains-retain (key x) p xs)

  pub Distinct-snoc :
      (x : A) (xs : List A) → contains (key x) xs ≡ false → Distinct xs → Distinct (xs ++ x ∷ [])
  Distinct-snoc x [] h d = (refl, tt)
  Distinct-snoc x (y ∷ xs) h d = ground (
    arith,
    contains-append (key y) xs (x ∷ []),
    Distinct-snoc x xs,
    e.beq_iff (key x) (key y),
    e.beq_iff (key y) (key x),
  )

  pub Distinct-insert : (x : A) (xs : List A) → Distinct xs → Distinct (insert x xs)
  Distinct-insert x xs d = ground (arith, Distinct-snoc x xs)

  pub Distinct-insert_all : (xs ys : List A) → Distinct xs → Distinct (insert_all xs ys)
  Distinct-insert_all xs [] d = d
  Distinct-insert_all xs (y ∷ ys) d = Distinct-insert_all (insert y xs) ys (Distinct-insert y xs d)

  pub Distinct-of_list : (ys : List A) → Distinct (of_list ys)
  Distinct-of_list ys = Distinct-insert_all [] ys tt

  contains-take :
      (k : K) (n : ℕ) (xs : List A) → contains k xs ≡ false → contains k (take n xs) ≡ false
  contains-take k zero xs h = refl
  contains-take k (suc n) [] h = refl
  contains-take k (suc n) (x ∷ xs) h = ground (arith, contains-take k n xs)

  pub Distinct-take : (n : ℕ) (xs : List A) → Distinct xs → Distinct (take n xs)
  Distinct-take zero xs d = tt
  Distinct-take (suc n) [] d = tt
  Distinct-take (suc n) (x ∷ xs) d = (contains-take (key x) n xs d.0, Distinct-take n xs d.1)

  pub Distinct-drop : (n : ℕ) (xs : List A) → Distinct xs → Distinct (drop n xs)
  Distinct-drop zero xs d = d
  Distinct-drop (suc n) [] d = tt
  Distinct-drop (suc n) (x ∷ xs) d = Distinct-drop n xs d.1

  Distinct-middle :
      (xs : List A) (y : A) (ys : List A) → Distinct (xs ++ y ∷ ys) → contains (key y) xs ≡ false
  Distinct-middle [] y ys d = refl
  Distinct-middle (x ∷ xs) y ys d = ground (
    arith,
    Distinct-middle xs y ys d.1,
    contains-append (key x) xs (y ∷ ys),
    e.beq_iff (key x) (key y),
    e.beq_iff (key y) (key x),
    e.beq_iff (key y) (key y),
  )

  insert_all-Distinct : (xs ys : List A) → Distinct (xs ++ ys) → insert_all xs ys ≡ xs ++ ys
  insert_all-Distinct xs [] d = sym (append-nil xs)
  insert_all-Distinct xs (y ∷ ys) d =
      let next : xs ++ y ∷ ys ≡ (xs ++ y ∷ []) ++ ys = sym (append_assoc xs (y ∷ []) ys) in
      let d_ : Distinct ((xs ++ y ∷ []) ++ ys) = subst Distinct next d in
      rw (Distinct-middle xs y ys d) (insert_all-Distinct (xs ++ y ∷ []) ys d_ ∙ sym next)

  -- Nothing is lost if there is no duplicate.
  pub of_list-Distinct : (ys : List A) → Distinct ys → of_list ys ≡ ys
  of_list-Distinct ys d = insert_all-Distinct [] ys d

  -- The elements of `ys` are all new to `xs`.
  abbrev IsFresh : List A → List A → Type 0
  IsFresh xs = All λ y. contains (key y) xs ≡ false

  IsFresh-tail :
      (x : A) (xs ys : List A) → IsFresh (x ∷ xs) ys → (contains (key x) ys ≡ false) × IsFresh xs ys
  IsFresh-tail x xs [] f = (refl, tt)
  IsFresh-tail x xs (y ∷ ys) f =
      ground (arith, IsFresh-tail x xs ys f.1, e.beq_iff (key y) (key x), e.beq_iff (key x) (key y))

  Distinct-append :
      (xs ys : List A) → Distinct xs → Distinct ys → IsFresh xs ys → Distinct (xs ++ ys)
  Distinct-append [] ys dx dy f = dy
  Distinct-append (x ∷ xs) ys dx dy f =
      let (out, rest) = IsFresh-tail x xs ys f in
      (ground (arith, contains-append (key x) xs ys), Distinct-append xs ys dx.1 dy rest)

  difference-IsFresh : (xs ys : List A) → IsFresh xs (difference xs ys)
  difference-IsFresh xs [] = tt
  difference-IsFresh xs (y ∷ ys) = ground (arith, difference-IsFresh xs ys)

  Distinct-extended :
      (xs ys : List A) → Distinct xs → Distinct ys → Distinct (xs ++ difference xs ys)
  Distinct-extended xs ys dx dy =
      Distinct-append xs (difference xs ys) dx (Distinct-retain _ ys dy) (difference-IsFresh xs ys)

  pub Distinct-union : (xs ys : List A) → Distinct xs → Distinct ys → Distinct (union xs ys)
  Distinct-union xs ys dx dy =
      if_elim Distinct (leb (length ys) (length xs)) (λ _. Distinct-extended xs ys dx dy)
        (λ _. Distinct-extended ys xs dy dx)

-- A set of plain keys: its elements are compared whole.
abbrev pub whole {ℓ} : {A : Type ℓ} → A → A
whole a = a

-- The keys of a keyed set form a set of plain keys, operation by operation.
module _ {A K : Type 0} ⦃e : Eq K⦄ (key : A → K) where
  pub contains-map :
      (k : K) (xs : List A) → contains {A = K} whole k (map key xs) ≡ contains key k xs
  contains-map k [] = refl
  contains-map k (x ∷ xs) = ground (arith, contains-map k xs)

  pub remove-map :
      (k : K) (xs : List A) → remove {A = K} whole k (map key xs) ≡ map key (remove key k xs)
  remove-map k [] = refl
  remove-map k (x ∷ xs) = ground (arith, remove-map k xs)

  pub insert-map :
      (x : A) (xs : List A) → insert {A = K} whole (key x) (map key xs) ≡ map key (insert key x xs)
  insert-map x xs = ground (arith, contains-map (key x) xs, map-append-one key xs x)
