-- ===== src/Queue/Linked.antt =====
-- What a queue stands for: the addresses and items of its nodes, in order.
use netcwmp_xo.Base.{
  ℕ, ◌≡◌, refl, ap, Bool, true, false, ◌||◌, Option, none, some, List, [], ◌∷◌, ◌++◌, arith, ◌==◌,
  length,
}
use netcwmp_xo.Queue.{Item, Qnode, Heap, Queue, write}

abbrev pub Cells : Type 0 → Type 0
Cells T = List (ℕ × Item T)

module _ {T : Type 0} where
  abbrev pub has : ℕ → Cells T → Bool
  has a [] = false
  has a ((p, _) ∷ xs) = (a == p) || has a xs

  abbrev pub first_of : Cells T → Option ℕ
  first_of [] = none
  first_of ((p, _) ∷ _) = some p

  abbrev pub last_of : Cells T → Option ℕ
  last_of [] = none
  last_of ((p, _) ∷ []) = some p
  last_of (_ ∷ c ∷ xs) = last_of (c ∷ xs)

  -- The nodes stand at distinct addresses, and each points to the one behind it.
  abbrev pub Linked : Heap T → Cells T → Type 0
  Linked h [] = Unit {0}
  Linked h ((p, i) ∷ xs) =
      (h p ≡ some (record { item = i; next = first_of xs })) × (has p xs ≡ false) × Linked h xs

  -- A queue that holds the items `xs`.
  pub record IsQueue (q : Queue T) (xs : Cells T) : Type 0 where
    pub first_is : q.first ≡ first_of xs
    pub last_is : q.last ≡ last_of xs
    pub size_is : q.size ≡ length xs
    pub linked : Linked q.heap xs

  -- An address that holds no node is none of the queue's.
  pub not-has_of_none :
      (h : Heap T) (a : ℕ) (xs : Cells T) → Linked h xs → h a ≡ none → has a xs ≡ false
  not-has_of_none h a [] l e = refl
  not-has_of_none h a ((p, i) ∷ xs) l e = ground (arith, not-has_of_none h a xs l.2 e)

  -- A write elsewhere keeps the nodes.
  pub Linked-write :
      (h : Heap T) (a : ℕ) (c : Option (Qnode T)) (xs : Cells T)
      → Linked h xs
      → has a xs ≡ false
      → Linked (write h a c) xs
  Linked-write h a c [] l out = tt
  Linked-write h a c ((p, i) ∷ xs) l out =
      (ground arith, l.1, Linked-write h a c xs l.2 (ground arith))

  pub has-last_of : (l : ℕ) (xs : Cells T) → last_of xs ≡ some l → has l xs ≡ true
  has-last_of l [] e = cc
  has-last_of l ((p, i) ∷ []) e = ground arith
  has-last_of l ((p, i) ∷ c ∷ xs) e = ground (arith, has-last_of l (c ∷ xs))

  pub has-append : (b : ℕ) (xs ys : Cells T) → has b (xs ++ ys) ≡ (has b xs || has b ys)
  has-append b [] ys = refl
  has-append b ((p, j) ∷ xs) ys = ground (arith, has-append b xs ys)

  pub last_of-snoc : (a : ℕ) (i : Item T) (xs : Cells T) → last_of (xs ++ (a, i) ∷ []) ≡ some a
  last_of-snoc a i [] = refl
  last_of-snoc a i (c ∷ []) = refl
  last_of-snoc a i (c ∷ d ∷ xs) = last_of-snoc a i (d ∷ xs)

  -- The heap after `node` has been put at `a` and `p->next = node` has been run.
  abbrev pub linked_at : Heap T → ℕ → Item T → ℕ → Item T → Heap T
  linked_at h a i l j =
      write (write h a (some (record { item = i; next = none }))) l
        (some (record { item = j; next = some a }))

  -- Linking a new node behind the last one appends it.
  pub Linked-snoc :
      (h : Heap T) (a : ℕ) (i : Item T) (l : ℕ) (j : Item T) (xs : Cells T)
      → Linked h (xs ++ (l, j) ∷ [])
      → has a (xs ++ (l, j) ∷ []) ≡ false
      → Linked (linked_at h a i l j) (xs ++ (l, j) ∷ (a, i) ∷ [])
  Linked-snoc h a i l j [] lk out = (ground arith, ground arith, (ground arith, refl, tt))
  Linked-snoc h a i l j ((p, k) ∷ []) lk out =
      (ground arith, ground arith, Linked-snoc h a i l j [] lk.2 (ground arith))
  Linked-snoc h a i l j ((p, k) ∷ c ∷ xs) lk out = (
    ground (arith, has-append p (c ∷ xs) ((l, j) ∷ [])),
    ground
        (arith, has-append p (c ∷ xs) ((l, j) ∷ []), has-append p (c ∷ xs) ((l, j) ∷ (a, i) ∷ [])),
    Linked-snoc h a i l j (c ∷ xs) lk.2 (ground arith),
  )

  -- The cells before the last one, and the last one.
  pub last_of-split :
      (c : ℕ × Item T) (xs : Cells T)
      → (ys : Cells T) × (l : ℕ) × (j : Item T) × (c ∷ xs ≡ ys ++ (l, j) ∷ [])
        × (last_of (c ∷ xs) ≡ some l)
  last_of-split (p, i) [] = ([], p, i, refl, refl)
  last_of-split c (d ∷ xs) =
      let (ys, l, j, e, f) = last_of-split d xs in (c ∷ ys, l, j, ap (◌∷◌ c) e, f)

  pub Linked-last :
      (h : Heap T) (l : ℕ) (j : Item T) (ys : Cells T)
      → Linked h (ys ++ (l, j) ∷ [])
      → h l ≡ some (record { item = j; next = none })
  Linked-last h l j [] lk = lk.0
  Linked-last h l j (c ∷ ys) lk = Linked-last h l j ys lk.2

  pub first_of-snoc : (c : ℕ × Item T) (xs : Cells T) → (p : ℕ) × (first_of (xs ++ c ∷ []) ≡ some p)
  first_of-snoc c [] = (c.0, refl)
  first_of-snoc c (d ∷ xs) = (d.0, refl)

  pub first_of-append :
      (c : ℕ × Item T) (xs ys : Cells T) → first_of ((xs ++ c ∷ []) ++ ys) ≡ first_of (xs ++ c ∷ [])
  first_of-append c [] ys = refl
  first_of-append c (d ∷ xs) ys = refl
