-- ===== src/Queue/Refine.antt =====
-- `queue_push` and `queue_pop` against a FIFO of items.
use mathlib.Core.Path.{subst}
use mathlib.Core.Option
use netcwmp_xo.Base.{
  ℕ, ◌≡◌, refl, sym, ap, ◌∙◌, false, Option, none, some, List, [], ◌∷◌, ◌++◌, append_assoc, arith,
  ◌==◌, length-append,
}
use netcwmp_xo.Base.Int.{ℤ, pos, negsuc}
use netcwmp_xo.Queue.{
  Item, Heap, Queue, Malloc, write, common_item, allocated, push_node, push, pop, popped,
}
use netcwmp_xo.Queue.Linked.{
  Cells, IsQueue, not-has_of_none, Linked-write, last_of-snoc, linked_at, Linked-snoc,
  last_of-split, Linked-last, first_of-snoc, first_of-append,
}

module _ {T : Type 0} where
  -- No address but `a` comes into use.
  abbrev pub KeepsFree : ℕ → Heap T → Heap T → Type 0
  KeepsFree a h h' = (b : ℕ) → (b == a) ≡ false → h b ≡ none → h' b ≡ none

  push_node-nil :
      (a : ℕ) (i : Item T) (q : Queue T)
      → IsQueue q []
      → (q' : Queue T) × (push_node a i q ≡ some q')
        × IsQueue q' ((a, i) ∷ [])
        × KeepsFree a q.heap q'.heap
  unfolding push_node
  push_node-nil a i q v = (
    record (allocated a i q) { first = some a; last = some a },
    ground arith,
    ground arith,
    λ b ne e. ground arith,
  )

  push_node-snoc :
      (a : ℕ) (i : Item T) (q : Queue T) (ys : Cells T) (l : ℕ) (j : Item T)
      → IsQueue q (ys ++ (l, j) ∷ [])
      → q.heap a ≡ none
      → (q' : Queue T) × (push_node a i q ≡ some q')
        × IsQueue q' ((ys ++ (l, j) ∷ []) ++ (a, i) ∷ [])
        × KeepsFree a q.heap q'.heap
  unfolding push_node
  push_node-snoc a i q ys l j v free = (
    record (allocated a i q) { last = some a; heap = linked_at q.heap a i l j },
    ground
        (arith, first_of-snoc (l, j) ys, last_of-snoc l j ys, Linked-last q.heap l j ys v.linked),
    record {
      first_is = v.first_is ∙ sym (first_of-append (l, j) ys ((a, i) ∷ []));
      last_is = sym (last_of-snoc a i (ys ++ (l, j) ∷ []));
      size_is = omega (arith, v.size_is, length-append {0} (ys ++ (l, j) ∷ []) ((a, i) ∷ []));
      linked =
          rw (append_assoc ys ((l, j) ∷ []) ((a, i) ∷ []))
            (Linked-snoc q.heap a i l j ys v.linked (not-has_of_none q.heap a _ v.linked free));
    },
    λ b ne e. ground (arith, Linked-last q.heap l j ys v.linked),
  )

  -- With a free address the node is appended.
  abbrev pub Appends : ℕ → Item T → Queue T → Cells T → Type 0
  Appends a i q xs =
      (q' : Queue T) × (push_node a i q ≡ some q')
      × IsQueue q' (xs ++ (a, i) ∷ [])
      × KeepsFree a q.heap q'.heap

  pub push_node-append :
      (a : ℕ) (i : Item T) (q : Queue T) (xs : Cells T)
      → IsQueue q xs
      → q.heap a ≡ none
      → Appends a i q xs
  push_node-append a i q [] v free = push_node-nil a i q v
  push_node-append a i q (c ∷ xs) v free =
      let (ys, l, j, e, f) = last_of-split c xs in
      subst (Appends a i q) (sym e) (push_node-snoc a i q ys l j (subst (IsQueue q) e v) free)

  -- `queue_push`, when `malloc` returns a free address, appends a node of common priority, and no
  -- other address comes into use.
  push-append :
      (malloc : Malloc T) (d : T) (type : ℕ) (q : Queue T) (xs : Cells T) (a : ℕ)
      → IsQueue q xs
      → malloc q.heap ≡ some a
      → q.heap a ≡ none
      → (q' : Queue T) × (push malloc d type q ≡ some q')
        × IsQueue q' (xs ++ (a, common_item d type) ∷ [])
        × KeepsFree a q.heap q'.heap
  unfolding push
  push-append malloc d type q xs a v got free =
      let (q', e, v', k) = push_node-append a (common_item d type) q xs v free in
      (q', ground arith, v', k)

  -- A pop takes the head off, frees its node, and returns its type and its data.
  pub pop-cons :
      (p : ℕ) (i : Item T) (xs : Cells T) (q : Queue T)
      → IsQueue q ((p, i) ∷ xs)
      → (q' : Queue T) × (pop q ≡ some (pos i.datatype, some i.payload, q'))
        × IsQueue q' xs
        × (q'.heap ≡ write q.heap p none)
  unfolding pop
  pop-cons p i [] q v =
      (popped p (record { item = i; next = none }) q, ground arith, ground arith, refl)
  pop-cons p i (c ∷ xs) q v = (
    popped p (record { item = i; next = some c.0 }) q,
    ground arith,
    record {
      first_is = refl;
      last_is = v.last_is;
      size_is = omega (arith, v.size_is);
      linked = Linked-write q.heap p none (c ∷ xs) v.linked.2 v.linked.1;
    },
    refl,
  )

  -- A pop of an empty queue returns -1 and changes nothing.
  pub pop-nil : (q : Queue T) → IsQueue q [] → pop q ≡ some (negsuc 0, none, q)
  unfolding pop
  pop-nil q v = ground arith

-- What a client asks of a queue; a push carries the address that its `MALLOC` returns.
pub data Op (T : Type 0) : Type 0 where
  put : ℕ → T → ℕ → Op T
  get : Op T

abbrev pub Reply : Type 0 → Type 0
Reply T = ℤ × Option T

module _ {T : Type 0} where
  -- The calls in order, with what each `queue_pop` returns; `none` if one faults.
  unfoldable pub run : Queue T → List (Op T) → Option (List (Reply T))
  run q [] = some []
  run q (put a d type ∷ ops) = elim (push (λ h. some a) d type q) [
    | none ↦ none
    | some q' ↦ run q' ops
  ]
  run q (get ∷ ops) = elim (pop q) [
    | none ↦ none
    | some (t, d, q') ↦ Option.map (◌∷◌ (t, d)) (run q' ops)
  ]

  -- The same calls on a list of types and payloads, oldest first.
  unfoldable pub fifo : List (ℕ × T) → List (Op T) → List (Reply T)
  fifo xs [] = []
  fifo xs (put a d type ∷ ops) = fifo (xs ++ (type, d) ∷ []) ops
  fifo [] (get ∷ ops) = (negsuc 0, none) ∷ fifo [] ops
  fifo ((type, d) ∷ xs) (get ∷ ops) = (pos type, some d) ∷ fifo xs ops

  -- What is left of a call that does not fault, and the calls behind it
  abbrev pub FreshBehind : (Queue T → Type 0) → Option (Queue T) → Type 0
  FreshBehind f none = Unit {0}
  FreshBehind f (some q) = f q

  -- The address that a push gets holds no node when the push is made; one whose node was popped can be
  -- handed out again.
  unfoldable pub Fresh : Queue T → List (Op T) → Type 0
  Fresh q [] = Unit {0}
  Fresh q (put a d type ∷ ops) =
      (q.heap a ≡ none) × FreshBehind (λ q'. Fresh q' ops) (push (λ h. some a) d type q)
  Fresh q (get ∷ ops) = FreshBehind (λ q'. Fresh q' ops) (Option.map (λ r. r.2) (pop q))

  abbrev pub contents : Cells T → List (ℕ × T)
  contents [] = []
  contents ((p, i) ∷ xs) = (i.datatype, i.payload) ∷ contents xs

  contents-snoc :
      (xs : Cells T) (a : ℕ) (i : Item T)
      → contents (xs ++ (a, i) ∷ []) ≡ contents xs ++ (i.datatype, i.payload) ∷ []
  contents-snoc [] a i = refl
  contents-snoc ((p, j) ∷ xs) a i = ap (◌∷◌ (j.datatype, j.payload)) (contents-snoc xs a i)

  -- Any sequence of `queue_push` and `queue_pop` calls on a well-formed queue, whose pushes get
  -- addresses that hold no node then, runs without a fault and returns what the first-in first-out list of
  -- the queue's contents returns.
  pub run-fifo :
      (ops : List (Op T)) (q : Queue T) (xs : Cells T)
      → IsQueue q xs
      → Fresh q ops
      → run q ops ≡ some (fifo (contents xs) ops)
  unfolding run fifo Fresh
  run-fifo [] q xs v f = refl
  run-fifo (put a d type ∷ ops) q xs v f =
      let (q', e, v', k) = push-append (λ h. some a) d type q xs a v refl f.0 in
      rw (e, run)
        (run-fifo ops q' _ v' (subst (FreshBehind (λ z. Fresh z ops)) e f.1)
          ∙ ap (λ c. some (fifo c ops)) (contents-snoc xs a (common_item d type)))
  run-fifo (get ∷ ops) q [] v f =
      rw (pop-nil q v, run)
        (ap (Option.map (◌∷◌ (negsuc 0, none))) (
          run-fifo ops q [] v (
            subst (λ o. FreshBehind (λ z. Fresh z ops) (Option.map (λ r. r.2) o)) (pop-nil q v) f)))
  run-fifo (get ∷ ops) q ((p, i) ∷ xs) v f =
      let (q', e, v', h) = pop-cons p i xs q v in
      rw (e, run)
        (ap (Option.map (◌∷◌ (pos i.datatype, some i.payload))) (
          run-fifo ops q' xs v'
            (subst (λ o. FreshBehind (λ z. Fresh z ops) (Option.map (λ r. r.2) o)) e f)))
