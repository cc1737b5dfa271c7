-- ===== src/Queue/Priority.antt =====
-- `queue_add`: what a task of given priority does to a queue.
use netcwmp_xo.Base.{ℕ, suc, ◌≤◌, ◌<◌, ◌≡◌, refl, ◌∙◌, none, some, [], ◌∷◌, ◌++◌, arith, length}
use netcwmp_xo.Queue.{Item, Queue, write, allocated, push_node, add_node}
use netcwmp_xo.Queue.Linked.{Cells, Linked, IsQueue, not-has_of_none, Linked-write, first_of}
use netcwmp_xo.Queue.Refine.{push_node-append}

module _ {T : Type 0} where
  add_node-push_node :
      (a : ℕ) (i : Item T) (q : Queue T) (p : ℕ) (j : Item T) (xs : Cells T)
      → IsQueue q ((p, j) ∷ xs)
      → q.heap a ≡ none
      → i.priority < j.priority
      → add_node a i q ≡ push_node a i q
  unfolding add_node push_node
  add_node-push_node a i q p j xs v free lower = ground arith

  -- `queue_add` of a task whose priority is lower than the head's appends it, as `queue_push` does.
  add_lower :
      (a : ℕ) (i : Item T) (q : Queue T) (p : ℕ) (j : Item T) (xs : Cells T)
      → IsQueue q ((p, j) ∷ xs)
      → q.heap a ≡ none
      → i.priority < j.priority
      → (q' : Queue T) × (add_node a i q ≡ some q') × IsQueue q' ((p, j) ∷ (xs ++ (a, i) ∷ []))
  add_lower a i q p j xs v free lower =
      let (q', e, v', k) = push_node-append a i q ((p, j) ∷ xs) v free in
      (q', add_node-push_node a i q p j xs v free lower ∙ e, v')

  -- `queue_add` of a task whose priority is not lower than the head's puts it where the head was:
  -- the head's task is no longer reached from `first`, the rest follows the new task, and `size`
  -- counts one task more than can be reached.
  add_drops_head :
      (a : ℕ) (i : Item T) (q : Queue T) (p : ℕ) (j : Item T) (xs : Cells T)
      → IsQueue q ((p, j) ∷ xs)
      → q.heap a ≡ none
      → j.priority ≤ i.priority
      → (q' : Queue T) × (add_node a i q ≡ some q')
        × (q'.first ≡ some a)
        × Linked q'.heap ((a, i) ∷ xs)
        × (q'.last ≡ q.last)
        × (q'.size ≡ suc (length ((a, i) ∷ xs)))
  unfolding add_node
  add_drops_head a i q p j xs v free higher =
      let h = write q.heap a (some (record { item = i; next = none })) in
      let out = not-has_of_none q.heap a ((p, j) ∷ xs) v.linked free in
      (
        record (allocated a i q) {
          first = some a;
          heap = write h a (some (record { item = i; next = first_of xs }));
        },
        ground arith,
        refl,
        (
          ground arith,
          ground arith,
          Linked-write h a _ xs (Linked-write q.heap a _ xs v.linked.2 (ground arith))
              (ground arith),
        ),
        refl,
        omega (arith, v.size_is),
      )
