-- ===== src/Queue.antt =====
-- The task queue, netcwmp_xo/libcwmp/src/queue.c: nodes on a heap, and the handle with `first`,
-- `last` and `size`. The bodies run under the queue's mutex, so each call is one step. `none` is a
-- fault: a read or a write through NULL or through an address that holds no node.
pub mod Linked
pub mod Refine
pub mod Priority
pub mod Tests
use netcwmp_xo.Base.{ℕ, ◌+◌, ◌-◌, Bool, true, false, Option, none, some, leb, ◌==◌, if◌then◌else◌}
use netcwmp_xo.Base.Int.{ℤ, pos, negsuc}

-- `QUEUE_PRIORITY_COMMON`
abbrev pub queue_priority_common : ℕ
queue_priority_common = 1

-- What a node carries. `T` is the type behind the `data` pointer; `arg1` and `arg2` are only stored.
pub record Item (T : Type 0) : Type 0 where
  pub payload : T
  pub arg1 : Option ℕ
  pub arg2 : Option ℕ
  pub datatype : ℕ
  pub priority : ℕ

-- `qnode_t`
pub record Qnode (T : Type 0) : Type 0 where
  pub item : Item T
  pub next : Option ℕ

-- The memory that the nodes stand in; `none` is an address that holds no node.
abbrev pub Heap : Type 0 → Type 0
Heap T = ℕ → Option (Qnode T)

-- `queue_t`; the mutex has no place in a single step.
pub record Queue (T : Type 0) : Type 0 where
  pub size : ℕ
  pub first : Option ℕ
  pub last : Option ℕ
  pub heap : Heap T

-- The C allocator: what `MALLOC` returns, given what is in use; `none` is NULL.
abbrev pub Malloc : Type 0 → Type 0
Malloc T = Heap T → Option ℕ

module _ {T : Type 0} where
  abbrev pub write : Heap T → ℕ → Option (Qnode T) → Heap T
  write h p c x = if x == p then c else h x

  -- `p->next = r`
  unfoldable pub set_next : Heap T → Option ℕ → Option ℕ → Option (Heap T)
  set_next h none r = none
  set_next h (some p) r = elim (h p) [
    | none ↦ none
    | some n ↦ some (write h p (some (record n { next = r })))
  ]

  -- `queue_create`, when its `MALLOC` succeeds
  unfoldable pub create : Heap T → Queue T
  create h = record { size = 0; first = none; last = none; heap = h }

  -- `q->last->next = node; q->last = node`
  unfoldable pub link_last : ℕ → Queue T → Option (Queue T)
  unfolding set_next
  link_last a q = elim (set_next q.heap q.last (some a)) [
    | none ↦ none
    | some h ↦ some (record q { last = some a; heap = h })
  ]

  -- The node is filled in and the size is counted, before the queue's pointers are changed.
  abbrev pub allocated : ℕ → Item T → Queue T → Queue T
  allocated a i q = record q {
    size = q.size + 1;
    heap = write q.heap a (some (record { item = i; next = none }));
  }

  -- `queue_push`, behind its `MALLOC`
  unfoldable pub push_node : ℕ → Item T → Queue T → Option (Queue T)
  unfolding link_last
  push_node a i q = elim q.first [
    | none ↦ some (record (allocated a i q) { first = some a; last = some a })
    | some f ↦ link_last a (allocated a i q)
  ]

  abbrev pub common_item : T → ℕ → Item T
  common_item d type = record {
    payload = d;
    arg1 = none;
    arg2 = none;
    datatype = type;
    priority = queue_priority_common;
  }

  unfoldable pub push : Malloc T → T → ℕ → Queue T → Option (Queue T)
  unfolding push_node
  push malloc d type q = elim (malloc q.heap) [
    | none ↦ some q
    | some a ↦ push_node a (common_item d type) q
  ]

  -- `queue_add`, behind its `MALLOC`: the head node is replaced where the priority is not lower.
  unfoldable pub add_node : ℕ → Item T → Queue T → Option (Queue T)
  unfolding link_last set_next
  add_node a i q = elim q.first [
    | none ↦ some (record (allocated a i q) { first = some a; last = some a })
    | some f ↦ elim ((allocated a i q).heap f) [
      | none ↦ none
      | some n ↦
          if leb n.item.priority i.priority
          then elim (set_next (allocated a i q).heap (some a) n.next) [
            | none ↦ none
            | some h ↦ some (record (allocated a i q) { first = some a; heap = h })
          ]
          else link_last a (allocated a i q)
    ]
  ]

  unfoldable pub add : Malloc T → T → ℕ → ℕ → Option ℕ → Option ℕ → Queue T → Option (Queue T)
  unfolding add_node
  add malloc d type prio a1 a2 q = elim (malloc q.heap) [
    | none ↦ some q
    | some a ↦
        add_node a (record { payload = d; arg1 = a1; arg2 = a2; datatype = type; priority = prio })
          q
  ]

  -- What is left when the head `p` with the node `n` has been taken off and freed. `size--` runs
  -- only here; a size of 0 with a node in the queue does not occur (`Refine`).
  abbrev pub popped : ℕ → Qnode T → Queue T → Queue T
  popped p n q = record q {
    size = q.size - 1;
    first = n.next;
    last = elim n.next [ none ↦ none | some r ↦ q.last ];
    heap = write q.heap p none;
  }

  -- `queue_pop`: the type or -1, what goes through `data`, and the queue
  unfoldable pub pop : Queue T → Option (ℤ × Option T × Queue T)
  pop q = elim q.first [
    | none ↦ some (negsuc 0, none, q)
    | some p ↦ elim (q.heap p) [
      | none ↦ none
      | some n ↦ some (pos n.item.datatype, some n.item.payload, popped p n q)
    ]
  ]

  -- `queue_is_empty`
  unfoldable pub is_empty : Queue T → Bool
  is_empty q = elim q.first [ none ↦ true | some p ↦ false ]
