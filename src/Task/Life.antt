-- ===== src/Task/Life.antt =====
-- The life of task nodes (type.hpp): what is created, run and deleted, and the books kept of it.
use my_async_lib.Base.{
  ℕ, ◌+◌, ◌≡◌, refl, sym, ap, ◌∙◌, List, [], ◌∷◌, Option, none, some, Option-cases, inl, inr, arith,
  if◌then◌else◌, ◌&&◌, ◌==◌,
}
use my_async_lib.Task.{
  Execute, null, coro, lambda, type_erased, sender, TaskNode, Effect, resumed, called, destroyed,
  freed, Memory, node_at, without, delete_typed, delete_node, execute_node, run,
}

-- What the code does to task nodes. A node is created at an address that is free.
pub data Operation : Type 0 where
  create : ℕ → TaskNode → Operation
  run_node : ℕ → Operation
  delete : ℕ → Operation
  delete_as_node : ℕ → Operation

-- Whether the node holds the callable in a buffer, as a number.
abbrev pub holds : ℕ → TaskNode → ℕ
holds f t = if t.destroy_fn && (t.payload == f) then 1 else 0

-- The nodes that hold the callable.
abbrev pub held : ℕ → List (ℕ × TaskNode) → ℕ
held f [] = 0
held f ((p, t) ∷ ns) = holds f t + held f ns

abbrev pub destructions : ℕ → List Effect → ℕ
destructions f [] = 0
destructions f (destroyed g ∷ es) = (if g == f then 1 else 0) + destructions f es
destructions f (resumed h ∷ es) = destructions f es
destructions f (called g ∷ es) = destructions f es
destructions f (freed p ∷ es) = destructions f es

-- The memory, the nodes that were created, and those that were deleted as a plain `TaskNode`.
pub record Books : Type 0 where
  pub memory : Memory
  pub created : List TaskNode
  pub dropped : List TaskNode

-- How many nodes of a list hold the callable.
abbrev pub among : ℕ → List TaskNode → ℕ
among f [] = 0
among f (t ∷ ts) = holds f t + among f ts

abbrev pub created_node : Books → ℕ → TaskNode → Option TaskNode → Option Books
created_node b p t none = some (record b {
  memory = record b.memory { nodes = (p, t) ∷ b.memory.nodes };
  created = t ∷ b.created;
})
created_node b p t (some old) = none

abbrev pub with_memory : Books → Option Memory → Option Books
with_memory b none = none
with_memory b (some m) = some (record b { memory = m })

abbrev pub deleted_node : Books → ℕ → Option TaskNode → Option Books
deleted_node b p none = none
deleted_node b p (some t) = some (record b { memory = delete_typed b.memory p t })

abbrev pub dropped_node : Books → ℕ → Option TaskNode → Option Books
dropped_node b p none = none
dropped_node b p (some t) =
    some (record b { memory = delete_node b.memory p; dropped = t ∷ b.dropped })

unfoldable pub step : Operation → Books → Option Books
step (create p t) b = created_node b p t (node_at b.memory.nodes p)
step (run_node p) b = with_memory b (run b.memory p)
step (delete p) b = deleted_node b p (node_at b.memory.nodes p)
step (delete_as_node p) b = dropped_node b p (node_at b.memory.nodes p)

abbrev pub then_steps : (Books → Option Books) → Option Books → Option Books
then_steps rest none = none
then_steps rest (some b) = rest b

-- `none`: some operation used memory that was not allocated, or allocated it twice.
unfoldable pub steps : List Operation → Books → Option Books
unfolding step
steps [] b = some b
steps (o ∷ os) b = then_steps (steps os) (step o b)

-- The callable was created as often as it is held, was destroyed or was dropped.
abbrev pub IsBalanced : ℕ → Books → Type 0
IsBalanced f b =
    among f b.created ≡ held f b.memory.nodes + destructions f b.memory.log + among f b.dropped

held-without :
    (f : ℕ) (ns : List (ℕ × TaskNode)) (p : ℕ) (t : TaskNode)
    → node_at ns p ≡ some t
    → held f ns ≡ held f (without ns p) + holds f t
held-without f [] p t e = cc
held-without f ((q, u) ∷ ns) p t e = ground (arith, held-without f ns p t)

delete_typed-balance :
    (f : ℕ) (m : Memory) (p : ℕ) (t : TaskNode)
    → node_at m.nodes p ≡ some t
    → let m' = delete_typed m p t in
      held f m'.nodes + destructions f m'.log ≡ held f m.nodes + destructions f m.log
unfolding delete_typed
delete_typed-balance f m p t e = ground (arith, held-without f m.nodes p t)

execute_node-balance :
    (f : ℕ) (x : Execute) (m : Memory) (p : ℕ) (t : TaskNode)
    → node_at m.nodes p ≡ some t
    → let m' = execute_node x m p t in
      held f m'.nodes + destructions f m'.log ≡ held f m.nodes + destructions f m.log
unfolding execute_node
execute_node-balance f null m p t e = refl
execute_node-balance f coro m p t e = ground arith
execute_node-balance f lambda m p t e = refl
execute_node-balance f type_erased m p t e =
    ground (arith, delete_typed-balance f (record m { log = called t.payload ∷ m.log }) p t)
execute_node-balance f sender m p t e = refl

step-IsBalanced :
    (f : ℕ) (o : Operation) (b b' : Books) → step o b ≡ some b' → IsBalanced f b → IsBalanced f b'
unfolding step run delete_node
step-IsBalanced f (create p t) b b' e h = elim (Option-cases (node_at b.memory.nodes p)) [
  | inl free ↦ ground (arith, free)
  | inr (u, used) ↦ ground (arith, used)
]
step-IsBalanced f (run_node p) b b' e h = elim (Option-cases (node_at b.memory.nodes p)) [
  | inl free ↦ ground (arith, free)
  | inr (u, used) ↦ ground (arith, used, execute_node-balance f u.execute b.memory p u)
]
step-IsBalanced f (delete p) b b' e h = elim (Option-cases (node_at b.memory.nodes p)) [
  | inl free ↦ ground (arith, free)
  | inr (u, used) ↦ ground (arith, used, delete_typed-balance f b.memory p u)
]
step-IsBalanced f (delete_as_node p) b b' e h = elim (Option-cases (node_at b.memory.nodes p)) [
  | inl free ↦ ground (arith, free)
  | inr (u, used) ↦ ground (arith, used, held-without f b.memory.nodes p u)
]

-- Task nodes that are created, run, deleted as what they are or deleted as plain `TaskNode`, in any
-- order that uses allocated nodes alone: if, for a callable, the nodes with a destructor that were
-- created with it are as many as those that hold it, its destructions, and those that a deletion as
-- `TaskNode` dropped without destruction, together, then it is so afterwards.
pub steps-IsBalanced :
    (f : ℕ) (os : List Operation) (b b' : Books)
    → steps os b ≡ some b'
    → IsBalanced f b
    → IsBalanced f b'
unfolding steps
steps-IsBalanced f [] b b' e h = ground arith
steps-IsBalanced f (o ∷ os) b b' e h = elim (Option-cases (step o b)) [
  | inl fails ↦ ground (arith, fails)
  | inr (c, goes) ↦
      steps-IsBalanced f os c b' (ap (then_steps (steps os)) (sym goes) ∙ e)
        (step-IsBalanced f o b c goes h)
]
