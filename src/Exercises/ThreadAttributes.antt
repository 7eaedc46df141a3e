-- ===== src/Exercises/ThreadAttributes.antt =====
-- 03-posix-threads/04_advanced_pthread_concepts/thread_attributes/main.c. The calls that set an
-- attribute are taken to succeed, as the program does not look at their results. A CPU set is its
-- bits, and its size is given to the library in bytes.
use lowlevel_academy.Prelude.{
  ℕ, zero, suc, ◌+◌, ◌*◌, Bool, true, false, List, [], ◌∷◌, Option, none, some, length, replicate,
  take, set, ltb, if◌then◌else◌,
}
pub mod Laws

-- CPU_SETSIZE, and sizeof (cpu_set_t).
abbrev pub cpu_setsize : ℕ
cpu_setsize = 1024

abbrev pub sizeof_cpu_set : ℕ
sizeof_cpu_set = 128

unfoldable pub cpu_zero : List Bool
cpu_zero = replicate cpu_setsize false

unfoldable pub cpu_set : (cpu : ℕ) → List Bool → List Bool
cpu_set cpu bits = set bits cpu true

-- The loop of `thread_function` from `i` on: the numbers that it prints.
unfoldable pub cpus_from : (i : ℕ) → List Bool → List ℕ
cpus_from i [] = []
cpus_from i (true ∷ bits) = i ∷ cpus_from (i + 1) bits
cpus_from i (false ∷ bits) = cpus_from (i + 1) bits

-- What the thread prints; `none`: pthread_getaffinity_np failed, and there is no line.
unfoldable pub thread_function : (affinity : Option (List Bool)) → Option (List ℕ)
unfolding cpus_from
thread_function none = none
thread_function (some bits) = some (cpus_from 0 bits)

pub data Policy : Type 0 where
  sched_other sched_rr : Policy

-- `attr`, as far as `main` sets it.
pub record Attr : Type 0 where
  pub stack_size : Option ℕ
  pub policy : Policy
  pub priority : Option ℕ
  pub explicit : Bool
  pub affinity : Option (List Bool)

unfoldable pub attr_init : Attr
attr_init = record {
  stack_size = none;
  policy = sched_other;
  priority = none;
  explicit = false;
  affinity = none;
}

-- pthread_attr_setaffinity_np reads `size` bytes of the set; `none`: it reads behind it.
unfoldable pub set_affinity : (size : ℕ) → List Bool → Attr → Option Attr
set_affinity size bits a =
    if ltb (length bits) (size * 8)
    then none
    else some (record a { affinity = some (take (size * 8) bits) })

-- The attributes that `main` makes; `max_priority` is what sched_get_priority_max returns.
unfoldable pub attributes : (max_priority : ℕ) → Option Attr
unfolding attr_init cpu_zero cpu_set set_affinity
attributes max_priority = set_affinity cpu_setsize (cpu_set 0 cpu_zero) (record attr_init {
  stack_size = some (1024 * 1024);
  policy = sched_rr;
  priority = some max_priority;
  explicit = true;
})

-- The code that `main` returns.
unfoldable pub create_thread : (created : Bool) → Option Attr → Option ℕ
create_thread created none = none
create_thread true (some a) = some 0
create_thread false (some a) = some 1

unfoldable pub main : (max_priority : ℕ) → (created : Bool) → Option ℕ
unfolding attributes create_thread
main max_priority created = create_thread created (attributes max_priority)
