-- ===== src/Exercises/ThreadAttributes/Laws.antt =====
-- The size of the CPU set, and the CPUs that are printed.
use lowlevel_academy.Prelude.{ℕ, ◌≡◌, Bool, none, some, take, refl}
use lowlevel_academy.Exercises.ThreadAttributes.{
  sizeof_cpu_set, cpu_zero, cpu_set, set_affinity, Attr, main,
}

-- CPU_SETSIZE bytes of the set are more than it has: no attributes are made. With sizeof (cpu_set_t)
-- the affinity is the set.
pub attributes_lem :
    (max_priority : ℕ) (created : Bool) (a : Attr)
    → (main max_priority created ≡ none)
      × (set_affinity sizeof_cpu_set (cpu_set 0 cpu_zero) a
          ≡ some (record a { affinity = some (take 1024 (cpu_set 0 cpu_zero)) }))
unfolding main set_affinity cpu_zero cpu_set
attributes_lem max_priority created a = (refl, refl)
