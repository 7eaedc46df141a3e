-- ===== src/ThreadPool.antt =====
-- The ring of tasks of 03-posix-threads/05_course_project/main.c, and what its functions do to it
-- while they hold the lock.
pub mod Ring
pub mod Threads
pub mod Schedule
use lowlevel_academy.Prelude.{
  ℕ, suc, ◌+◌, ◌-◌, ◌%◌, Bool, true, false, List, [], ◌∷◌, get_or, set, replicate, ltb,
  if◌then◌else◌,
}

abbrev pub threads : ℕ
threads = 8

abbrev pub queue_size : ℕ
queue_size = 100

-- `task_t`: a function and its argument, both as addresses.
pub record Task : Type 0 where
  pub fn : ℕ
  pub arg : ℕ

abbrev pub null_task : Task
null_task = record { fn = 0; arg = 0 }

-- `threadpool_t`, without the lock, the condition and the threads.
pub record Pool : Type 0 where
  pub task_queue : List Task
  pub queued : ℕ
  pub queue_front : ℕ
  pub queue_back : ℕ
  pub stop : Bool

-- `threadpool_init` sets the counters. The array is not initialised: it is whatever it was.
unfoldable pub threadpool_init : List Task → Pool
threadpool_init q = record {
  task_queue = q;
  queued = 0;
  queue_front = 0;
  queue_back = 0;
  stop = false;
}

-- `threadpool_add_task`: a full queue drops the task.
unfoldable pub add_task : Task → Pool → Pool
add_task t p =
    let next_rear = (p.queue_back + 1) % queue_size in
    if ltb p.queued queue_size
    then record p {
      task_queue = set p.task_queue p.queue_back t;
      queue_back = next_rear;
      queued = p.queued + 1;
    }
    else p

-- Whether `threadpool_add_task` takes the task.
unfoldable pub accepts : Pool → Bool
accepts p = ltb p.queued queue_size

-- `thread_function`, between the wait and the unlock: the task at the front, and the pool without it.
unfoldable pub front_task : Pool → Task
front_task p = get_or p.task_queue p.queue_front null_task

unfoldable pub take_task : Pool → Pool
take_task p = record p { queue_front = (p.queue_front + 1) % queue_size; queued = p.queued - 1 }

-- `threadpool_destroy`, under the lock.
unfoldable pub stop_pool : Pool → Pool
stop_pool p = record p { stop = true }
