-- ===== src/Spinlock/Refine.antt =====
-- The spinlock does what the mutex does.
use lowlevel_academy.Mutex as Mutex
