-- ===== src/Listener/Start.antt =====
-- src/listener.c: init_listener_loop on one thread and the start of main_listener_loop on another,
-- up to the loop that accepts clients. A step is what one of the two does with the shared
-- `__num_workers`, or what the system makes of a call. The number of workers is not negative.
pub mod Race
pub mod Socket
use rpiweatherd.Base.{
  ℕ, zero, suc, ◌≡◌, ◌<◌, ◌≤◌, ℤ, pos, neg, Bool, true, false, ltb, if◌then◌else◌, ◌⊎◌,
}

abbrev pub max_worker_threads : ℕ
max_worker_threads = 4

abbrev pub clamped : ℕ → ℕ
clamped num_worker_threads =
    if ltb max_worker_threads num_worker_threads then max_worker_threads else num_worker_threads

-- Where the thread of init_listener_loop is.
pub data Starter : Type 0 where
  before_create : Starter
  created : Starter
  finished : Starter

-- Where the thread of main_listener_loop is. `capacity` is that of the array of the workers, and
-- `i` counts the workers that were created.
pub data Phase : Type 0 where
  absent : Phase
  at_malloc : Phase
  at_queue : ℕ → Phase
  at_test : ℕ → ℕ → Phase
  at_create : ℕ → ℕ → Phase
  at_socket : ℕ → Phase
  listening : ℤ → ℕ → Phase
  returned : ℤ → Phase
  overflowed : Phase

pub record Threads : Type 0 where
  pub num_workers : ℕ
  pub starter : Starter
  pub phase : Phase

-- The write of a descriptor into the array.
abbrev pub after_create : ℕ → ℕ → Phase
after_create capacity i = if ltb i capacity then at_test capacity (suc i) else overflowed

-- `n` is the argument of init_listener_loop.
pub data Step (n : ℕ) : Threads → Threads → Type 0 where
  creates :
      (s : Threads)
      → s.starter ≡ before_create
      → Step n s (record s { starter = created; phase = at_malloc })
  sets :
      (s : Threads)
      → s.starter ≡ created
      → Step n s (record s { starter = finished; num_workers = clamped n })
  allocates :
      (s : Threads) → s.phase ≡ at_malloc → Step n s (record s { phase = at_queue s.num_workers })
  opens_queue :
      (s : Threads) (capacity : ℕ)
      → s.phase ≡ at_queue capacity
      → Step n s (record s { phase = at_test capacity 0 })
  tests :
      (s : Threads) (capacity i : ℕ)
      → s.phase ≡ at_test capacity i
      → Step n s
          (record s { phase = if ltb i s.num_workers then at_create capacity i else at_socket i })
  creates_worker :
      (s : Threads) (capacity i : ℕ)
      → s.phase ≡ at_create capacity i
      → Step n s (record s { phase = after_create capacity i })
  binds :
      (s : Threads) (i : ℕ) (sockfd : ℤ)
      → s.phase ≡ at_socket i
      → Step n s (record s { phase = listening sockfd i })
  lacks_memory :
      (s : Threads) → s.phase ≡ at_malloc → Step n s (record s { phase = returned (neg 1) })
  lacks_queue :
      (s : Threads) (capacity : ℕ)
      → s.phase ≡ at_queue capacity
      → Step n s (record s { phase = returned (neg 1) })
  lacks_worker :
      (s : Threads) (capacity i : ℕ)
      → s.phase ≡ at_create capacity i
      → Step n s (record s { phase = returned (neg 2) })
  lacks_socket :
      (s : Threads) (i : ℕ)
      → s.phase ≡ at_socket i
      → Step n s (record s { phase = returned (neg 1) })

pub data Reach (n : ℕ) (s : Threads) : Threads → Type 0 where
  here : Reach n s s
  next : {t u : Threads} → Reach n s t → Step n t u → Reach n s u

-- Before the call, with the number of workers that an earlier call left, or 0.
abbrev pub unstarted : ℕ → Threads
unstarted num_workers = record {
  num_workers = num_workers;
  starter = before_create;
  phase = absent;
}
