-- ===== src/Listener/Start/Race.antt =====
-- How many workers are created.
use rpiweatherd.Base.{
  ℕ, ◌≡◌, ◌<◌, ◌≤◌, refl, ℤ, true, ltb, if◌then◌else◌, arith, Bool-cases, inl, inr,
}
use mathlib.Core.Path.{subst}
use rpiweatherd.Listener.Start.{
  clamped, created, finished, Phase, absent, at_malloc, at_queue, at_test, at_create, at_socket,
  listening, returned, overflowed, Threads, after_create, Step, creates, sets, allocates,
  opens_queue, tests, creates_worker, binds, lacks_memory, lacks_queue, lacks_worker, lacks_socket,
  Reach, here, next, unstarted,
}

-- The array has room for `k` workers, and `k` are created before the socket is asked for.
abbrev pub Counts : ℕ → Phase → Type 0
Counts k absent = Unit
Counts k at_malloc = Unit
Counts k (at_queue capacity) = capacity ≡ k
Counts k (at_test capacity i) = (capacity ≡ k) × (i ≤ k)
Counts k (at_create capacity i) = (capacity ≡ k) × (i < k)
Counts k (at_socket i) = i ≡ k
Counts k (listening sockfd i) = i ≡ k
Counts k (returned code) = Unit
Counts k overflowed = ⊥

pub record IsSteady (n : ℕ) (s : Threads) : Type 0 where
  pub number : s.num_workers ≡ clamped n
  pub counts : Counts (clamped n) s.phase

after_test : (k i : ℕ) → i ≤ k → Counts k (if ltb i k then at_create k i else at_socket i)
after_test k i h = elim (Bool-cases (ltb i k)) [
  | inl e ↦ rw e (refl, ground arith)
  | inr e ↦ rw e (ground arith)
]

after_worker : (k i : ℕ) → i < k → Counts k (after_create k i)
after_worker k i h = elim (Bool-cases (ltb i k)) [
  | inl e ↦ rw e (refl, omega arith)
  | inr e ↦ absurd (ground arith)
]

at_phase : (k : ℕ) {p q : Phase} → p ≡ q → Counts k p → Counts k q
at_phase k e h = subst (Counts k) e h

Step-IsSteady : (n : ℕ) {s t : Threads} → Step n s t → IsSteady n s → IsSteady n t
Step-IsSteady n (creates s e) h = record { number = h.number; counts = tt }
Step-IsSteady n (sets s e) h = record { number = refl; counts = h.counts }
Step-IsSteady n (allocates s e) h = record { number = h.number; counts = h.number }
Step-IsSteady n (opens_queue s capacity e) h = record {
  number = h.number;
  counts = (at_phase (clamped n) e h.counts, omega arith);
}
Step-IsSteady n (tests s capacity i e) h =
    let (c, le) = at_phase (clamped n) e h.counts in
    record { number = h.number; counts = rw (h.number, c) (after_test (clamped n) i le) }
Step-IsSteady n (creates_worker s capacity i e) h =
    let (c, lt) = at_phase (clamped n) e h.counts in
    record { number = h.number; counts = rw c (after_worker (clamped n) i lt) }
Step-IsSteady n (binds s i sockfd e) h = record {
  number = h.number;
  counts = at_phase (clamped n) e h.counts;
}
Step-IsSteady n (lacks_memory s e) h = record { number = h.number; counts = tt }
Step-IsSteady n (lacks_queue s capacity e) h = record { number = h.number; counts = tt }
Step-IsSteady n (lacks_worker s capacity i e) h = record { number = h.number; counts = tt }
Step-IsSteady n (lacks_socket s i e) h = record { number = h.number; counts = tt }

-- Where `__num_workers` was left at the number that is set, as by an earlier call with the same
-- argument, the two threads can run in any order: no descriptor is written past the array, and when
-- clients are accepted there are exactly as many workers as set.
pub Reach-IsSteady : (n : ℕ) {s : Threads} → Reach n (unstarted (clamped n)) s → IsSteady n s
Reach-IsSteady n here = record { number = refl; counts = tt }
Reach-IsSteady n (next r st) = Step-IsSteady n st (Reach-IsSteady n r)

clamped-pos : (n : ℕ) → 0 < n → ltb 0 (clamped n) ≡ true
clamped-pos n h = elim (Bool-cases (ltb 4 n)) [ inl e ↦ rw e refl | inr e ↦ rw e (ground arith) ]

abbrev queued : ℕ → Threads
queued number = record { num_workers = number; starter = created; phase = at_queue 0 }

-- The array is allocated before the number is set.
too_early : (n : ℕ) → Reach n (unstarted 0) (queued 0)
too_early n =
    next (next here (creates (unstarted 0) refl))
      (allocates (record { num_workers = 0; starter = created; phase = at_malloc }) refl)

abbrev testing : Threads
testing = record { num_workers = 0; starter = created; phase = at_test 0 0 }

abbrev testing_late : ℕ → Threads
testing_late n = record { num_workers = clamped n; starter = finished; phase = at_test 0 0 }

abbrev creating : ℕ → Threads
creating n = record {
  num_workers = clamped n;
  starter = finished;
  phase = if ltb 0 (clamped n) then at_create 0 0 else at_socket 0;
}

Reach-testing : (n : ℕ) → Reach n (unstarted 0) testing
Reach-testing n = next (too_early n) (opens_queue (queued 0) 0 refl)

Reach-creating : (n : ℕ) → Reach n (unstarted 0) (creating n)
Reach-creating n =
    next (next (Reach-testing n) (sets testing refl)) (tests (testing_late n) 0 0 refl)

-- At the first start, for any number but 0, the thread that reads the number may run before it is
-- set. Then either a descriptor is written past an array with room for none, or clients are
-- accepted, from any socket, with no worker at all, though the number is set in the end.
pub Reach-races :
    (n : ℕ) (sockfd : ℤ)
    → 0 < n
    → (s t : Threads) × Reach n (unstarted 0) s
      × (s.phase ≡ overflowed)
      × Reach n (unstarted 0) t
      × (t ≡ record { num_workers = clamped n; starter = finished; phase = listening sockfd 0 })
Reach-races n sockfd h = (
  record { num_workers = clamped n; starter = finished; phase = overflowed },
  record { num_workers = clamped n; starter = finished; phase = listening sockfd 0 },
  next (Reach-creating n) (creates_worker (creating n) 0 0 (rw (clamped-pos n h) refl)),
  refl,
  next
      (next (next (Reach-testing n) (tests testing 0 0 refl))
        (binds (record { num_workers = 0; starter = created; phase = at_socket 0 }) 0 sockfd refl))
      (sets (record { num_workers = 0; starter = created; phase = listening sockfd 0 }) refl),
  refl,
)
