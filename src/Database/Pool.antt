-- ===== src/Database/Pool.antt =====
-- The pool of DbManager.cpp between threads: each shard's thread takes a connection for a look-up and
-- gives it back, under the lock, in any order.
pub mod Shared
use nf_engine.Prelude.{ℕ, ◌≡◌, List, [], Option, none, some, get_elem?, set, replicate}
use nf_engine.Database.{DbManager, acquire, release}

-- The pool, and what each thread holds.
pub record System : Type 0 where
  pub manager : DbManager
  pub holding : List (Option ℕ)

-- A thread that holds nothing calls `acquire`, or one that holds a connection gives it back.
pub data Step : System → System → Type 0 where
  take_step :
      {s : System} (i dbc : ℕ) (m : DbManager)
      → get_elem? s.holding i ≡ some none
      → acquire s.manager ≡ (some dbc, m)
      → Step s (record { manager = m; holding = set s.holding i (some dbc) })
  miss_step :
      {s : System} (i : ℕ) (m : DbManager)
      → get_elem? s.holding i ≡ some none
      → acquire s.manager ≡ (none, m)
      → Step s (record { manager = m; holding = s.holding })
  give_step :
      {s : System} (i dbc : ℕ)
      → get_elem? s.holding i ≡ some (some dbc)
      → Step s (record { manager = release s.manager dbc; holding = set s.holding i none })

-- What is reached from a pool with no connection taken.
pub data Reach (pool : List ℕ) (threads : ℕ) : System → Type 0 where
  start :
      Reach pool threads
        (record { manager = record { pool = pool }; holding = replicate threads none })
  next : {s t : System} → Reach pool threads s → Step s t → Reach pool threads t
