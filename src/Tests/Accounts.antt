-- ===== src/Tests/Accounts.antt =====
-- The pool of connections and the look-up of a password at concrete inputs.
use nf_engine.Prelude.{
  ℕ, ◌+◌, ◌≤◌, ◌≡◌, ◌≢◌, get_elem?, ◌⊎◌, refl, List, [], ◌∷◌, true, false, none, some, arith,
  replicate,
}
use nf_engine.Database.{
  DbManager, acquire, fetched, got, Odbc, SqlCall, alloc_stmt, get_account_password,
}
use nf_engine.Database.Laws.{Freed, Finds, get_account_password_lem}
use nf_engine.Database.Pool.{System, take_step, Reach, start, next}
use nf_engine.Database.Pool.Shared.{count, held, pool_shared}

abbrev two : DbManager
two = record { pool = 3 ∷ 5 ∷ [] }

-- A thread has taken the first of two connections, and the other holds none.
abbrev one_taken : System
one_taken = record { manager = record { pool = 5 ∷ [] }; holding = some 3 ∷ none ∷ [] }

one_taken-Reach : Reach (3 ∷ 5 ∷ []) 2 one_taken
unfolding acquire
one_taken-Reach = next start (take_step 0 3 (record { pool = 5 ∷ [] }) refl refl)

two-distinct : (d : ℕ) → count d (3 ∷ 5 ∷ []) ≤ 1
two-distinct d = ground arith

pool_shared_example :
    ((d : ℕ)
      → (held d one_taken.holding ≤ 1)
        × (count d one_taken.manager.pool + held d one_taken.holding ≡ count d (3 ∷ 5 ∷ [])))
    × ((get_elem? one_taken.holding 1 ≢ some none)
        ⊎ ((d : ℕ) × ((m : DbManager) × (acquire one_taken.manager ≡ (some d, m)))))
pool_shared_example = pool_shared 1 (omega arith) two-distinct one_taken-Reach

-- The row has the password xy.
abbrev with_row : Odbc
with_row = record {
  alloc_ok = true;
  prepare_ok = true;
  bind_ok = true;
  execute_ok = true;
  fetch = fetched;
  data_got = got (120 ∷ 121 ∷ 0 ∷ replicate 253 0);
}

get_account_password_lem_example :
    let (m', (calls, found)) = get_account_password with_row two (97 ∷ []) in
    (m'.pool ≡ 5 ∷ 3 ∷ [])
    × (((with_row.alloc_ok ≡ false) × ((calls ≡ alloc_stmt 3 ∷ []) × (found ≡ none)))
        ⊎ ((with_row.alloc_ok ≡ true)
            × ((tail : List SqlCall) × ((calls ≡ alloc_stmt 3 ∷ tail)
                  × (Freed tail × Finds with_row (97 ∷ []) tail found)))))
get_account_password_lem_example =
    get_account_password_lem with_row (97 ∷ []) refl
      (λ e. absurd (let b : ⊥ = omega (arith, e) in b))
