-- ===== src/Database/Laws.antt =====
-- About DbManager.cpp: a look-up gives its connection back and frees its statement.
use nf_engine.Prelude.{
  ℕ, suc, ◌≡◌, ◌≢◌, ◌⊎◌, inl, inr, refl, ap, List, [], ◌∷◌, ◌++◌, Bool, true, false, Option, none,
  some, arith, Bool-cases, ◌==◌, ◌&&◌,
}
use nf_engine.Prelude.Texts.{Text}
use nf_engine.Database.{
  DbManager, null_dbc, acquire, release, Fetched, fetched, no_data, GotData, got, null_data, Odbc,
  SqlCall, alloc_stmt, prepare, free_stmt, bind_parameter, execute, fetch_row, get_data, c_string,
  Looked, leave, run_query, query, get_account_password,
}

-- A text without a zero byte.
abbrev pub NoZero : Text → Type 0
NoZero [] = Unit {0}
NoZero (b ∷ text) = ((b == 0) ≡ false) × NoZero text

-- The text before the first zero byte of a buffer, or all of it.
abbrev pub Before : List ℕ → Text → Type 0
Before buffer text =
    NoZero text × ((buffer ≡ text) ⊎ ((more : List ℕ) × (buffer ≡ text ++ 0 ∷ more)))

c_string-Before : (buffer : List ℕ) → Before buffer (c_string buffer)
unfolding c_string
c_string-Before [] = (tt, inl refl)
c_string-Before (b ∷ bytes) = elim (Bool-cases (b == 0)) [
  | inl e ↦ rw (c_string, e) (tt, inr (bytes, ap (λ x. x ∷ bytes) (ground arith)))
  | inr ne ↦
      rw (c_string, ne)
        (
          (ne, (c_string-Before bytes).0),
          elim (c_string-Before bytes).1 [
            | inl all ↦ inl (ap (λ xs. b ∷ xs) all)
            | inr (more, e) ↦ inr (more, ap (λ xs. b ∷ xs) e)
          ],
        )
]

-- How often a statement is freed.
abbrev pub frees : List SqlCall → ℕ
frees [] = 0
frees (free_stmt ∷ calls) = suc (frees calls)
frees (alloc_stmt dbc ∷ calls) = frees calls
frees (prepare ∷ calls) = frees calls
frees (bind_parameter id ∷ calls) = frees calls
frees (execute ∷ calls) = frees calls
frees (fetch_row ∷ calls) = frees calls
frees (get_data ∷ calls) = frees calls

-- The calls of a query end by freeing the statement, and free it once; and a password is found only
-- after the query was executed with the id, fetched a row and read its column.
abbrev pub Freed : List SqlCall → Type 0
Freed calls = (mid : List SqlCall) × ((calls ≡ mid ++ free_stmt ∷ []) × (frees mid ≡ 0))

abbrev pub whole_query : Text → List SqlCall
whole_query id = prepare ∷ bind_parameter id ∷ execute ∷ fetch_row ∷ get_data ∷ free_stmt ∷ []

-- What ODBC answered to all calls as wanted.
abbrev pub has_password : GotData → Bool
has_password (got buffer) = true
has_password null_data = false
has_password GotData.failed = false

abbrev pub has_row : Fetched → Bool
has_row fetched = true
has_row no_data = false
has_row Fetched.failed = false

abbrev pub all_answered : Odbc → Bool
all_answered o =
    o.prepare_ok && (o.bind_ok && (o.execute_ok && (has_row o.fetch && has_password o.data_got)))

-- The password of a look-up whose calls are `calls`: there is one exactly if every call succeeded, a row
-- was there and its column was not NULL.
abbrev pub Finds : Odbc → Text → List SqlCall → Option Text → Type 0
Finds o id calls found =
    ((all_answered o ≡ false) × (found ≡ none))
    ⊎ ((all_answered o ≡ true)
        × ((calls ≡ whole_query id)
            × ((buffer : List ℕ) × ((text : Text) × ((o.data_got ≡ got buffer)
                    × ((found ≡ some text) × Before buffer text))))))

-- What the calls behind SQLAllocHandle have left of the pool `m`.
abbrev Result : Odbc → DbManager → ℕ → Text → Looked → Type 0
Result o m dbc id (m', (calls, found)) =
    (m'.pool ≡ m.pool ++ dbc ∷ []) × (Freed calls × Finds o id calls found)

module _ (m : DbManager) (dbc : ℕ) (id : Text) (alloc : Bool) where
  -- The look-up with these answers.
  Leaves : Bool → Bool → Bool → Fetched → GotData → Type 0
  Leaves prepared bound done f d =
      let o : Odbc = record {
        alloc_ok = alloc;
        prepare_ok = prepared;
        bind_ok = bound;
        execute_ok = done;
        fetch = f;
        data_got = d;
      } in
      Result o m dbc id (run_query o m dbc id)

  front : List SqlCall
  front = prepare ∷ bind_parameter id ∷ execute ∷ fetch_row ∷ []

  run_query-Leaves :
      (prepared bound done : Bool) (f : Fetched) (d : GotData) → Leaves prepared bound done f d
  unfolding Leaves front run_query leave release
  run_query-Leaves true true true fetched (got buffer) = (
    refl,
    (
      (front ++ get_data ∷ [], (refl, refl)),
      inr (refl, (refl, (buffer, (c_string buffer, (refl, (refl, c_string-Before buffer)))))),
    ),
  )
  run_query-Leaves true true true fetched null_data =
      (refl, ((front ++ get_data ∷ [], (refl, refl)), inl (refl, refl)))
  run_query-Leaves true true true fetched GotData.failed =
      (refl, ((front ++ get_data ∷ [], (refl, refl)), inl (refl, refl)))
  run_query-Leaves true true true no_data d = (refl, ((front, (refl, refl)), inl (refl, refl)))
  run_query-Leaves true true true Fetched.failed d =
      (refl, ((front, (refl, refl)), inl (refl, refl)))
  run_query-Leaves true true false f d =
      (refl, ((prepare ∷ bind_parameter id ∷ execute ∷ [], (refl, refl)), inl (refl, refl)))
  run_query-Leaves true false done f d =
      (refl, ((prepare ∷ bind_parameter id ∷ [], (refl, refl)), inl (refl, refl)))
  run_query-Leaves false bound done f d = (refl, ((prepare ∷ [], (refl, refl)), inl (refl, refl)))

run_query-Result :
    (o : Odbc) (m : DbManager) (dbc : ℕ) (id : Text) → Result o m dbc id (run_query o m dbc id)
unfolding Leaves
run_query-Result o m dbc id =
    run_query-Leaves m dbc id o.alloc_ok o.prepare_ok o.bind_ok o.execute_ok o.fetch o.data_got

acquire-found :
    (m : DbManager) (dbc : ℕ) (rest : List ℕ)
    → m.pool ≡ dbc ∷ rest
    → acquire m ≡ (some dbc, record { pool = rest })
unfolding acquire
acquire-found m dbc rest full = rw (acquire, full) refl

get_account_password-query :
    {m : DbManager} {dbc : ℕ} {rest : List ℕ} (o : Odbc) (id : Text)
    → m.pool ≡ dbc ∷ rest
    → dbc ≢ null_dbc
    → get_account_password o m id ≡ query o (record { pool = rest }) dbc id
unfolding get_account_password
get_account_password-query {m} {dbc} {rest} o id full real =
    let d : (dbc == null_dbc) ≡ false = ground arith in
    rw (get_account_password, acquire-found m dbc rest full, d)
      (ap (λ r. query o r.1 dbc id) (acquire-found m dbc rest full))

-- A look-up that gets a connection gives it back behind the others, whatever ODBC answers. Either no
-- statement was allocated and no password is found, or the calls end by freeing the statement, and free
-- it once. Then a password is found exactly if every call succeeded, a row was there and its column
-- was not NULL: the calls are the whole query with the id, and the password is what the buffer of
-- SQLGetData holds before its first zero byte.
pub get_account_password_lem :
    {m : DbManager} {dbc : ℕ} {rest : List ℕ} (o : Odbc) (id : Text)
    → m.pool ≡ dbc ∷ rest
    → dbc ≢ null_dbc
    → let (m', (calls, found)) = get_account_password o m id in
      (m'.pool ≡ rest ++ dbc ∷ [])
      × (((o.alloc_ok ≡ false) × ((calls ≡ alloc_stmt dbc ∷ []) × (found ≡ none)))
          ⊎ ((o.alloc_ok ≡ true)
              × ((tail : List SqlCall) × ((calls ≡ alloc_stmt dbc ∷ tail)
                    × (Freed tail × Finds o id tail found)))))
unfolding query leave release
get_account_password_lem {m} {dbc} {rest} o id full real =
    rw (get_account_password-query {m = m} {dbc = dbc} {rest = rest} o id full real)
      (elim (Bool-cases o.alloc_ok) [
        | inr bad ↦ rw (query, bad) (refl, inl (refl, (refl, refl)))
        | inl ok ↦
            let (back, (freed, found)) = run_query-Result o (record { pool = rest }) dbc id in
            rw (query, ok) (back, inr (refl, (_, (refl, (freed, found)))))
      ])
