-- ===== src/Database.antt =====
-- serverd/db/DbManager.cpp: the pool of connections, and the look-up of a password. The answers of ODBC
-- are arguments; a connection is its handle. Pool models the threads that share the pool.
pub mod Laws
pub mod Pool
use nf_engine.Prelude.{
  ℕ, zero, suc, List, [], ◌∷◌, ◌++◌, Bool, true, false, Option, none, some, ◌==◌, if◌then◌else◌,
}
use nf_engine.Prelude.Texts.{Text}

pub record DbManager : Type 0 where
  pub pool : List ℕ

-- SQL_NULL_HDBC
abbrev pub null_dbc : ℕ
null_dbc = 0

-- `acquire`; `none` is the null pointer of an empty pool.
unfoldable pub acquire : DbManager → Option ℕ × DbManager
acquire m = elim m.pool [ [] ↦ (none, m) | dbc ∷ rest ↦ (some dbc, record { pool = rest }) ]

unfoldable pub release : DbManager → ℕ → DbManager
release m dbc = record { pool = m.pool ++ (dbc ∷ []) }

-- How a step of opening a connection ends: a new handle, or a failure.
pub data Connected : Type 0 where
  opened : ℕ → Connected
  refused : Connected

-- The loop of `init`: `count` connections, or those before the first failure.
unfoldable pub open_pool : ℕ → List Connected → DbManager → Option (Bool × DbManager)
open_pool zero answers m = some (true, m)
open_pool (suc n) [] m = none
open_pool (suc n) (opened dbc ∷ more) m = open_pool n more (record { pool = m.pool ++ (dbc ∷ []) })
open_pool (suc n) (refused ∷ more) m = some (false, m)

-- What ODBC answers to the calls of a look-up. SQL_SUCCESS_WITH_INFO is a success.
pub data Fetched : Type 0 where
  fetched no_data failed : Fetched

-- The buffer of 256 bytes after SQLGetData.
pub data GotData : Type 0 where
  got : List ℕ → GotData
  null_data failed : GotData

pub record Odbc : Type 0 where
  pub alloc_ok : Bool
  pub prepare_ok : Bool
  pub bind_ok : Bool
  pub execute_ok : Bool
  pub fetch : Fetched
  pub data_got : GotData

pub data SqlCall : Type 0 where
  alloc_stmt : (dbc : ℕ) → SqlCall
  prepare free_stmt : SqlCall
  bind_parameter : Text → SqlCall
  execute fetch_row get_data : SqlCall

-- `std::string(pwBuf)`: the bytes before the first zero.
unfoldable pub c_string : List ℕ → List ℕ
c_string [] = []
c_string (b ∷ bytes) = let rest = c_string bytes in if b == 0 then [] else b ∷ rest

abbrev pub password_of : GotData → Option Text
password_of (got buffer) = some (c_string buffer)
password_of null_data = none
password_of GotData.failed = none

-- What a look-up leaves: the pool, the calls of ODBC, and the password.
abbrev pub Looked : Type 0
Looked = DbManager × (List SqlCall × Option Text)

-- The way out of a look-up after its last call of ODBC: the connection goes back.
unfoldable pub leave : DbManager → ℕ → List SqlCall → Option Text → Looked
unfolding release
leave m dbc calls found = (release m dbc, (calls, found))

-- What follows SQLAllocHandle: each way out frees the statement and gives the connection back.
unfoldable pub run_query : Odbc → DbManager → ℕ → Text → Looked
unfolding leave c_string
run_query o m dbc id =
    if o.prepare_ok
    then if o.bind_ok
      then if o.execute_ok
        then elim o.fetch [
          | fetched ↦
              leave m dbc
                (prepare ∷ bind_parameter id ∷ execute ∷ fetch_row ∷ get_data ∷ free_stmt ∷ [])
                (password_of o.data_got)
          | no_data ↦
              leave m dbc (prepare ∷ bind_parameter id ∷ execute ∷ fetch_row ∷ free_stmt ∷ []) none
          | Fetched.failed ↦
              leave m dbc (prepare ∷ bind_parameter id ∷ execute ∷ fetch_row ∷ free_stmt ∷ []) none
        ]
        else leave m dbc (prepare ∷ bind_parameter id ∷ execute ∷ free_stmt ∷ []) none
      else leave m dbc (prepare ∷ bind_parameter id ∷ free_stmt ∷ []) none
    else leave m dbc (prepare ∷ free_stmt ∷ []) none

-- The part of a look-up that has its connection.
unfoldable pub query : Odbc → DbManager → ℕ → Text → Looked
unfolding leave run_query
query o m dbc id =
    if o.alloc_ok
    then (let (m', (calls, found)) = run_query o m dbc id in (m', (alloc_stmt dbc ∷ calls, found)))
    else leave m dbc (alloc_stmt dbc ∷ []) none

-- `getAccountPassword`, with no other thread in between.
unfoldable pub get_account_password : Odbc → DbManager → Text → Looked
unfolding acquire query
get_account_password o m id =
    let (taken, m') = acquire m in
    elim taken [
      | none ↦ (m', ([], none))
      | some dbc ↦ if dbc == null_dbc then (m', ([], none)) else query o m' dbc id
    ]
