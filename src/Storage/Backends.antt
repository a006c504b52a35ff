-- ===== src/Storage/Backends.antt =====
-- `SQLiteStorage.insert` and `PostgreSQLStorage.insert` of manyfaced/db/storage.py. The databases, their
-- connections and the dump file are parameters.
use manyfaced_honeypot.Base.{
  ℕ, zero, suc, ◌+◌, ◌%◌, Bool, true, false, Option, none, some, List, Text, codes, if◌then◌else◌,
  ◌==◌,
}
use manyfaced_honeypot.Metrics.{Metrics, incr}
use manyfaced_honeypot.Values.{
  Fault, type_error, value_error, key_error, Result, ok, raise, Json, string, Fields, field, find,
}
use manyfaced_honeypot.Storage.{extract_record_fields}

-- What `execute` and `commit` do: a commit, `database is locked`, another error of sqlite3, or an
-- exception that is no error of sqlite3.
pub data Attempt (DB : Type 0) : Type 0 where
  committed locked failed : DB → Attempt DB
  escaped : Fault → DB → Attempt DB

-- The same for psycopg2: a commit, one of its errors, or an exception that is none.
pub data Execution (W : Type 0) : Type 0 where
  executed refused : W → Execution W
  leaked : Fault → W → Execution W

-- `SQLiteStorage`, with the dump file and the module's metrics.
pub record Store (DB D : Type 0) : Type 0 where
  pub conn : Option DB
  pub insert_count : ℕ
  pub dump : D
  pub metrics : Metrics

-- `PostgreSQLStorage`: its connection and the server, with the dump file and the module's metrics.
pub record PgStore (W D : Type 0) : Type 0 where
  pub world : W
  pub dump : D
  pub metrics : Metrics

-- `{'_dump_reason': reason, **record}`
unfoldable pub with_reason : Text → Fields → Fields
with_reason reason r = elim (find (codes "_dump_reason") r) [
  | none ↦ field (codes "_dump_reason") (string reason) r
  | some _ ↦ r
]

-- a dump whose exception is logged
abbrev pub dump_or_log : {D : Type 0} → (Fields → D → Option D) → Fields → D → D
dump_or_log dump_file r d = elim (dump_file r d) [ none ↦ d | some next ↦ next ]

abbrev pub checkpoint_interval : ℕ
checkpoint_interval = 100

module _ {DB D : Type 0} (dumps : Fields → Text) (str_of : Json → Text)
    (execute : List Json → DB → Attempt DB) (checkpoint : DB → DB)
    (dump_file : Fields → D → Option D) where
  -- what follows a commit: the count, and a checkpoint at every hundredth
  abbrev pub count_insert : DB → Store DB D → Store DB D
  count_insert db st = record st {
    conn = some (if (st.insert_count + 1) % checkpoint_interval == 0 then checkpoint db else db);
    insert_count = st.insert_count + 1;
  }

  unfoldable pub give_up : Fields → DB → Store DB D → Store DB D
  give_up r db st = record st {
    conn = some db;
    dump = dump_or_log dump_file (with_reason (codes "sqlite_lock_contention") r) st.dump;
    metrics = incr (codes "db_insert_failure") 1 st.metrics;
  }

  -- the loop over the attempts that are left
  unfoldable pub attempts :
      ℕ → Fields → List Json → DB → Store DB D → Store DB D × Result (Unit {0})
  attempts zero r fields db st = (give_up r db st, ok tt)
  attempts (suc n) r fields db st = elim (execute fields db) [
    | committed next ↦ (count_insert next st, ok tt)
    | locked next ↦ attempts n r fields next st
    | failed next ↦ (record st { conn = some next }, ok tt)
    | escaped e next ↦ (record st { conn = some next }, raise e)
  ]

  -- an exception in the preparation of a record: three are logged
  abbrev pub prepared :
      Fields → DB → Store DB D → Result (List Json) → Store DB D × Result (Unit {0})
  prepared r db st (ok fields) = attempts 5 r fields db st
  prepared r db st (raise type_error) = (st, ok tt)
  prepared r db st (raise value_error) = (st, ok tt)
  prepared r db st (raise key_error) = (st, ok tt)
  prepared r db st (raise e) = (st, raise e)

  abbrev pub with_conn : Fields → Store DB D → Option DB → Store DB D × Result (Unit {0})
  with_conn r st none = (st, ok tt)
  with_conn r st (some db) = prepared r db st (extract_record_fields dumps str_of r)

  -- `SQLiteStorage.insert`, with the exception that leaves it
  unfoldable pub insert : Fields → Store DB D → Store DB D × Result (Unit {0})
  insert r st = with_conn r st st.conn

-- `ensure_connected` says whether there is a connection after it.
module _ {W D : Type 0} (dumps : Fields → Text) (str_of : Json → Text)
    (execute : List Json → W → Execution W) (is_connected : W → Bool)
    (ensure_connected : W → Bool × W) (reset_conn : W → W) (dump_file : Fields → D → Option D) where
  -- `_dump_insert_failure`
  unfoldable pub dump_insert_failure : Fields → W → PgStore W D → PgStore W D
  dump_insert_failure r w st = record st {
    world = w;
    dump = dump_or_log dump_file (with_reason (codes "postgres_insert_failure") r) st.dump;
    metrics = incr (codes "db_insert_failure") 1 st.metrics;
  }

  -- the second try, on a new connection
  abbrev pub retried : Fields → PgStore W D → Execution W → PgStore W D × Result (Unit {0})
  retried r st (executed w) = (record st { world = w }, ok tt)
  retried r st (refused w) = (dump_insert_failure r w st, ok tt)
  retried r st (leaked e w) = (record st { world = w }, raise e)

  abbrev pub reconnected :
      Fields → List Json → PgStore W D → Bool × W → PgStore W D × Result (Unit {0})
  reconnected r fields st (true, w) = retried r st (execute fields w)
  reconnected r fields st (false, w) = (dump_insert_failure r w st, ok tt)

  abbrev pub tried :
      Fields → List Json → PgStore W D → Execution W → PgStore W D × Result (Unit {0})
  tried r fields st (executed w) = (record st { world = w }, ok tt)
  tried r fields st (refused w) = reconnected r fields st (ensure_connected (reset_conn w))
  tried r fields st (leaked e w) = (record st { world = w }, raise e)

  abbrev pub with_fields :
      Fields → W → PgStore W D → Result (List Json) → PgStore W D × Result (Unit {0})
  with_fields r w st (ok fields) = tried r fields st (execute fields w)
  with_fields r w st (raise e) = (record st { world = w }, raise e)

  abbrev pub connected : Fields → PgStore W D → Bool × W → PgStore W D × Result (Unit {0})
  connected r st (true, w) = with_fields r w st (extract_record_fields dumps str_of r)
  connected r st (false, w) = (dump_insert_failure r w st, ok tt)

  -- `PostgreSQLStorage.insert`, with the exception that leaves it
  unfoldable pub insert_pg : Fields → PgStore W D → PgStore W D × Result (Unit {0})
  insert_pg r st =
      connected r st (if is_connected st.world then (true, st.world) else ensure_connected st.world)
