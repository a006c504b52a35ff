-- ===== src/Storage/Insertion.antt =====
-- What becomes of a record that the backends of manyfaced/db/storage.py are given.
use manyfaced_honeypot.Base.{
  ℕ, zero, suc, ◌+◌, ◌%◌, ◌<◌, ◌==◌, Bool, true, false, Option, none, some, List, Text, codes,
  if◌then◌else◌, ◌≡◌, ◌≢◌, refl, sym, subst, ap, ◌∙◌, ◌⊎◌, inl, inr, arith, Bool-cases,
  Option-cases,
}
use manyfaced_honeypot.Metrics.{incr}
use manyfaced_honeypot.Values.{Fault, Result, ok, raise, Json, Fields}
use manyfaced_honeypot.Storage.{extract_record_fields}
use manyfaced_honeypot.Storage.Backends.{
  Attempt, committed, locked, failed, escaped, Execution, executed, refused, leaked, Store, PgStore,
  with_reason, dump_or_log, with_conn, prepared, give_up, attempts, insert, insert_pg,
  dump_insert_failure, connected, tried, reconnected, retried,
}

-- The dump file took the record, or could not be written and is as it was.
abbrev pub IsOffered : {D : Type 0} → (Fields → D → Option D) → Fields → D → D → Type 0
IsOffered dump_file r before after =
    (dump_file r before ≡ some after) ⊎ ((dump_file r before ≡ none) × (after ≡ before))

dump_or_log-IsOffered :
    {D : Type 0} (dump_file : Fields → D → Option D) (r : Fields) (d : D)
    → IsOffered dump_file r d (dump_or_log dump_file r d)
dump_or_log-IsOffered dump_file r d = elim (Option-cases (dump_file r d)) [
  | inl h ↦ inr (h, rw (h, dump_or_log) refl)
  | inr (next, h) ↦ inl (rw (h, dump_or_log) refl)
]

-- The database answers this many executions of the row with `database is locked`.
pub data Locked {DB : Type 0} (execute : List Json → DB → Attempt DB) (fields : List Json) (db : DB)
    : ℕ → DB → Type 0 where
  free : Locked execute fields db 0 db
  busy :
      {n : ℕ} {last next : DB}
      → Locked execute fields db n last
      → execute fields last ≡ locked next
      → Locked execute fields db (suc n) next

-- The log is checkpointed after every hundredth record.
abbrev pub IsCheckpointed : {DB : Type 0} → (DB → DB) → ℕ → DB → DB → Type 0
IsCheckpointed checkpoint count done db =
    ((count % 100 ≡ 0) × (db ≡ checkpoint done)) ⊎ ((count % 100 ≢ 0) × (db ≡ done))

module _ {DB D : Type 0} (dumps : Fields → Text) (str_of : Json → Text)
    (execute : List Json → DB → Attempt DB) (checkpoint : DB → DB)
    (dump_file : Fields → D → Option D) (r : Fields) (fields : List Json) where
  -- How an insert on SQLite ends: the row is executed again after each of the first four answers
  -- `database is locked`, and the first other answer decides; after the fifth the record is offered
  -- to the dump file.
  pub data Ended (st : Store DB D) (db : DB) : Store DB D × Result (Unit {0}) → Type 0 where
    was_committed :
        (n : ℕ) (last done after : DB)
        → n < 5
        → Locked execute fields db n last
        → execute fields last ≡ committed done
        → IsCheckpointed checkpoint (st.insert_count + 1) done after
        → Ended st db (record st { conn = some after; insert_count = st.insert_count + 1 }, ok tt)
    had_failed :
        (n : ℕ) (last done : DB)
        → n < 5
        → Locked execute fields db n last
        → execute fields last ≡ failed done
        → Ended st db (record st { conn = some done }, ok tt)
    had_escaped :
        (n : ℕ) (last done : DB) (e : Fault)
        → n < 5
        → Locked execute fields db n last
        → execute fields last ≡ escaped e done
        → Ended st db (record st { conn = some done }, raise e)
    locked_out :
        (last : DB) (d : D)
        → Locked execute fields db 5 last
        → IsOffered dump_file (with_reason (codes "sqlite_lock_contention") r) st.dump d
        → Ended st db (
          record st {
            conn = some last;
            dump = d;
            metrics = incr (codes "db_insert_failure") 1 st.metrics;
          },
          ok tt,
        )

  checkpointed :
      (count : ℕ) (done : DB)
      → IsCheckpointed checkpoint count done (if count % 100 == 0 then checkpoint done else done)
  checkpointed count done = elim (Bool-cases (count % 100 == 0)) [
    | inl h ↦ rw h (inl (ground arith, refl))
    | inr h ↦ rw h (inr (ground arith, refl))
  ]

  module _ (st : Store DB D) (db : DB) where
    attempts-Ended :
        (left n : ℕ) (last : DB)
        → left + n ≡ 5
        → Locked execute fields db n last
        → Ended st db (attempts dumps str_of execute checkpoint dump_file left r fields last st)
    unfolding attempts give_up
    attempts-Ended zero n last e l =
        let five : n ≡ 5 = omega (arith, e) in
        locked_out last _ (subst (λ k. Locked execute fields db k last) five l)
          (dump_or_log-IsOffered dump_file _ st.dump)
    attempts-Ended (suc left) n last e l =
        after (execute fields last) refl
          (λ next h. attempts-Ended left (suc n) next (omega (arith, e)) (busy l h))
      where
        few : n < 5
        few = omega (arith, e)

        after :
            (a : Attempt DB)
            → execute fields last ≡ a
            → ((next : DB)
                → execute fields last ≡ locked next
                → Ended st db
                    (attempts dumps str_of execute checkpoint dump_file left r fields next st))
            → Ended st db
                (attempts dumps str_of execute checkpoint dump_file (suc left) r fields last st)
        after (committed done) h again =
            rw (h, attempts)
              (was_committed n last done _ few l h (checkpointed (st.insert_count + 1) done))
        after (locked next) h again = rw (h, attempts) (again next h)
        after (failed done) h again = rw (h, attempts) (had_failed n last done few l h)
        after (escaped x done) h again = rw (h, attempts) (had_escaped n last done x few l h)

    -- A record whose row can be made and that a connected SQLite storage is given ends in one of four
    -- ways, whatever the database does. Its row is committed before a fifth lockout: it is counted,
    -- at every hundredth count the log is checkpointed, and nothing is dumped. Another error of
    -- sqlite3 is only logged. An exception that is no error of sqlite3 leaves the insert. After five
    -- lockouts the record is offered to the dump file with the reason, and the failure is counted.
    pub insert-Ended :
        st.conn ≡ some db
        → extract_record_fields dumps str_of r ≡ ok fields
        → Ended st db (insert dumps str_of execute checkpoint dump_file r st)
    unfolding insert
    insert-Ended c made =
        let reached : insert dumps str_of execute checkpoint dump_file r st
            ≡ attempts dumps str_of execute checkpoint dump_file 5 r fields db st =
          ap (with_conn dumps str_of execute checkpoint dump_file r st) c
          ∙ ap (prepared dumps str_of execute checkpoint dump_file r db st) made in
        subst (Ended st db) (sym reached) (attempts-Ended 5 0 db refl free)

module _ {W D : Type 0} (dumps : Fields → Text) (str_of : Json → Text)
    (execute : List Json → W → Execution W) (is_connected : W → Bool)
    (ensure_connected : W → Bool × W) (reset_conn : W → W) (dump_file : Fields → D → Option D)
    (r : Fields) (fields : List Json) where
  -- What can become of a record on PostgreSQL: its row was executed and nothing was dumped; or there
  -- was no connection or the row was refused, the record was offered to the dump file with the reason
  -- and the failure was counted; or the exception that the execution raised leaves the insert.
  pub data Outcome (st : PgStore W D) : PgStore W D × Result (Unit {0}) → Type 0 where
    was_executed :
        (w after : W)
        → execute fields w ≡ executed after
        → Outcome st (record st { world = after }, ok tt)
    was_offered :
        (w after : W) (d : D)
        → (ensure_connected w ≡ (false, after)) ⊎ (execute fields w ≡ refused after)
        → IsOffered dump_file (with_reason (codes "postgres_insert_failure") r) st.dump d
        → Outcome st (
          record st {
            world = after;
            dump = d;
            metrics = incr (codes "db_insert_failure") 1 st.metrics;
          },
          ok tt,
        )
    has_leaked :
        (w after : W) (e : Fault)
        → execute fields w ≡ leaked e after
        → Outcome st (record st { world = after }, raise e)

  offered :
      (st : PgStore W D) (w after : W)
      → (ensure_connected w ≡ (false, after)) ⊎ (execute fields w ≡ refused after)
      → Outcome st (
        dump_insert_failure dumps str_of execute is_connected ensure_connected reset_conn dump_file
            r after st,
        ok tt,
      )
  unfolding dump_insert_failure
  offered st w after h = was_offered w after _ h (dump_or_log-IsOffered dump_file _ st.dump)

  retried-Outcome :
      (st : PgStore W D) (w : W) (out : Execution W)
      → execute fields w ≡ out
      → Outcome st
          (retried dumps str_of execute is_connected ensure_connected reset_conn dump_file r st out)
  retried-Outcome st w (executed v) e = was_executed w v e
  retried-Outcome st w (refused v) e = offered st w v (inr e)
  retried-Outcome st w (leaked x v) e = has_leaked w v x e

  reconnected-Outcome :
      (st : PgStore W D) (w : W) (out : Bool × W)
      → ensure_connected w ≡ out
      → Outcome st (
          reconnected dumps str_of execute is_connected ensure_connected reset_conn dump_file r
            fields st out)
  reconnected-Outcome st w (true, v) e = retried-Outcome st v (execute fields v) refl
  reconnected-Outcome st w (false, v) e = offered st w v (inl e)

  tried-Outcome :
      (st : PgStore W D) (w : W) (out : Execution W)
      → execute fields w ≡ out
      → Outcome st (
          tried dumps str_of execute is_connected ensure_connected reset_conn dump_file r fields st
            out)
  tried-Outcome st w (executed v) e = was_executed w v e
  tried-Outcome st w (refused v) e = reconnected-Outcome st (reset_conn v) _ refl
  tried-Outcome st w (leaked x v) e = has_leaked w v x e

  connected-Outcome :
      (st : PgStore W D) (connected_now : Bool)
      → extract_record_fields dumps str_of r ≡ ok fields
      → Outcome st (
          connected dumps str_of execute is_connected ensure_connected reset_conn dump_file r st
            (if connected_now then (true, st.world) else ensure_connected st.world))
  connected-Outcome st true made = rw made (tried-Outcome st st.world _ refl)
  connected-Outcome st false made = after (ensure_connected st.world) refl
    where
      after :
          (out : Bool × W)
          → ensure_connected st.world ≡ out
          → Outcome st (
              connected dumps str_of execute is_connected ensure_connected reset_conn dump_file r st
                out)
      after (true, w) e = rw made (tried-Outcome st w _ refl)
      after (false, w) e = offered st st.world w (inl e)

  -- A record whose row can be made ends in one of three ways on PostgreSQL, whatever the connection
  -- does. Its row was executed and nothing was dumped; or there was no connection or the row was
  -- refused, and the record was offered to the dump file with the reason, the failure counted and
  -- nothing raised; or the execution raised an exception that is no error of psycopg2, which leaves
  -- the insert. A dump file that cannot be written stays as it was.
  pub insert_pg-Outcome :
      (st : PgStore W D)
      → extract_record_fields dumps str_of r ≡ ok fields
      → Outcome st
          (insert_pg dumps str_of execute is_connected ensure_connected reset_conn dump_file r st)
  unfolding insert_pg
  insert_pg-Outcome st made = connected-Outcome st (is_connected st.world) made
