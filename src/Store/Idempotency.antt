-- ===== src/Store/Idempotency.antt =====
-- The idempotency records of memory.go: a request with a key runs once, and a repetition of it gets
-- the stored response.
use Prim.Native.String
use kingsway_academy.Base.{
  ℕ, ◌+◌, ◌*◌, String, ◌==◌, ◌||◌, ◌&&◌, not, Bool, true, false, Option, none, some, if◌then◌else◌,
}
use kingsway_academy.Base.Int.{ℤ}
use kingsway_academy.Base.Text.{is_empty}
use kingsway_academy.Map.{lookup, insert, erase}
use kingsway_academy.Domain.{
  Time, IdempotencyRecord, IdempotencyRunResult, IdempotencyStatus, ok, err, invalid_input,
  conflict, is_zero, before,
}
use kingsway_academy.Store.State.{when◌fail◌from◌otherwise◌, Memory, Outcome, refuse, with_row}

infixr 65 ◌<>◌
abbrev ◌<>◌ : String → String → String
s <> t = String.◌++◌ s t

-- idempotencyMapKey
unfoldable pub idempotency_map_key : String → String → String → String → String
idempotency_map_key actor_user_id method path key =
    actor_user_id <> "\0" <> method <> "\0" <> path <> "\0" <> key

abbrev pub key_of : IdempotencyRecord → String
key_of r = idempotency_map_key r.actor_user_id r.method r.path r.key

-- 24 hours, in nanoseconds
abbrev pub one_day : ℕ
one_day = 24 * 3600 * 1000000000

abbrev pub lacks_field : IdempotencyRecord → Bool
lacks_field r =
    is_empty r.actor_user_id
    || is_empty r.method
    || is_empty r.path
    || is_empty r.key
    || is_empty r.request_hash

abbrev pub has_expired : Time → IdempotencyRecord → Bool
has_expired ts r = not (is_zero r.expires_at) && before r.expires_at ts

-- The record that a run begins with.
unfoldable pub pending_record : Time → IdempotencyRecord → IdempotencyRecord
pending_record ts r = record r {
  status = IdempotencyStatus.pending;
  created_at = ts;
  updated_at = ts;
  expires_at = if is_zero r.expires_at then ts + one_day else r.expires_at;
}

abbrev pub start_record : Time → IdempotencyRecord → Memory → Outcome (Bool × IdempotencyRecord)
start_record ts r m = (
  ok (true, pending_record ts r),
  record m { idempotency = insert (key_of r) (pending_record ts r) m.idempotency },
)

-- What is done with a record that is stored under the key already.
unfoldable pub meet_record :
    Time
    → Time
    → IdempotencyRecord
    → IdempotencyRecord
    → Memory
    → Outcome (Bool × IdempotencyRecord)
meet_record checked_at ts r existing m =
    if has_expired checked_at existing
    then start_record ts r (record m { idempotency = erase (key_of r) m.idempotency })
    else when not (existing.request_hash == r.request_hash)
    fail conflict
    from m
    otherwise (ok (false, existing), m)

-- beginIdempotency; the clock is read at the test of the expiry and again for the new record
unfoldable pub begin_idempotency :
    Time → Time → IdempotencyRecord → Memory → Outcome (Bool × IdempotencyRecord)
unfolding meet_record
begin_idempotency checked_at ts r m =
    when lacks_field r fail invalid_input from m otherwise elim (lookup (key_of r) m.idempotency) [
      | none ↦ start_record ts r m
      | some existing ↦ meet_record checked_at ts r existing m
    ]

-- completeIdempotency
unfoldable pub complete_idempotency :
    Time → IdempotencyRecord → ℤ → String → Memory → Outcome (Unit {0})
complete_idempotency ts r status body m = with_row (lookup (key_of r) m.idempotency) m λ row. (
  ok tt,
  record m {
    idempotency =
        insert (key_of r)
          (record row {
            status = IdempotencyStatus.completed;
            response_status = status;
            response_body = body;
            updated_at = ts;
          })
          m.idempotency;
  },
)

-- clearIdempotency
unfoldable pub clear_idempotency : IdempotencyRecord → Memory → Memory
clear_idempotency r m = record m { idempotency = erase (key_of r) m.idempotency }

-- The handler that a request carries: a status and a payload, with what it did to the store. It
-- runs with the lock released.
abbrev pub Handler : Type 0
Handler = Memory → Outcome (ℤ × String)

abbrev is_completed : IdempotencyStatus → Bool
is_completed IdempotencyStatus.completed = true
is_completed _ = false

-- The end of a run: its result is stored, or its record removed.
unfoldable pub finish_run :
    Time → IdempotencyRecord → Outcome (ℤ × String) → Outcome IdempotencyRunResult
finish_run ts r (err e, m) = (err e, clear_idempotency r m)
finish_run ts r (ok (status, payload), m) =
    let (completed, m') = complete_idempotency ts r status payload m in
    elim completed [
      | err e ↦ (err e, m')
      | ok _ ↦
          (ok (record { replayed = false; response_status = status; response_body = payload }), m')
    ]

-- What is returned for a record that is there already.
unfoldable pub replay : IdempotencyRecord → Memory → Outcome IdempotencyRunResult
replay current m =
    if is_completed current.status
    then (
      ok (record {
        replayed = true;
        response_status = current.response_status;
        response_body = current.response_body;
      }),
      m,
    )
    else refuse conflict m

-- RunIdempotent, once the record is begun.
unfoldable pub run_begun :
    Time
    → IdempotencyRecord
    → Handler
    → Outcome (Bool × IdempotencyRecord)
    → Outcome IdempotencyRunResult
unfolding finish_run replay
run_begun finished_at r execute (err e, m) = (err e, m)
run_begun finished_at r execute (ok (started, current), m) =
    if not started then replay current m else finish_run finished_at r (execute m)

-- RunIdempotent; `none` is the nil handler
unfoldable pub run_idempotent :
    (checked_at started_at finished_at : Time)
    → IdempotencyRecord
    → Option Handler
    → Memory
    → Outcome IdempotencyRunResult
unfolding begin_idempotency run_begun
run_idempotent checked_at started_at finished_at r none m = refuse invalid_input m
run_idempotent checked_at started_at finished_at r (some execute) m =
    run_begun finished_at r execute (begin_idempotency checked_at started_at r m)
