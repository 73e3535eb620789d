-- ===== src/Store/Replay.antt =====
-- A request with a key runs once: RunIdempotent of memory.go.
use kingsway_academy.Base.{
  String, ◌≡◌, refl, ◌==◌, true, false, arith, some, none, inl, inr, eq_refl, Bool-cases,
  if◌then◌else◌, ◌∙◌, ap,
}
use kingsway_academy.Base.Int.{ℤ}
use kingsway_academy.Map.{lookup, insert, lookup-insert, lookup-erase}
use kingsway_academy.Domain.{Time, IdempotencyRecord, IdempotencyStatus, ok, err, conflict, Error}
use kingsway_academy.Store.State.{Memory, Outcome, with_row, when◌fail◌from◌otherwise◌, refuse}
use kingsway_academy.Store.Idempotency.{
  begin_idempotency, meet_record, pending_record, complete_idempotency, clear_idempotency, Handler,
  finish_run, run_begun, replay, run_idempotent, key_of, has_expired, lacks_field,
}

-- The record of a run that has ended with this response.
abbrev pub completed_record : Time → IdempotencyRecord → ℤ → String → IdempotencyRecord
completed_record ts r status body = record r {
  status = IdempotencyStatus.completed;
  response_status = status;
  response_body = body;
  updated_at = ts;
}

-- A run that begins with no record under its key stores one that is pending.
begin_fresh :
    (checked_at ts : Time) (r : IdempotencyRecord) (m : Memory)
    → lacks_field r ≡ false
    → lookup (key_of r) m.idempotency ≡ none
    → begin_idempotency checked_at ts r m ≡ (
      ok (true, pending_record ts r),
      record m { idempotency = insert (key_of r) (pending_record ts r) m.idempotency },
    )
unfolding begin_idempotency when◌fail◌from◌otherwise◌
begin_fresh checked_at ts r m full fresh = rw (full, fresh) refl

-- A run that meets a record that has not expired begins nothing.
begin_met :
    (checked_at ts : Time) (r existing : IdempotencyRecord) (m : Memory)
    → lacks_field r ≡ false
    → lookup (key_of r) m.idempotency ≡ some existing
    → has_expired checked_at existing ≡ false
    → begin_idempotency checked_at ts r m ≡ (
        if existing.request_hash == r.request_hash
        then (ok (false, existing), m)
        else refuse conflict m)
unfolding begin_idempotency meet_record when◌fail◌from◌otherwise◌
begin_met checked_at ts r existing m full met current =
    elim (Bool-cases (existing.request_hash == r.request_hash)) [
      | inl same ↦ rw (full, met, current, same) refl
      | inr differs ↦ rw (full, met, current, differs) refl
    ]

-- A run that meets an unexpired record runs no handler.
run_met :
    (checked_at started_at finished_at : Time) (r existing : IdempotencyRecord) (execute : Handler)
    (m : Memory)
    → lacks_field r ≡ false
    → lookup (key_of r) m.idempotency ≡ some existing
    → has_expired checked_at existing ≡ false
    → run_idempotent checked_at started_at finished_at r (some execute) m
      ≡ (if existing.request_hash == r.request_hash then replay existing m else refuse conflict m)
unfolding run_idempotent run_begun when◌fail◌from◌otherwise◌
run_met checked_at started_at finished_at r existing execute m full met current =
    elim (Bool-cases (existing.request_hash == r.request_hash)) [
      | inl same ↦
          ap (run_begun finished_at r execute)
            (begin_met checked_at started_at r existing m full met current)
          ∙ rw same refl
      | inr differs ↦
          ap (run_begun finished_at r execute)
            (begin_met checked_at started_at r existing m full met current)
          ∙ rw differs refl
    ]

-- While an unexpired record is stored under the key of a complete request, no handler runs for
-- it: whatever the handler is, the store stays as it is; the result is the stored response, marked
-- as a replay, if the stored request has the same hash and is completed, and in every other case
-- a conflict.
pub run_idempotent_settled :
    (checked_at started_at finished_at : Time) (r existing : IdempotencyRecord) (execute : Handler)
    (m : Memory)
    → lacks_field r ≡ false
    → lookup (key_of r) m.idempotency ≡ some existing
    → has_expired checked_at existing ≡ false
    → run_idempotent checked_at started_at finished_at r (some execute) m ≡ (
      if existing.request_hash == r.request_hash
          then elim existing.status [
            | IdempotencyStatus.completed ↦ ok (record {
              replayed = true;
              response_status = existing.response_status;
              response_body = existing.response_body;
            })
            | IdempotencyStatus.pending ↦ err conflict
            | IdempotencyStatus.other s ↦ err conflict
          ]
          else err conflict,
      m,
    )
unfolding replay
run_idempotent_settled checked_at started_at finished_at r existing execute m full met current =
    run_met checked_at started_at finished_at r existing execute m full met current ∙ ground arith

-- The store in which the handler of a fresh request runs.
abbrev pub started : Time → IdempotencyRecord → Memory → Memory
started ts r m = record m { idempotency = insert (key_of r) (pending_record ts r) m.idempotency }

started_found :
    (ts : Time) (r : IdempotencyRecord) (m : Memory)
    → lookup (key_of r) (started ts r m).idempotency ≡ some (pending_record ts r)
started_found ts r m = ground (
  arith,
  lookup-insert (key_of r) (key_of r) (pending_record ts r) m.idempotency,
  eq_refl (key_of r),
)

finish_ok :
    (ts : Time) (r pending : IdempotencyRecord) (o : Outcome (ℤ × String)) (status : ℤ)
    (body : String)
    → o.0 ≡ ok (status, body)
    → lookup (key_of r) o.1.idempotency ≡ some pending
    → ((finish_run ts r o).0
        ≡ ok (record { replayed = false; response_status = status; response_body = body }))
      × (lookup (key_of r) (finish_run ts r o).1.idempotency
          ≡ some (completed_record ts pending status body))
unfolding finish_run complete_idempotency with_row
finish_ok ts r pending (ok (s, b), m) status body answered untouched = (
  rw (untouched, finish_run) (ground arith),
  rw (untouched, finish_run, complete_idempotency)
      (ground (
        arith,
        lookup-insert (key_of r) (key_of r) (completed_record ts pending s b) m.idempotency,
        eq_refl (key_of r),
      )),
)
finish_ok ts r pending (err e, m) status body answered untouched = absurd (ground arith)

finish_err :
    (ts : Time) (r : IdempotencyRecord) (o : Outcome (ℤ × String)) (e : Error)
    → o.0 ≡ err e
    → ((finish_run ts r o).0 ≡ err e) × (lookup (key_of r) (finish_run ts r o).1.idempotency ≡ none)
unfolding finish_run clear_idempotency
finish_err ts r (ok (s, b), m) e failed = absurd (ground arith)
finish_err ts r (err e', m) e failed = (
  ground arith,
  ground (arith, lookup-erase (key_of r) (key_of r) m.idempotency, eq_refl (key_of r)),
)

module _ (checked_at started_at finished_at : Time) (r : IdempotencyRecord) (execute : Handler)
    (m : Memory) (full : lacks_field r ≡ false)
    (fresh : lookup (key_of r) m.idempotency ≡ none) where
  -- What is left to do after the start.
  begun :
      run_idempotent checked_at started_at finished_at r (some execute) m
      ≡ finish_run finished_at r (execute (started started_at r m))
  unfolding run_idempotent run_begun
  begun = ap (run_begun finished_at r execute) (begin_fresh checked_at started_at r m full fresh)

  -- The record that the handler's run ends with, if the handler leaves the pending one alone.
  first_run :
      (status : ℤ) (body : String)
      → (execute (started started_at r m)).0 ≡ ok (status, body)
      → lookup (key_of r) (execute (started started_at r m)).1.idempotency
        ≡ some (pending_record started_at r)
      → let run = run_idempotent checked_at started_at finished_at r (some execute) m in
        (run.0 ≡ ok (record { replayed = false; response_status = status; response_body = body }))
        × (lookup (key_of r) run.1.idempotency
            ≡ some (completed_record finished_at (pending_record started_at r) status body))
  first_run status body answered untouched =
      rw begun (finish_ok finished_at r _ _ status body answered untouched)

  failed_run :
      (e : Error)
      → (execute (started started_at r m)).0 ≡ err e
      → let run = run_idempotent checked_at started_at finished_at r (some execute) m in
        (run.0 ≡ err e) × (lookup (key_of r) run.1.idempotency ≡ none)
  failed_run e failed = rw begun (finish_err finished_at r _ e failed)

-- A complete request with a new key whose handler answers and leaves its record alone: the answer
-- is returned, and from then on, as long as no other run touches the record and it has not
-- expired, a repetition of the request gets the same answer, marked as a replay, and changes
-- nothing, whatever handler it carries.
pub run_idempotent_replays :
    (checked_at started_at finished_at : Time) (r : IdempotencyRecord) (execute : Handler)
    (m : Memory) (status : ℤ) (body : String) (checked_again started_again finished_again : Time)
    (another : Handler) (later : Memory)
    → lacks_field r ≡ false
    → lookup (key_of r) m.idempotency ≡ none
    → (execute (started started_at r m)).0 ≡ ok (status, body)
    → lookup (key_of r) (execute (started started_at r m)).1.idempotency
      ≡ some (pending_record started_at r)
    → let run = run_idempotent checked_at started_at finished_at r (some execute) m in
      lookup (key_of r) later.idempotency ≡ lookup (key_of r) run.1.idempotency
      → has_expired checked_again (pending_record started_at r) ≡ false
      → (run.0 ≡ ok (record { replayed = false; response_status = status; response_body = body }))
        × (run_idempotent checked_again started_again finished_again r (some another) later ≡ (
          ok (record { replayed = true; response_status = status; response_body = body }),
          later,
        ))
unfolding pending_record replay
run_idempotent_replays checked_at started_at finished_at r execute m status body c s f another later
      full fresh answered untouched same current =
    let first =
      first_run checked_at started_at finished_at r execute m full fresh status body answered
        untouched in
    (
      first.0,
      run_met c s f r (completed_record finished_at (pending_record started_at r) status body)
            another later full (same ∙ first.1) current
          ∙ rw (eq_refl r.request_hash) refl,
    )

-- A complete request with a new key whose handler fails: its error is returned, and no record of
-- it stays. So a repetition runs its own handler, in the store with a new record.
pub run_idempotent_retries :
    (checked_at started_at finished_at : Time) (r : IdempotencyRecord) (execute : Handler)
    (m : Memory) (e : Error) (checked_again started_again finished_again : Time) (another : Handler)
    → lacks_field r ≡ false
    → lookup (key_of r) m.idempotency ≡ none
    → (execute (started started_at r m)).0 ≡ err e
    → let run = run_idempotent checked_at started_at finished_at r (some execute) m in
      (run.0 ≡ err e)
      × (run_idempotent checked_again started_again finished_again r (some another) run.1
          ≡ finish_run finished_again r (another (started started_again r run.1)))
run_idempotent_retries checked_at started_at finished_at r execute m e c s f another full fresh
      failed =
    let first = failed_run checked_at started_at finished_at r execute m full fresh e failed in
    (first.0, begun c s f r another _ full first.1)

-- Of two runs of one complete request that overlap, the second is refused: the first has begun,
-- and while its handler works, a run that starts in a store that still has the first's record,
-- unexpired, is a conflict and changes nothing.
pub run_idempotent_excludes :
    (checked_at started_at : Time) (r : IdempotencyRecord) (m : Memory)
    (checked_again started_again finished_again : Time) (another : Handler) (later : Memory)
    → lacks_field r ≡ false
    → lookup (key_of r) m.idempotency ≡ none
    → let begun = begin_idempotency checked_at started_at r m in
      lookup (key_of r) later.idempotency ≡ lookup (key_of r) begun.1.idempotency
      → has_expired checked_again (pending_record started_at r) ≡ false
      → (begun.0 ≡ ok (true, pending_record started_at r))
        × (run_idempotent checked_again started_again finished_again r (some another) later
            ≡ (err conflict, later))
unfolding pending_record replay
run_idempotent_excludes checked_at started_at r m c s f another later full fresh same current =
    let start = begin_fresh checked_at started_at r m full fresh in
    let found =
      same ∙ ap (λ o. lookup (key_of r) o.1.idempotency) start ∙ started_found started_at r m in
    (
      ap (λ o. o.0) start,
      run_met c s f r (pending_record started_at r) another later full found current
          ∙ rw (eq_refl r.request_hash) refl,
    )
