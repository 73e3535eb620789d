-- ===== src/Store/Booking.antt =====
-- Nobody is booked twice: the schedule of memory.go over time.
use kingsway_academy.Base.{
  ◌||◌, String, ◌≡◌, ◌≢◌, ◌⊎◌, ◌<◌, ◌==◌, true, false, not, arith, some, none, inl, inr, subst,
  eq_iff, sym,
}
use kingsway_academy.Map.{
  Map, contains, lookup, insert, insert-cases, any_value, any_value-false, delete_where,
  lookup-delete_where, lookup-erase_keys, keys,
}
use kingsway_academy.Domain.{
  Time, ScheduleItem, TimeRange, FileObject, range_of, range_is_valid, overlaps,
}
use kingsway_academy.Domain.Overlap.{Within, overlaps_iff}
use kingsway_academy.Store.State.{Memory, new_memory}
use kingsway_academy.Store.Keeps.{Keeps, keeps_ok, keeps_when, keeps_with_row, ways_out}
use kingsway_academy.Store.Schedules.{create_schedule_item, place_item, clashes}
use kingsway_academy.Store.Files.{register_file, mark_file_deleted}
use kingsway_academy.Store.Untouched.{Writers, Reach_keeps}
use kingsway_academy.Store.Reach.{Reach}
use kingsway_academy.Store.Branches.{delete_branch, clear_branch}
use kingsway_academy.Store.Teachers.{delete_teacher, clear_teacher}

-- Two live items of one branch that share the room or the teacher.
abbrev pub Competes : ScheduleItem → ScheduleItem → Type 0
Competes a b =
    (a.branch_id ≡ b.branch_id)
    × (a.cancelled_at ≡ none)
    × (b.cancelled_at ≡ none)
    × ((a.room_id ≡ b.room_id) ⊎ (a.teacher_id ≡ b.teacher_id))

-- Every item has a start that is set, before its end, and no instant lies in two items that compete.
pub record AreApart (schedules : Map ScheduleItem) : Type 0 where
  pub timed :
      (k : String) (a : ScheduleItem)
      → lookup k schedules ≡ some a
      → (0 < a.starts_at) × (a.starts_at < a.ends_at)
  pub apart :
      (i j : String) (a b : ScheduleItem)
      → lookup i schedules ≡ some a
      → lookup j schedules ≡ some b
      → i ≢ j
      → Competes a b
      → (t : Time) → Within t (range_of a)
      → Within t (range_of b)
      → ⊥

-- A part of a schedule is apart if the whole is.
AreApart-part :
    {s s' : Map ScheduleItem}
    → AreApart s
    → ((k : String) (a : ScheduleItem) → lookup k s' ≡ some a → lookup k s ≡ some a)
    → AreApart s'
AreApart-part x part = record {
  timed = λ k a e. x.timed k a (part k a e);
  apart = λ i j a b p q. x.apart i j a b (part i a p) (part j b q);
}

-- An item that does not clash with another that competes with it shares no instant with it.
pub clear_of :
    (item existing : ScheduleItem)
    → clashes item existing ≡ false
    → Competes item existing
    → (0 < item.starts_at)
    → (0 < existing.starts_at)
    → (t : Time) → Within t (range_of item)
    → Within t (range_of existing)
    → ⊥
clear_of item existing free (branch, live, still, shared) a b t u v =
    let meet : overlaps (range_of item) (range_of existing) ≡ true =
      (overlaps_iff (range_of item) (range_of existing)).1 (a, b, (t, u, v)) in
    ground (
      arith,
      eq_iff existing.branch_id item.branch_id,
      eq_iff existing.room_id item.room_id,
      eq_iff existing.teacher_id item.teacher_id,
    )

pub valid_timed : (r : TimeRange) → range_is_valid r ≡ true → (0 < r.start) × (r.start < r.end)
unfolding range_is_valid
valid_timed r h = ground arith

-- To compete is mutual.
flip : (a b : ScheduleItem) → Competes a b → Competes b a
flip a b (branch, live, still, inl room) = (sym branch, still, live, inl (sym room))
flip a b (branch, live, still, inr teacher) = (sym branch, still, live, inr (sym teacher))

module _ (id : String) (row : ScheduleItem) (s : Map ScheduleItem) (x : AreApart s) where
  new_apart :
      range_is_valid (range_of row) ≡ true
      → any_value (clashes row) s ≡ false
      → (k : String) (a : ScheduleItem) → lookup k s ≡ some a
      → Competes row a
      → (t : Time) → Within t (range_of row)
      → Within t (range_of a)
      → ⊥
  new_apart valid free k a e c =
      clear_of row a (any_value-false (clashes row) s k a free e) c (valid_timed _ valid).0
        (x.timed k a e).0

  -- A row that is valid and clashes with nothing can be added.
  insert-AreApart :
      range_is_valid (range_of row) ≡ true
      → any_value (clashes row) s ≡ false
      → AreApart (insert id row s)
  insert-AreApart valid free = record {
    timed = λ k a e. elim (insert-cases id k row a s e) [
      | inl (here, is_row) ↦
          subst (λ r. (0 < r.starts_at) × (r.starts_at < r.ends_at)) (sym is_row)
            (valid_timed _ valid)
      | inr (there, old) ↦ x.timed k a old
    ];
    apart = λ i j a b p q differ c t u v. elim (insert-cases id i row a s p) [
      | inl (here, is_row) ↦ elim (insert-cases id j row b s q) [
        | inl (there, is_too) ↦ differ (ground arith)
        | inr (there, old) ↦
            new_apart valid free j b old (subst (λ r. Competes r b) is_row c) t
              (subst (λ r. Within t (range_of r)) is_row u) v
      ]
      | inr (apart, old) ↦ elim (insert-cases id j row b s q) [
        | inl (there, is_too) ↦
            new_apart valid free i a old (flip a row (subst (λ r. Competes a r) is_too c)) t
              (subst (λ r. Within t (range_of r)) is_too v) u
        | inr (there, older) ↦ x.apart i j a b old older differ c t u v
      ]
    ];
  }

-- The schedule of a store is without double bookings.
abbrev Apart : Memory → Type 0
Apart m = AreApart m.schedules

create_schedule_item-Apart :
    (ts : Time) (id : String) (item : ScheduleItem) (m : Memory)
    → Apart m
    → Keeps Apart (create_schedule_item ts id item m)
unfolding create_schedule_item place_item
create_schedule_item-Apart ts id item m x = keeps_when _ _ _ _ x λ valid.
    keeps_with_row _ _ _ x λ room r. keeps_with_row _ _ _ x λ teacher t.
      keeps_when _ _ _ _ x λ right. keeps_when _ _ _ _ x λ active. keeps_when _ _ _ _ x λ free.
        keeps_ok (
          insert-AreApart id (record item { id = id; created_at = ts; updated_at = ts }) m.schedules
            x (ground arith) free)

delete_branch-Apart : (id : String) (m : Memory) → Apart m → Keeps Apart (delete_branch id m)
unfolding delete_branch clear_branch
delete_branch-Apart id m x = keeps_with_row _ _ _ x λ branch found. keeps_ok (
    AreApart-part x
      λ k a e. ground (arith, lookup-delete_where (λ s. s.branch_id == id) k m.schedules))

delete_teacher-Apart :
    (clock : String → Time) (id : String) (m : Memory)
    → Apart m
    → Keeps Apart (delete_teacher clock id m)
unfolding delete_teacher clear_teacher
delete_teacher-Apart clock id m x = keeps_with_row _ _ _ x λ teacher found. keeps_ok (
    AreApart-part x λ k a e.
      let gone =
        delete_where
          (λ s. not (
            s.teacher_id == teacher.id
            || s.created_by_user_id == teacher.user_id
            || contains s.class_id
                (delete_where (λ c. not (c.teacher_id == teacher.id)) m.classes)))
          m.schedules in
      ground (arith, lookup-erase_keys (keys gone) k m.schedules))

register_file-Apart :
    (ts : Time) (id : String) (f : FileObject) (m : Memory)
    → Apart m
    → Keeps Apart (register_file ts id f m)
unfolding register_file
register_file-Apart ts id f m x = search (ways_out, x) depth 9

mark_file_deleted-Apart :
    (ts : Time) (id : String) (m : Memory) → Apart m → Keeps Apart (mark_file_deleted ts id m)
unfolding mark_file_deleted
mark_file_deleted-Apart ts id m x = search (ways_out, x) depth 9

Apart-Writers : Writers (λ schedules files. AreApart schedules)
Apart-Writers = record {
  create_schedule_item =
      λ ts id i m x. record { kept = (create_schedule_item-Apart ts id i m x).kept };
  register_file = λ ts id f m fresh x. record { kept = (register_file-Apart ts id f m x).kept };
  mark_file_deleted = λ ts id m x. record { kept = (mark_file_deleted-Apart ts id m x).kept };
  delete_branch = λ id m x. record { kept = (delete_branch-Apart id m x).kept };
  delete_teacher = λ clock id m x. record { kept = (delete_teacher-Apart clock id m x).kept };
}

-- From the empty store on, whatever methods are called in whatever order, every scheduled item
-- starts at a set time before its end, and no instant lies in two items that are not cancelled and
-- share their branch and their room or teacher.
pub new_memory-AreApart : (m : Memory) → Reach new_memory m → AreApart m.schedules
unfolding lookup
new_memory-AreApart m r =
    Reach_keeps (λ schedules files. AreApart schedules) Apart-Writers r
      (record {
        timed = λ k a e. absurd (ground arith);
        apart = λ i j a b e. absurd (ground arith);
      })
