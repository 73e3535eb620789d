-- ===== src/Store/Originals.antt =====
-- What holds of every stored file record: RegisterFile of memory.go over time.
use kingsway_academy.Base.{
  String, ◌≡◌, ◌≢◌, sym, ap, ◌∙◌, subst, ◌==◌, ◌||◌, ◌&&◌, true, arith, some, inl, inr, eq_iff,
}
use kingsway_academy.Base.Int.{eqb_ℤ_lem}
use kingsway_academy.Map.{Map, lookup, insert, insert-cases, any_value-false, lookup-delete_where}
use kingsway_academy.Domain.{
  Time, FileObject, ScheduleItem, FileCategory, policy_category, eq_category,
  must_preserve_original_bytes,
}
use kingsway_academy.Store.State.{Memory, new_memory}
use kingsway_academy.Store.Keeps.{Keeps, keeps_ok, keeps_when, keeps_with_row, ways_out}
use kingsway_academy.Store.Schedules.{create_schedule_item, place_item}
use kingsway_academy.Store.Files.{register_file, mark_file_deleted, bad_file}
use kingsway_academy.Store.Branches.{delete_branch, clear_branch}
use kingsway_academy.Store.Teachers.{delete_teacher, clear_teacher}
use kingsway_academy.Store.Untouched.{Writers, Reach_keeps}
use kingsway_academy.Store.Reach.{Reach}

-- A file's policy belongs to its category, and a file whose bytes must be preserved is stored as
-- large as it was uploaded.
pub record IsSoundFile (category : FileCategory) (f : FileObject) : Type 0 where
  pub fits : eq_category (policy_category f.policy) category ≡ true
  pub whole :
      must_preserve_original_bytes category ≡ true → f.stored_size_bytes ≡ f.original_size_bytes

-- Every file is sound, and no two share a place in the object storage.
pub record AreSound (files : Map FileObject) : Type 0 where
  pub sound : (k : String) (f : FileObject) → lookup k files ≡ some f → IsSoundFile f.category f
  pub placed :
      (i j : String) (f g : FileObject)
      → lookup i files ≡ some f
      → lookup j files ≡ some g
      → f.storage_key ≡ g.storage_key
      → i ≡ j

AreSound-part :
    {s s' : Map FileObject}
    → AreSound s
    → ((k : String) (f : FileObject) → lookup k s' ≡ some f → lookup k s ≡ some f)
    → AreSound s'
AreSound-part x part = record {
  sound = λ k f e. x.sound k f (part k f e);
  placed = λ i j f g p q. x.placed i j f g (part i f p) (part j g q);
}

-- A sound row can be stored where no other row has its place.
insert-AreSound :
    (id : String) (row : FileObject) (s : Map FileObject)
    → AreSound s
    → IsSoundFile row.category row
    → ((k : String) (f : FileObject)
        → k ≢ id
        → lookup k s ≡ some f
        → f.storage_key ≢ row.storage_key)
    → AreSound (insert id row s)
insert-AreSound id row s x ok_row free = record {
  sound = λ k f e. elim (insert-cases id k row f s e) [
    | inl (here, is_row) ↦ subst (λ (f : FileObject). IsSoundFile f.category f) (sym is_row) ok_row
    | inr (there, old) ↦ x.sound k f old
  ];
  placed = λ i j f g p q same. elim (insert-cases id i row f s p) [
    | inl (here, is_row) ↦ elim (insert-cases id j row g s q) [
      | inl (there, is_too) ↦ here ∙ sym there
      | inr (there, old) ↦
          absurd (free j g there old (sym same ∙ ap (λ (f : FileObject). f.storage_key) is_row))
    ]
    | inr (other, old) ↦ elim (insert-cases id j row g s q) [
      | inl (there, is_too) ↦
          absurd (free i f other old (same ∙ ap (λ (f : FileObject). f.storage_key) is_too))
      | inr (there, older) ↦ x.placed i j f g old older same
    ]
  ];
}

abbrev Sound : Memory → Type 0
Sound m = AreSound m.files

register_file-Sound :
    (ts : Time) (id : String) (f : FileObject) (m : Memory)
    → Sound m
    → Keeps Sound (register_file ts id f m)
unfolding register_file bad_file
register_file-Sound ts id f m x = keeps_when _ _ _ _ x λ known. keeps_when _ _ _ _ x λ fine.
    keeps_when _ _ _ _ x λ whole. keeps_when _ _ _ _ x λ free. keeps_ok (
      insert-AreSound id _ m.files x
        (record {
          fits = ground arith;
          whole = λ must. eqb_ℤ_lem f.stored_size_bytes f.original_size_bytes (ground arith);
        })
        (λ k g other found same. ground (
          arith,
          any_value-false (λ (e : FileObject). e.storage_key == f.storage_key) m.files k g free
              found,
          eq_iff g.storage_key f.storage_key,
        )))

mark_file_deleted-Sound :
    (ts : Time) (id : String) (m : Memory) → Sound m → Keeps Sound (mark_file_deleted ts id m)
unfolding mark_file_deleted
mark_file_deleted-Sound ts id m x = keeps_with_row _ _ _ x λ f found. keeps_ok (
    insert-AreSound id _ m.files x
      (record { fits = (x.sound id f found).fits; whole = (x.sound id f found).whole })
      (λ k g other stored same. other (x.placed k id g f stored found same)))

delete_branch-Sound : (id : String) (m : Memory) → Sound m → Keeps Sound (delete_branch id m)
unfolding delete_branch clear_branch
delete_branch-Sound id m x = keeps_with_row _ _ _ x λ branch found. keeps_ok (
    AreSound-part x λ k a e.
      ground (arith, lookup-delete_where (λ (f : FileObject). f.branch_id == id) k m.files))

delete_teacher-Sound :
    (clock : String → Time) (id : String) (m : Memory)
    → Sound m
    → Keeps Sound (delete_teacher clock id m)
unfolding delete_teacher clear_teacher
delete_teacher-Sound clock id m x = keeps_with_row _ _ _ x λ teacher found. keeps_ok (
    AreSound-part x λ k a e. ground (
      arith,
      lookup-delete_where
          (λ (f : FileObject).
            f.uploader_user_id == teacher.user_id
            || (f.owner_type == "teacher" && f.owner_id == teacher.id))
          k m.files,
    ))

create_schedule_item-Sound :
    (ts : Time) (id : String) (item : ScheduleItem) (m : Memory)
    → Sound m
    → Keeps Sound (create_schedule_item ts id item m)
unfolding create_schedule_item place_item
create_schedule_item-Sound ts id item m x = search (ways_out, x) depth 9

Sound-Writers : Writers (λ schedules files. AreSound files)
Sound-Writers = record {
  create_schedule_item =
      λ ts id i m x. record { kept = (create_schedule_item-Sound ts id i m x).kept };
  register_file = λ ts id f m fresh x. record { kept = (register_file-Sound ts id f m x).kept };
  mark_file_deleted = λ ts id m x. record { kept = (mark_file_deleted-Sound ts id m x).kept };
  delete_branch = λ id m x. record { kept = (delete_branch-Sound id m x).kept };
  delete_teacher = λ clock id m x. record { kept = (delete_teacher-Sound clock id m x).kept };
}

-- From the empty store on, whatever methods are called in whatever order, the policy of every file
-- belongs to its category, a file whose bytes must be preserved has the same stored and original
-- size, and no two files share a storage key.
pub new_memory-AreSound : (m : Memory) → Reach new_memory m → AreSound m.files
unfolding lookup
new_memory-AreSound m r =
    Reach_keeps (λ schedules files. AreSound files) Sound-Writers r
      (record {
        sound = λ k a e. absurd (ground arith);
        placed = λ i j a b e. absurd (ground arith);
      })
