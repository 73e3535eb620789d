-- ===== src/Store/Files.antt =====
-- The file records of memory.go.
use kingsway_academy.Base.{
  String, ◌==◌, ◌||◌, ◌&&◌, not, Bool, false, Option, none, some, if◌then◌else◌, List, ltb, take,
  length,
}
use kingsway_academy.Base.Int.{ℤ, pos, pos_part, eqb_ℤ, ltb_ℤ}
use kingsway_academy.Base.Text.{is_empty}
use kingsway_academy.Base.Sort.{sort_slice}
use kingsway_academy.Map.{lookup, contains, insert, any_value, values_where}
use kingsway_academy.Domain.{
  Time, FileObject, FilePolicy, ok, invalid_input, conflict, not_found, category_is_valid,
  policy_is_valid, policy_category, eq_category, infer_file_policy, must_preserve_original_bytes,
  retention_until, before, after,
}
use kingsway_academy.Store.State.{when◌fail◌from◌otherwise◌, Memory, Outcome, with_row}
use kingsway_academy.Store.Schedules.{is_set}

-- `file.Policy == ""`
abbrev pub is_unset_policy : FilePolicy → Bool
is_unset_policy (FilePolicy.other s) = is_empty s
is_unset_policy p = false

-- The policy that is registered: an unset one is inferred.
unfoldable pub effective_policy : FileObject → FilePolicy
effective_policy file =
    if is_unset_policy file.policy && category_is_valid file.category
    then infer_file_policy file.category file.purpose
    else file.policy

-- The first group of tests, on the file with its effective policy.
unfoldable pub bad_file : FileObject → FilePolicy → Bool
bad_file file policy =
    not (category_is_valid file.category)
    || not (policy_is_valid policy)
    || not (eq_category (policy_category policy) file.category)
    || is_empty file.original_filename
    || is_empty file.storage_bucket
    || is_empty file.storage_key

-- An unset retention is derived from the purpose.
unfoldable pub effective_retention : Time → FileObject → Option Time
effective_retention ts file = elim file.retention_until [
  | none ↦ retention_until file.purpose ts
  | some t ↦ some t
]

-- RegisterFile
unfoldable pub register_file : Time → String → FileObject → Memory → Outcome FileObject
unfolding bad_file
register_file ts id file m =
    let policy = effective_policy file in
    let row = record file {
      id = id;
      policy = policy;
      created_at = ts;
      retention_until = effective_retention ts file;
    } in
    when not (contains file.branch_id m.branches)
    fail not_found
    from m
    otherwise when bad_file file policy
    fail invalid_input
    from m
    otherwise when must_preserve_original_bytes file.category
        && not (eqb_ℤ file.stored_size_bytes file.original_size_bytes)
    fail invalid_input
    from m
    otherwise when any_value (λ existing. existing.storage_key == file.storage_key) m.files
    fail conflict
    from m
    otherwise (ok row, record m { files = insert id row m.files })

-- GetFile
unfoldable pub get_file : String → Memory → Outcome FileObject
get_file id m = with_row (lookup id m.files) m (λ file. (ok file, m))

-- ListFiles
unfoldable pub list_files : String → Memory → List FileObject
list_files branch_id m =
    sort_slice (λ f g. after f.created_at g.created_at)
      (values_where
        (λ f. not (is_set f.deleted_at) && (is_empty branch_id || f.branch_id == branch_id))
        m.files)

-- Is the file due for deletion at the time `ts`?
unfoldable pub is_expired : Time → FileObject → Bool
is_expired ts file = elim file.retention_until [
  | none ↦ false
  | some t ↦ not (is_set file.deleted_at) && not (after t ts)
]

-- `files[i].RetentionUntil.Before(*files[j].RetentionUntil)`, on files that have a retention
abbrev pub retention_less : FileObject → FileObject → Bool
retention_less f g = elim f.retention_until [
  | none ↦ false
  | some t ↦ elim g.retention_until [ none ↦ false | some u ↦ before t u ]
]

-- ListExpiredFiles
unfoldable pub list_expired_files : Time → ℤ → Memory → List FileObject
unfolding is_expired
list_expired_files ts limit m =
    let files = sort_slice retention_less (values_where (is_expired ts) m.files) in
    if ltb_ℤ (pos 0) limit && ltb (pos_part limit) (length files)
    then take (pos_part limit) files
    else files

-- MarkFileDeleted
unfoldable pub mark_file_deleted : Time → String → Memory → Outcome FileObject
mark_file_deleted deleted_at id m = with_row (lookup id m.files) m λ file.
    let row = record file { deleted_at = some deleted_at } in
    (ok row, record m { files = insert id row m.files })
