-- ===== src/Store/Rooms.antt =====
-- The rooms of memory.go.
use kingsway_academy.Base.{String, ◌==◌, ◌||◌, ◌&&◌, not, Bool, true, false, if◌then◌else◌, List}
use kingsway_academy.Base.Int.{ℤ, pos, leb_ℤ}
use kingsway_academy.Base.Text.{trim_space, is_empty, equal_fold, text_lt}
use kingsway_academy.Base.Sort.{sort_slice}
use kingsway_academy.Map.{lookup, contains, insert, any_value, values_where}
use kingsway_academy.Domain.{Time, Room, ok, invalid_input, conflict, not_found}
use kingsway_academy.Store.State.{when◌fail◌from◌otherwise◌, Memory, Outcome, with_row}

-- A capacity below one becomes one.
abbrev pub at_least_one : ℤ → ℤ
at_least_one capacity = if leb_ℤ capacity (pos 0) then pos 1 else capacity

-- The test of the loop in CreateRoom.
abbrev pub same_room : Room → Room → Bool
same_room room existing = existing.branch_id == room.branch_id && equal_fold existing.name room.name

-- CreateRoom
unfoldable pub create_room : Time → String → Room → Memory → Outcome Room
create_room ts id room m =
    let row = record room {
      id = id;
      capacity = at_least_one room.capacity;
      is_active = true;
      created_at = ts;
      updated_at = ts;
    } in
    when not (contains room.branch_id m.branches)
    fail not_found
    from m
    otherwise when is_empty room.name
    fail invalid_input
    from m
    otherwise when any_value (same_room room) m.rooms
    fail conflict
    from m
    otherwise (ok row, record m { rooms = insert id row m.rooms })

-- The test of the loop in UpdateRoom.
abbrev pub same_active_room : Room → Room → Room → Bool
same_active_room room current existing =
    not (existing.id == room.id)
    && existing.is_active
    && existing.branch_id == current.branch_id
    && equal_fold existing.name room.name

-- UpdateRoom
unfoldable pub update_room : Time → Room → Memory → Outcome Room
update_room ts room m = with_row (lookup room.id m.rooms) m λ current.
    let row = record current {
      name = trim_space room.name;
      capacity = at_least_one room.capacity;
      updated_at = ts;
    } in
    when not current.is_active
    fail not_found
    from m
    otherwise when is_empty (trim_space room.name)
    fail invalid_input
    from m
    otherwise when any_value (same_active_room room current) m.rooms
    fail conflict
    from m
    otherwise (ok row, record m { rooms = insert current.id row m.rooms })

-- ListRooms
unfoldable pub list_rooms : String → Memory → List Room
list_rooms branch_id m =
    sort_slice (λ r s. text_lt r.name s.name)
      (values_where (λ r. r.is_active && (is_empty branch_id || r.branch_id == branch_id)) m.rooms)

-- GetRoom
unfoldable pub get_room : String → Memory → Outcome Room
get_room id m = with_row (lookup id m.rooms) m (λ room. (ok room, m))

-- DeactivateRoom
unfoldable pub deactivate_room : Time → String → Memory → Outcome Room
deactivate_room ts id m = with_row (lookup id m.rooms) m λ room.
    let row = record room { is_active = false; updated_at = ts } in
    (ok row, record m { rooms = insert id row m.rooms })
