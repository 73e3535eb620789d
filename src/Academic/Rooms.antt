-- ===== src/Academic/Rooms.antt =====
-- academic/room_service.go.
use kingsway_academy.Base.{String, ◌&&◌, if◌then◌else◌, List, ℕ, false}
use kingsway_academy.Base.Text.{trim_space, is_empty}
use kingsway_academy.Domain.{
  Time, Principal, Room, PageRequest, Result, ok, invalid_input, is_owner, ◌>>=◌, ◌>>◌,
}
use kingsway_academy.Store.State.{when◌fail◌from◌otherwise◌, Memory, Outcome, if_passed, with_value}
use kingsway_academy.Store.Rooms
use kingsway_academy.Store.Rooms.{at_least_one}
use kingsway_academy.Store.Pages
use kingsway_academy.Auth.Service.{require_any_role, require_branch}
use kingsway_academy.Academic.Inputs.{CreateRoomInput, UpdateRoomInput}
use kingsway_academy.Academic.Steps.{own_branch, office}

-- The room that CreateRoom asks the store for.
abbrev pub asked_room : String → CreateRoomInput → Room
asked_room branch_id input = record {
  id = "";
  branch_id = branch_id;
  name = trim_space input.name;
  capacity = input.capacity;
  is_active = false;
  created_at = 0;
  updated_at = 0;
}

-- CreateRoom
unfoldable pub create_room : Time → String → Principal → CreateRoomInput → Memory → Outcome Room
create_room ts id actor input m =
    let branch_id = own_branch actor input.branch_id in
    if_passed (require_any_role actor office >> require_branch actor branch_id) m
      (Rooms.create_room ts id (asked_room branch_id input) m)

-- UpdateRoom
unfoldable pub update_room : Time → Principal → UpdateRoomInput → Memory → Outcome Room
update_room ts actor input m = if_passed (require_any_role actor office) m (
    with_value (Rooms.get_room (trim_space input.id) m).0 m λ room.
      if_passed (require_branch actor room.branch_id) m (
        when is_empty (trim_space input.name)
        fail invalid_input
        from m
        otherwise Rooms.update_room ts
            (record room { name = trim_space input.name; capacity = at_least_one input.capacity })
            m))

-- RemoveRoom
unfoldable pub remove_room : Time → Principal → String → Memory → Outcome Room
remove_room ts actor id m = if_passed (require_any_role actor office) m (
    with_value (Rooms.get_room (trim_space id) m).0 m λ room.
      if_passed (require_branch actor room.branch_id) m (Rooms.deactivate_room ts room.id m))

-- GetRoom
unfoldable pub get_room : Principal → String → Memory → Result Room
get_room actor id m =
    (Rooms.get_room (trim_space id) m).0 >>= λ room. require_branch actor room.branch_id >> ok room

-- ListRooms
unfoldable pub list_rooms : Principal → String → Memory → Result (List Room)
list_rooms actor given m =
    let branch_id = own_branch actor given in
    if is_owner actor && is_empty branch_id
    then ok (Rooms.list_rooms "" m)
    else require_branch actor branch_id >> ok (Rooms.list_rooms branch_id m)

-- ListRoomsPage
unfoldable pub list_rooms_page : Principal → String → PageRequest → Memory → Result (List Room × ℕ)
list_rooms_page actor given page m =
    let branch_id = trim_space (own_branch actor given) in
    if is_owner actor && is_empty branch_id
    then ok (Pages.list_rooms_page "" page m)
    else require_branch actor branch_id >> ok (Pages.list_rooms_page branch_id page m)
