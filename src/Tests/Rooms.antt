-- ===== src/Tests/Rooms.antt =====
-- Rooms, from none on.
use claw_msg.Prelude.{[], ◌∷◌, none-ne-some}
use claw_msg.Prelude.Int.{pos}
use claw_msg.Table.{find_first}
use claw_msg.Exec.{World}
use claw_msg.Rooms.{RoomCreateRequest}
use claw_msg.Rooms.Bounds.{IsBounded, HasRooms}
use claw_msg.Rooms.Limits.{create, join, run_calls, run_calls-IsBounded}
use claw_msg.Tests.Sample.{env, world, tables}

abbrev request : RoomCreateRequest
request = record { name = "new"; description = ""; max_members = pos 2 }

-- The agents of the sample, without its room.
abbrev no_rooms : World
no_rooms = record world {
  db = record world.db { tables = record tables { rooms = []; room_members = [] } };
}

none-IsBounded : IsBounded no_rooms.db.tables
unfolding find_first
none-IsBounded k r h = absurd (none-ne-some h)

run_calls-IsBounded_example :
    IsBounded
      (run_calls
        ((env, create request "a1") ∷ (env, join "m1" "b1") ∷ (env, join "m1" "c1") ∷ [])
        no_rooms).db.tables
    × HasRooms
        (run_calls
          ((env, create request "a1") ∷ (env, join "m1" "b1") ∷ (env, join "m1" "c1") ∷ [])
          no_rooms).db.tables
run_calls-IsBounded_example =
    run_calls-IsBounded
      ((env, create request "a1") ∷ (env, join "m1" "b1") ∷ (env, join "m1" "c1") ∷ []) no_rooms
      none-IsBounded tt
