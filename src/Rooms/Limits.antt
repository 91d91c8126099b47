-- ===== src/Rooms/Limits.antt =====
-- The limit on a room's members (server/routes_rooms.py).
use claw_msg.Prelude.{
  ◌≡◌, refl, String, true, false, Option, none, some, List, [], ◌∷◌, inl, inr, Bool-cases, arith,
}
use claw_msg.Prelude.Int.{reaches}
use claw_msg.Schema.{
  RoomRow, owner, member, Tables, room_is, has_room, has_member, room_fits, member_refers, commit,
}
use claw_msg.Table.{find_first}
use claw_msg.Exec.{Env, World}
use claw_msg.Rooms.{
  RoomCreateRequest, room_row, member_row, add_room, member_count, create_room, join_found,
  join_room, insert_member, leave_room, member_fits,
}
use claw_msg.Rooms.Bounds.{
  IsBounded, HasRooms, Sound, member-Sound, room-Sound, drop-Sound, has-of-find, find_new,
}

-- A request that writes rooms or members.
pub data RoomCall : Type 0 where
  create : RoomCreateRequest → String → RoomCall
  join : String → String → RoomCall
  leave : String → String → RoomCall

unfoldable pub run_call : Env → RoomCall → World → World
run_call env (create req agent) w = (create_room env req agent w).1
run_call env (join room agent) w = (join_room env room agent w).1
run_call env (leave room agent) w = (leave_room room agent w).1

unfoldable pub run_calls : List (Env × RoomCall) → World → World
run_calls [] w = w
run_calls ((env, c) ∷ calls) w = run_calls calls (run_call env c w)

insert_member-Sound :
    (env : Env) (room agent : String) (r : RoomRow) (w : World)
    → find_first (room_is room) w.db.tables.rooms ≡ some r
    → reaches (member_count room w.db.tables) r.max_members ≡ false
    → Sound w.db.tables
    → Sound (insert_member env room agent w).1.db.tables
unfolding commit
insert_member-Sound env room agent r w f h s =
    let m = member_row env room agent member in
    elim (Bool-cases (has_member w.db.tables room agent)) [
      | inl e ↦ rw e s
      | inr e ↦ elim (Bool-cases (member_refers w.db.tables m)) [
        | inr q ↦ rw (e, q) s
        | inl q ↦
            rw (e, q) (member-Sound m r w.db.tables f (inr h) (has-of-find room w.db.tables f) s)
      ]
    ]

join_found-Sound :
    (env : Env) (room agent : String) (o : Option RoomRow) (w : World)
    → find_first (room_is room) w.db.tables.rooms ≡ o
    → Sound w.db.tables
    → Sound (join_found env room agent o w).1.db.tables
join_found-Sound env room agent none w f s = s
join_found-Sound env room agent (some r) w f s =
    elim (Bool-cases (reaches (member_count room w.db.tables) r.max_members)) [
      | inl e ↦ rw e s
      | inr e ↦ rw e (insert_member-Sound env room agent r w f e s)
    ]

new_room : (r : RoomRow) (t : Tables) → room_fits t r ≡ true → has_room t r.id ≡ false
unfolding room_fits
new_room r t h = ground arith

create_room-Sound :
    (env : Env) (req : RoomCreateRequest) (agent : String) (w : World)
    → Sound w.db.tables
    → Sound (create_room env req agent w).1.db.tables
unfolding create_room commit member_count
create_room-Sound env req agent w s =
    let r = room_row env req agent in
    let m = member_row env env.uuid agent owner in
    let t = add_room r w.db.tables in
    elim (Bool-cases (room_fits w.db.tables r)) [
      | inr e ↦ rw e s
      | inl e ↦
          let new : has_room w.db.tables env.uuid ≡ false = new_room r w.db.tables e in
          let (s', none_in) = room-Sound r w.db.tables new s in
          elim (Bool-cases (member_fits t m)) [
            | inr q ↦ rw (e, q) s'
            | inl q ↦
                rw (e, q)
                  (member-Sound m r t (find_new r w.db.tables new) (inl none_in)
                    (has-of-find env.uuid t (find_new r w.db.tables new)) s')
          ]
    ]

run_call-Sound :
    (env : Env) (c : RoomCall) (w : World) → Sound w.db.tables → Sound (run_call env c w).db.tables
unfolding run_call join_room leave_room commit
run_call-Sound env (create req agent) w s = create_room-Sound env req agent w s
run_call-Sound env (join room agent) w s =
    join_found-Sound env room agent (find_first (room_is room) w.db.tables.rooms) w refl s
run_call-Sound env (leave room agent) w s = drop-Sound room agent w.db.tables s

-- However rooms are created, joined and left, one request after another, no room gets more members
-- than its `max_members`, but for its founder, who is a member under any limit; and each member is
-- one of a room that is there.
pub run_calls-IsBounded :
    (calls : List (Env × RoomCall)) (w : World)
    → IsBounded w.db.tables
    → HasRooms w.db.tables
    → IsBounded (run_calls calls w).db.tables × HasRooms (run_calls calls w).db.tables
unfolding run_calls
run_calls-IsBounded [] w b h = (b, h)
run_calls-IsBounded ((env, c) ∷ calls) w b h =
    let (b', h') = run_call-Sound env c w (b, h) in
    run_calls-IsBounded calls (run_call env c w) b' h'
