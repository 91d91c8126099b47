-- ===== src/Rooms/Bounds.antt =====
-- What a new room, a new member and a lost one do to the limits (server/routes_rooms.py).
use claw_msg.Prelude.{
  ℕ, suc, ◌≤◌, ◌≡◌, refl, sym, ap, ◌∙◌, String, Bool, true, false, not, some, List, [], ◌∷◌, ◌==◌,
  ◌⊎◌, any, any-append, All, All-append, All-mono, eq_refl, eq_iff, inl, inr, if◌then◌else◌,
  Bool-cases, Option-cases, arith, filter, some-injective, none-ne-some,
}
use mathlib.Core.Path.{subst}
use mathlib.Core.Bool.{false≢true}
use claw_msg.Prelude.Int.{ℤ, pos, negsuc, reaches}
use claw_msg.Schema.{RoomRow, MemberRow, Tables, room_is, member_is, has_room}
use claw_msg.Table.{find_first, count_where, delete_where}
use claw_msg.Table.Laws.{
  find_first-append, any-find_first, count_where-append, count_where-delete_le,
}
use claw_msg.Messages.{in_room}
use claw_msg.Rooms.{add_room, add_member, drop_member, member_count}

-- A count of at most the limit.
abbrev pub Within : ℕ → ℤ → Type 0
Within n (pos m) = n ≤ m
Within n (negsuc m) = ⊥

-- No room has more members than its limit, but for the one member that founds it.
abbrev pub IsBounded : Tables → Type 0
IsBounded t =
    (k : String) (r : RoomRow)
    → find_first (room_is k) t.rooms ≡ some r
    → (member_count k t ≤ 1) ⊎ Within (member_count k t) r.max_members

-- Each member is one of a room that is there.
abbrev pub HasRooms : Tables → Type 0
HasRooms t = All (λ m. has_room t m.room_id ≡ true) t.room_members

abbrev pub Sound : Tables → Type 0
Sound t = IsBounded t × HasRooms t

below_limit : (n : ℕ) (z : ℤ) → reaches n z ≡ false → Within (suc n) z
unfolding reaches
below_limit n (pos m) h = ground arith
below_limit n (negsuc m) h = ground arith

count_added :
    (k : String) (m : MemberRow) (t : Tables)
    → member_count k (add_member m t)
      ≡ (if m.room_id == k then suc (member_count k t) else member_count k t)
unfolding member_count count_where
count_added k m t = ground (arith, count_where-append (in_room k) t.room_members (m ∷ []))

at_limit : (n : ℕ) (z : ℤ) → (n ≡ 0) ⊎ (reaches n z ≡ false) → (suc n ≤ 1) ⊎ Within (suc n) z
at_limit n z (inl e) = inl (omega arith)
at_limit n z (inr h) = inr (below_limit n z h)

shrinks : (n m : ℕ) (z : ℤ) → n ≤ m → (m ≤ 1) ⊎ Within m z → (n ≤ 1) ⊎ Within n z
shrinks n m z h (inl e) = inl (omega arith)
shrinks n m (pos k) h (inr e) = inr (omega arith)
shrinks n m (negsuc k) h (inr e) = absurd e

no_members :
    (t : Tables) (k : String) (ms : List MemberRow)
    → has_room t k ≡ false
    → All (λ m. has_room t m.room_id ≡ true) ms
    → count_where (in_room k) ms ≡ 0
unfolding count_where
no_members t k [] h a = refl
no_members t k (m ∷ ms) h a = elim (Bool-cases (m.room_id == k)) [
  | inl e ↦ absurd (false≢true (sym h ∙ ap (has_room t) (sym ((eq_iff m.room_id k).0 e)) ∙ a.0))
  | inr e ↦ rw e (no_members t k ms h a.1)
]

All-kept :
    (P : MemberRow → Type 0) (p : MemberRow → Bool) (ms : List MemberRow)
    → All P ms
    → All P (filter p ms)
unfolding filter
All-kept P p [] a = tt
All-kept P p (m ∷ ms) a = elim (Bool-cases (p m)) [
  | inl e ↦ rw e (a.0, All-kept P p ms a.1)
  | inr e ↦ rw e (All-kept P p ms a.1)
]

pub member-Sound :
    (m : MemberRow) (r : RoomRow) (t : Tables)
    → find_first (room_is m.room_id) t.rooms ≡ some r
    → (member_count m.room_id t ≡ 0) ⊎ (reaches (member_count m.room_id t) r.max_members ≡ false)
    → has_room t m.room_id ≡ true
    → Sound t
    → Sound (add_member m t)
unfolding has_room
member-Sound m r t f room h (b, s) = (
  λ k r' g. elim (Bool-cases (m.room_id == k)) [
    | inr e ↦ rw (count_added k m t, e) (b k r' g)
    | inl e ↦
        rw (count_added k m t, e)
          (subst
            (λ (j : String).
              (r'' : RoomRow)
              → find_first (room_is j) t.rooms ≡ some r''
              → (suc (member_count j t) ≤ 1) ⊎ Within (suc (member_count j t)) r''.max_members)
            ((eq_iff m.room_id k).0 e)
            (λ r'' f'.
              subst
                (λ (q : RoomRow).
                  (suc (member_count m.room_id t) ≤ 1)
                  ⊎ Within (suc (member_count m.room_id t)) q.max_members)
                (some-injective (sym f ∙ f'))
                (at_limit (member_count m.room_id t) r.max_members room))
            r' g)
  ],
  All-append (λ x. any (room_is x.room_id) t.rooms ≡ true) t.room_members (m ∷ []) s (h, tt),
)

pub room-Sound :
    (r : RoomRow) (t : Tables)
    → has_room t r.id ≡ false
    → Sound t
    → Sound (add_room r t) × (member_count r.id t ≡ 0)
unfolding has_room find_first member_count any
room-Sound r t h (b, s) =
    let none_in : member_count r.id t ≡ 0 = no_members t r.id t.room_members h s in
    (
      (
        λ k r' g.
            let g' = sym (find_first-append (room_is k) t.rooms (r ∷ [])) ∙ g in
            elim (Option-cases (find_first (room_is k) t.rooms)) [
              | inr (r0, e) ↦ b k r' (e ∙ (rw e at g'))
              | inl e ↦ elim (Bool-cases (r.id == k)) [
                | inl q ↦ inl (
                    subst (λ (j : String). member_count j t ≤ 1) ((eq_iff r.id k).0 q)
                      (omega (arith, none_in)))
                | inr q ↦ absurd (none-ne-some (rw (e, q) at g'))
              ]
            ],
        All-mono (λ m. has_room t m.room_id ≡ true) (λ m. has_room (add_room r t) m.room_id ≡ true)
            t.room_members (λ m q. any-append (room_is m.room_id) t.rooms (r ∷ []) ∙ ground arith)
            s,
      ),
      none_in,
    )

pub drop-Sound : (room agent : String) (t : Tables) → Sound t → Sound (drop_member room agent t)
unfolding member_count delete_where has_room
drop-Sound room agent t (b, s) = (
  λ k r g.
      shrinks _ _ r.max_members
        (count_where-delete_le (in_room k) (member_is room agent) t.room_members) (b k r g),
  All-kept (λ m. has_room t m.room_id ≡ true) (λ m. not (member_is room agent m)) t.room_members s,
)

pub has-of-find :
    (k : String) (t : Tables) {r : RoomRow}
    → find_first (room_is k) t.rooms ≡ some r
    → has_room t k ≡ true
unfolding has_room
has-of-find k t f = any-find_first (room_is k) t.rooms ∙ rw f refl

pub find_new :
    (r : RoomRow) (t : Tables)
    → has_room t r.id ≡ false
    → find_first (room_is r.id) (add_room r t).rooms ≡ some r
unfolding has_room find_first
find_new r t h =
    find_first-append (room_is r.id) t.rooms (r ∷ [])
    ∙ elim (Option-cases (find_first (room_is r.id) t.rooms)) [
      | inl e ↦ rw (e, eq_refl r.id) refl
      | inr (r0, e) ↦
          absurd (false≢true (sym h ∙ any-find_first (room_is r.id) t.rooms ∙ rw e refl))
    ]
