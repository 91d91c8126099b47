-- ===== src/Broker/Registry.antt =====
-- The registry of sockets under `register` and `unregister` (src/claw_msg/server/broker.py).
use claw_msg.Prelude.{
  ◌≡◌, refl, ap, ◌≢◌, String, Bool, true, false, not, some, List, [], ◌∷◌, ◌++◌, arith, ◌==◌,
  eq_iff, if◌then◌else◌, is_empty, nat_eq, nat_eq_iff, filter, All, Option-cases, inl, inr, eq_refl,
  Bool-cases, ◌∙◌,
}
use claw_msg.Prelude.Dict.{get, get-put, get-remove}
use claw_msg.Exec.{Socket, Connections}
use claw_msg.Broker.{
  sockets_of, register, remove_first, put_or_delete, unregister, unregister_each, is_online,
}

append_one-ne-nil : (xs : List Socket) (s : Socket) → xs ++ s ∷ [] ≢ []
append_one-ne-nil [] s = ground arith
append_one-ne-nil (x ∷ xs) s = ground arith

-- `put_or_delete` writes the sockets of one agent.
pub sockets_of-put_or_delete :
    (c : Connections) (k j : String) (ws : List Socket)
    → sockets_of (put_or_delete c k ws) j ≡ (if k == j then ws else sockets_of c j)
unfolding put_or_delete
sockets_of-put_or_delete c k j [] = rw get-remove (ground arith)
sockets_of-put_or_delete c k j (s ∷ ws) = rw get-put (ground arith)

pub sockets_of-register :
    (c : Connections) (k j : String) (s : Socket)
    → sockets_of (register c k s) j ≡ (if k == j then sockets_of c k ++ s ∷ [] else sockets_of c j)
unfolding register
sockets_of-register c k j s = rw get-put (ground arith)

pub sockets_of-unregister :
    (c : Connections) (k j : String) (s : Socket)
    → sockets_of (unregister c k s) j
      ≡ (if k == j then remove_first s (sockets_of c k) else sockets_of c j)
unfolding unregister remove_first
sockets_of-unregister c k j s = elim (Option-cases (get c k)) [
  | inl e ↦ ground (arith, eq_iff k j)
  | inr (ws, e) ↦ ground (arith, sockets_of-put_or_delete c k j (remove_first s ws))
]

-- No agent has an entry without sockets.
abbrev pub IsTidy : Connections → Type 0
IsTidy c = (k : String) → get c k ≢ some []

pub put_or_delete-IsTidy :
    (c : Connections) (k : String) (ws : List Socket) → IsTidy c → IsTidy (put_or_delete c k ws)
unfolding put_or_delete
put_or_delete-IsTidy c k [] t j = rw get-remove (ground (arith, t j))
put_or_delete-IsTidy c k (s ∷ ws) t j = rw get-put (ground (arith, t j))

pub register-IsTidy :
    (c : Connections) (k : String) (s : Socket) → IsTidy c → IsTidy (register c k s)
unfolding register
register-IsTidy c k s t j = rw get-put (ground (arith, t j, append_one-ne-nil (sockets_of c k) s))

pub unregister-IsTidy :
    (c : Connections) (k : String) (s : Socket) → IsTidy c → IsTidy (unregister c k s)
unfolding unregister
unregister-IsTidy c k s t = elim (Option-cases (get c k)) [
  | inl e ↦ rw (e, unregister) t
  | inr (ws, e) ↦ rw (e, unregister) (put_or_delete-IsTidy c k (remove_first s ws) t)
]

pub unregister_each-IsTidy :
    (k : String) (ss : List Socket) (c : Connections) → IsTidy c → IsTidy (unregister_each k ss c)
unfolding unregister_each
unregister_each-IsTidy k [] c t = t
unregister_each-IsTidy k (s ∷ ss) c t =
    unregister_each-IsTidy k ss (unregister c k s) (unregister-IsTidy c k s t)

-- The sockets of an agent, all of whose dead ones are taken out in turn.
unfoldable pub remove_each : List Socket → List Socket → List Socket
remove_each [] ws = ws
remove_each (s ∷ ss) ws = remove_each ss (remove_first s ws)

pub sockets_of-unregister_each :
    (k j : String) (ss : List Socket) (c : Connections)
    → sockets_of (unregister_each k ss c) j
      ≡ (if k == j then remove_each ss (sockets_of c k) else sockets_of c j)
unfolding unregister_each remove_each
sockets_of-unregister_each k j [] c = ground (arith, eq_iff k j)
sockets_of-unregister_each k j (s ∷ ss) c = ground (
  arith,
  eq_iff k j,
  sockets_of-unregister_each k j ss (unregister c k s),
  sockets_of-unregister c k k s,
  sockets_of-unregister c k j s,
  eq_refl k,
)

abbrev pub is_dead : (Socket → Bool) → Socket → Bool
is_dead alive s = not (alive s)

remove_each_alive :
    (alive : Socket → Bool) (s : Socket) (ss ws : List Socket)
    → alive s ≡ true
    → All (λ d. alive d ≡ false) ss
    → remove_each ss (s ∷ ws) ≡ s ∷ remove_each ss ws
unfolding remove_each remove_first
remove_each_alive alive s [] ws h d = refl
remove_each_alive alive s (d ∷ ss) ws h dead =
    let differ : nat_eq s d ≡ false = ground (arith, nat_eq_iff s d) in
    rw differ (remove_each_alive alive s ss (remove_first d ws) h dead.1)

filter_dead :
    (alive : Socket → Bool) (ws : List Socket)
    → All (λ d. alive d ≡ false) (filter (is_dead alive) ws)
unfolding filter
filter_dead alive [] = tt
filter_dead alive (s ∷ ws) = ground (arith, filter_dead alive ws)

-- With the dead taken out the live remain, in their order.
pub remove_each-filter :
    (alive : Socket → Bool) (ws : List Socket)
    → remove_each (filter (is_dead alive) ws) ws ≡ filter alive ws
unfolding filter remove_each remove_first
remove_each-filter alive [] = refl
remove_each-filter alive (s ∷ ws) = elim (Bool-cases (alive s)) [
  | inl e ↦ rw e (
      remove_each_alive alive s _ ws e (filter_dead alive ws)
      ∙ ap (◌∷◌ s) (remove_each-filter alive ws))
  | inr e ↦ ground (arith, remove_each-filter alive ws)
]

-- In a tidy registry an agent is online exactly when it has a socket.
pub is_online-eq : (c : Connections) (k : String) → is_online c k ≡ not (is_empty (sockets_of c k))
unfolding is_online
is_online-eq c k = ground arith
