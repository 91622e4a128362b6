-- ===== src/Tests/Realtime.antt =====
-- A socket of user 7 in the room of branch 1.
use onion_architecture.Base.{
  ◌≡◌, refl, ap, subst, ◌↔◌, inl, inr, Bool, true, false, ◌||◌, Option, none, some, List, [], ◌∷◌,
  arith, ◌==◌, ==_iff, Bool-cases,
}
use onion_architecture.Domain.{Text, ocupada}
use onion_architecture.World.Events.{slot_status_changed}
use onion_architecture.Auth.{user}
use onion_architecture.Auth.Tokens.{Claims, access}
use onion_architecture.Realtime.{
  Room, branch_room, user_room, admin_room, Socket, Relay, connect, join_branch, on_client,
}
use onion_architecture.Realtime.Hub.{In, Reach, start, next}
use onion_architecture.Realtime.Audience.{IsUnion}
use onion_architecture.Realtime.Publisher.{Payload, envelope_of}
use onion_architecture.Realtime.Publisher.Told.{meant_for, relayed, Tells, envelope_of-Tells}
use onion_architecture.Tests.Data.{inside_world}

abbrev same_user : Option Text → Option Text → Bool
same_user none none = true
same_user (some a) (some b) = a == b
same_user _ _ = false

abbrev same_room : Room → Room → Bool
same_room (branch_room a) (branch_room b) = a == b
same_room (user_room a) (user_room b) = same_user a b
same_room admin_room admin_room = true
same_room _ _ = false

same_user_sound : (a b : Option Text) → same_user a b ≡ true → a ≡ b
same_user_sound none none h = refl
same_user_sound none (some b) h = cc
same_user_sound (some a) none h = cc
same_user_sound (some a) (some b) h = ap some ((==_iff a b).0 h)

same_user_refl : (a : Option Text) → same_user a a ≡ true
same_user_refl none = refl
same_user_refl (some a) = (==_iff a a).1 refl

same_room_sound : (a b : Room) → same_room a b ≡ true → a ≡ b
same_room_sound (branch_room a) (branch_room b) h = ap branch_room ((==_iff a b).0 h)
same_room_sound (branch_room a) (user_room b) h = cc
same_room_sound (branch_room a) admin_room h = cc
same_room_sound (user_room a) (branch_room b) h = cc
same_room_sound (user_room a) (user_room b) h = ap user_room (same_user_sound a b h)
same_room_sound (user_room a) admin_room h = cc
same_room_sound admin_room (branch_room b) h = cc
same_room_sound admin_room (user_room b) h = cc
same_room_sound admin_room admin_room h = refl

same_room_refl : (a : Room) → same_room a a ≡ true
same_room_refl (branch_room a) = (==_iff a a).1 refl
same_room_refl (user_room a) = same_user_refl a
same_room_refl admin_room = refl

abbrev has : Room → List Room → Bool
has r [] = false
has r (x ∷ xs) = same_room r x || has r xs

has_iff : (r : Room) (rs : List Room) → (has r rs ≡ true) ↔ In r rs
has_iff r [] = ((λ h. absurd (cc)), (λ h. absurd h))
has_iff r (x ∷ xs) = (
  (λ h. elim (Bool-cases (same_room r x)) [
    | inl e ↦ inl (same_room_sound r x e)
    | inr e ↦ inr ((has_iff r xs).0 (rw e at h))
  ]),
  (λ h. elim h [
    | inl e ↦ ground (arith, subst (λ y. same_room r y ≡ true) e (same_room_refl r))
    | inr k ↦ ground (arith, (has_iff r xs).1 k)
  ]),
)

-- Delivery to a socket that is in one of the rooms.
abbrev delivers : List Room → List Room → Bool
delivers [] joined = false
delivers (r ∷ rs) joined = has r joined || delivers rs joined

delivers_iff :
    (rs joined : List Room) → (delivers rs joined ≡ true) ↔ ((r : Room) × In r rs × In r joined)
delivers_iff [] joined = ((λ h. absurd (cc)), (λ h. absurd h.1))
delivers_iff (x ∷ rs) joined = (
  (λ h. elim (Bool-cases (has x joined)) [
    | inl e ↦ (x, inl refl, (has_iff x joined).0 e)
    | inr e ↦ let (r, i, j) = (delivers_iff rs joined).0 (rw e at h) in (r, inr i, j)
  ]),
  (λ h.
      let (r, i, j) = h in
      elim i [
        | inl e ↦ ground (arith, (has_iff x joined).1 (subst (λ y. In y joined) e j))
        | inr k ↦ ground (arith, (delivers_iff rs joined).1 (r, k, j))
      ]),
)

union : IsUnion delivers
union = delivers_iff

-- Token 9 is one of user 7.
abbrev jwt_verify : Text → Option Claims
jwt_verify t =
    some (record {
      sub = some 7;
      email = some 70;
      role = some user;
      purpose = some access;
      exp = 1000;
    })

abbrev sockets : List Socket
sockets =
    on_client jwt_verify (join_branch 3 (some 1)) (on_client jwt_verify (connect 3 (some 9)) [])

reached : Reach jwt_verify sockets
reached = next (next start (connect 3 (some 9))) (join_branch 3 (some 1))

abbrev relay : Relay Payload
relay = record { emitted = []; dropped = 0 }

envelope_of-Tells_example :
    Tells delivers union jwt_verify {ss = sockets} reached
      (envelope_of inside_world (slot_status_changed 1 11 ocupada))
      (meant_for (slot_status_changed 1 11 ocupada))
      relay
      (relayed (envelope_of inside_world (slot_status_changed 1 11 ocupada)) relay)
envelope_of-Tells_example =
    envelope_of-Tells delivers union jwt_verify {ss = sockets} reached inside_world
      (slot_status_changed 1 11 ocupada) relay
