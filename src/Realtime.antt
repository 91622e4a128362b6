-- ===== src/Realtime.antt =====
-- realtime-service: the sockets with their rooms (realtime-service/src/index.ts, auth.ts), and the
-- relay that passes the messages of the exchange on to rooms (realtime-service/src/relay.ts).
pub mod Hub
pub mod Audience
pub mod Publisher
use onion_architecture.Base.{
  ℕ, suc, ◌≡◌, ◌↔◌, ◌⊎◌, Bool, true, false, not, ◌&&◌, Option, none, some, List, [], ◌∷◌, ◌==◌,
  truthy, if◌then◌else◌,
}
use onion_architecture.Base.Rows.{modify, select}
use onion_architecture.Domain.{Text}
use onion_architecture.Auth.{Role, admin}
use onion_architecture.Auth.Tokens.{Claims, TokenUser, access_user}

-- A room: its name has a prefix for the kind, and `user:` is followed by what `sub` is.
pub data Room : Type 0 where
  branch_room : Text → Room
  user_room : Option Text → Room
  admin_room : Room

-- `RealtimeTarget`; unknown: a `type` that is none of the three
pub data Target : Type 0 where
  to_branch to_user : Text → Target
  to_admin unknown : Target

-- `RealtimeEventEnvelope`
pub record Envelope (P : Type 0) : Type 0 where
  pub event : Text
  pub target : Option Target
  pub payload : P

-- What socket.io is asked to send, and to which rooms.
pub record Broadcast (P : Type 0) : Type 0 where
  pub rooms : List Room
  pub event : Text
  pub payload : P

pub record Relay (P : Type 0) : Type 0 where
  pub emitted : List (Broadcast P)
  pub dropped : ℕ

-- The rooms of a target, where it is known.
abbrev pub rooms_of : Target → Option (List Room)
rooms_of (to_branch b) = some (branch_room b ∷ admin_room ∷ [])
rooms_of (to_user u) = some (user_room (some u) ∷ admin_room ∷ [])
rooms_of to_admin = some (admin_room ∷ [])
rooms_of unknown = none

module _ {P : Type 0} where
  abbrev pub drop_event : Relay P → Relay P
  drop_event r = record r { dropped = suc r.dropped }

  abbrev pub emit_to : Envelope P → Option (List Room) → Relay P → Relay P
  emit_to e none r = drop_event r
  emit_to e (some rooms) r = record r {
    emitted = record { rooms = rooms; event = e.event; payload = e.payload } ∷ r.emitted;
  }

  -- `emitEnvelope`
  unfoldable pub emit_envelope : Envelope P → Target → Relay P → Relay P
  emit_envelope e target r = emit_to e (rooms_of target) r

  -- `!envelope?.event || !envelope.target`
  abbrev pub emit_checked : Envelope P → Option Target → Relay P → Relay P
  emit_checked e none r = drop_event r
  emit_checked e (some t) r = if e.event == 0 then drop_event r else emit_envelope e t r

  -- `handle` of the relay; none: a message that is no JSON, or null
  unfoldable pub relay_message : Option (Envelope P) → Relay P → Relay P
  unfolding emit_envelope
  relay_message none r = drop_event r
  relay_message (some e) r = emit_checked e e.target r

-- A socket that is connected, with the user of its token and the rooms that it joined.
pub record Socket : Type 0 where
  pub id : Text
  pub user : TokenUser
  pub rooms : List Room

abbrev pub socket_id : Socket → Text
socket_id s = s.id

abbrev pub is_admin : Option Role → Bool
is_admin (some admin) = true
is_admin _ = false

-- What a client does.
pub data Client : Type 0 where
  connect : (id : Text) (token : Option Text) → Client
  join_branch leave_branch : (id : Text) (branch_id : Option Text) → Client
  disconnect : (id : Text) → Client

abbrev pub first_rooms : TokenUser → List Room
first_rooms u = user_room u.sub ∷ (if is_admin u.role then admin_room ∷ [] else [])

abbrev pub is_branch : Text → Room → Bool
is_branch b (branch_room c) = b == c
is_branch b _ = false

abbrev pub join : Room → Socket → Socket
join r s = record s { rooms = r ∷ s.rooms }

abbrev pub leave : Text → Socket → Socket
leave b s = record s { rooms = select (λ r. not (is_branch b r)) s.rooms }

module _ (jwt_verify : Text → Option Claims) where
  -- `createTokenVerifier`, with the library's check of the signature as a parameter
  unfoldable pub verify_socket_token : Text → Option TokenUser
  verify_socket_token t = access_user (jwt_verify t)

  abbrev pub admit : Text → Option TokenUser → List Socket → List Socket
  admit id none sockets = sockets
  admit id (some u) sockets = record { id = id; user = u; rooms = first_rooms u } ∷ sockets

  -- The middleware, and then the handler of the connection.
  abbrev pub admit_token : Text → Option Text → List Socket → List Socket
  admit_token id none sockets = sockets
  admit_token id (some t) sockets = admit id (verify_socket_token t) sockets

  abbrev pub on_branch : (Text → Socket → Socket) → Text → Option Text → List Socket → List Socket
  on_branch f id none sockets = sockets
  on_branch f id (some b) sockets = modify socket_id id (f b) sockets

  unfoldable pub on_client : Client → List Socket → List Socket
  unfolding verify_socket_token
  on_client (connect id token) sockets = admit_token id (truthy token) sockets
  on_client (join_branch id b) sockets = on_branch (λ b. join (branch_room b)) id (truthy b) sockets
  on_client (leave_branch id b) sockets = on_branch leave id (truthy b) sockets
  on_client (disconnect id) sockets = select (λ s. not (s.id == id)) sockets
