-- ===== src/Realtime/Hub.antt =====
-- Who may be in which room, in every state that clients can bring about.
use onion_architecture.Base.{
  ◌≡◌, refl, ◌⊎◌, inl, inr, Bool, true, not, Option, none, some, List, [], ◌∷◌, subst, truthy,
  Bool-cases, if◌then◌else◌, ◌==◌,
}
use onion_architecture.Base.Rows.{All, modify, select}
use onion_architecture.Base.Rows.Sweep.{All-select}
use onion_architecture.Domain.{Text}
use onion_architecture.Auth.{Role, admin, user}
use onion_architecture.Auth.Tokens.{Claims, TokenUser}
use onion_architecture.Realtime.{
  Room, branch_room, user_room, admin_room, Socket, socket_id, is_admin, Client, connect,
  join_branch, leave_branch, disconnect, first_rooms, join, leave, verify_socket_token, admit,
  admit_token, on_branch, on_client,
}

abbrev pub In : Room → List Room → Type 0
In r [] = ⊥
In r (x ∷ xs) = (r ≡ x) ⊎ In r xs

In-select : (p : Room → Bool) (r : Room) (rs : List Room) → In r (select p rs) → In r rs
unfolding select
In-select p r [] h = h
In-select p r (x ∷ xs) h = elim (Bool-cases (p x)) [
  | inl e ↦ elim (rw e at h) [ inl q ↦ inl q | inr q ↦ inr (In-select p r xs q) ]
  | inr e ↦ inr (In-select p r xs (rw e at h))
]

select-In :
    (p : Room → Bool) (r : Room) (rs : List Room) → p r ≡ true → In r rs → In r (select p rs)
unfolding select
select-In p r [] e h = h
select-In p r (x ∷ xs) e (inl q) = rw (subst (λ y. p y ≡ true) q e) (inl q)
select-In p r (x ∷ xs) e (inr m) = elim (Bool-cases (p x)) [
  | inl f ↦ rw f (inr (select-In p r xs e m))
  | inr f ↦ rw f (select-In p r xs e m)
]

admin-In :
    (o : Option Role) (v : Option Text)
    → In admin_room (user_room v ∷ (if is_admin o then admin_room ∷ [] else []))
    → o ≡ some admin
admin-In o v (inl q) = absurd (cc)
admin-In none v (inr h) = absurd h
admin-In (some admin) v (inr h) = refl
admin-In (some user) v (inr h) = absurd h

user-In :
    (o : Option Role) (u v : Option Text)
    → In (user_room u) (user_room v ∷ (if is_admin o then admin_room ∷ [] else []))
    → u ≡ v
user-In o u v (inl q) = cc
user-In none u v (inr h) = absurd h
user-In (some admin) u v (inr (inl h)) = absurd (cc)
user-In (some admin) u v (inr (inr h)) = absurd h
user-In (some user) u v (inr h) = absurd h

pub is_admin_sound : (r : Option Role) → is_admin r ≡ true → r ≡ some admin
is_admin_sound none h = cc
is_admin_sound (some user) h = cc
is_admin_sound (some admin) h = refl

module _ (jwt_verify : Text → Option Claims) where
  -- A socket has the user of a token that verified, is in the room of that user and of no other,
  -- and is in the room of the admins exactly if the user is one.
  pub record IsHonest (s : Socket) : Type 0 where
    pub token : Text
    pub verified : verify_socket_token jwt_verify token ≡ some s.user
    pub own : In (user_room s.user.sub) s.rooms
    pub only : (u : Option Text) → In (user_room u) s.rooms → u ≡ s.user.sub
    pub admins : In admin_room s.rooms → s.user.role ≡ some admin
    pub is_in : s.user.role ≡ some admin → In admin_room s.rooms

  pub data Reach : List Socket → Type 0 where
    start : Reach []
    next : {ss : List Socket} → Reach ss → (c : Client) → Reach (on_client jwt_verify c ss)

  admit-IsHonest :
      (id t : Text) (u : TokenUser)
      → verify_socket_token jwt_verify t ≡ some u
      → IsHonest (record { id = id; user = u; rooms = first_rooms u })
  admit-IsHonest id t u v = record {
    token = t;
    verified = v;
    own = inl refl;
    only = λ w m. user-In u.role w u.sub m;
    admins = λ m. admin-In u.role u.sub m;
    is_in = λ e. inr (rw e (inl refl));
  }

  join-IsHonest : (b : Text) (s : Socket) → IsHonest s → IsHonest (join (branch_room b) s)
  join-IsHonest b s h = record {
    token = h.token;
    verified = h.verified;
    own = inr h.own;
    only = λ u m. elim m [ inl q ↦ absurd (cc) | inr q ↦ h.only u q ];
    admins = λ m. elim m [ inl q ↦ absurd (cc) | inr q ↦ h.admins q ];
    is_in = λ m. inr (h.is_in m);
  }

  leave-IsHonest : (b : Text) (s : Socket) → IsHonest s → IsHonest (leave b s)
  leave-IsHonest b s h = record {
    token = h.token;
    verified = h.verified;
    own = select-In _ (user_room s.user.sub) s.rooms refl h.own;
    only = λ u m. h.only u (In-select _ _ s.rooms m);
    admins = λ m. h.admins (In-select _ _ s.rooms m);
    is_in = λ m. select-In _ admin_room s.rooms refl (h.is_in m);
  }

  modify-All :
      (id : Text) (f : Socket → Socket)
      → ((s : Socket) → IsHonest s → IsHonest (f s))
      → (ss : List Socket) → All IsHonest ss
      → All IsHonest (modify socket_id id f ss)
  unfolding modify
  modify-All id f k [] h = tt
  modify-All id f k (s ∷ ss) h = elim (Bool-cases (s.id == id)) [
    | inl e ↦ rw e (k s h.0, modify-All id f k ss h.1)
    | inr e ↦ rw e (h.0, modify-All id f k ss h.1)
  ]

  on_branch-All :
      (f : Text → Socket → Socket)
      → ((b : Text) (s : Socket) → IsHonest s → IsHonest (f b s))
      → (id : Text) (b : Option Text) (ss : List Socket) → All IsHonest ss
      → All IsHonest (on_branch jwt_verify f id b ss)
  on_branch-All f k id none ss h = h
  on_branch-All f k id (some b) ss h = modify-All id (f b) (k b) ss h

  admit-All :
      (id t : Text) (o : Option TokenUser) (ss : List Socket)
      → verify_socket_token jwt_verify t ≡ o
      → All IsHonest ss
      → All IsHonest (admit jwt_verify id o ss)
  admit-All id t none ss v h = h
  admit-All id t (some u) ss v h = (admit-IsHonest id t u v, h)

  admit_token-All :
      (id : Text) (o : Option Text) (ss : List Socket)
      → All IsHonest ss
      → All IsHonest (admit_token jwt_verify id o ss)
  admit_token-All id none ss h = h
  admit_token-All id (some t) ss h = admit-All id t _ ss refl h

  on_client-All :
      (c : Client) (ss : List Socket) → All IsHonest ss → All IsHonest (on_client jwt_verify c ss)
  unfolding on_client
  on_client-All (connect id token) ss h = admit_token-All id (truthy token) ss h
  on_client-All (join_branch id b) ss h =
      on_branch-All (λ b. join (branch_room b)) join-IsHonest id (truthy b) ss h
  on_client-All (leave_branch id b) ss h = on_branch-All leave leave-IsHonest id (truthy b) ss h
  on_client-All (disconnect id) ss h = All-select IsHonest (λ s. not (s.id == id)) ss h

  -- Whatever clients do, every socket has the user of a token that verified, and is in the rooms
  -- of users and admins that are this user's.
  pub Reach-IsHonest : {ss : List Socket} → Reach ss → All IsHonest ss
  Reach-IsHonest start = tt
  Reach-IsHonest (next r c) = on_client-All c _ (Reach-IsHonest r)
