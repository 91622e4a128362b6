-- ===== src/Realtime/Audience.antt =====
-- Who receives a message that the relay passes on.
use onion_architecture.Base.{
  ◌≡◌, refl, ◌↔◌, ◌⊎◌, inl, inr, sym, subst, suc, ◌∷◌, [], Bool, true, false, Option, none, some,
  List, ◌==◌,
}
use onion_architecture.Base.Rows.{All}
use onion_architecture.Base.Rows.Sweep.{All-mono}
use onion_architecture.Domain.{Text}
use onion_architecture.Auth.{admin}
use onion_architecture.Auth.Tokens.{Claims}
use onion_architecture.Realtime.{
  Room, branch_room, user_room, admin_room, Target, to_branch, to_user, to_admin, unknown, rooms_of,
  Envelope, Relay, emit_to, emit_envelope, relay_message, Socket,
}
use onion_architecture.Realtime.Hub.{In, IsHonest, Reach, Reach-IsHonest}

-- Which sockets a broadcast to some rooms reaches, as socket.io documents it: those that are in one
-- of them.
abbrev pub IsUnion : (List Room → List Room → Bool) → Type 0
IsUnion delivers =
    (rooms joined : List Room)
    → (delivers rooms joined ≡ true) ↔ ((r : Room) × In r rooms × In r joined)

-- The sockets that a target is meant for.
abbrev pub Audience : Target → Socket → Type 0
Audience (to_user u) s = (s.user.sub ≡ some u) ⊎ (s.user.role ≡ some admin)
Audience (to_branch b) s = In (branch_room b) s.rooms ⊎ (s.user.role ≡ some admin)
Audience to_admin s = s.user.role ≡ some admin
Audience unknown s = ⊥

module _ (delivers : List Room → List Room → Bool) (union : IsUnion delivers) where
  module _ (jwt_verify : Text → Option Claims) (s : Socket) (h : IsHonest jwt_verify s) where
    pick :
        (r q : Room)
        → In q (r ∷ admin_room ∷ [])
        → In q s.rooms
        → In r s.rooms ⊎ (s.user.role ≡ some admin)
    pick r q (inl e) k = inl (subst (λ x. In x s.rooms) e k)
    pick r q (inr (inl e)) k = inr (h.admins (subst (λ x. In x s.rooms) e k))
    pick r q (inr (inr z)) k = absurd z

    room_or_admin :
        (r : Room)
        → (delivers (r ∷ admin_room ∷ []) s.rooms ≡ true)
          ↔ (In r s.rooms ⊎ (s.user.role ≡ some admin))
    room_or_admin r = (
      (λ d. let (q, i, k) = (union (r ∷ admin_room ∷ []) s.rooms).0 d in pick r q i k),
      (λ d. elim d [
        | inl k ↦ (union (r ∷ admin_room ∷ []) s.rooms).1 (r, inl refl, k)
        | inr e ↦ (union (r ∷ admin_room ∷ []) s.rooms).1 (admin_room, inr (inl refl), h.is_in e)
      ]),
    )

    pick_admin : (q : Room) → In q (admin_room ∷ []) → In q s.rooms → s.user.role ≡ some admin
    pick_admin q (inl e) k = h.admins (subst (λ x. In x s.rooms) e k)
    pick_admin q (inr z) k = absurd z

    only_admin : (delivers (admin_room ∷ []) s.rooms ≡ true) ↔ (s.user.role ≡ some admin)
    only_admin = (
      (λ d. let (q, i, k) = (union (admin_room ∷ []) s.rooms).0 d in pick_admin q i k),
      (λ e. (union (admin_room ∷ []) s.rooms).1 (admin_room, inl refl, h.is_in e)),
    )

    own_room : (u : Text) → In (user_room (some u)) s.rooms ↔ (s.user.sub ≡ some u)
    own_room u =
        ((λ k. sym (h.only (some u) k)), (λ e. subst (λ x. In (user_room x) s.rooms) e h.own))

  -- The message reaches just the sockets that its target is meant for.
  abbrev pub Hits : List Socket → Target → List Room → Type 0
  Hits ss t rooms = All (λ s. (delivers rooms s.rooms ≡ true) ↔ Audience t s) ss

  abbrev pub PassedOn :
      {P : Type 0}
      → List Socket
      → Envelope P
      → Target
      → Option (List Room)
      → Relay P
      → Relay P
      → Type 0
  PassedOn ss e t none r r' = r' ≡ record r { dropped = suc r.dropped }
  PassedOn ss e t (some rooms) r r' =
      (r' ≡ record r {
        emitted = record { rooms = rooms; event = e.event; payload = e.payload } ∷ r.emitted;
      })
      × Hits ss t rooms

  module _ (jwt_verify : Text → Option Claims) where
    hit :
        (t : Target) (rooms : List Room)
        → rooms_of t ≡ some rooms
        → (s : Socket) → IsHonest jwt_verify s
        → (delivers rooms s.rooms ≡ true) ↔ Audience t s
    hit (to_branch b) rooms e s h =
        let r : branch_room b ∷ admin_room ∷ [] ≡ rooms = cc in
        subst (λ x. (delivers x s.rooms ≡ true) ↔ Audience (to_branch b) s) r
          (room_or_admin jwt_verify s h (branch_room b))
    hit (to_user u) rooms e s h =
        let r : user_room (some u) ∷ admin_room ∷ [] ≡ rooms = cc in
        let (f, g) = room_or_admin jwt_verify s h (user_room (some u)) in
        let (k, l) = own_room jwt_verify s h u in
        subst (λ x. (delivers x s.rooms ≡ true) ↔ Audience (to_user u) s) r
          (
            (λ d. elim (f d) [ inl i ↦ inl (k i) | inr i ↦ inr i ]),
            (λ d. elim d [ inl i ↦ g (inl (l i)) | inr i ↦ g (inr i) ]),
          )
    hit to_admin rooms e s h =
        let r : admin_room ∷ [] ≡ rooms = cc in
        subst (λ x. (delivers x s.rooms ≡ true) ↔ Audience to_admin s) r (only_admin jwt_verify s h)
    hit unknown rooms e s h = absurd (cc)

    emitted :
        {P : Type 0} (ss : List Socket)
        → All (IsHonest jwt_verify) ss
        → (e : Envelope P) (t : Target) (o : Option (List Room)) (r : Relay P) → rooms_of t ≡ o
        → PassedOn ss e t o r (emit_to e o r)
    emitted ss h e t none r q = refl
    emitted ss h e t (some rooms) r q = (refl, All-mono _ _ (hit t rooms q) ss h)

    -- A message with an event and a known target reaches just the sockets that are meant by it;
    -- one with an unknown target is counted as dropped.
    pub relay_message-PassedOn :
        {P : Type 0} {ss : List Socket}
        → Reach jwt_verify ss
        → (e : Envelope P) (t : Target) (r : Relay P) → (e.event == 0) ≡ false
        → e.target ≡ some t
        → PassedOn ss e t (rooms_of t) r (relay_message (some e) r)
    unfolding relay_message emit_envelope
    relay_message-PassedOn {ss = ss} reach e t r named target =
        rw (target, named) (emitted ss (Reach-IsHonest jwt_verify reach) e t (rooms_of t) r refl)
