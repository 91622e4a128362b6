-- ===== src/Auth/Social/Outcome.antt =====
-- Whom a login with Google or Facebook lets in.
use onion_architecture.Base.{
  ◌≡◌, refl, ◌⊎◌, inl, inr, none, some, [], ◌∷◌, ◌++◌, suc, Bool-cases, Option-cases,
}
use onion_architecture.Base.Rows.{find}
use onion_architecture.Domain.{Text}
use onion_architecture.World.Action.{Result, ok, err}
use onion_architecture.Auth.{UserRow, user, AuthWorld, AuthEnv}
use onion_architecture.Auth.Users as Users
use onion_architecture.Auth.Users.{user_email, new_user}
use onion_architecture.Auth.Login.{LoginResult, issue_session}
use onion_architecture.Auth.Social.{SocialEnv, or_create, login_with_google, login_with_facebook}
use onion_architecture.Auth.Social.Replies.{GoogleSays, FacebookSays, google-cases, facebook-cases}

-- The row of a user who came with no account.
abbrev pub newcomer : AuthEnv → SocialEnv → Text → Text → AuthWorld → UserRow
newcomer clock env email name w = new_user clock w.next_id (record {
  email = email;
  password_hash = clock.hash_password env.random_uuid;
  full_name = name;
  role = user;
})

-- The session, or the challenge, is that of the user of an address, who is there or is new.
abbrev pub SignsIn :
    AuthEnv → SocialEnv → Text → Text → AuthWorld → LoginResult → AuthWorld → Type 0
SignsIn clock env email name w r w' =
    (u : UserRow) × (r ≡ issue_session clock u)
    × (((find user_email email w.users ≡ some u) × (w' ≡ w))
        ⊎ ((find user_email email w.users ≡ none)
            × (u ≡ newcomer clock env email name w)
            × (w' ≡ record w { users = w.users ++ u ∷ []; next_id = suc w.next_id })))

or_create-cases :
    (clock : AuthEnv) (env : SocialEnv) (email name : Text) (w : AuthWorld)
    → (u : UserRow) × (w' : AuthWorld) × (or_create clock env email name
          (find user_email email w.users)
          w
        ≡ (ok u, w'))
      × SignsIn clock env email name w (issue_session clock u) w'
unfolding Users.create
or_create-cases clock env email name w = elim (Option-cases (find user_email email w.users)) [
  | inl n ↦ (
    newcomer clock env email name w,
    record w { users = w.users ++ newcomer clock env email name w ∷ []; next_id = suc w.next_id },
    rw n (rw n refl),
    (newcomer clock env email name w, refl, inr (n, refl, refl)),
  )
  | inr (u, f) ↦ (u, w, rw f refl, (u, refl, inl (f, refl)))
]

module _ (clock : AuthEnv) (env : SocialEnv) (token : Text) where
  abbrev pub SocialLogin :
      (Text → Text → Type 0) → AuthWorld → Result LoginResult × AuthWorld → Type 0
  SocialLogin Says w (ok r, w') =
      (email : Text) × (name : Text) × Says email name × SignsIn clock env email name w r w'
  SocialLogin Says w (err e, w') = w' ≡ w

  -- If a login with Google returns, Google's token gives an address that it says is verified,
  -- and the session, or the challenge, is that of the user of this address, who was there, and
  -- nothing is changed, or whose row is the only change; if it throws, nothing is changed.
  pub login_with_google-SocialLogin :
      (w : AuthWorld)
      → SocialLogin (GoogleSays clock env token) w (login_with_google clock env token w)
  unfolding login_with_google Users.find_by_email
  login_with_google-SocialLogin w = elim (google-cases clock env token w) [
    | inl (e, f) ↦ rw f refl
    | inr (i, f, says) ↦ elim (Bool-cases i.email_verified) [
      | inr v ↦ rw (f, v) refl
      | inl v ↦
          let (u, w', g, s) = or_create-cases clock env i.email i.full_name w in
          rw (f, v, g) (i.email, i.full_name, says v, s)
    ]
  ]

  -- If a login with Facebook returns, Facebook says that the token is valid, of this application
  -- and not expired, and gives an address, and the session, or the challenge, is that of the
  -- user of this address, who was there, and nothing is changed, or whose row is the only
  -- change; if it throws, nothing is changed.
  pub login_with_facebook-SocialLogin :
      (w : AuthWorld)
      → SocialLogin (FacebookSays clock env token) w (login_with_facebook clock env token w)
  unfolding login_with_facebook Users.find_by_email
  login_with_facebook-SocialLogin w = elim (facebook-cases clock env token w) [
    | inl (e, f) ↦ rw f refl
    | inr (i, f, says) ↦
        let (u, w', g, s) = or_create-cases clock env i.email i.full_name w in
        rw (f, g) (i.email, i.full_name, says, s)
  ]
