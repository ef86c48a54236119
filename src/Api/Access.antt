-- ===== src/Api/Access.antt =====
-- Which requests are let in.
use scribe_local.Common.{
  ◌≡◌, ◌≢◌, refl, ap, ◌∙◌, subst, ◌↔◌, ◌⊎◌, inl, inr, true, false, [], ◌∷◌, ◌++◌, Option, none,
  some, ◌==◌, All, Bool-cases, ==_iff, arith,
}
use scribe_local.Common.Text.{Text, codes, text_eq_sound, trim, to_ascii_lowercase}
use scribe_local.Api.Auth.{
  AuthState, Request, passed, IpAddr, is_loopback, tailnet_user_allowed, is_valid, login_from,
  tailnet_login, split_space, cons_first, token_of, bearer_of, bearer_token, by_token, by_login,
  require_auth, is_empty, eq_ignore_ascii_case, is_loopback_peer,
}

-- The header is `Bearer`, in any case, a space, and the token with white space around it.
abbrev pub IsBearer : Option Text → Text → Type 0
IsBearer header t =
    (scheme : Text) × (rest : Text) × (header ≡ some (scheme ++ b' ' ∷ rest))
    × All (λ c. c ≢ b' ') scheme
    × (to_ascii_lowercase scheme ≡ codes "bearer")
    × (trim rest ≡ t)
    × (t ≢ [])

split_space-some :
    (s a b : Text) → split_space s ≡ some (a, b) → (s ≡ a ++ b' ' ∷ b) × All (λ c. c ≢ b' ') a
unfolding split_space
split_space-some [] a b h = absurd (cc)
split_space-some (c ∷ s) a b h = elim (Bool-cases (c == b' ')) [
  | inl space ↦
      let first : a ≡ [] = cc (rw space at h) in
      let rest : s ≡ b = cc (rw space at h) in
      let same : c ≡ b' ' = (==_iff c b' ').0 space in rw (first, same, rest) (refl, tt)
  | inr other ↦ go (split_space s) (split_space-some s) (λ e. absurd (ground arith)) (rw other at h)
]
  where
    go :
        (o : Option (Text × Text))
        → ((a b : Text) → o ≡ some (a, b) → (s ≡ a ++ b' ' ∷ b) × All (λ c. c ≢ b' ') a)
        → c ≢ b' '
        → cons_first c o ≡ some (a, b)
        → ((c ∷ s) ≡ a ++ b' ' ∷ b) × All (λ c. c ≢ b' ') a
    go none f ne e = absurd (cc)
    go (some (a', b')) f ne e =
        let k = f a' b' refl in
        let head : a ≡ c ∷ a' = cc in
        let rest : b ≡ b' = cc in rw (head, rest) (ap (λ (t : Text). c ∷ t) k.0, (ne, k.1))

split_space-join : (a b : Text) → All (λ c. c ≢ b' ') a → split_space (a ++ b' ' ∷ b) ≡ some (a, b)
unfolding split_space
split_space-join [] b h = refl
split_space-join (c ∷ a) b (h, hs) = ground (arith, split_space-join a b hs)

non_empty_lem : (t : Text) → is_empty t ≡ false → t ≢ []
non_empty_lem [] h = absurd (cc)
non_empty_lem (c ∷ t) h = λ e. cc

is_empty_lem : (t : Text) → t ≢ [] → is_empty t ≡ false
is_empty_lem [] h = absurd (h refl)
is_empty_lem (c ∷ t) h = refl

lower_bearer : to_ascii_lowercase (codes "bearer") ≡ codes "bearer"
unfolding to_ascii_lowercase
lower_bearer = refl

bearer_of-IsBearer :
    (header : Option Text) (t : Text) → bearer_of header ≡ some t → IsBearer header t
bearer_of-IsBearer none t h = absurd (cc)
bearer_of-IsBearer (some value) t h = go (split_space value) refl h
  where
    go :
        (o : Option (Text × Text))
        → split_space value ≡ o
        → token_of o ≡ some t
        → IsBearer (some value) t
    go none e k = absurd (cc)
    go (some (scheme, rest)) e k =
        let parts = split_space-some value scheme rest e in
        elim (Bool-cases (eq_ignore_ascii_case scheme (codes "bearer"))) [
          | inr other ↦ absurd (cc (rw other at k))
          | inl bearer ↦ elim (Bool-cases (is_empty (trim rest))) [
            | inl blank ↦ absurd (cc (rw (bearer, blank) at k))
            | inr token ↦
                let same : trim rest ≡ t = cc (rw (bearer, token) at k) in
                (
                  scheme,
                  rest,
                  ap (λ (v : Text). some v) parts.0,
                  parts.1,
                  text_eq_sound _ _ bearer ∙ lower_bearer,
                  same,
                  subst (λ (v : Text). v ≢ []) same (non_empty_lem (trim rest) token),
                )
          ]
        ]

IsBearer-bearer_of :
    (header : Option Text) (t : Text) → IsBearer header t → bearer_of header ≡ some t
IsBearer-bearer_of header t (scheme, rest, at, no_space, bearer, same, full) =
    let is_bearer : eq_ignore_ascii_case scheme (codes "bearer") ≡ true =
      rw (bearer, lower_bearer) refl in
    rw (at, split_space-join scheme rest no_space)
      (rw (is_bearer, same) (rw (is_empty_lem t full) refl))

-- The tailnet vouches for the request, and the server accepts its word and its user.
abbrev pub IsTailnetUser : AuthState → Request → Type 0
IsTailnetUser auth req =
    (auth.trust_tailscale_identity ≡ true)
    × ((header : Text) × (req.tailscale_user_login ≡ some header)
        × (trim header ≢ [])
        × (tailnet_user_allowed auth (trim header) ≡ true))
    × ((ip : IpAddr) × (req.peer ≡ some ip) × (is_loopback ip ≡ true))

loopback_peer :
    (peer : Option IpAddr)
    → is_loopback_peer peer ≡ true
    → (ip : IpAddr) × (peer ≡ some ip) × (is_loopback ip ≡ true)
loopback_peer none h = absurd (cc)
loopback_peer (some ip) h = (ip, refl, h)

login_from-some :
    (auth : AuthState) (peer : Option IpAddr) (header : Option Text) {login : Text}
    → login_from auth peer header ≡ some login
    → ((h : Text) × (header ≡ some h) × (trim h ≢ []) × (tailnet_user_allowed auth (trim h) ≡ true))
      × ((ip : IpAddr) × (peer ≡ some ip) × (is_loopback ip ≡ true))
login_from-some auth peer none k = absurd (cc)
login_from-some auth peer (some h) k =
    let full : is_empty (trim h) ≡ false = ground arith in
    let near : is_loopback_peer peer ≡ true = ground arith in
    let allowed : tailnet_user_allowed auth (trim h) ≡ true = ground arith in
    ((h, refl, non_empty_lem (trim h) full, allowed), loopback_peer peer near)

IsTailnetUser-login :
    (auth : AuthState) (req : Request)
    → IsTailnetUser auth req
    → (login : Text) × (tailnet_login auth req ≡ some login)
unfolding tailnet_login
IsTailnetUser-login auth req (trust, (h, at, full, allowed), (ip, from, near)) =
    (trim h, rw (trust, at, from) (rw (is_empty_lem (trim h) full, near, allowed) refl))

login-IsTailnetUser :
    (auth : AuthState) (req : Request) {login : Text}
    → tailnet_login auth req ≡ some login
    → IsTailnetUser auth req
unfolding tailnet_login
login-IsTailnetUser auth req h = elim (Bool-cases auth.trust_tailscale_identity) [
  | inl trust ↦
      let k = login_from-some auth req.peer req.tailscale_user_login (rw trust at h) in
      (trust, k.0, k.1)
  | inr wary ↦ absurd (cc (rw wary at h))
]

-- A request is let in exactly if no token is required, or the tailnet vouches for it from this
-- machine and its user is allowed, or it bears a token that is one of the device keys.
pub require_auth-passed :
    (auth : AuthState) (req : Request)
    → (require_auth auth req ≡ passed) ↔ (
        (auth.require_device_token ≡ false)
        ⊎ (IsTailnetUser auth req
            ⊎ ((t : Text) × IsBearer req.authorization t × (is_valid auth t ≡ true))))
unfolding require_auth bearer_token
require_auth-passed auth req = (there, back)
  where
    by_token_passed :
        (o : Option Text)
        → by_token (is_valid auth) o ≡ passed
        → (t : Text) × (o ≡ some t) × (is_valid auth t ≡ true)
    by_token_passed none h = absurd (cc)
    by_token_passed (some t) h = (t, refl, ground arith)

    by_login_passed :
        (o : Option Text)
        → tailnet_login auth req ≡ o
        → by_login auth req o ≡ passed
        → IsTailnetUser auth req
          ⊎ ((t : Text) × IsBearer req.authorization t × (is_valid auth t ≡ true))
    by_login_passed (some login) e h = inl (login-IsTailnetUser auth req e)
    by_login_passed none e h =
        let (t, at, valid) = by_token_passed (bearer_token req) h in
        inr (t, bearer_of-IsBearer req.authorization t at, valid)

    there :
        require_auth auth req ≡ passed
        → (auth.require_device_token ≡ false)
          ⊎ (IsTailnetUser auth req
              ⊎ ((t : Text) × IsBearer req.authorization t × (is_valid auth t ≡ true)))
    there h = elim (Bool-cases auth.require_device_token) [
      | inr open_door ↦ inl open_door
      | inl required ↦ inr (by_login_passed (tailnet_login auth req) refl (rw required at h))
    ]

    with_token :
        (o : Option Text) (t : Text)
        → IsBearer req.authorization t
        → is_valid auth t ≡ true
        → by_login auth req o ≡ passed
    with_token (some login) t b v = refl
    with_token none t b v = rw (IsBearer-bearer_of req.authorization t b) (rw v refl)

    back :
        (auth.require_device_token ≡ false)
          ⊎ (IsTailnetUser auth req
              ⊎ ((t : Text) × IsBearer req.authorization t × (is_valid auth t ≡ true)))
        → require_auth auth req ≡ passed
    back (inl open_door) = rw open_door refl
    back (inr (inl user)) = elim (Bool-cases auth.require_device_token) [
      | inr open_door ↦ rw open_door refl
      | inl required ↦ rw (required, (IsTailnetUser-login auth req user).1) refl
    ]
    back (inr (inr (t, b, v))) = elim (Bool-cases auth.require_device_token) [
      | inr open_door ↦ rw open_door refl
      | inl required ↦ rw required (with_token (tailnet_login auth req) t b v)
    ]
