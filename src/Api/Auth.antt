-- ===== src/Api/Auth.antt =====
-- crates/scribe-api/src/auth.rs, with `AuthState` of state.rs. A header is the text that `to_str`
-- reads, if it is there; the request that passes goes on to its handler.
use scribe_local.Common.{
  ℕ, Bool, true, false, not, ◌&&◌, ◌||◌, List, [], ◌∷◌, Option, none, some, ◌==◌, if◌then◌else◌,
  any, length,
}
use scribe_local.Common.Text.{Text, codes, text_eq, trim, to_ascii_lowercase}

-- An address of IPv4 by its bytes, one of IPv6 by its segments.
pub data IpAddr : Type 0 where
  v4 : ℕ → ℕ → ℕ → ℕ → IpAddr
  v6 : List ℕ → IpAddr

abbrev is_one : List ℕ → Bool
is_one [] = false
is_one (s ∷ []) = s == 1
is_one (s ∷ t ∷ ss) = (s == 0) && is_one (t ∷ ss)

unfoldable pub is_loopback : IpAddr → Bool
is_loopback (v4 a b c d) = a == 127
is_loopback (v6 segments) = is_one segments

pub record AuthState : Type 0 where
  pub require_device_token : Bool
  pub keys : List (Text × Text)
  pub trust_tailscale_identity : Bool
  pub tailnet_users : List Text

pub record Request : Type 0 where
  pub authorization : Option Text
  pub tailscale_user_login : Option Text
  pub peer : Option IpAddr

abbrev pub is_empty {ℓ} : {A : Type ℓ} → List A → Bool
is_empty [] = true
is_empty (x ∷ xs) = false

abbrev pub eq_ignore_ascii_case : Text → Text → Bool
eq_ignore_ascii_case a b = text_eq (to_ascii_lowercase a) (to_ascii_lowercase b)

unfoldable pub tailnet_user_allowed : AuthState → Text → Bool
tailnet_user_allowed auth login =
    is_empty auth.tailnet_users || any (λ u. eq_ignore_ascii_case u login) auth.tailnet_users

-- `contains_key`
unfoldable pub is_valid : AuthState → Text → Bool
is_valid auth token = any (λ k. text_eq k.0 token) auth.keys

abbrev pub is_loopback_peer : Option IpAddr → Bool
is_loopback_peer none = false
is_loopback_peer (some ip) = is_loopback ip

abbrev pub login_from : AuthState → Option IpAddr → Option Text → Option Text
login_from auth peer none = none
login_from auth peer (some header) =
    let login = trim header in
    if is_empty login
    then none
    else if not (is_loopback_peer peer)
    then none
    else if not (tailnet_user_allowed auth login)
    then none
    else some login

unfoldable pub tailnet_login : AuthState → Request → Option Text
unfolding is_loopback tailnet_user_allowed
tailnet_login auth req =
    if not auth.trust_tailscale_identity
    then none
    else login_from auth req.peer req.tailscale_user_login

abbrev pub cons_first : ℕ → Option (Text × Text) → Option (Text × Text)
cons_first c none = none
cons_first c (some (a, b)) = some (c ∷ a, b)

-- `split_once(' ')`
unfoldable pub split_space : Text → Option (Text × Text)
split_space [] = none
split_space (c ∷ s) =
    let rest = split_space s in if c == b' ' then some ([], s) else cons_first c rest

abbrev pub token_of : Option (Text × Text) → Option Text
token_of none = none
token_of (some (scheme, token)) =
    let t = trim token in
    if eq_ignore_ascii_case scheme (codes "bearer")
    then (if is_empty t then none else some t)
    else none

abbrev pub bearer_of : Option Text → Option Text
bearer_of none = none
bearer_of (some value) = token_of (split_space value)

unfoldable pub bearer_token : Request → Option Text
unfolding split_space
bearer_token req = bearer_of req.authorization

-- What becomes of a request: it goes on to its handler, or is refused.
pub data Verdict : Type 0 where
  passed invalid_token missing_token not_found misconfigured : Verdict

abbrev pub by_token : (Text → Bool) → Option Text → Verdict
by_token valid none = missing_token
by_token valid (some t) = if valid t then passed else invalid_token

abbrev pub by_login : AuthState → Request → Option Text → Verdict
by_login auth req (some login) = passed
by_login auth req none = by_token (is_valid auth) (bearer_token req)

unfoldable pub require_auth : AuthState → Request → Verdict
unfolding tailnet_login bearer_token is_valid
require_auth auth req =
    if not auth.require_device_token then passed else by_login auth req (tailnet_login auth req)

-- `ct_eq`, which takes as long whatever the texts are.
abbrev pub ct_eq : Text → Text → Bool
ct_eq a b = (length a == length b) && text_eq a b

abbrev pub by_update_token : Request → Option Text → Verdict
by_update_token req none = misconfigured
by_update_token req (some []) = misconfigured
by_update_token req (some (c ∷ expected)) =
    by_token (λ t. ct_eq t (c ∷ expected)) (bearer_token req)

unfoldable pub require_update_auth : Bool → Option Text → Request → Verdict
unfolding bearer_token
require_update_auth enabled token req = if not enabled then not_found else by_update_token req token
