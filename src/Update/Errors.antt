-- ===== src/Update/Errors.antt =====
-- `UpdateError` of crates/scribe-update/src/lib.rs, without its messages, and `into_core`.
use scribe_local.Common.{◌≡◌, refl, Option, none, some}

pub data UpdateError : Type 0 where
  disabled misconfigured invalid_package bad_signature checksum_mismatch : UpdateError
  downgrade target_mismatch sanity_check migration no_backup io other : UpdateError

-- The variants of `scribe_core::Error` that `into_core` makes.
pub data CoreError : Type 0 where
  not_found config bad_request internal : CoreError

unfoldable pub into_core : UpdateError → CoreError
into_core disabled = not_found
into_core misconfigured = config
into_core bad_signature = bad_request
into_core invalid_package = bad_request
into_core checksum_mismatch = bad_request
into_core downgrade = bad_request
into_core target_mismatch = bad_request
into_core no_backup = not_found
into_core sanity_check = internal
into_core migration = internal
into_core io = internal
into_core other = internal

pub data Result {ℓ} (A : Type ℓ) : Type ℓ where
  ok : A → Result A
  err : UpdateError → Result A

infixl 5 ◌>>=◌
abbrev pub ◌>>=◌ {ℓ κ} : {A : Type ℓ} {B : Type κ} → Result A → (A → Result B) → Result B
ok value >>= next = next value
err reason >>= next = err reason

abbrev pub ok_or {ℓ} : {A : Type ℓ} → Option A → UpdateError → Result A
ok_or none e = err e
ok_or (some a) e = ok a

infixl 5 ◌>>◌
abbrev pub ◌>>◌ {ℓ} : {A : Type ℓ} → Result (Unit {0}) → Result A → Result A
first >> second = first >>= λ u. second

-- What a chain that succeeds has passed through.
pub >>=-ok {ℓ κ} :
    {B : Type κ} {A : Type ℓ} (first : Result A) (next : A → Result B) {out : B}
    → (first >>= next) ≡ ok out
    → (value : A) × (first ≡ ok value) × (next value ≡ ok out)
>>=-ok (ok value) next h = (value, refl, h)
>>=-ok (err reason) next h = cc

pub ok_or-ok {ℓ} :
    {A : Type ℓ} (o : Option A) (e : UpdateError) {a : A} → ok_or o e ≡ ok a → o ≡ some a
ok_or-ok none e h = cc
ok_or-ok (some b) e h = cc
