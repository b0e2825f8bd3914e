-- ===== src/Fencing.antt =====
-- code/hld/fencing_lock.py: leases with fencing tokens, and the store that checks the tokens.
pub mod Tokens
use hld_lld_interview_handbo.Prelude.{
  ℕ, ◌+◌, ◌==◌, ltb, String, Option, none, some, Bool, true, false, not, ◌&&◌, ◌||◌, if◌then◌else◌,
}
use hld_lld_interview_handbo.Prelude.Int.{ℤ, pos, ◌+ℤ◌, ◌-ℤ◌, leb_ℤ, ltb_ℤ}
use hld_lld_interview_handbo.Dict.{Dict, string_key, empty, get, put, remove}
use hld_lld_interview_handbo.Common.Error.{Result, ok, err, validation, fencing}
use hld_lld_interview_handbo.Common.Action.{Action}
use hld_lld_interview_handbo.Common.Clock.{FakeClock}
use hld_lld_interview_handbo.Common.Text.{is_empty}

pub record Lease : Type 0 where
  pub resource : String
  pub owner : String
  pub token : ℕ
  pub expires_at : ℤ

abbrev remaining : ℤ → Lease → ℤ
remaining now l = l.expires_at -ℤ now

pub record LeaseLockService : Type 0 where
  pub clock : FakeClock
  pub ttl : ℤ
  pub leases : Dict String Lease
  pub next_token : ℕ

unfoldable pub new_service : FakeClock → ℤ → Result LeaseLockService
new_service clock ttl =
    if leb_ℤ ttl (pos 0)
    then err validation
    else ok (record { clock = clock; ttl = ttl; leases = empty; next_token = 0 })

-- `current is not None and current.expires_at > now`
abbrev pub is_held : ℤ → Option Lease → Bool
is_held now none = false
is_held now (some l) = ltb_ℤ now l.expires_at

-- The lease that a grant stores, with the next token.
abbrev pub granted : String → String → LeaseLockService → Lease
granted resource owner s = record {
  resource = resource;
  owner = owner;
  token = s.next_token + 1;
  expires_at = s.clock.now +ℤ s.ttl;
}

unfoldable pub acquire : String → String → Action LeaseLockService (Option Lease)
acquire resource owner s =
    if is_empty resource || is_empty owner
    then (err validation, s)
    else if is_held s.clock.now (get s.leases resource)
    then (ok none, s)
    else (
      ok (some (granted resource owner s)),
      record s {
        leases = put s.leases resource (granted resource owner s);
        next_token = s.next_token + 1;
      },
    )

-- The stored lease is the caller's own.
abbrev pub is_current : Lease → Option Lease → Bool
is_current lease none = false
is_current lease (some l) = l.token == lease.token

abbrev pub renewed : Lease → LeaseLockService → Lease
renewed lease s = record lease { expires_at = s.clock.now +ℤ s.ttl }

unfoldable pub renew : Lease → Action LeaseLockService (Option Lease)
renew lease s =
    let current = get s.leases lease.resource in
    if is_current lease current && is_held s.clock.now current
    then (
      ok (some (renewed lease s)),
      record s { leases = put s.leases lease.resource (renewed lease s) },
    )
    else (ok none, s)

unfoldable pub release : Lease → Action LeaseLockService Bool
release lease s =
    if is_current lease (get s.leases lease.resource)
    then (ok true, record s { leases = remove s.leases lease.resource })
    else (ok false, s)

unfoldable pub holder : String → LeaseLockService → Option Lease
holder resource s =
    let current = get s.leases resource in if is_held s.clock.now current then current else none

pub record FencedStore : Type 0 where
  pub check_tokens : Bool
  pub values : Dict String (ℕ × String)
  pub rejected : ℕ

abbrev pub new_store : Bool → FencedStore
new_store check_tokens = record { check_tokens = check_tokens; values = empty; rejected = 0 }

-- `current is not None and token < current[0]`
abbrev pub is_older : ℕ → Option (ℕ × String) → Bool
is_older token none = false
is_older token (some (seen, _)) = ltb token seen

unfoldable pub write : String → String → ℕ → Action FencedStore Unit
write key value token s =
    if s.check_tokens && is_older token (get s.values key)
    then (err fencing, record s { rejected = s.rejected + 1 })
    else (ok tt, record s { values = put s.values key (token, value) })

unfoldable pub read : String → FencedStore → Option String
read key s = elim (get s.values key) [ none ↦ none | some (_, value) ↦ some value ]

unfoldable pub token_of : String → FencedStore → Option ℕ
token_of key s = elim (get s.values key) [ none ↦ none | some (token, _) ↦ some token ]
