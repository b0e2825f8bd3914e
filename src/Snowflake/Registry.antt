-- ===== src/Snowflake/Registry.antt =====
-- `MachineIdRegistry` of code/hld/snowflake.py. A lease is stored under its machine identifier, which
-- the record does not repeat.
use hld_lld_interview_handbo.Prelude.{
  ℕ, zero, suc, ◌+◌, String, string_dec, Option, none, some, List, [], ◌∷◌, Bool, true, false, ite,
  if◌then◌else◌, is_none,
}
use hld_lld_interview_handbo.Prelude.Int.{ℤ, pos, ◌+ℤ◌, leb_ℤ}
use hld_lld_interview_handbo.Dict.{Dict, nat_key, empty, get, put, remove}
use hld_lld_interview_handbo.Common.Error.{Result, ok, err, validation, conflict, invalid_state}
use hld_lld_interview_handbo.Common.Action.{Action}
use hld_lld_interview_handbo.Common.Clock.{FakeClock}

pub record MachineLease : Type 0 where
  pub owner : String
  pub expires_at : ℤ

pub record MachineIdRegistry : Type 0 where
  pub capacity : ℕ
  pub lease_seconds : ℤ
  pub clock : FakeClock
  pub leases : Dict ℕ MachineLease

unfoldable pub new_registry : ℤ → ℤ → FakeClock → Result MachineIdRegistry
new_registry (pos (suc n)) (pos (suc t)) clock =
    ok (record { capacity = suc n; lease_seconds = pos (suc t); clock = clock; leases = empty })
new_registry _ _ clock = err validation

-- `_expire`
unfoldable pub expired_ids : ℤ → Dict ℕ MachineLease → List ℕ
expired_ids now [] = []
expired_ids now ((id, lease) ∷ leases) =
    let rest = expired_ids now leases in if leb_ℤ lease.expires_at now then id ∷ rest else rest

unfoldable pub drop_all : List ℕ → Dict ℕ MachineLease → Dict ℕ MachineLease
drop_all [] leases = leases
drop_all (id ∷ ids) leases = drop_all ids (remove leases id)

unfoldable pub expire : ℤ → Dict ℕ MachineLease → Dict ℕ MachineLease
expire now leases = drop_all (expired_ids now leases) leases

-- The first lease of an owner.
unfoldable pub owned_by : String → Dict ℕ MachineLease → Option ℕ
owned_by owner [] = none
owned_by owner ((id, lease) ∷ leases) =
    ite (string_dec lease.owner owner) (some id) (owned_by owner leases)

-- The loop over `range(capacity)`, `n` identifiers from `id`.
unfoldable pub first_free : ℕ → ℕ → Dict ℕ MachineLease → Option ℕ
first_free zero id leases = none
first_free (suc n) id leases =
    let rest = first_free n (id + 1) leases in if is_none (get leases id) then some id else rest

abbrev pub granted : String → MachineIdRegistry → MachineLease
granted owner s = record { owner = owner; expires_at = s.clock.now +ℤ s.lease_seconds }

unfoldable pub register : String → Action MachineIdRegistry ℕ
register owner s =
    let leases = expire s.clock.now s.leases in
    elim (owned_by owner leases) [
      | some id ↦ (ok id, record s { leases = put leases id (granted owner s) })
      | none ↦ elim (first_free s.capacity 0 leases) [
        | some id ↦ (ok id, record s { leases = put leases id (granted owner s) })
        | none ↦ (err conflict, record s { leases = leases })
      ]
    ]

abbrev pub holds : String → Option MachineLease → Bool
holds owner none = false
holds owner (some lease) = ite (string_dec lease.owner owner) true false

unfoldable pub renew : String → ℕ → Action MachineIdRegistry Unit
renew owner id s =
    let leases = expire s.clock.now s.leases in
    if holds owner (get leases id)
    then (ok tt, record s { leases = put leases id (granted owner s) })
    else (err invalid_state, record s { leases = leases })

unfoldable pub release : String → ℕ → MachineIdRegistry → MachineIdRegistry
release owner id s =
    if holds owner (get s.leases id) then record s { leases = remove s.leases id } else s

unfoldable pub holder : ℕ → MachineIdRegistry → Option String × MachineIdRegistry
holder id s =
    let leases = expire s.clock.now s.leases in
    (
      elim (get leases id) [ none ↦ none | some lease ↦ some lease.owner ],
      record s { leases = leases },
    )
