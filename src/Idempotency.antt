-- ===== src/Idempotency.antt =====
-- code/hld/idempotency_store.py: claims on idempotency keys, and the handler that they guard. The
-- payloads, their fingerprint, the bodies of the responses and the handler are parameters.
pub mod Replay
use Prim.Native.String.{◌++◌}
use hld_lld_interview_handbo.Prelude.{
  ℕ, ◌+◌, ◌==◌, String, string_dec, Option, none, some, List, [], ◌∷◌, Bool, true, false, ◌&&◌,
  ◌||◌, if◌then◌else◌, ite, length,
}
use hld_lld_interview_handbo.Prelude.Int.{ℤ, pos, ◌+ℤ◌, leb_ℤ}
use hld_lld_interview_handbo.Dict.{Dict, string_key, empty, get, put, remove}
use hld_lld_interview_handbo.Common.Error.{
  Error, is_handbook, Result, ok, err, validation, conflict,
}
use hld_lld_interview_handbo.Common.Action.{Action}
use hld_lld_interview_handbo.Common.Clock.{FakeClock}
use hld_lld_interview_handbo.Common.Text.{is_empty}

pub data Outcome : Type 0 where
  new replay in_progress mismatch : Outcome

pub data RecordState : Type 0 where
  running completed : RecordState

pub record Response (B : Type 0) : Type 0 where
  pub status : ℕ
  pub body : B

pub record Record (B : Type 0) : Type 0 where
  pub fingerprint : String
  pub state : RecordState
  pub token : ℕ
  pub expires_at : ℤ
  pub response : Option (Response B)

pub record Claim (B : Type 0) : Type 0 where
  pub outcome : Outcome
  pub token : ℕ
  pub response : Option (Response B)

pub record IdempotencyStore (B : Type 0) : Type 0 where
  pub clock : FakeClock
  pub ttl : ℤ
  pub in_progress_ttl : ℤ
  pub records : Dict String (Record B)
  pub next_token : ℕ

abbrev pub is_running : RecordState → Bool
is_running running = true
is_running completed = false

-- `f"{scope}:{key}"`
abbrev pub full_key : String → String → String
full_key scope key = scope ++ (":" ++ key)

module _ {B : Type 0} where
  unfoldable pub new_store : FakeClock → ℤ → ℤ → Result (IdempotencyStore B)
  new_store clock ttl in_progress_ttl =
      if leb_ℤ ttl (pos 0) || leb_ℤ in_progress_ttl (pos 0)
      then err validation
      else ok (record {
        clock = clock;
        ttl = ttl;
        in_progress_ttl = in_progress_ttl;
        records = empty;
        next_token = 1;
      })

  abbrev pub bare : Outcome → Claim B
  bare outcome = record { outcome = outcome; token = 0; response = none }

  -- The record of a new claim.
  abbrev pub claimed : String → IdempotencyStore B → Record B
  claimed fingerprint s = record {
    fingerprint = fingerprint;
    state = running;
    token = s.next_token;
    expires_at = s.clock.now +ℤ s.in_progress_ttl;
    response = none;
  }

  unfoldable pub claim : String → String → Action (IdempotencyStore B) (Claim B)
  claim full fingerprint s = (
    ok (record { outcome = new; token = s.next_token; response = none }),
    record s {
      records = put s.records full (claimed fingerprint s);
      next_token = s.next_token + 1;
    },
  )

  -- What a record that has not expired answers.
  unfoldable pub answer : String → Record B → Claim B
  answer fingerprint r =
      ite (string_dec r.fingerprint fingerprint)
        (elim r.state [
          | completed ↦ record { outcome = replay; token = r.token; response = r.response }
          | running ↦ bare in_progress
        ])
        (bare mismatch)

  -- The critical section of `begin`.
  unfoldable pub begin_locked : String → String → Action (IdempotencyStore B) (Claim B)
  begin_locked full fingerprint s = elim (get s.records full) [
    | none ↦ claim full fingerprint s
    | some r ↦
        if leb_ℤ r.expires_at s.clock.now
        then claim full fingerprint (record s { records = remove s.records full })
        else (ok (answer fingerprint r), s)
  ]

  unfoldable pub begin : String → String → String → Action (IdempotencyStore B) (Claim B)
  begin scope key fingerprint s =
      if is_empty key then (err validation, s) else begin_locked (full_key scope key) fingerprint s

  -- The record of a response.
  abbrev pub finished : Response B → IdempotencyStore B → Record B → Record B
  finished response s r = record r {
    state = completed;
    response = some response;
    expires_at = s.clock.now +ℤ s.ttl;
  }

  unfoldable pub complete_locked : String → ℕ → Response B → Action (IdempotencyStore B) Unit
  complete_locked full token response s = elim (get s.records full) [
    | none ↦ (err conflict, s)
    | some r ↦
        if r.token == token
        then (ok tt, record s { records = put s.records full (finished response s r) })
        else (err conflict, s)
  ]

  abbrev pub complete : String → String → ℕ → Response B → Action (IdempotencyStore B) Unit
  complete scope key = complete_locked (full_key scope key)

  unfoldable pub release : String → String → ℕ → Action (IdempotencyStore B) Unit
  release scope key token s =
      let full = full_key scope key in
      elim (get s.records full) [
        | none ↦ (ok tt, s)
        | some r ↦
            if r.token == token && is_running r.state
            then (ok tt, record s { records = remove s.records full })
            else (ok tt, s)
      ]

  -- The keys that `purge_expired` lists, and their removal.
  unfoldable pub expired_keys : ℤ → Dict String (Record B) → List String
  expired_keys now [] = []
  expired_keys now ((key, r) ∷ records) =
      let rest = expired_keys now records in if leb_ℤ r.expires_at now then key ∷ rest else rest

  unfoldable pub remove_all : List String → Dict String (Record B) → Dict String (Record B)
  remove_all [] records = records
  remove_all (key ∷ keys) records = remove_all keys (remove records key)

  unfoldable pub purge_expired : Action (IdempotencyStore B) ℕ
  purge_expired s =
      let expired = expired_keys s.clock.now s.records in
      (ok (length expired), record s { records = remove_all expired s.records })

-- The handler's own state is `W`. The last two parameters are the bodies of the literal responses
-- and of the one that reports an exception.
module _ {P W B : Type 0} (fingerprint : P → String) (handler : P → Action W (Response B))
    (busy_body reused_body : B) (failed_body : Error → B) where
  -- The response that is stored: a `HandbookError` becomes one, any other exception propagates.
  abbrev pub responded : Result (Response B) → Result (Response B)
  responded (ok r) = ok r
  responded (err e) =
      if is_handbook e then ok (record { status = 422; body = failed_body e }) else err e

  -- The body of `execute` after a claim: a replay without a response runs the handler too. What
  -- propagates leaves the claim as it is.
  unfoldable pub run_handler :
      String → String → P → ℕ → Action (IdempotencyStore B × W) (Outcome × Response B)
  run_handler scope key payload token (s, w) =
      let (r, w') = handler payload w in
      elim (responded r) [
        | err e ↦ (err e, (s, w'))
        | ok response ↦
            let (c, s') = complete scope key token response s in
            elim c [ err e ↦ (err e, (s', w')) | ok _ ↦ (ok (new, response), (s', w')) ]
      ]

  unfoldable pub respond :
      String → String → P → Claim B → Action (IdempotencyStore B × W) (Outcome × Response B)
  respond scope key payload c world = elim c.outcome [
    | new ↦ run_handler scope key payload c.token world
    | replay ↦ elim c.response [
      | some r ↦ (ok (replay, r), world)
      | none ↦ run_handler scope key payload c.token world
    ]
    | in_progress ↦ (ok (in_progress, record { status = 409; body = busy_body }), world)
    | mismatch ↦ (ok (mismatch, record { status = 422; body = reused_body }), world)
  ]

  unfoldable pub execute :
      String → String → P → Action (IdempotencyStore B × W) (Outcome × Response B)
  execute scope key payload (s, w) =
      let (c, s') = begin scope key (fingerprint payload) s in
      elim c [ err e ↦ (err e, (s', w)) | ok claim ↦ respond scope key payload claim (s', w) ]

-- `__len__`
abbrev pub size : {B : Type 0} → IdempotencyStore B → ℕ
size s = length s.records
