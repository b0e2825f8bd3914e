-- ===== src/Idempotency/Replay.antt =====
-- What a key that has been claimed or completed answers.
use hld_lld_interview_handbo.Prelude.{◌+◌, ◌≡◌, String, string_dec, ite, none, some, false, arith}
use hld_lld_interview_handbo.Prelude.Int.{ℤ, pos, ◌+ℤ◌, ◌≤ℤ◌, leb_ℤ, +ℤ_parts}
use hld_lld_interview_handbo.Dict.{string_key, remove}
use hld_lld_interview_handbo.Dict.Laws.{get-put}
use hld_lld_interview_handbo.Common.Error.{ok, err, conflict}
use hld_lld_interview_handbo.Idempotency.{
  new, replay, in_progress, mismatch, Response, IdempotencyStore, bare, claim, claimed,
  begin_locked, answer, finished, complete_locked,
}

not_yet : (now ttl : ℤ) → pos 1 ≤ℤ ttl → leb_ℤ (now +ℤ ttl) now ≡ false
not_yet now ttl h = ground (arith, +ℤ_parts now ttl)

module _ {B : Type 0} where
  -- As long as no time passes, a key that has been claimed is claimed once: a second request with
  -- the same fingerprint is told that the first one is in progress, one with another fingerprint that
  -- it does not match, and neither changes anything.
  pub begin-exclusive :
      (full fingerprint again : String) (s : IdempotencyStore B)
      → pos 1 ≤ℤ s.in_progress_ttl
      → let s' = (claim full fingerprint s).1 in
        begin_locked full again s'
        ≡ (ok (ite (string_dec fingerprint again) (bare in_progress) (bare mismatch)), s')
  unfolding claim begin_locked answer
  begin-exclusive full fingerprint again s ttl = ground (
    arith,
    not_yet s.clock.now s.in_progress_ttl ttl,
    get-put s.records full (claimed fingerprint s) full,
  )

  -- A claim can be completed with its token, and then, as long as no time passes, every request with
  -- the same fingerprint is answered with that response, one with another fingerprint that it does
  -- not match, and neither changes anything.
  pub complete-replayed :
      (full fingerprint again : String) (response : Response B) (s : IdempotencyStore B)
      → pos 1 ≤ℤ s.ttl
      → let s' = (claim full fingerprint s).1 in
        let done = complete_locked full s.next_token response s' in
        (done.0 ≡ ok tt)
        × (begin_locked full again done.1 ≡ (
          ok (
              ite
                (string_dec fingerprint again)
                (record { outcome = replay; token = s.next_token; response = some response })
                (bare mismatch)),
          done.1,
        ))
  unfolding claim begin_locked complete_locked answer
  complete-replayed full fingerprint again response s ttl =
      let s' = (claim full fingerprint s).1 in
      ground (
        arith,
        not_yet s.clock.now s.ttl ttl,
        get-put s.records full (claimed fingerprint s) full,
        get-put s'.records full (finished response s' (claimed fingerprint s)) full,
      )

  -- After the claim has run out a later request takes the key over, and the first worker, which comes
  -- late with its old token, can neither complete nor change anything.
  pub takeover-rejects :
      (full fingerprint again : String) (later : ℤ) (response : Response B) (s : IdempotencyStore B)
      → (s.clock.now +ℤ s.in_progress_ttl) ≤ℤ later
      → let s' = record (claim full fingerprint s).1 { clock = record { now = later } } in
        let taken = begin_locked full again s' in
        (taken.0 ≡ ok (record { outcome = new; token = s.next_token + 1; response = none }))
        × (complete_locked full s.next_token response taken.1 ≡ (err conflict, taken.1))
  unfolding claim begin_locked complete_locked
  takeover-rejects full fingerprint again later response s passed =
      let s' = record (claim full fingerprint s).1 { clock = record { now = later } } in
      let cleared = record s' { records = remove s'.records full } in
      ground (
        arith,
        get-put s.records full (claimed fingerprint s) full,
        get-put cleared.records full (claimed again cleared) full,
      )
