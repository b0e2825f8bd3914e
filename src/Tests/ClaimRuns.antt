-- ===== src/Tests/ClaimRuns.antt =====
-- Leases, fenced writes and claims on idempotency keys.
use hld_lld_interview_handbo.Prelude.{
  ℕ, ◌+◌, ◌≡◌, refl, String, string_dec, ite, none, some, List, [], ◌∷◌, true, arith,
}
use hld_lld_interview_handbo.Prelude.Int.{pos, ◌+ℤ◌}
use hld_lld_interview_handbo.Dict.{string_key, get}
use hld_lld_interview_handbo.Common.Error.{ok, err, fencing, conflict}
use hld_lld_interview_handbo.Fencing
use hld_lld_interview_handbo.Fencing.{
  LeaseLockService, Lease, acquire, holder, granted, FencedStore, write,
}
use hld_lld_interview_handbo.Fencing.Tokens.{write_all, stale-rejected}
use hld_lld_interview_handbo.Idempotency.{
  IdempotencyStore, Response, claim, begin_locked, complete_locked, bare, new, replay, mismatch,
}
use hld_lld_interview_handbo.Idempotency.Replay.{complete-replayed, takeover-rejects}

abbrev service : LeaseLockService
service = record { clock = record { now = pos 0 }; ttl = pos 10; leases = []; next_token = 0 }

abbrev fenced : FencedStore
fenced = Fencing.new_store true

abbrev between : List (String × (String × ℕ))
between = ("result", ("b", 3)) ∷ ("other", ("c", 1)) ∷ []

stale-rejected_example :
    let s' = write_all between (write "result" "a" 2 fenced).1 in
    write "result" "late" 1 s' ≡ (err fencing, record s' { rejected = s'.rejected + 1 })
stale-rejected_example =
    stale-rejected "result" "a" "late" 2 1 fenced between refl (unfold write get in refl)
      (omega arith)

abbrev claims : IdempotencyStore String
claims = record {
  clock = record { now = pos 100 };
  ttl = pos 1000;
  in_progress_ttl = pos 30;
  records = [];
  next_token = 1;
}

abbrev created_response : Response String
created_response = record { status = 201; body = "ch_1" }

complete-replayed_example :
    let s' = (claim "acct:k1" "fp" claims).1 in
    let done = complete_locked "acct:k1" 1 created_response s' in
    (done.0 ≡ ok tt)
    × (begin_locked "acct:k1" "fp" done.1 ≡ (
      ok (
          ite
            (string_dec "fp" "fp")
            (record { outcome = replay; token = 1; response = some created_response })
            (bare mismatch)),
      done.1,
    ))
complete-replayed_example =
    complete-replayed "acct:k1" "fp" "fp" created_response claims (omega arith)

takeover-rejects_example :
    let s' = record (claim "acct:k1" "fp" claims).1 { clock = record { now = pos 131 } } in
    let taken = begin_locked "acct:k1" "fp" s' in
    (taken.0 ≡ ok (record { outcome = new; token = 2; response = none }))
    × (complete_locked "acct:k1" 1 created_response taken.1 ≡ (err conflict, taken.1))
takeover-rejects_example =
    takeover-rejects "acct:k1" "fp" "fp" (pos 131) created_response claims
      (unfold ◌+ℤ◌ in omega arith)
