-- ===== src/TwoPhase/Atomic.antt =====
-- What whole histories of runs, crashes and recoveries guarantee.
use hld_lld_interview_handbo.Prelude.{◌≡◌, ap, arith, String, some, List, true, false, All}
use mathlib.Core.Path.{subst}
use hld_lld_interview_handbo.Prelude.Int.{ℤ}
use hld_lld_interview_handbo.Dict.{Dict, string_key, get, keys}
use hld_lld_interview_handbo.Common.Error.{Result, ok}
use hld_lld_interview_handbo.TwoPhase.{Decision, commit_all, Participant, commit}
use hld_lld_interview_handbo.TwoPhase.Coordinator.{Coordinator, decision_of, member, run, recover}
use hld_lld_interview_handbo.TwoPhase.Agreement.{IsConsistent, decided_at, prepared_at, names_in}
use hld_lld_interview_handbo.TwoPhase.Rounds.{up_at}
use hld_lld_interview_handbo.TwoPhase.Finish.{IsAnswer}
use hld_lld_interview_handbo.TwoPhase.Runs.{IsRun, refused, finished, run-IsRun}
use hld_lld_interview_handbo.TwoPhase.Inquiries.{recover-resolves}
use hld_lld_interview_handbo.TwoPhase.History.{
  Event, happen_all, IsNew, registered, happen_all-IsSafe, reached-IsConsistent,
}

run_answer :
    (txid : String) (names : List String) (c : Coordinator) (r : Result Decision × Coordinator)
    (d : Decision)
    → IsRun txid names c r
    → r.0 ≡ ok d
    → IsAnswer txid names r.1 (ok d)
run_answer txid names c r d (refused e p) h = absurd (ground (arith, ap (λ a. a.0) p, h))
run_answer txid names c r d (finished k) h = subst (IsAnswer txid names r.1) h k.answer

-- Atomicity: after any runs, crashes and recoveries, if a participant has carried out a decision on
-- a transaction, then no participant carries out another one, then or later.
pub decisions_agree :
    (ps : List Participant) (events more : List Event) (name other txid : String) (d e : Decision)
    → All IsNew ps
    → decided_at (happen_all events (registered ps)) name txid ≡ some d
    → decided_at (happen_all more (happen_all events (registered ps))) other txid ≡ some e
    → d ≡ e
decisions_agree ps events more name other txid d e new h k =
    let c : Coordinator = happen_all events (registered ps) in
    let sound : IsConsistent c = reached-IsConsistent ps events new in
    let later = happen_all-IsSafe more c sound in
    let first = later.1 txid d (sound.decided name txid d h) in
    let second = later.0.decided other txid e k in ground (arith, first, second)

-- The blocking is over with the coordinator's recovery: after any runs, crashes and recoveries it
-- returns, and then no participant that is up is in doubt about any transaction.
pub recover_unblocks :
    (ps : List Participant) (events : List Event)
    → All IsNew ps
    → let c = happen_all events (registered ps) in
      ((sent : List String) × ((recover c).0 ≡ ok sent))
      × ((name txid : String) → up_at c name ≡ true → prepared_at (recover c).1 name txid ≡ false)
recover_unblocks ps events new =
    let resolved =
      recover-resolves (happen_all events (registered ps)) (reached-IsConsistent ps events new) in
    (resolved.0, resolved.2)

-- After any runs, crashes and recoveries: a participant that is up and that a committed transaction
-- names can carry the commit out, since it still holds its promise or has carried it out before.
pub commit_never_fails :
    (ps : List Participant) (events : List Event) (name txid : String) (p : Participant)
    → All IsNew ps
    → let c = happen_all events (registered ps) in
      decision_of txid c ≡ some commit_all
      → member name (names_in (get c.log txid)) ≡ true
      → get c.participants name ≡ some p
      → p.down ≡ false
      → (commit txid p).0 ≡ ok tt
unfolding commit
commit_never_fails ps events name txid p new says named here up =
    let c : Coordinator = happen_all events (registered ps) in
    let either = (reached-IsConsistent ps events new).committed name txid says named in
    ground (arith, here, either)

-- After any runs, crashes and recoveries: a run that returns a decision has put it into the log,
-- and no participant of its plan that is up is in doubt about it.
pub run_decides :
    (ps : List Participant) (events : List Event) (txid : String)
    (plan : Dict String (Dict String ℤ)) (d : Decision)
    → All IsNew ps
    → let r = run txid plan (happen_all events (registered ps)) in
      r.0 ≡ ok d
      → (decision_of txid r.1 ≡ some d)
        × ((name : String)
            → member name (keys plan) ≡ true
            → up_at r.1 name ≡ true
            → prepared_at r.1 name txid ≡ false)
run_decides ps events txid plan d new h =
    let c : Coordinator = happen_all events (registered ps) in
    run_answer txid (keys plan) c (run txid plan c) d
      (run-IsRun txid plan c (reached-IsConsistent ps events new)) h
