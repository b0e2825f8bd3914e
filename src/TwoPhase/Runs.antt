-- ===== src/TwoPhase/Runs.antt =====
-- A whole run of the protocol: it keeps the agreement and every decision made before, and the
-- decision that it returns is in the log and carried out by every participant that is up.
use hld_lld_interview_handbo.Prelude.{
  ◌≡◌, ◌⊎◌, inl, inr, refl, sym, arith, String, some, List, [], ◌∷◌, true, false, is_some,
  Bool-cases,
}
use mathlib.Core.Path.{subst}
use hld_lld_interview_handbo.Prelude.Int.{ℤ}
use hld_lld_interview_handbo.Dict.{Dict, string_key, get, contains, keys}
use hld_lld_interview_handbo.Common.Error.{
  Error, Result, err, validation, conflict, not_found, node_down,
}
use hld_lld_interview_handbo.Common.Action.{bind-ok}
use hld_lld_interview_handbo.TwoPhase.{Vote, Decision, Participant}
use hld_lld_interview_handbo.TwoPhase.Coordinator.{
  Coordinator, member, collect_votes, run_logged, run, new_record, write_record, unknown_names,
  is_empty_list,
}
use hld_lld_interview_handbo.TwoPhase.Agreement.{IsConsistent}
use hld_lld_interview_handbo.TwoPhase.Logging.{get-write_record, new_record-IsConsistent}
use hld_lld_interview_handbo.TwoPhase.Resolved.{whole_result}
use hld_lld_interview_handbo.TwoPhase.Voting.{collect_votes-IsPolled}
use hld_lld_interview_handbo.TwoPhase.Finish.{IsFinished, conclude, conclude-IsFinished}

run_logged-IsFinished :
    (txid : String) (plan : Dict String (Dict String ℤ)) (c : Coordinator)
    → IsConsistent c
    → get c.log txid ≡ some (new_record (keys plan))
    → IsFinished txid (keys plan) c (run_logged txid plan c)
unfolding run_logged
run_logged-IsFinished txid plan c h here =
    let polled = collect_votes-IsPolled txid plan c h (λ n m. rw here m) (rw here refl) in
    let r : Result (List Vote) × Coordinator = collect_votes txid plan c in
    let last =
      conclude-IsFinished txid polled.votes (new_record (keys plan)) r.1 polled.consistent
        (rw polled.same_log here) polled.promises in
    subst (IsFinished txid (keys plan) c)
      (sym (
        bind-ok (collect_votes txid plan) (λ votes. conclude txid votes) c
          (whole_result r polled.votes polled.done)))
      (record {
        consistent = last.consistent;
        stable = λ t e k. last.stable t e (rw polled.same_log k);
        answer = last.answer;
      })

unknown_names-none :
    (names : List String) (ps : Dict String Participant) (name : String)
    → is_empty_list (unknown_names names ps) ≡ true
    → member name names ≡ true
    → is_some (get ps name) ≡ true
unfolding unknown_names
unknown_names-none [] ps name h m = ground arith
unknown_names-none (other ∷ names) ps name h m = ground (arith, unknown_names-none names ps name)

-- A run that is refused changes nothing; any other one is finished, or the coordinator has crashed.
pub data IsRun (txid : String) (names : List String) (c : Coordinator)
    : Result Decision × Coordinator → Type 0 where
  refused : {r : Result Decision × Coordinator} (e : Error) → r ≡ (err e, c) → IsRun txid names c r
  finished : {r : Result Decision × Coordinator} → IsFinished txid names c r → IsRun txid names c r

-- `run` is refused, or its record goes into the log and it runs on.
pub run-cases :
    (txid : String) (entry : String × Dict String ℤ) (plan : Dict String (Dict String ℤ))
    (c : Coordinator)
    → let names = keys (entry ∷ plan) in
      ((contains c.log txid ≡ false)
        × (is_empty_list (unknown_names names c.participants) ≡ true)
        × (run txid (entry ∷ plan) c
            ≡ run_logged txid (entry ∷ plan) (write_record txid (new_record names) c)))
      ⊎ ((e : Error) × (run txid (entry ∷ plan) c ≡ (err e, c)))
unfolding run
run-cases txid entry plan c = elim (Bool-cases c.down) [
  | inl down ↦ inr (node_down, ground arith)
  | inr up ↦ elim (Bool-cases (contains c.log txid)) [
    | inl old ↦ inr (conflict, ground arith)
    | inr new ↦
        elim (Bool-cases (is_empty_list (unknown_names (keys (entry ∷ plan)) c.participants))) [
          | inr unknown ↦ inr (not_found, ground arith)
          | inl known ↦ inl (new, known, ground arith)
        ]
  ]
]

run-nothing : (txid : String) (c : Coordinator) → run txid [] c ≡ (err validation, c)
unfolding run
run-nothing txid c = refl

pub run-IsRun :
    (txid : String) (plan : Dict String (Dict String ℤ)) (c : Coordinator)
    → IsConsistent c
    → IsRun txid (keys plan) c (run txid plan c)
run-IsRun txid [] c h = refused validation (run-nothing txid c)
run-IsRun txid (entry ∷ plan) c h = elim (run-cases txid entry plan c) [
  | inr (e, p) ↦ refused e p
  | inl (new, known, goes) ↦
      let names : List String = keys (entry ∷ plan) in
      let c1 : Coordinator = write_record txid (new_record names) c in
      let sound =
        new_record-IsConsistent txid names c h new
          (λ n m. unknown_names-none names c.participants n known m) in
      let run_on =
        run_logged-IsFinished txid (entry ∷ plan) c1 sound
          (ground (arith, get-write_record txid (new_record names) c txid)) in
      subst (IsRun txid names c) (sym goes) (
        finished (record {
          consistent = run_on.consistent;
          stable = λ t e k.
              run_on.stable t e (ground (arith, get-write_record txid (new_record names) c t));
          answer = run_on.answer;
        }))
]
