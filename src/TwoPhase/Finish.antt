-- ===== src/TwoPhase/Finish.antt =====
-- The rest of a run when the votes are in: what it answers is in the log and carried out.
use hld_lld_interview_handbo.Prelude.{
  ◌≡◌, inl, inr, refl, sym, ap, ◌∙◌, arith, String, none, some, List, true, false, Bool-cases,
}
use mathlib.Core.Path.{subst}
use hld_lld_interview_handbo.Dict.{string_key, get}
use hld_lld_interview_handbo.Common.Error.{Result, ok, err, node_down}
use hld_lld_interview_handbo.Common.Action.{Action, ◌>>◌, ◌>>=◌, pure, bind-ok, bind-err}
use hld_lld_interview_handbo.TwoPhase.{
  Vote, Decision, commit_all, CrashPoint, before_decision_logged, after_decision_logged,
}
use hld_lld_interview_handbo.TwoPhase.Coordinator.{
  Coordinator, TxRecord, decision_of, member, settle_record, is_point, maybe_crash, broadcast,
  log_decision, outcome, all_yes,
}
use hld_lld_interview_handbo.TwoPhase.Agreement.{IsConsistent, prepared_at, names_in}
use hld_lld_interview_handbo.TwoPhase.Logging.{settle_record-IsConsistent, IsConsistent-flags}
use hld_lld_interview_handbo.TwoPhase.Rounds.{up_at}
use hld_lld_interview_handbo.TwoPhase.Delivery.{broadcast-IsTold}
use hld_lld_interview_handbo.TwoPhase.Resolved.{
  whole_result, log_decision-settles, decision_of-settle_record, settle_record-IsKept,
}

-- A run that returns has carried its decision out; one that does not is a crash of the coordinator.
abbrev pub IsAnswer : String → List String → Coordinator → Result Decision → Type 0
IsAnswer txid names c (err e) = e ≡ node_down
IsAnswer txid names c (ok d) =
    (decision_of txid c ≡ some d)
    × ((name : String)
        → member name names ≡ true
        → up_at c name ≡ true
        → prepared_at c name txid ≡ false)

pub record IsFinished (txid : String) (names : List String) (c : Coordinator)
    (r : Result Decision × Coordinator) : Type 0 where
  pub consistent : IsConsistent r.1
  pub stable :
      (other : String) (d : Decision)
      → decision_of other c ≡ some d
      → decision_of other r.1 ≡ some d
  pub answer : IsAnswer txid names r.1 r.0

abbrev crashed : Coordinator → Coordinator
crashed c = record c { crash_point = none; down = true }

IsFinished-crashed :
    (txid : String) (names : List String) (c : Coordinator)
    → IsConsistent c
    → IsFinished txid names c (err node_down, crashed c)
IsFinished-crashed txid names c h = record {
  consistent = IsConsistent-flags c (crashed c) h refl refl;
  stable = λ _ _ e. e;
  answer = refl;
}

maybe_crash-fires :
    (point : CrashPoint) (c : Coordinator)
    → is_point point c.crash_point ≡ true
    → maybe_crash point c ≡ (err node_down, crashed c)
unfolding maybe_crash
maybe_crash-fires point c h = rw h refl

maybe_crash-passes :
    (point : CrashPoint) (c : Coordinator)
    → is_point point c.crash_point ≡ false
    → maybe_crash point c ≡ (ok tt, c)
unfolding maybe_crash
maybe_crash-passes point c h = rw h refl

abbrev finish : String → Decision → Action Coordinator Decision
finish txid d = maybe_crash after_decision_logged >> broadcast txid >> pure d

finish-IsFinished :
    (txid : String) (d : Decision) (names : List String) (c : Coordinator)
    → IsConsistent c
    → decision_of txid c ≡ some d
    → names_in (get c.log txid) ≡ names
    → IsFinished txid names c (finish txid d c)
finish-IsFinished txid d names c h says named =
    let point = maybe_crash after_decision_logged in
    let m : Action Coordinator Unit = point >> broadcast txid in
    elim (Bool-cases (is_point after_decision_logged c.crash_point)) [
      | inl fires ↦
          let early =
            bind-err point (λ _. broadcast txid) c
              (maybe_crash-fires after_decision_logged c fires) in
          subst (IsFinished txid names c) (sym (bind-err m (λ _. pure d) c early))
            (IsFinished-crashed txid names c h)
      | inr passes ↦
          let told = broadcast-IsTold txid d c h says in
          let r : Result Unit × Coordinator = broadcast txid c in
          let sent =
            bind-ok point (λ _. broadcast txid) c
              (maybe_crash-passes after_decision_logged c passes)
            ∙ whole_result r tt told.done in
          subst (IsFinished txid names c) (sym (bind-ok m (λ _. pure d) c sent)) (record {
            consistent = told.quiet.consistent;
            stable = λ t e k. told.quiet.decision t ∙ k;
            answer = (
              told.quiet.decision txid ∙ says,
              λ n k u. told.clear n (rw named k) (sym (told.quiet.up n) ∙ u),
            );
          })
    ]

outcome-commit : (votes : List Vote) → outcome votes ≡ commit_all → all_yes votes ≡ true
outcome-commit votes h = ground (arith, h)

abbrev pub conclude : String → List Vote → Action Coordinator Decision
conclude txid votes =
    maybe_crash before_decision_logged >> log_decision txid (outcome votes) >>= λ d. finish txid d

pub conclude-IsFinished :
    (txid : String) (votes : List Vote) (r : TxRecord) (c : Coordinator)
    → IsConsistent c
    → get c.log txid ≡ some r
    → ((name : String)
        → all_yes votes ≡ true
        → member name r.participants ≡ true
        → prepared_at c name txid ≡ true)
    → IsFinished txid r.participants c (conclude txid votes c)
conclude-IsFinished txid votes r c h here promises =
    let point = maybe_crash before_decision_logged in
    let d : Decision = outcome votes in
    let m : Action Coordinator Decision = point >> log_decision txid d in
    elim (Bool-cases (is_point before_decision_logged c.crash_point)) [
      | inl fires ↦
          let early =
            bind-err point (λ _. log_decision txid d) c
              (maybe_crash-fires before_decision_logged c fires) in
          subst (IsFinished txid r.participants c) (sym (bind-err m (λ d. finish txid d) c early))
            (IsFinished-crashed txid r.participants c h)
      | inr passes ↦
          let dec : Decision = (settle_record txid d r c).0 in
          let c1 : Coordinator = (settle_record txid d r c).1 in
          let sound : IsConsistent c1 =
            settle_record-IsConsistent txid d r c h here
              (λ n _ e k. promises n (outcome-commit votes e) k) in
          let kept = settle_record-IsKept txid d r c here sound in
          let logged =
            bind-ok point (λ _. log_decision txid d) c
              (maybe_crash-passes before_decision_logged c passes)
            ∙ log_decision-settles txid d r c here in
          let last =
            finish-IsFinished txid dec r.participants c1 sound
              (decision_of-settle_record txid d r c) (kept.names txid ∙ ap names_in here) in
          subst (IsFinished txid r.participants c) (sym (bind-ok m (λ d. finish txid d) c logged))
            (record {
              consistent = last.consistent;
              stable = λ t e k. last.stable t e (kept.stable t e k);
              answer = last.answer;
            })
    ]
