-- ===== src/TwoPhase/History.antt =====
-- Whole histories of a coordinator and its participants, with crashes and recoveries of any of them
-- between the calls.
use hld_lld_interview_handbo.Prelude.{
  ◌≡◌, inl, inr, refl, sym, arith, String, Option, none, some, List, [], ◌∷◌, false, All,
  Bool-cases, Option-cases,
}
use mathlib.Core.Path.{subst}
use hld_lld_interview_handbo.Prelude.Int.{ℤ}
use hld_lld_interview_handbo.Dict.{Dict, string_key, get, keys, empty}
use hld_lld_interview_handbo.Dict.Laws.{get-put}
use hld_lld_interview_handbo.Common.Error.{Result, ok}
use hld_lld_interview_handbo.Common.Text.{is_empty}
use hld_lld_interview_handbo.TwoPhase.{
  Decision, commit_all, CrashPoint, Participant, new_participant, crash_after_vote, commit,
}
use hld_lld_interview_handbo.TwoPhase
use hld_lld_interview_handbo.TwoPhase.Coordinator.{
  Coordinator, new_coordinator, register, crash_at, decision_of, member, run, recover,
  recover_participant, write_participant,
}
use hld_lld_interview_handbo.TwoPhase.Coordinator
use hld_lld_interview_handbo.TwoPhase.Agreement.{
  IsConsistent, decided_at, prepared_at, quiet-IsConsistent,
}
use hld_lld_interview_handbo.TwoPhase.Logging.{IsConsistent-flags}
use hld_lld_interview_handbo.TwoPhase.Runs.{IsRun, refused, finished, run-IsRun}
use hld_lld_interview_handbo.TwoPhase.Inquiries.{
  IsSafe, recover_participant-IsSafe, recover-resolves,
}

pub data Event : Type 0 where
  runs : String → Dict String (Dict String ℤ) → Event
  recovers : Event
  crashes : Event
  will_crash : Option CrashPoint → Event
  participant_recovers : String → Event
  participant_crashes : String → Event
  participant_will_crash : String → Event

-- A change of the participant of that name.
unfoldable pub change : String → (Participant → Participant) → Coordinator → Coordinator
change name f c = elim (get c.participants name) [
  | none ↦ c
  | some p ↦ write_participant name (f p) c
]

unfoldable pub happen : Event → Coordinator → Coordinator
happen (runs txid plan) c = (run txid plan c).1
happen recovers c = (recover c).1
happen crashes c = Coordinator.crash c
happen (will_crash point) c = crash_at point c
happen (participant_recovers name) c = recover_participant name c
happen (participant_crashes name) c = change name TwoPhase.crash c
happen (participant_will_crash name) c = change name crash_after_vote c

unfoldable pub happen_all : List Event → Coordinator → Coordinator
happen_all [] c = c
happen_all (e ∷ events) c = happen_all events (happen e c)

-- A participant as its constructor makes it.
abbrev pub IsNew : Participant → Type 0
IsNew p = (data_of : Dict String ℤ) × (floor : ℤ) × (new_participant p.name data_of floor ≡ ok p)

-- A coordinator with these participants and no transactions yet.
unfoldable pub registered : List Participant → Coordinator
registered [] = new_coordinator
registered (p ∷ ps) = register p (registered ps)

new-is_clear : (p : Participant) → IsNew p → (p.prepared ≡ empty) × (p.decided ≡ empty)
unfolding new_participant
new-is_clear p (data_of, floor, h) = elim (Bool-cases (is_empty p.name)) [
  | inl e ↦ ground (arith, rw e at h)
  | inr e ↦ ground (arith, rw e at h)
]

record IsIdle (c : Coordinator) : Type 0 where
  no_log : c.log ≡ []
  no_promise : (name txid : String) → prepared_at c name txid ≡ false
  no_decision : (name txid : String) → decided_at c name txid ≡ none

registered-IsIdle : (ps : List Participant) → All IsNew ps → IsIdle (registered ps)
unfolding registered get
registered-IsIdle [] h = record {
  no_log = refl;
  no_promise = λ _ _. refl;
  no_decision = λ _ _. refl;
}
registered-IsIdle (p ∷ ps) h =
    let idle = registered-IsIdle ps h.1 in
    let (no_promise, no_decision) = new-is_clear p h.0 in
    record {
      no_log = idle.no_log;
      no_promise = λ n t.
          ground (
            arith,
            get-put (registered ps).participants p.name p n,
            no_promise,
            idle.no_promise n t,
          );
      no_decision = λ n t. ground (
        arith,
        get-put (registered ps).participants p.name p n,
        no_decision,
        idle.no_decision n t,
      );
    }

IsIdle-IsConsistent : (c : Coordinator) → IsIdle c → IsConsistent c
unfolding get
IsIdle-IsConsistent c i = record {
  decided = λ n t d e. ground (arith, i.no_decision n t);
  promised = λ n t e. ground (arith, i.no_promise n t);
  committed = λ n t e m. ground (arith, i.no_log);
  acked = λ n t m. i.no_promise n t;
  known = λ n t m. ground (arith, i.no_log);
}

change-IsSafe :
    (name : String) (f : Participant → Participant) (c : Coordinator)
    → IsConsistent c
    → ((p : Participant) → ((f p).decided ≡ p.decided) × ((f p).prepared ≡ p.prepared))
    → IsSafe c (change name f c)
unfolding change
change-IsSafe name f c h same = elim (Option-cases (get c.participants name)) [
  | inl e ↦ rw (e, change) (h, λ _ _ k. k)
  | inr (p, e) ↦
      rw (e, change) (quiet-IsConsistent c name p (f p) h e (same p).0 (same p).1, λ _ _ k. k)
]

IsRun-IsSafe :
    (txid : String) (names : List String) (c : Coordinator) (r : Result Decision × Coordinator)
    → IsConsistent c
    → IsRun txid names c r
    → IsSafe c r.1
IsRun-IsSafe txid names c r h (refused e p) = subst (λ a. IsSafe c a.1) (sym p) (h, λ _ _ k. k)
IsRun-IsSafe txid names c r h (finished k) = (k.consistent, k.stable)

happen-IsSafe : (e : Event) (c : Coordinator) → IsConsistent c → IsSafe c (happen e c)
unfolding happen
happen-IsSafe (runs txid plan) c h =
    IsRun-IsSafe txid (keys plan) c (run txid plan c) h (run-IsRun txid plan c h)
happen-IsSafe recovers c h = (recover-resolves c h).1
happen-IsSafe crashes c h = (IsConsistent-flags c (Coordinator.crash c) h refl refl, λ _ _ k. k)
happen-IsSafe (will_crash point) c h =
    (IsConsistent-flags c (crash_at point c) h refl refl, λ _ _ k. k)
happen-IsSafe (participant_recovers name) c h = recover_participant-IsSafe name c h
happen-IsSafe (participant_crashes name) c h =
    change-IsSafe name TwoPhase.crash c h (λ _. (refl, refl))
happen-IsSafe (participant_will_crash name) c h =
    change-IsSafe name crash_after_vote c h (λ _. (refl, refl))

pub happen_all-IsSafe :
    (events : List Event) (c : Coordinator) → IsConsistent c → IsSafe c (happen_all events c)
unfolding happen_all
happen_all-IsSafe [] c h = (h, λ _ _ k. k)
happen_all-IsSafe (e ∷ events) c h =
    let first = happen-IsSafe e c h in
    let rest = happen_all-IsSafe events (happen e c) first.0 in
    (rest.0, λ t d k. rest.1 t d (first.1 t d k))

pub reached-IsConsistent :
    (ps : List Participant) (events : List Event)
    → All IsNew ps
    → IsConsistent (happen_all events (registered ps))
reached-IsConsistent ps events new =
    (happen_all-IsSafe events (registered ps)
      (IsIdle-IsConsistent (registered ps) (registered-IsIdle ps new))).0
