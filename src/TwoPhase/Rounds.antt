-- ===== src/TwoPhase/Rounds.antt =====
-- The second phase: delivering a decision never raises, keeps the agreement, and leaves no
-- participant that is up in doubt.
use hld_lld_interview_handbo.Prelude.{
  ◌≡◌, ◌⊎◌, inl, inr, refl, ◌∙◌, arith, String, Option, none, some, Bool, true, false, not,
  Option-cases,
}
use hld_lld_interview_handbo.Dict.{string_key, get, contains}
use hld_lld_interview_handbo.Common.Error.{ok, err, node_down}
use hld_lld_interview_handbo.TwoPhase.{
  Decision, commit_all, abort_all, Participant, commit, abort, apply_locked,
}
use hld_lld_interview_handbo.TwoPhase.Coordinator.{
  Coordinator, TxRecord, decision_of, write_participant, acknowledge, add_name, tell,
}
use hld_lld_interview_handbo.TwoPhase.Agreement.{
  IsConsistent, prepared_at, names_in, apply_locked-IsConsistent, quiet-IsConsistent,
  prepared_at-write_participant, known-write_participant, get-apply_locked,
}
use hld_lld_interview_handbo.TwoPhase.Logging.{get-write_record, acknowledge-IsConsistent}

abbrev pub is_up : Option Participant → Bool
is_up none = false
is_up (some p) = not p.down

abbrev pub up_at : Coordinator → String → Bool
up_at c name = is_up (get c.participants name)

-- What a delivery leaves as it was.
pub record IsQuiet (c c' : Coordinator) : Type 0 where
  pub consistent : IsConsistent c'
  pub names : (txid : String) → names_in (get c'.log txid) ≡ names_in (get c.log txid)
  pub decision : (txid : String) → decision_of txid c' ≡ decision_of txid c
  pub logged : (txid : String) → contains c'.log txid ≡ contains c.log txid
  pub up : (name : String) → up_at c' name ≡ up_at c name
  pub released :
      (name txid : String) → prepared_at c name txid ≡ false → prepared_at c' name txid ≡ false

pub IsQuiet-refl : (c : Coordinator) → IsConsistent c → IsQuiet c c
IsQuiet-refl c h = record {
  consistent = h;
  names = λ _. refl;
  decision = λ _. refl;
  logged = λ _. refl;
  up = λ _. refl;
  released = λ _ _ e. e;
}

pub IsQuiet-trans : (a b c : Coordinator) → IsQuiet a b → IsQuiet b c → IsQuiet a c
IsQuiet-trans a b c h k = record {
  consistent = k.consistent;
  names = λ t. k.names t ∙ h.names t;
  decision = λ t. k.decision t ∙ h.decision t;
  logged = λ t. k.logged t ∙ h.logged t;
  up = λ n. k.up n ∙ h.up n;
  released = λ n t e. k.released n t (h.released n t e);
}

pub acknowledge-IsQuiet :
    (txid name : String) (c : Coordinator)
    → IsConsistent c
    → prepared_at c name txid ≡ false
    → IsQuiet c (acknowledge txid name c)
acknowledge-IsQuiet txid name c h free =
    let kept = acknowledge-IsConsistent txid name c h free in
    elim (Option-cases (get c.log txid)) [
      | inl e ↦ rw (e, acknowledge) (IsQuiet-refl c h)
      | inr (r, e) ↦
          let r' : TxRecord = record r { acked = add_name name r.acked } in
          rw (e, acknowledge)
            (record {
              consistent = rw (e, acknowledge) at kept;
              names = λ t. ground (arith, get-write_record txid r' c t);
              decision = λ t. ground (arith, get-write_record txid r' c t);
              logged = λ t. ground (arith, get-write_record txid r' c t);
              up = λ _. refl;
              released = λ _ _ k. k;
            })
    ]

pub write_back-IsQuiet :
    (c : Coordinator) (n : String) (p : Participant)
    → IsConsistent c
    → get c.participants n ≡ some p
    → IsQuiet c (write_participant n p c)
write_back-IsQuiet c n p h here = record {
  consistent = quiet-IsConsistent c n p p h here refl refl;
  names = λ _. refl;
  decision = λ _. refl;
  logged = λ _. refl;
  up = λ name. ground (arith, known-write_participant c n p name);
  released = λ name t e. ground (arith, known-write_participant c n p name);
}

apply_locked-down :
    (txid : String) (d : Decision) (p : Participant) → (apply_locked txid d p).down ≡ p.down
unfolding apply_locked
apply_locked-down txid d p = refl

pub apply_locked-IsQuiet :
    (c : Coordinator) (n txid : String) (d : Decision) (p : Participant)
    → IsConsistent c
    → get c.participants n ≡ some p
    → decision_of txid c ≡ some d
    → IsQuiet c (write_participant n (apply_locked txid d p) c)
apply_locked-IsQuiet c n txid d p h here says = record {
  consistent = apply_locked-IsConsistent c n txid d p h here says;
  names = λ _. refl;
  decision = λ _. refl;
  logged = λ _. refl;
  up = λ name.
      ground (
        arith,
        known-write_participant c n (apply_locked txid d p) name,
        apply_locked-down txid d p,
      );
  released = λ name t e. ground (
    arith,
    prepared_at-write_participant c n (apply_locked txid d p) name t,
    get-apply_locked txid t d p,
  );
}

-- The participant has nothing left to do for the transaction.
pub cleared :
    (c : Coordinator) (n txid : String) (d : Decision) (p : Participant)
    → prepared_at (write_participant n (apply_locked txid d p) c) n txid ≡ false
cleared c n txid d p = ground (
  arith,
  prepared_at-write_participant c n (apply_locked txid d p) n txid,
  get-apply_locked txid txid d p,
)

pub tell-up :
    (txid : String) (d : Decision) (p : Participant)
    → p.down ≡ false
    → (d ≡ commit_all → (contains p.prepared txid ≡ true) ⊎ (get p.decided txid ≡ some commit_all))
    → tell txid d p ≡ (ok tt, apply_locked txid d p)
unfolding commit abort
tell-up txid commit_all p up ready = ground (arith, ready refl)
tell-up txid abort_all p up ready = ground arith

pub tell-down :
    (txid : String) (d : Decision) (p : Participant)
    → p.down ≡ true
    → tell txid d p ≡ (err node_down, p)
unfolding commit abort
tell-down txid commit_all p h = ground arith
tell-down txid abort_all p h = ground arith
