-- ===== src/TwoPhase/Resolved.antt =====
-- The coordinator's recovery never raises, and leaves no participant that is up in doubt.
use hld_lld_interview_handbo.Prelude.{
  ◌≡◌, inl, inr, refl, sym, ap, ◌∙◌, arith, String, Option, none, some, List, [], ◌∷◌, ◌++◌, true,
  false, Bool-cases, Option-cases,
}
use mathlib.Core.Path.{subst}
use hld_lld_interview_handbo.Dict.{string_key, get, contains}
use hld_lld_interview_handbo.Common.Error.{Result, ok}
use hld_lld_interview_handbo.Common.Action.{Action, ◌>>◌, ◌>>=◌, pure, bind-ok}
use hld_lld_interview_handbo.TwoPhase.{Decision, abort_all}
use hld_lld_interview_handbo.TwoPhase.Coordinator.{
  Coordinator, TxRecord, decision_of, member, broadcast, settle_record, decided_or, log_decision,
  delivered, was_delivered, all_in, resend, resend_all,
}
use hld_lld_interview_handbo.TwoPhase.Agreement.{IsConsistent, prepared_at, names_in, acked_in}
use hld_lld_interview_handbo.TwoPhase.Logging.{get-write_record, settle_record-IsConsistent}
use hld_lld_interview_handbo.TwoPhase.Rounds.{up_at, IsQuiet, IsQuiet-refl}
use hld_lld_interview_handbo.TwoPhase.Delivery.{broadcast-IsTold}

-- Recovery may add decisions, and changes none.
pub record IsKept (c c' : Coordinator) : Type 0 where
  pub consistent : IsConsistent c'
  pub names : (txid : String) → names_in (get c'.log txid) ≡ names_in (get c.log txid)
  pub stable :
      (txid : String) (d : Decision) → decision_of txid c ≡ some d → decision_of txid c' ≡ some d
  pub logged : (txid : String) → contains c'.log txid ≡ contains c.log txid
  pub up : (name : String) → up_at c' name ≡ up_at c name
  pub released :
      (name txid : String) → prepared_at c name txid ≡ false → prepared_at c' name txid ≡ false

pub IsKept-quiet : (c c' : Coordinator) → IsQuiet c c' → IsKept c c'
IsKept-quiet c c' q = record {
  consistent = q.consistent;
  names = q.names;
  stable = λ t d e. q.decision t ∙ e;
  logged = q.logged;
  up = q.up;
  released = q.released;
}

pub IsKept-trans : (a b c : Coordinator) → IsKept a b → IsKept b c → IsKept a c
IsKept-trans a b c h k = record {
  consistent = k.consistent;
  names = λ t. k.names t ∙ h.names t;
  stable = λ t d e. k.stable t d (h.stable t d e);
  logged = λ t. k.logged t ∙ h.logged t;
  up = λ n. k.up n ∙ h.up n;
  released = λ n t e. k.released n t (h.released n t e);
}

pub settle_record-IsKept :
    (txid : String) (d : Decision) (r : TxRecord) (c : Coordinator)
    → get c.log txid ≡ some r
    → IsConsistent (settle_record txid d r c).1
    → IsKept c (settle_record txid d r c).1
settle_record-IsKept txid d r c here h =
    let r' : TxRecord = record r { decision = some (decided_or d r.decision) } in
    record {
      consistent = h;
      names = λ t. ground (arith, get-write_record txid r' c t);
      stable = λ t e k. ground (arith, get-write_record txid r' c t);
      logged = λ t. ground (arith, get-write_record txid r' c t);
      up = λ _. refl;
      released = λ _ _ e. e;
    }

-- After the recovery has resent `txids`.
pub record IsResent (txids : List String) (c : Coordinator) (r : Result (List String) × Coordinator)
    : Type 0 where
  pub done : (sent : List String) × (r.0 ≡ ok sent)
  pub kept : IsKept c r.1
  pub clear :
      (name txid : String)
      → member txid txids ≡ true
      → member name (names_in (get c.log txid)) ≡ true
      → up_at c name ≡ true
      → prepared_at r.1 name txid ≡ false

member-all_in :
    (name : String) (names acked : List String)
    → all_in names acked ≡ true
    → member name names ≡ true
    → member name acked ≡ true
unfolding all_in
member-all_in name [] acked h m = ground arith
member-all_in name (other ∷ names) acked h m = ground (arith, member-all_in name names acked)

acked-delivered :
    (name : String) (o : Option TxRecord)
    → was_delivered o ≡ true
    → member name (names_in o) ≡ true
    → member name (acked_in o) ≡ true
unfolding delivered
acked-delivered name none h m = ground arith
acked-delivered name (some r) h m = ground (arith, member-all_in name r.participants r.acked)

resend-IsResent :
    (txid : String) (d : Decision) (c : Coordinator)
    → IsConsistent c
    → decision_of txid c ≡ some d
    → IsResent (txid ∷ []) c (resend txid c)
unfolding resend
resend-IsResent txid d c h says = elim (Bool-cases (was_delivered (get c.log txid))) [
  | inl e ↦ rw e (record {
    done = ([], refl);
    kept = IsKept-quiet c c (IsQuiet-refl c h);
    clear = λ n t m k u. ground (arith, k, h.acked n txid, acked-delivered n (get c.log txid));
  })
  | inr e ↦
      let told = broadcast-IsTold txid d c h says in
      let r : Result Unit × Coordinator = broadcast txid c in
      let whole : ◌≡◌ {A = Result Unit × Coordinator} r (ok tt, r.1) =
        ap (λ (a : Result Unit). (a, r.1)) told.done in
      rw e (
        subst (IsResent (txid ∷ []) c)
          (sym (bind-ok (broadcast txid) (λ _. pure (txid ∷ [])) c whole))
          (record {
            done = (txid ∷ [], refl);
            kept = IsKept-quiet c r.1 told.quiet;
            clear = λ n t m k u. ground (arith, told.clear n, k);
          }))
]

pub log_decision-settles :
    (txid : String) (d : Decision) (r : TxRecord) (c : Coordinator)
    → get c.log txid ≡ some r
    → log_decision txid d c ≡ (ok (settle_record txid d r c).0, (settle_record txid d r c).1)
unfolding log_decision
log_decision-settles txid d r c here = rw (here, log_decision) refl

-- The decision that an undecided transaction gets is to abort it, so that nobody needs to have
-- promised anything.
pub abort-IsConsistent :
    (txid : String) (r : TxRecord) (c : Coordinator)
    → IsConsistent c
    → get c.log txid ≡ some r
    → IsConsistent (settle_record txid abort_all r c).1
abort-IsConsistent txid r c h here =
    settle_record-IsConsistent txid abort_all r c h here (λ n _ e _. ground (arith, e))

pub decision_of-settle_record :
    (txid : String) (d : Decision) (r : TxRecord) (c : Coordinator)
    → decision_of txid (settle_record txid d r c).1 ≡ some (settle_record txid d r c).0
decision_of-settle_record txid d r c =
    ground
      (arith, get-write_record txid (record r { decision = some (decided_or d r.decision) }) c txid)

resend_all-run :
    (txid : String) (txids sent later : List String) (d : Decision) (c c1 c2 c3 : Coordinator)
    → log_decision txid abort_all c ≡ (ok d, c1)
    → resend txid c1 ≡ (ok sent, c2)
    → resend_all txids c2 ≡ (ok later, c3)
    → resend_all (txid ∷ txids) c ≡ (ok (sent ++ later), c3)
unfolding resend_all
resend_all-run txid txids sent later d c c1 c2 c3 first second third =
    let m : Action Coordinator (List String) = log_decision txid abort_all >> resend txid in
    let both : m c ≡ (ok sent, c2) =
      bind-ok (log_decision txid abort_all) (λ _. resend txid) c first ∙ second in
    bind-ok m (λ sent. resend_all txids >>= λ later. pure (sent ++ later)) c both
    ∙ bind-ok (resend_all txids) (λ later. pure (sent ++ later)) c2 third

pub whole_result : {A : Type 0} (r : Result A × Coordinator) (a : A) → r.0 ≡ ok a → r ≡ (ok a, r.1)
whole_result r a e = ap (λ (x : Result _). (x, r.1)) e

next-IsResent :
    (txid : String) (txids : List String) (c c1 c2 : Coordinator)
    (r : Result (List String) × Coordinator)
    → IsKept c c1
    → ((name : String)
        → member name (names_in (get c1.log txid)) ≡ true
        → up_at c1 name ≡ true
        → prepared_at c2 name txid ≡ false)
    → IsKept c1 c2
    → IsResent txids c2 r
    → IsResent (txid ∷ txids) c r
next-IsResent txid txids c c1 c2 r a clear b k = record {
  done = k.done;
  kept = IsKept-trans c c1 r.1 a (IsKept-trans c1 c2 r.1 b k.kept);
  clear = λ n t m l u.
      ground
        (arith, l, clear n, k.kept.released n t, k.clear n t, a.names t, b.names t, a.up n, b.up n);
}

pub resend_all-IsResent :
    (txids : List String) (c : Coordinator)
    → IsConsistent c
    → ((txid : String) → member txid txids ≡ true → contains c.log txid ≡ true)
    → IsResent txids c (resend_all txids c)
unfolding resend_all
resend_all-IsResent [] c h logged = record {
  done = ([], refl);
  kept = IsKept-quiet c c (IsQuiet-refl c h);
  clear = λ n t m k u. ground arith;
}
resend_all-IsResent (txid ∷ txids) c h logged = elim (Option-cases (get c.log txid)) [
  | inl e ↦ absurd (ground (arith, logged txid))
  | inr (r, here) ↦
      let dec : Decision = (settle_record txid abort_all r c).0 in
      let c1 : Coordinator = (settle_record txid abort_all r c).1 in
      let sound : IsConsistent c1 = abort-IsConsistent txid r c h here in
      let a = settle_record-IsKept txid abort_all r c here sound in
      let one = resend-IsResent txid dec c1 sound (decision_of-settle_record txid abort_all r c) in
      let c2 : Coordinator = (resend txid c1).1 in
      let rest =
        resend_all-IsResent txids c2 one.kept.consistent
          (λ t m. one.kept.logged t ∙ a.logged t ∙ logged t (ground arith)) in
      let r3 = resend_all txids c2 in
      let (sent, sent_ok) = one.done in
      let (later, later_ok) = rest.done in
      subst (IsResent (txid ∷ txids) c)
        (sym (
          resend_all-run txid txids sent later dec c c1 c2 r3.1
            (log_decision-settles txid abort_all r c here)
            (whole_result (resend txid c1) sent sent_ok) (whole_result r3 later later_ok)))
        (next-IsResent txid txids c c1 c2 (ok (sent ++ later), r3.1) a
          (λ n. one.clear n txid (ground arith)) one.kept
          (record { done = (sent ++ later, refl); kept = rest.kept; clear = rest.clear }))
]
