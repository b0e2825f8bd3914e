-- ===== src/TwoPhase/Delivery.antt =====
-- Delivering a decision to the participants of a transaction never raises, and leaves none of those
-- that are up in doubt.
use hld_lld_interview_handbo.Prelude.{
  ◌≡◌, ◌⊎◌, inl, inr, refl, sym, ap, ◌∙◌, arith, String, some, List, [], ◌∷◌, true, false,
  Bool-cases, Option-cases,
}
use mathlib.Core.Path.{subst}
use hld_lld_interview_handbo.Dict.{string_key, get, contains}
use hld_lld_interview_handbo.Common.Error.{Result, ok}
use hld_lld_interview_handbo.Common.Action.{bind-ok}
use hld_lld_interview_handbo.TwoPhase.{Decision, commit_all, Participant, apply_locked}
use hld_lld_interview_handbo.TwoPhase.Coordinator.{
  Coordinator, decision_of, write_participant, acknowledge, member, told, deliver, deliver_all,
  broadcast, has_acked,
}
use hld_lld_interview_handbo.TwoPhase.Agreement.{IsConsistent, prepared_at, names_in}
use hld_lld_interview_handbo.TwoPhase.Rounds.{
  up_at, IsQuiet, IsQuiet-refl, IsQuiet-trans, acknowledge-IsQuiet, write_back-IsQuiet,
  apply_locked-IsQuiet, cleared, tell-up, tell-down,
}

-- After a delivery of `txid` to `names`.
pub record IsTold (txid : String) (names : List String) (c : Coordinator)
    (r : Result Unit × Coordinator) : Type 0 where
  pub done : r.0 ≡ ok tt
  pub quiet : IsQuiet c r.1
  pub clear :
      (name : String)
      → member name names ≡ true
      → up_at c name ≡ true
      → prepared_at r.1 name txid ≡ false

deliver-down :
    (txid name : String) (d : Decision) (p : Participant) (c : Coordinator)
    → get c.participants name ≡ some p
    → p.down ≡ true
    → deliver txid d name c ≡ (ok tt, write_participant name p c)
unfolding deliver
deliver-down txid name d p c here h =
    rw (here, deliver)
      (ap (λ (a : Result Unit × Participant). told txid name a.0 (write_participant name a.1 c))
        (tell-down txid d p h))

deliver-up :
    (txid name : String) (d : Decision) (p : Participant) (c : Coordinator)
    → IsConsistent c
    → get c.participants name ≡ some p
    → p.down ≡ false
    → decision_of txid c ≡ some d
    → member name (names_in (get c.log txid)) ≡ true
    → deliver txid d name c
      ≡ (ok tt, acknowledge txid name (write_participant name (apply_locked txid d p) c))
unfolding deliver
deliver-up txid name d p c h here up says named =
    let ready : d ≡ commit_all
        → (contains p.prepared txid ≡ true) ⊎ (get p.decided txid ≡ some commit_all) =
      λ e. ground (arith, h.committed name txid) in
    rw (here, deliver)
      (ap (λ (a : Result Unit × Participant). told txid name a.0 (write_participant name a.1 c))
        (tell-up txid d p up ready))

deliver-IsTold :
    (txid name : String) (d : Decision) (c : Coordinator)
    → IsConsistent c
    → decision_of txid c ≡ some d
    → member name (names_in (get c.log txid)) ≡ true
    → IsTold txid (name ∷ []) c (deliver txid d name c)
deliver-IsTold txid name d c h says named = elim (Option-cases (get c.participants name)) [
  | inl missing ↦ absurd (ground (arith, h.known name txid))
  | inr (p, here) ↦ elim (Bool-cases p.down) [
    | inl down ↦
        subst (IsTold txid (name ∷ []) c) (sym (deliver-down txid name d p c here down)) (record {
          done = refl;
          quiet = write_back-IsQuiet c name p h here;
          clear = λ n m u. ground arith;
        })
    | inr up ↦
        let c' : Coordinator = write_participant name (apply_locked txid d p) c in
        let told_one = apply_locked-IsQuiet c name txid d p h here says in
        let free : prepared_at c' name txid ≡ false = cleared c name txid d p in
        let heard = acknowledge-IsQuiet txid name c' told_one.consistent free in
        subst (IsTold txid (name ∷ []) c) (sym (deliver-up txid name d p c h here up says named))
          (record {
            done = refl;
            quiet = IsQuiet-trans c c' (acknowledge txid name c') told_one heard;
            clear = λ n m u. heard.released n txid (ground arith);
          })
  ]
]

next-IsTold :
    (txid name : String) (names : List String) (c c' : Coordinator) (r : Result Unit × Coordinator)
    → IsTold txid (name ∷ []) c (ok tt, c')
    → IsTold txid names c' r
    → IsTold txid (name ∷ names) c r
next-IsTold txid name names c c' r h k = record {
  done = k.done;
  quiet = IsQuiet-trans c c' r.1 h.quiet k.quiet;
  clear = λ n m u. ground (arith, h.clear n, k.quiet.released n txid, k.clear n, h.quiet.up n);
}

pub deliver_all-IsTold :
    (txid : String) (d : Decision) (names : List String) (c : Coordinator)
    → IsConsistent c
    → decision_of txid c ≡ some d
    → ((name : String) → member name names ≡ true → member name (names_in (get c.log txid)) ≡ true)
    → IsTold txid names c (deliver_all txid d names c)
unfolding deliver_all
deliver_all-IsTold txid d [] c h says named = record {
  done = refl;
  quiet = IsQuiet-refl c h;
  clear = λ n m u. ground arith;
}
deliver_all-IsTold txid d (name ∷ names) c h says named =
    elim (Bool-cases (has_acked name (get c.log txid))) [
      | inl skip ↦ rw skip (
          next-IsTold txid name names c c (deliver_all txid d names c)
            (record {
              done = refl;
              quiet = IsQuiet-refl c h;
              clear = λ n m u. ground (arith, h.acked name txid);
            })
            (deliver_all-IsTold txid d names c h says (λ n m. named n (ground arith))))
      | inr send ↦
          let r : Result Unit × Coordinator = deliver txid d name c in
          let first : IsTold txid (name ∷ []) c r =
            deliver-IsTold txid name d c h says (named name (ground arith)) in
          let whole : ◌≡◌ {A = Result Unit × Coordinator} r (ok tt, r.1) =
            ap (λ (a : Result Unit). (a, r.1)) first.done in
          rw send (
            subst (IsTold txid (name ∷ names) c)
              (sym (bind-ok (deliver txid d name) (λ _. deliver_all txid d names) c whole))
              (next-IsTold txid name names c r.1 (deliver_all txid d names r.1)
                (subst (IsTold txid (name ∷ []) c) whole first)
                (deliver_all-IsTold txid d names r.1 first.quiet.consistent
                  (first.quiet.decision txid ∙ says)
                  (λ n m. rw (first.quiet.names txid) (named n (ground arith))))))
    ]

pub broadcast-IsTold :
    (txid : String) (d : Decision) (c : Coordinator)
    → IsConsistent c
    → decision_of txid c ≡ some d
    → IsTold txid (names_in (get c.log txid)) c (broadcast txid c)
unfolding broadcast
broadcast-IsTold txid d c h says = elim (Option-cases (get c.log txid)) [
  | inl e ↦ absurd (ground arith)
  | inr (r, e) ↦
      let settled : r.decision ≡ some d = ground arith in
      rw (e, broadcast)
        (rw settled (deliver_all-IsTold txid d r.participants c h says (λ n m. ground arith)))
]
