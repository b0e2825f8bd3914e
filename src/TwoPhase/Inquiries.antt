-- ===== src/TwoPhase/Inquiries.antt =====
-- A participant that comes back asks for the outcome of what it promised: it is told what the log
-- says, and the agreement is kept. The coordinator's recovery leaves nobody that is up in doubt.
use hld_lld_interview_handbo.Prelude.{
  ◌≡◌, ◌⊎◌, inl, inr, refl, sym, ap, ◌∙◌, arith, String, Option, none, some, List, [], ◌∷◌, true,
  false, is_some, Bool-cases, Option-cases,
}
use text.Mathlib.Text.{is_lt}
use Prim.Native.String.{compare}
use mathlib.Core.Path.{subst}
use hld_lld_interview_handbo.Dict.{Dict, string_key, get, contains, keys}
use hld_lld_interview_handbo.Common.Error.{Result, ok, err, node_down}
use hld_lld_interview_handbo.Common.Sorting.{insert_item, sort_items}
use hld_lld_interview_handbo.TwoPhase.{Decision, abort_all, Participant, in_doubt, apply_locked}
use hld_lld_interview_handbo.TwoPhase.Coordinator.{
  Coordinator, TxRecord, decision_of, member, settle_record, decision_for, resolve_one, resolve_all,
  asked, recover_participant, recover, write_participant,
}
use hld_lld_interview_handbo.TwoPhase.Agreement.{
  IsConsistent, prepared_at, names_in, quiet-IsConsistent,
}
use hld_lld_interview_handbo.TwoPhase.Logging.{IsConsistent-flags}
use hld_lld_interview_handbo.TwoPhase.Rounds.{up_at, IsQuiet-refl, apply_locked-IsQuiet}
use hld_lld_interview_handbo.TwoPhase.Resolved.{
  IsKept, IsKept-quiet, IsKept-trans, settle_record-IsKept, abort-IsConsistent,
  decision_of-settle_record, resend_all-IsResent,
}

member-contains : {V : Type 0} (d : Dict String V) (k : String) → member k (keys d) ≡ contains d k
unfolding get
member-contains [] k = refl
member-contains ((j, v) ∷ d) k = ground (arith, member-contains d k)

member-insert_item :
    {V : Type 0} (key : String) (v : V) (d : Dict String V) (k : String)
    → member k (keys (insert_item key v d)) ≡ true
    → (k ≡ key) ⊎ (member k (keys d) ≡ true)
unfolding insert_item
member-insert_item key v [] k h = ground arith
member-insert_item key v ((other, w) ∷ rest) k h = elim (Bool-cases (is_lt (compare key other))) [
  | inl e ↦ ground (arith, rw e at h)
  | inr e ↦ ground (arith, rw e at h, member-insert_item key v rest k)
]

member-sort_items :
    {V : Type 0} (d : Dict String V) (k : String)
    → member k (keys (sort_items d)) ≡ true
    → member k (keys d) ≡ true
unfolding sort_items
member-sort_items [] k h = h
member-sort_items ((j, v) ∷ d) k h =
    ground (arith, member-insert_item j v (sort_items d) k h, member-sort_items d k)

-- What a participant is in doubt about stands in the log.
in_doubt-logged :
    (c : Coordinator) (name txid : String) (p : Participant)
    → IsConsistent c
    → get c.participants name ≡ some p
    → member txid (in_doubt p) ≡ true
    → contains c.log txid ≡ true
unfolding in_doubt
in_doubt-logged c name txid p h here m =
    let mine : contains p.prepared txid ≡ true =
      sym (member-contains p.prepared txid) ∙ member-sort_items p.prepared txid m in
    ground (arith, mine, h.promised name txid)

logged-named : (n : String) (o : Option TxRecord) → member n (names_in o) ≡ true → is_some o ≡ true
logged-named n none m = ground (arith, m)
logged-named n (some r) m = refl

resolve_one-IsKept :
    (name txid : String) (d : Decision) (c : Coordinator)
    → IsConsistent c
    → decision_of txid c ≡ some d
    → IsKept c (resolve_one name txid d c)
resolve_one-IsKept name txid d c h says = elim (Option-cases (get c.participants name)) [
  | inl e ↦ rw (e, resolve_one) (IsKept-quiet c c (IsQuiet-refl c h))
  | inr (p, e) ↦
      let c' : Coordinator = write_participant name (apply_locked txid d p) c in
      rw (e, resolve_one) (IsKept-quiet c c' (apply_locked-IsQuiet c name txid d p h e says))
]

decision_for-down :
    (txid : String) (c : Coordinator) → c.down ≡ true → decision_for txid c ≡ (err node_down, c)
unfolding decision_for
decision_for-down txid c h = ground arith

decision_for-up :
    (txid : String) (r : TxRecord) (c : Coordinator)
    → c.down ≡ false
    → get c.log txid ≡ some r
    → decision_for txid c
      ≡ (ok (settle_record txid abort_all r c).0, (settle_record txid abort_all r c).1)
unfolding decision_for
decision_for-up txid r c h e = ground arith

resolve_all-IsKept :
    (name : String) (txids : List String) (c : Coordinator)
    → IsConsistent c
    → ((txid : String) → member txid txids ≡ true → contains c.log txid ≡ true)
    → IsKept c (resolve_all name txids c)
unfolding resolve_all
resolve_all-IsKept name [] c h logged = IsKept-quiet c c (IsQuiet-refl c h)
resolve_all-IsKept name (txid ∷ txids) c h logged =
    let later : Decision → Coordinator → Coordinator =
      λ d c. resolve_all name txids (resolve_one name txid d c) in
    let Goal : Result Decision × Coordinator → Type 0 = λ a. IsKept c (asked a.0 later a.1) in
    elim (Bool-cases c.down) [
      | inl down ↦
          subst Goal (sym (decision_for-down txid c down)) (IsKept-quiet c c (IsQuiet-refl c h))
      | inr up ↦ elim (Option-cases (get c.log txid)) [
        | inl e ↦ absurd (ground (arith, logged txid))
        | inr (r, e) ↦
            let dec : Decision = (settle_record txid abort_all r c).0 in
            let c1 : Coordinator = (settle_record txid abort_all r c).1 in
            let sound : IsConsistent c1 = abort-IsConsistent txid r c h e in
            let a = settle_record-IsKept txid abort_all r c e sound in
            let c2 : Coordinator = resolve_one name txid dec c1 in
            let b =
              resolve_one-IsKept name txid dec c1 sound
                (decision_of-settle_record txid abort_all r c) in
            let c3 : Coordinator = resolve_all name txids c2 in
            let rest : IsKept c2 c3 =
              resolve_all-IsKept name txids c2 b.consistent
                (λ t m. b.logged t ∙ a.logged t ∙ logged t (ground arith)) in
            subst Goal (sym (decision_for-up txid r c up e))
              (IsKept-trans c c1 c3 a (IsKept-trans c1 c2 c3 b rest))
      ]
    ]

-- The agreement is kept, and every decision made before.
abbrev pub IsSafe : Coordinator → Coordinator → Type 0
IsSafe c c' =
    IsConsistent c'
    × ((txid : String) (d : Decision) → decision_of txid c ≡ some d → decision_of txid c' ≡ some d)

pub recover_participant-IsSafe :
    (name : String) (c : Coordinator) → IsConsistent c → IsSafe c (recover_participant name c)
unfolding recover_participant
recover_participant-IsSafe name c h = elim (Option-cases (get c.participants name)) [
  | inl e ↦ rw (e, recover_participant) (h, λ _ _ k. k)
  | inr (p, e) ↦
      let p' : Participant = record p { down = false } in
      let c' : Coordinator = write_participant name p' c in
      let sound : IsConsistent c' = quiet-IsConsistent c name p p' h e refl refl in
      let kept =
        resolve_all-IsKept name (in_doubt p) c' sound (λ t m. in_doubt-logged c name t p h e m) in
      rw (e, recover_participant) (kept.consistent, kept.stable)
]

-- The coordinator's recovery from any state of agreement returns, keeps the agreement and every
-- decision made before, and afterwards no participant that is up is in doubt about anything.
pub recover-resolves :
    (c : Coordinator)
    → IsConsistent c
    → ((sent : List String) × ((recover c).0 ≡ ok sent))
      × IsSafe c (recover c).1
      × ((name txid : String) → up_at c name ≡ true → prepared_at (recover c).1 name txid ≡ false)
unfolding recover
recover-resolves c h =
    let c' : Coordinator = record c { down = false } in
    let resent =
      resend_all-IsResent (keys c.log) c' (IsConsistent-flags c c' h refl refl)
        (λ t m. sym (member-contains c.log t) ∙ m) in
    let after : Coordinator = (recover c).1 in
    (
      resent.done,
      (resent.kept.consistent, resent.kept.stable),
      λ n t u. elim (Bool-cases (prepared_at after n t)) [
        | inr free ↦ free
        | inl held ↦
            let named : member n (names_in (get c.log t)) ≡ true =
              ap (member n) (sym (resent.kept.names t))
              ∙ resent.kept.consistent.promised n t held in
            let listed : member t (keys c.log) ≡ true =
              member-contains c.log t ∙ logged-named n (get c.log t) named in
            resent.clear n t listed named u
      ],
    )
