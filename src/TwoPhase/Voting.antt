-- ===== src/TwoPhase/Voting.antt =====
-- The first phase: collecting the votes keeps the agreement, and a vote for every participant means
-- that each of them holds a promise.
use hld_lld_interview_handbo.Prelude.{
  ◌≡◌, inl, inr, refl, sym, ◌∙◌, arith, String, some, List, [], ◌∷◌, true, false, Bool-cases,
  Option-cases,
}
use mathlib.Core.Path.{subst}
use hld_lld_interview_handbo.Prelude.Int.{ℤ}
use hld_lld_interview_handbo.Dict.{Dict, string_key, get, keys}
use hld_lld_interview_handbo.Common.Error.{Result, ok}
use hld_lld_interview_handbo.Common.Action.{◌>>=◌, pure, bind-ok}
use hld_lld_interview_handbo.TwoPhase.{Vote, yes_vote, no_vote, Participant, prepare, vote_up}
use hld_lld_interview_handbo.TwoPhase.Coordinator.{
  Coordinator, write_participant, member, ask_vote, collect_votes, all_yes,
}
use hld_lld_interview_handbo.TwoPhase.Agreement.{
  IsConsistent, prepared_at, names_in, acked_in, vote-IsConsistent, vote_up-IsVote, vote_up-yes,
  quiet-IsConsistent, prepared_at-write_participant,
}
use hld_lld_interview_handbo.TwoPhase.Resolved.{whole_result}

-- After the participant `name` was asked to vote on `txid`.
record IsAsked (txid name : String) (c : Coordinator) (r : Result Vote × Coordinator) : Type 0 where
  consistent : IsConsistent r.1
  same_log : r.1.log ≡ c.log
  kept : (n other : String) → prepared_at c n other ≡ true → prepared_at r.1 n other ≡ true
  vote : Vote
  done : r.0 ≡ ok vote
  promise : vote ≡ yes_vote → prepared_at r.1 name txid ≡ true

ask_vote-down :
    (txid name : String) (deltas : Dict String ℤ) (p : Participant) (c : Coordinator)
    → get c.participants name ≡ some p
    → p.down ≡ true
    → ask_vote txid name deltas c ≡ (ok no_vote, write_participant name p c)
unfolding ask_vote prepare
ask_vote-down txid name deltas p c here h = rw (here, ask_vote) (rw (h, prepare) refl)

ask_vote-up :
    (txid name : String) (deltas : Dict String ℤ) (p : Participant) (c : Coordinator)
    → get c.participants name ≡ some p
    → p.down ≡ false
    → ask_vote txid name deltas c
      ≡ (ok (vote_up txid deltas p).0, write_participant name (vote_up txid deltas p).1 c)
unfolding ask_vote prepare
ask_vote-up txid name deltas p c here h = rw (here, ask_vote) (rw (h, prepare) refl)

ask_vote-IsAsked :
    (txid name : String) (deltas : Dict String ℤ) (c : Coordinator)
    → IsConsistent c
    → member name (names_in (get c.log txid)) ≡ true
    → acked_in (get c.log txid) ≡ []
    → IsAsked txid name c (ask_vote txid name deltas c)
ask_vote-IsAsked txid name deltas c h named fresh = elim (Option-cases (get c.participants name)) [
  | inl missing ↦ absurd (ground (arith, h.known name txid))
  | inr (p, here) ↦ elim (Bool-cases p.down) [
    | inl down ↦
        subst (IsAsked txid name c) (sym (ask_vote-down txid name deltas p c here down)) (record {
          consistent = quiet-IsConsistent c name p p h here refl refl;
          same_log = refl;
          kept = λ n t e. ground (arith, prepared_at-write_participant c name p n t);
          vote = no_vote;
          done = refl;
          promise = λ e. ground (arith, e);
        })
    | inr up ↦
        let p' : Participant = (vote_up txid deltas p).1 in
        let v = vote_up-IsVote txid deltas p in
        subst (IsAsked txid name c) (sym (ask_vote-up txid name deltas p c here up)) (record {
          consistent = vote-IsConsistent c name txid p p' h here named fresh v;
          same_log = refl;
          kept = λ n t e. ground (arith, prepared_at-write_participant c name p' n t, v.old t);
          vote = (vote_up txid deltas p).0;
          done = refl;
          promise = λ e. ground (
            arith,
            prepared_at-write_participant c name p' name txid,
            vote_up-yes txid deltas p e,
          );
        })
  ]
]

-- After the votes of `plan` were collected.
pub record IsPolled (txid : String) (plan : Dict String (Dict String ℤ)) (c : Coordinator)
    (r : Result (List Vote) × Coordinator) : Type 0 where
  pub consistent : IsConsistent r.1
  pub same_log : r.1.log ≡ c.log
  pub kept : (n other : String) → prepared_at c n other ≡ true → prepared_at r.1 n other ≡ true
  pub votes : List Vote
  pub done : r.0 ≡ ok votes
  pub promises :
      (name : String)
      → all_yes votes ≡ true
      → member name (keys plan) ≡ true
      → prepared_at r.1 name txid ≡ true

all_yes-cases :
    (v : Vote) (votes : List Vote)
    → all_yes (v ∷ votes) ≡ true
    → (v ≡ yes_vote) × (all_yes votes ≡ true)
unfolding all_yes
all_yes-cases yes_vote votes h = (refl, h)
all_yes-cases no_vote votes h = absurd (ground (arith, h))

collect_votes-run :
    (txid name : String) (deltas : Dict String ℤ) (plan : Dict String (Dict String ℤ)) (v : Vote)
    (votes : List Vote) (c c1 c2 : Coordinator)
    → ask_vote txid name deltas c ≡ (ok v, c1)
    → collect_votes txid plan c1 ≡ (ok votes, c2)
    → collect_votes txid ((name, deltas) ∷ plan) c ≡ (ok (v ∷ votes), c2)
unfolding collect_votes
collect_votes-run txid name deltas plan v votes c c1 c2 first second =
    bind-ok (ask_vote txid name deltas) (λ v. collect_votes txid plan >>= λ votes. pure (v ∷ votes))
      c first
    ∙ bind-ok (collect_votes txid plan) (λ votes. pure (v ∷ votes)) c1 second

pub collect_votes-IsPolled :
    (txid : String) (plan : Dict String (Dict String ℤ)) (c : Coordinator)
    → IsConsistent c
    → ((name : String)
        → member name (keys plan) ≡ true
        → member name (names_in (get c.log txid)) ≡ true)
    → acked_in (get c.log txid) ≡ []
    → IsPolled txid plan c (collect_votes txid plan c)
unfolding collect_votes all_yes
collect_votes-IsPolled txid [] c h named fresh = record {
  consistent = h;
  same_log = refl;
  kept = λ _ _ e. e;
  votes = [];
  done = refl;
  promises = λ n y m. ground arith;
}
collect_votes-IsPolled txid ((name, deltas) ∷ plan) c h named fresh =
    let one = ask_vote-IsAsked txid name deltas c h (named name (ground arith)) fresh in
    let c1 : Coordinator = (ask_vote txid name deltas c).1 in
    let rest =
      collect_votes-IsPolled txid plan c1 one.consistent
        (λ n m. rw one.same_log (named n (ground arith))) (rw one.same_log fresh) in
    let r2 = collect_votes txid plan c1 in
    subst (IsPolled txid ((name, deltas) ∷ plan) c)
      (sym (
        collect_votes-run txid name deltas plan one.vote rest.votes c c1 r2.1
          (whole_result (ask_vote txid name deltas c) one.vote one.done)
          (whole_result r2 rest.votes rest.done)))
      (record {
        consistent = rest.consistent;
        same_log = rest.same_log ∙ one.same_log;
        kept = λ n t e. rest.kept n t (one.kept n t e);
        votes = one.vote ∷ rest.votes;
        done = refl;
        promises = λ n y m.
            let (first, later) = all_yes-cases one.vote rest.votes y in
            ground (arith, m, rest.promises n later, rest.kept name txid (one.promise first));
      })
