-- ===== src/Tests/CommitRuns.antt =====
-- Two-phase commit between two participants.
use hld_lld_interview_handbo.Prelude.{
  ◌≡◌, refl, String, string_dec, some, List, [], ◌∷◌, true, false, All,
}
use hld_lld_interview_handbo.Prelude.Int.{ℤ, pos, negsuc, ◌+ℤ◌}
use hld_lld_interview_handbo.Dict.{Dict, string_key, empty, get, put, remove, update, keys}
use hld_lld_interview_handbo.Common.Error.{ok}
use hld_lld_interview_handbo.Common.Text.{is_empty}
use hld_lld_interview_handbo.Common.Sorting.{sort_items, insert_item}
use hld_lld_interview_handbo.TwoPhase.{
  commit_all, abort_all, before_decision_logged, after_decision_logged, Participant,
  new_participant, in_doubt, any_locked, new_values, any_below, lock_all, vote_up, prepare, unlock,
  apply_locked, commit, abort,
}
use hld_lld_interview_handbo.TwoPhase.Coordinator.{
  Coordinator, decision_of, member, run, recover, all_in, delivered, decision_for, ask_vote,
  collect_votes, all_yes, maybe_crash, deliver, deliver_all, broadcast, unknown_names, log_decision,
  run_logged, resend, resend_all, resolve_all, recover_participant,
}
use hld_lld_interview_handbo.TwoPhase.Agreement.{decided_at, prepared_at, names_in}
use hld_lld_interview_handbo.TwoPhase.Rounds.{up_at}
use hld_lld_interview_handbo.TwoPhase.History.{
  Event, runs, recovers, will_crash, participant_recovers, participant_crashes, change, happen,
  happen_all, IsNew, registered,
}
use hld_lld_interview_handbo.TwoPhase.Atomic.{
  decisions_agree, recover_unblocks, commit_never_fails, run_decides,
}

abbrev fresh : String → Dict String ℤ → Participant
fresh name data_of = record {
  name = name;
  floor = pos 0;
  data_of = data_of;
  locks = empty;
  prepared = empty;
  decided = empty;
  down = false;
  crash_armed = false;
}

abbrev both : List Participant
both = fresh "orders" (("alice", pos 100) ∷ []) ∷ fresh "payments" (("bob", pos 5) ∷ []) ∷ []

both-IsNew : All IsNew both
unfolding new_participant is_empty
both-IsNew = ((_, pos 0, refl), ((_, pos 0, refl), tt))

abbrev transfer : Dict String (Dict String ℤ)
transfer = ("orders", ("alice", negsuc 29) ∷ []) ∷ ("payments", ("bob", pos 30) ∷ []) ∷ []

-- A participant is down during the vote, so that the transaction is aborted.
abbrev down_while_voting : List Event
down_while_voting = participant_crashes "payments" ∷ runs "tx-1" transfer ∷ []

abbrev after_it : List Event
after_it = participant_recovers "payments" ∷ recovers ∷ []

aborted_first :
    decided_at (happen_all down_while_voting (registered both)) "orders" "tx-1" ≡ some abort_all
unfolding registered happen_all happen change run unknown_names run_logged collect_votes ask_vote
    prepare vote_up any_locked new_values any_below lock_all maybe_crash log_decision all_yes get
    put remove string_dec ◌+ℤ◌ broadcast deliver_all deliver commit abort apply_locked unlock update
aborted_first = refl

aborted_later :
    decided_at
      (happen_all after_it (happen_all down_while_voting (registered both)))
      "payments"
      "tx-1"
    ≡ some abort_all
unfolding registered happen_all happen change run unknown_names run_logged collect_votes ask_vote
    prepare vote_up any_locked new_values any_below lock_all maybe_crash log_decision all_yes get
    put remove string_dec ◌+ℤ◌ broadcast deliver_all deliver commit abort apply_locked unlock update
    recover_participant resolve_all decision_for in_doubt sort_items insert_item recover resend_all
    resend delivered all_in
aborted_later = refl

decisions_agree_example : abort_all ≡ abort_all
decisions_agree_example =
    decisions_agree both down_while_voting after_it "orders" "payments" "tx-1" abort_all abort_all
      both-IsNew aborted_first aborted_later

-- The coordinator dies before its decision is in the log, and both participants are in doubt.
abbrev blocked : List Event
blocked = will_crash (some before_decision_logged) ∷ runs "tx-4" transfer ∷ []

recover_unblocks_example :
    let c = happen_all blocked (registered both) in
    ((sent : List String) × ((recover c).0 ≡ ok sent))
    × ((name txid : String) → up_at c name ≡ true → prepared_at (recover c).1 name txid ≡ false)
recover_unblocks_example = recover_unblocks both blocked both-IsNew

-- The coordinator dies after its decision is in the log, and nobody was told.
abbrev untold : List Event
untold = will_crash (some after_decision_logged) ∷ runs "tx-6" transfer ∷ []

abbrev untold_state : Coordinator
untold_state = happen_all untold (registered both)

abbrev promised : Participant
promised = record (fresh "orders" (("alice", pos 100) ∷ [])) {
  locks = ("alice", "tx-6") ∷ [];
  prepared = ("tx-6", ("alice", pos 70) ∷ []) ∷ [];
}

untold_facts :
    (decision_of "tx-6" untold_state ≡ some commit_all)
    × (member "orders" (names_in (get untold_state.log "tx-6")) ≡ true)
    × (get untold_state.participants "orders" ≡ some promised)
unfolding registered happen_all happen change run unknown_names run_logged collect_votes ask_vote
    prepare vote_up any_locked new_values any_below lock_all maybe_crash log_decision all_yes get
    put remove string_dec ◌+ℤ◌
untold_facts = (refl, refl, refl)

commit_never_fails_example : (commit "tx-6" promised).0 ≡ ok tt
commit_never_fails_example =
    commit_never_fails both untold "orders" "tx-6" promised both-IsNew untold_facts.0 untold_facts.1
      untold_facts.2 refl

aborted_again :
    (run "tx-2" transfer (happen_all down_while_voting (registered both))).0 ≡ ok abort_all
unfolding registered happen_all happen change run unknown_names run_logged collect_votes ask_vote
    prepare vote_up any_locked new_values any_below lock_all maybe_crash log_decision all_yes get
    put remove string_dec ◌+ℤ◌ broadcast deliver_all deliver commit abort apply_locked unlock update
aborted_again = refl

run_decides_example :
    let r = run "tx-2" transfer (happen_all down_while_voting (registered both)) in
    (decision_of "tx-2" r.1 ≡ some abort_all)
    × ((name : String)
        → member name (keys transfer) ≡ true
        → up_at r.1 name ≡ true
        → prepared_at r.1 name "tx-2" ≡ false)
run_decides_example =
    run_decides both down_while_voting "tx-2" transfer abort_all both-IsNew aborted_again
