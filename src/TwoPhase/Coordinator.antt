-- ===== src/TwoPhase/Coordinator.antt =====
-- The coordinator of code/hld/two_phase_commit.py with the participants that are registered with
-- it, and the recovery of a participant, which asks it. A record of the log is stored under its
-- `txid`, which the record does not repeat.
use hld_lld_interview_handbo.Prelude.{
  String, string_dec, Option, none, some, List, [], ◌∷◌, ◌++◌, Bool, true, false, not, ite,
  if◌then◌else◌,
}
use hld_lld_interview_handbo.Prelude.Int.{ℤ}
use hld_lld_interview_handbo.Dict.{Dict, string_key, empty, get, put, contains, keys}
use hld_lld_interview_handbo.Common.Error.{
  Result, ok, err, validation, not_found, conflict, invalid_state, node_down, key_error,
}
use hld_lld_interview_handbo.Common.Action.{Action, pure, ◌>>=◌, ◌>>◌}
use hld_lld_interview_handbo.Common.Sorting.{sort_items}
use hld_lld_interview_handbo.TwoPhase.{
  Vote, yes_vote, no_vote, Decision, commit_all, abort_all, CrashPoint, before_decision_logged,
  after_decision_logged, Participant, in_doubt, prepare, commit, abort, apply_locked,
}

pub record TxRecord : Type 0 where
  pub participants : List String
  pub decision : Option Decision
  pub acked : List String

abbrev pub member : String → List String → Bool
member x [] = false
member x (y ∷ ys) = let rest = member x ys in ite (string_dec x y) true rest

-- `set(names) <= acked`
unfoldable pub all_in : List String → List String → Bool
all_in [] acked = true
all_in (name ∷ names) acked =
    let rest = all_in names acked in if member name acked then rest else false

unfoldable pub delivered : TxRecord → Bool
delivered r = elim r.decision [ none ↦ false | some d ↦ all_in r.participants r.acked ]

pub record Coordinator : Type 0 where
  pub participants : Dict String Participant
  pub log : Dict String TxRecord
  pub down : Bool
  pub crash_point : Option CrashPoint

abbrev pub new_coordinator : Coordinator
new_coordinator = record { participants = empty; log = empty; down = false; crash_point = none }

abbrev pub register : Participant → Coordinator → Coordinator
register p c = record c { participants = put c.participants p.name p }

abbrev pub crash_at : Option CrashPoint → Coordinator → Coordinator
crash_at point c = record c { crash_point = point }

abbrev pub crash : Coordinator → Coordinator
crash c = record c { down = true }

abbrev pub decision_in : Option TxRecord → Option Decision
decision_in none = none
decision_in (some r) = r.decision

abbrev pub decision_of : String → Coordinator → Option Decision
decision_of txid c = decision_in (get c.log txid)

unfoldable pub undelivered : Dict String TxRecord → Dict String TxRecord
undelivered [] = []
undelivered ((txid, r) ∷ log) =
    let rest = undelivered log in if delivered r then rest else (txid, r) ∷ rest

unfoldable pub pending : Coordinator → List String
pending c = keys (sort_items (undelivered c.log))

abbrev pub was_delivered : Option TxRecord → Bool
was_delivered none = false
was_delivered (some r) = delivered r

abbrev pub write_record : String → TxRecord → Coordinator → Coordinator
write_record txid r c = record c { log = put c.log txid r }

abbrev pub decided_or : Decision → Option Decision → Decision
decided_or d none = d
decided_or d (some e) = e

-- `if record.decision is None: record.decision = decision`, and the decision then.
abbrev pub settle_record : String → Decision → TxRecord → Coordinator → Decision × Coordinator
settle_record txid d r c = (
  decided_or d r.decision,
  write_record txid (record r { decision = some (decided_or d r.decision) }) c,
)

unfoldable pub decision_for : String → Action Coordinator Decision
decision_for txid c = if c.down then (err node_down, c) else elim (get c.log txid) [
  | none ↦ (ok abort_all, c)
  | some r ↦ (ok (settle_record txid abort_all r c).0, (settle_record txid abort_all r c).1)
]

-- A vote that does not come counts as NO.
abbrev pub vote_or_no : Result Vote → Result Vote
vote_or_no (ok v) = ok v
vote_or_no (err node_down) = ok no_vote
vote_or_no (err e) = err e

abbrev pub write_participant : String → Participant → Coordinator → Coordinator
write_participant name p c = record c { participants = put c.participants name p }

unfoldable pub ask_vote : String → String → Dict String ℤ → Action Coordinator Vote
ask_vote txid name deltas c = elim (get c.participants name) [
  | none ↦ (err key_error, c)
  | some p ↦
      let voted = prepare txid deltas p in (vote_or_no voted.0, write_participant name voted.1 c)
]

-- `_collect_votes`, the votes in the order of the plan, whose names are distinct.
unfoldable pub collect_votes : String → Dict String (Dict String ℤ) → Action Coordinator (List Vote)
collect_votes txid [] = pure []
collect_votes txid ((name, deltas) ∷ plan) =
    ask_vote txid name deltas >>= λ v. collect_votes txid plan >>= λ votes. pure (v ∷ votes)

unfoldable pub all_yes : List Vote → Bool
all_yes [] = true
all_yes (no_vote ∷ votes) = false
all_yes (yes_vote ∷ votes) = all_yes votes

-- `_maybe_crash`
abbrev pub is_point : CrashPoint → Option CrashPoint → Bool
is_point before_decision_logged (some before_decision_logged) = true
is_point after_decision_logged (some after_decision_logged) = true
is_point _ _ = false

unfoldable pub maybe_crash : CrashPoint → Action Coordinator Unit
maybe_crash point c =
    if is_point point c.crash_point
    then (err node_down, record c { crash_point = none; down = true })
    else (ok tt, c)

abbrev pub add_name : String → List String → List String
add_name name acked = if member name acked then acked else name ∷ acked

abbrev pub acknowledge : String → String → Coordinator → Coordinator
acknowledge txid name c = elim (get c.log txid) [
  | none ↦ c
  | some r ↦ write_record txid (record r { acked = add_name name r.acked }) c
]

abbrev pub tell : String → Decision → Action Participant Unit
tell txid commit_all = commit txid
tell txid abort_all = abort txid

-- A participant that is down is told later.
abbrev pub told : String → String → Result Unit → Action Coordinator Unit
told txid name (ok _) c = (ok tt, acknowledge txid name c)
told txid name (err node_down) c = (ok tt, c)
told txid name (err e) c = (err e, c)

unfoldable pub deliver : String → Decision → String → Action Coordinator Unit
deliver txid d name c = elim (get c.participants name) [
  | none ↦ (err key_error, c)
  | some p ↦
      let answer = tell txid d p in told txid name answer.0 (write_participant name answer.1 c)
]

abbrev pub has_acked : String → Option TxRecord → Bool
has_acked name none = false
has_acked name (some r) = member name r.acked

unfoldable pub deliver_all : String → Decision → List String → Action Coordinator Unit
deliver_all txid d [] c = (ok tt, c)
deliver_all txid d (name ∷ names) c =
    let skipped = deliver_all txid d names c in
    let sent = (deliver txid d name >> deliver_all txid d names) c in
    if has_acked name (get c.log txid) then skipped else sent

unfoldable pub broadcast : String → Action Coordinator Unit
broadcast txid c = elim (get c.log txid) [
  | none ↦ (err key_error, c)
  | some r ↦ elim r.decision [
    | none ↦ (err invalid_state, c)
    | some d ↦ deliver_all txid d r.participants c
  ]
]

unfoldable pub unknown_names : List String → Dict String Participant → List String
unknown_names [] participants = []
unknown_names (name ∷ names) participants =
    let rest = unknown_names names participants in
    if contains participants name then rest else name ∷ rest

abbrev pub is_empty_list : List String → Bool
is_empty_list [] = true
is_empty_list (_ ∷ _) = false

abbrev pub new_record : List String → TxRecord
new_record names = record { participants = names; decision = none; acked = [] }

-- The commit point, with the record that the log holds.
unfoldable pub log_decision : String → Decision → Action Coordinator Decision
log_decision txid d c = elim (get c.log txid) [
  | none ↦ (err key_error, c)
  | some r ↦ (ok (settle_record txid d r c).0, (settle_record txid d r c).1)
]

abbrev pub outcome : List Vote → Decision
outcome votes = if all_yes votes then commit_all else abort_all

-- `run` from the moment its record is in the log.
unfoldable pub run_logged : String → Dict String (Dict String ℤ) → Action Coordinator Decision
run_logged txid plan = collect_votes txid plan >>= λ votes.
    maybe_crash before_decision_logged >> log_decision txid (outcome votes) >>= λ d.
    maybe_crash after_decision_logged >> broadcast txid >> pure d

unfoldable pub run : String → Dict String (Dict String ℤ) → Action Coordinator Decision
run txid [] c = (err validation, c)
run txid (entry ∷ plan) c =
    if c.down
    then (err node_down, c)
    else if contains c.log txid
    then (err conflict, c)
    else if not (is_empty_list (unknown_names (keys (entry ∷ plan)) c.participants))
    then (err not_found, c)
    else run_logged txid (entry ∷ plan) (write_record txid (new_record (keys (entry ∷ plan))) c)

-- Its decision is in the log by then.
unfoldable pub resend : String → Action Coordinator (List String)
resend txid c =
    if was_delivered (get c.log txid) then (ok [], c) else (broadcast txid >> pure (txid ∷ [])) c

-- The loop of `recover` over the records of the log.
unfoldable pub resend_all : List String → Action Coordinator (List String)
resend_all [] = pure []
resend_all (txid ∷ txids) = log_decision txid abort_all >> resend txid >>= λ sent.
    resend_all txids >>= λ later. pure (sent ++ later)

unfoldable pub recover : Action Coordinator (List String)
recover c = resend_all (keys c.log) (record c { down = false })

-- `Participant.recover`, of the participant registered under `name`.
abbrev pub resolve_one : String → String → Decision → Coordinator → Coordinator
resolve_one name txid d c = elim (get c.participants name) [
  | none ↦ c
  | some p ↦ write_participant name (apply_locked txid d p) c
]

abbrev pub asked :
    Result Decision → (Decision → Coordinator → Coordinator) → Coordinator → Coordinator
asked (ok d) f c = f d c
asked (err e) f c = c

unfoldable pub resolve_all : String → List String → Coordinator → Coordinator
resolve_all name [] c = c
resolve_all name (txid ∷ txids) c =
    let answer = decision_for txid c in
    asked answer.0 (λ d c. resolve_all name txids (resolve_one name txid d c)) answer.1

unfoldable pub recover_participant : String → Coordinator → Coordinator
recover_participant name c = elim (get c.participants name) [
  | none ↦ c
  | some p ↦ resolve_all name (in_doubt p) (write_participant name (record p { down = false }) c)
]
