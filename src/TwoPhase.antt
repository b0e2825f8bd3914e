-- ===== src/TwoPhase.antt =====
-- code/hld/two_phase_commit.py: the participants here, the coordinator in `TwoPhase/Coordinator`.
-- The locks of threads are left out, each call being one step.
pub mod Coordinator
pub mod Agreement
pub mod Logging
pub mod Rounds
pub mod Delivery
pub mod Resolved
pub mod Voting
pub mod Finish
pub mod Runs
pub mod Inquiries
pub mod History
pub mod Atomic
use hld_lld_interview_handbo.Prelude.{
  ℕ, String, string_dec, Option, none, some, List, [], ◌∷◌, Bool, true, false, ite, if◌then◌else◌,
  is_some, map,
}
use hld_lld_interview_handbo.Prelude.Int.{ℤ, pos, ◌+ℤ◌, ltb_ℤ}
use hld_lld_interview_handbo.Dict.{
  Dict, string_key, empty, get, put, remove, update, contains, keys,
}
use hld_lld_interview_handbo.Common.Error.{Result, ok, err, validation, invalid_state, node_down}
use hld_lld_interview_handbo.Common.Action.{Action}
use hld_lld_interview_handbo.Common.Sorting.{sort_items}
use hld_lld_interview_handbo.Common.Text.{is_empty}

pub data Vote : Type 0 where
  yes_vote no_vote : Vote

pub data Decision : Type 0 where
  commit_all abort_all : Decision

pub data CrashPoint : Type 0 where
  before_decision_logged after_decision_logged : CrashPoint

pub record Participant : Type 0 where
  pub name : String
  pub floor : ℤ
  pub data_of : Dict String ℤ
  pub locks : Dict String String
  pub prepared : Dict String (Dict String ℤ)
  pub decided : Dict String Decision
  pub down : Bool
  pub crash_armed : Bool

unfoldable pub new_participant : String → Dict String ℤ → ℤ → Result Participant
new_participant name initial floor =
    if is_empty name
    then err validation
    else ok (record {
      name = name;
      floor = floor;
      data_of = initial;
      locks = empty;
      prepared = empty;
      decided = empty;
      down = false;
      crash_armed = false;
    })

-- `self._data.get(key, 0)`
abbrev pub or_nothing : Option ℤ → ℤ
or_nothing none = pos 0
or_nothing (some n) = n

unfoldable pub balance : String → Participant → ℤ
balance key p = or_nothing (get p.data_of key)

unfoldable pub in_doubt : Participant → List String
in_doubt p = keys (sort_items p.prepared)

abbrev pub locked_keys : Participant → Dict String String
locked_keys p = p.locks

abbrev pub crash : Participant → Participant
crash p = record p { down = true }

abbrev pub crash_after_vote : Participant → Participant
crash_after_vote p = record p { crash_armed = true }

-- `self._locks.get(key, txid) != txid`
abbrev pub is_foreign : String → Option String → Bool
is_foreign txid none = false
is_foreign txid (some holder) = ite (string_dec holder txid) false true

unfoldable pub any_locked : String → Dict String String → Dict String ℤ → Bool
any_locked txid locks [] = false
any_locked txid locks ((key, delta) ∷ deltas) =
    let rest = any_locked txid locks deltas in
    if is_foreign txid (get locks key) then true else rest

unfoldable pub new_values : Dict String ℤ → Dict String ℤ → Dict String ℤ
new_values balances [] = []
new_values balances ((key, delta) ∷ deltas) =
    (key, or_nothing (get balances key) +ℤ delta) ∷ new_values balances deltas

unfoldable pub any_below : ℤ → Dict String ℤ → Bool
any_below floor [] = false
any_below floor ((key, value) ∷ rest) =
    let later = any_below floor rest in if ltb_ℤ value floor then true else later

unfoldable pub lock_all : String → Dict String ℤ → Dict String String → Dict String String
lock_all txid [] locks = locks
lock_all txid ((key, delta) ∷ deltas) locks = lock_all txid deltas (put locks key txid)

-- The promise, and the crash that was armed for it.
abbrev pub promise : String → Dict String ℤ → Participant → Participant
promise txid deltas p = record p {
  locks = lock_all txid deltas p.locks;
  prepared = put p.prepared txid (new_values p.data_of deltas);
  down = if p.crash_armed then true else p.down;
  crash_armed = false;
}

-- What `prepare` does while the participant is up.
unfoldable pub vote_up : String → Dict String ℤ → Participant → Vote × Participant
vote_up txid deltas p =
    if contains p.prepared txid
    then (yes_vote, p)
    else if any_locked txid p.locks deltas
    then (no_vote, p)
    else if any_below p.floor (new_values p.data_of deltas)
    then (no_vote, p)
    else (yes_vote, promise txid deltas p)

unfoldable pub prepare : String → Dict String ℤ → Action Participant Vote
prepare txid deltas p =
    if p.down then (err node_down, p) else (ok (vote_up txid deltas p).0, (vote_up txid deltas p).1)

unfoldable pub unlock : String → Dict String String → Dict String String
unlock txid [] = []
unlock txid ((key, holder) ∷ locks) =
    let rest = unlock txid locks in ite (string_dec holder txid) rest ((key, holder) ∷ rest)

-- The data after the decision.
abbrev pub applied : Decision → Option (Dict String ℤ) → Dict String ℤ → Dict String ℤ
applied commit_all (some pending) balances = update balances pending
applied _ _ balances = balances

-- `_apply_locked`
unfoldable pub apply_locked : String → Decision → Participant → Participant
apply_locked txid decision p = record p {
  data_of = applied decision (get p.prepared txid) p.data_of;
  locks = unlock txid p.locks;
  prepared = remove p.prepared txid;
  decided = put p.decided txid decision;
}

abbrev pub is_commit : Option Decision → Bool
is_commit (some commit_all) = true
is_commit _ = false

unfoldable pub commit : String → Action Participant Unit
commit txid p =
    if p.down
    then (err node_down, p)
    else if contains p.prepared txid
    then (ok tt, apply_locked txid commit_all p)
    else if is_commit (get p.decided txid)
    then (ok tt, apply_locked txid commit_all p)
    else (err invalid_state, p)

unfoldable pub abort : String → Action Participant Unit
abort txid p = if p.down then (err node_down, p) else (ok tt, apply_locked txid abort_all p)
