-- ===== src/TwoPhase/Agreement.antt =====
-- What the log and the participants agree on, and that each part of the protocol keeps it.
use hld_lld_interview_handbo.Prelude.{
  ◌≡◌, ◌⊎◌, inl, refl, arith, String, string_dec, Option, none, some, List, [], Bool, true, false,
  ite, is_some,
}
use hld_lld_interview_handbo.Prelude.Int.{ℤ}
use hld_lld_interview_handbo.Dict.{Dict, string_key, get, contains}
use hld_lld_interview_handbo.Dict.Laws.{get-put, get-remove}
use hld_lld_interview_handbo.TwoPhase.{
  yes_vote, Decision, commit_all, Participant, apply_locked, vote_up, promise, new_values,
}
use hld_lld_interview_handbo.TwoPhase.Coordinator.{
  Coordinator, TxRecord, decision_of, write_participant, member,
}

abbrev pub decided_by : Option Participant → String → Option Decision
decided_by none txid = none
decided_by (some p) txid = get p.decided txid

-- The decision that a participant has carried out.
abbrev pub decided_at : Coordinator → String → String → Option Decision
decided_at c name txid = decided_by (get c.participants name) txid

abbrev pub prepared_by : Option Participant → String → Bool
prepared_by none txid = false
prepared_by (some p) txid = contains p.prepared txid

-- A participant has promised and not heard of the decision.
abbrev pub prepared_at : Coordinator → String → String → Bool
prepared_at c name txid = prepared_by (get c.participants name) txid

abbrev pub names_in : Option TxRecord → List String
names_in none = []
names_in (some r) = r.participants

abbrev pub acked_in : Option TxRecord → List String
acked_in none = []
acked_in (some r) = r.acked

-- Participants carry out what the log says and promise only what names them; one that a committed
-- transaction names has carried it out or still holds its promise; one that has acknowledged a
-- decision holds none; and the log names only participants that are registered.
pub record IsConsistent (c : Coordinator) : Type 0 where
  pub decided :
      (name txid : String) (d : Decision)
      → decided_at c name txid ≡ some d
      → decision_of txid c ≡ some d
  pub promised :
      (name txid : String)
      → prepared_at c name txid ≡ true
      → member name (names_in (get c.log txid)) ≡ true
  pub committed :
      (name txid : String)
      → decision_of txid c ≡ some commit_all
      → member name (names_in (get c.log txid)) ≡ true
      → (prepared_at c name txid ≡ true) ⊎ (decided_at c name txid ≡ some commit_all)
  pub acked :
      (name txid : String)
      → member name (acked_in (get c.log txid)) ≡ true
      → prepared_at c name txid ≡ false
  pub known :
      (name txid : String)
      → member name (names_in (get c.log txid)) ≡ true
      → is_some (get c.participants name) ≡ true

pub known-write_participant :
    (c : Coordinator) (n : String) (p : Participant) (name : String)
    → get (write_participant n p c).participants name
      ≡ ite (string_dec n name) (some p) (get c.participants name)
known-write_participant c n p name = get-put c.participants n p name

pub decided_at-write_participant :
    (c : Coordinator) (n : String) (p : Participant) (name txid : String)
    → decided_at (write_participant n p c) name txid
      ≡ ite (string_dec n name) (get p.decided txid) (decided_at c name txid)
decided_at-write_participant c n p name txid = ground (arith, get-put c.participants n p name)

pub prepared_at-write_participant :
    (c : Coordinator) (n : String) (p : Participant) (name txid : String)
    → prepared_at (write_participant n p c) name txid
      ≡ ite (string_dec n name) (contains p.prepared txid) (prepared_at c name txid)
prepared_at-write_participant c n p name txid = ground (arith, get-put c.participants n p name)

-- What a participant may do to its own decisions and promises when it votes on `txid`.
pub record IsVote (txid : String) (p p' : Participant) : Type 0 where
  pub same : p'.decided ≡ p.decided
  pub old : (other : String) → contains p.prepared other ≡ true → contains p'.prepared other ≡ true
  pub new_one :
      (other : String)
      → contains p'.prepared other ≡ true
      → (contains p.prepared other ≡ true) ⊎ (txid ≡ other)

IsVote-refl : (txid : String) (p : Participant) → IsVote txid p p
IsVote-refl txid p = record { same = refl; old = λ _ h. h; new_one = λ _ h. inl h }

get-promise :
    (txid other : String) (deltas : Dict String ℤ) (p : Participant)
    → get (promise txid deltas p).prepared other
      ≡ ite (string_dec txid other) (some (new_values p.data_of deltas)) (get p.prepared other)
get-promise txid other deltas p = get-put p.prepared txid (new_values p.data_of deltas) other

promise-IsVote :
    (txid : String) (deltas : Dict String ℤ) (p : Participant)
    → IsVote txid p (promise txid deltas p)
promise-IsVote txid deltas p = record {
  same = refl;
  old = λ other h. ground (arith, get-promise txid other deltas p);
  new_one = λ other h. ground (arith, get-promise txid other deltas p);
}

pub vote_up-IsVote :
    (txid : String) (deltas : Dict String ℤ) (p : Participant)
    → IsVote txid p (vote_up txid deltas p).1
unfolding vote_up
vote_up-IsVote txid deltas p = ground (arith, IsVote-refl txid p, promise-IsVote txid deltas p)

pub vote_up-yes :
    (txid : String) (deltas : Dict String ℤ) (p : Participant)
    → (vote_up txid deltas p).0 ≡ yes_vote
    → contains (vote_up txid deltas p).1.prepared txid ≡ true
unfolding vote_up
vote_up-yes txid deltas p h = ground (arith, get-promise txid txid deltas p)

pub vote-IsConsistent :
    (c : Coordinator) (n txid : String) (p p' : Participant)
    → IsConsistent c
    → get c.participants n ≡ some p
    → member n (names_in (get c.log txid)) ≡ true
    → acked_in (get c.log txid) ≡ []
    → IsVote txid p p'
    → IsConsistent (write_participant n p' c)
vote-IsConsistent c n txid p p' h here named fresh v = record {
  decided = λ name other d e.
      ground
        (arith, decided_at-write_participant c n p' name other, v.same, h.decided name other d);
  promised = λ name other e. ground (
    arith,
    prepared_at-write_participant c n p' name other,
    v.new_one other,
    h.promised name other,
  );
  committed = λ name other e m. ground (
    arith,
    prepared_at-write_participant c n p' name other,
    decided_at-write_participant c n p' name other,
    v.same,
    v.old other,
    h.committed name other,
  );
  acked = λ name other m.
      ground (
        arith,
        prepared_at-write_participant c n p' name other,
        v.new_one other,
        h.acked name other,
      );
  known = λ name other m. ground (arith, known-write_participant c n p' name, h.known name other);
}

pub get-apply_locked :
    (txid other : String) (d : Decision) (p : Participant)
    → (get (apply_locked txid d p).decided other
        ≡ ite (string_dec txid other) (some d) (get p.decided other))
      × (get (apply_locked txid d p).prepared other
          ≡ ite (string_dec txid other) none (get p.prepared other))
unfolding apply_locked
get-apply_locked txid other d p = (get-put p.decided txid d other, get-remove p.prepared txid other)

pub apply_locked-IsConsistent :
    (c : Coordinator) (n txid : String) (d : Decision) (p : Participant)
    → IsConsistent c
    → get c.participants n ≡ some p
    → decision_of txid c ≡ some d
    → IsConsistent (write_participant n (apply_locked txid d p) c)
apply_locked-IsConsistent c n txid d p h here says = record {
  decided = λ name other e k. ground (
    arith,
    decided_at-write_participant c n (apply_locked txid d p) name other,
    get-apply_locked txid other d p,
    h.decided name other e,
  );
  promised = λ name other e. ground (
    arith,
    prepared_at-write_participant c n (apply_locked txid d p) name other,
    get-apply_locked txid other d p,
    h.promised name other,
  );
  committed = λ name other e m. ground (
    arith,
    prepared_at-write_participant c n (apply_locked txid d p) name other,
    decided_at-write_participant c n (apply_locked txid d p) name other,
    get-apply_locked txid other d p,
    h.committed name other,
  );
  acked = λ name other m. ground (
    arith,
    prepared_at-write_participant c n (apply_locked txid d p) name other,
    get-apply_locked txid other d p,
    h.acked name other,
  );
  known = λ name other m.
      ground (arith, known-write_participant c n (apply_locked txid d p) name, h.known name other);
}

-- Nothing but a participant's own flags changes.
pub quiet-IsConsistent :
    (c : Coordinator) (n : String) (p p' : Participant)
    → IsConsistent c
    → get c.participants n ≡ some p
    → p'.decided ≡ p.decided
    → p'.prepared ≡ p.prepared
    → IsConsistent (write_participant n p' c)
quiet-IsConsistent c n p p' h here same same' = record {
  decided = λ name other d e.
      ground (arith, decided_at-write_participant c n p' name other, same, h.decided name other d);
  promised = λ name other e.
      ground (arith, prepared_at-write_participant c n p' name other, same', h.promised name other);
  committed = λ name other e m. ground (
    arith,
    prepared_at-write_participant c n p' name other,
    decided_at-write_participant c n p' name other,
    same,
    same',
    h.committed name other,
  );
  acked = λ name other m.
      ground (arith, prepared_at-write_participant c n p' name other, same', h.acked name other);
  known = λ name other m. ground (arith, known-write_participant c n p' name, h.known name other);
}
