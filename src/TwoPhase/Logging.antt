-- ===== src/TwoPhase/Logging.antt =====
-- Every write of the coordinator's log keeps what the log and the participants agree on.
use hld_lld_interview_handbo.Prelude.{
  ◌≡◌, ◌⊎◌, inl, inr, sym, arith, String, string_dec, none, some, List, true, false, ite, is_some,
  Option-cases,
}
use mathlib.Core.Path.{subst}
use hld_lld_interview_handbo.Dict.{string_key, get, contains}
use hld_lld_interview_handbo.Dict.Laws.{get-put}
use hld_lld_interview_handbo.TwoPhase.{Decision, commit_all}
use hld_lld_interview_handbo.TwoPhase.Coordinator.{
  Coordinator, TxRecord, decided_or, write_record, new_record, settle_record, acknowledge, add_name,
  member,
}
use hld_lld_interview_handbo.TwoPhase.Agreement.{IsConsistent, prepared_at}

pub get-write_record :
    (txid : String) (r : TxRecord) (c : Coordinator) (other : String)
    → get (write_record txid r c).log other ≡ ite (string_dec txid other) (some r) (get c.log other)
get-write_record txid r c other = get-put c.log txid r other

pub new_record-IsConsistent :
    (txid : String) (names : List String) (c : Coordinator)
    → IsConsistent c
    → contains c.log txid ≡ false
    → ((name : String) → member name names ≡ true → is_some (get c.participants name) ≡ true)
    → IsConsistent (write_record txid (new_record names) c)
new_record-IsConsistent txid names c h new there = record {
  decided = λ name other d e.
      ground (arith, get-write_record txid (new_record names) c other, h.decided name other d);
  promised = λ name other e.
      ground (arith, get-write_record txid (new_record names) c other, h.promised name other);
  committed = λ name other e m.
      ground (arith, get-write_record txid (new_record names) c other, h.committed name other);
  acked = λ name other m.
      ground (arith, get-write_record txid (new_record names) c other, h.acked name other);
  known = λ name other m.
      ground
        (arith, get-write_record txid (new_record names) c other, h.known name other, there name);
}

abbrev settled : Decision → TxRecord → TxRecord
settled d r = record r { decision = some (decided_or d r.decision) }

pub settle_record-IsConsistent :
    (txid : String) (d : Decision) (r : TxRecord) (c : Coordinator)
    → IsConsistent c
    → get c.log txid ≡ some r
    → ((name : String)
        → r.decision ≡ none
        → d ≡ commit_all
        → member name r.participants ≡ true
        → prepared_at c name txid ≡ true)
    → IsConsistent (settle_record txid d r c).1
settle_record-IsConsistent txid d r c h here all = record {
  decided = λ name other e k.
      ground (arith, get-write_record txid (settled d r) c other, h.decided name other e);
  promised = λ name other e.
      ground (arith, get-write_record txid (settled d r) c other, h.promised name other);
  committed = λ name other e m.
      ground (arith, get-write_record txid (settled d r) c other, h.committed name other, all name);
  acked = λ name other m.
      ground (arith, get-write_record txid (settled d r) c other, h.acked name other);
  known = λ name other m.
      ground (arith, get-write_record txid (settled d r) c other, h.known name other);
}

member-add_name :
    (x name : String) (acked : List String)
    → member x (add_name name acked) ≡ true
    → (member x acked ≡ true) ⊎ (x ≡ name)
member-add_name x name acked h = ground (arith, h)

abbrev heard : String → TxRecord → TxRecord
heard name r = record r { acked = add_name name r.acked }

pub acknowledge-IsConsistent :
    (txid name : String) (c : Coordinator)
    → IsConsistent c
    → prepared_at c name txid ≡ false
    → IsConsistent (acknowledge txid name c)
acknowledge-IsConsistent txid name c h free = elim (Option-cases (get c.log txid)) [
  | inl e ↦ rw (e, acknowledge) h
  | inr (r, e) ↦
      rw (e, acknowledge)
        (record {
          decided = λ n other d k.
              ground (arith, get-write_record txid (heard name r) c other, h.decided n other d);
          promised = λ n other k.
              ground (arith, get-write_record txid (heard name r) c other, h.promised n other);
          committed = λ n other k m.
              ground (arith, get-write_record txid (heard name r) c other, h.committed n other);
          acked = λ n other m. ground (
            arith,
            get-write_record txid (heard name r) c other,
            h.acked n other,
            member-add_name n name r.acked,
          );
          known = λ n other m.
              ground (arith, get-write_record txid (heard name r) c other, h.known n other);
        })
]

-- The coordinator's own flags are no part of it.
pub IsConsistent-flags :
    (c c' : Coordinator)
    → IsConsistent c
    → c'.participants ≡ c.participants
    → c'.log ≡ c.log
    → IsConsistent c'
IsConsistent-flags c c' h same same' =
    subst (λ ps. IsConsistent (record c' { participants = ps })) (sym same)
      (subst (λ l. IsConsistent (record c' { participants = c.participants; log = l })) (sym same')
        (record {
          decided = h.decided;
          promised = h.promised;
          committed = h.committed;
          acked = h.acked;
          known = h.known;
        }))
