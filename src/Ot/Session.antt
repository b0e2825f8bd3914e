-- ===== src/Ot/Session.antt =====
-- One client with the server, every other client's submissions coming in between: each call keeps
-- the client's copy in step with the server's log.
use mathlib.Core.Path.{subst}
use hld_lld_interview_handbo.Prelude.{
  ℕ, ◌≡◌, ◌≢◌, ◌⊎◌, inl, inr, ◌∙◌, refl, sym, ap, Option, none, some, List, [], ◌∷◌, ◌++◌, Bool,
  true, false, String, append_assoc, Bool-cases, Option-cases,
}
use hld_lld_interview_handbo.Common.Error.{ok}
use hld_lld_interview_handbo.Ot.{
  Text, Op, AppliedOp, DocumentServer, ClientDocument, rebase, rebase_pair, push, edit, submit,
}
use hld_lld_interview_handbo.Ot.Convergence.{Fits, FitsOpt, patch, patch_opt}
use hld_lld_interview_handbo.Ot.History.{
  replay_ops, rebase-cons, entry, accepted, submit-accepted, rebase-FitsOpt, accepted-IsHistory,
}
use hld_lld_interview_handbo.Ot.Outcomes.{
  IsOp, submit-cases, edit-cases, push-none, push-sent, push-submit,
}
use hld_lld_interview_handbo.Ot.Sync.{NoneOwn, Awaits, Owned, IsCopy, IsSynced, Pushed}

Owned-other :
    (id : String) (sent : Bool) (o : Option Op) (pending : List AppliedOp) (b : AppliedOp)
    → b.client_id ≢ id
    → Owned id sent o pending
    → Owned id sent o (pending ++ b ∷ [])
Owned-other id false o [] b other h = (other, tt)
Owned-other id false o (a ∷ pending) b other h = (h.0, Owned-other id false o pending b other h.1)
Owned-other id true o [] b other h = elim h [ ]
Owned-other id true o (a ∷ pending) b other (inl h) =
    inl (h.0, h.1, Owned-other id false o pending b other h.2)
Owned-other id true o (a ∷ pending) b other (inr h) =
    inr (h.0, Owned-other id true (rebase_pair a.op o).1 pending b other h.1)

Awaits-own :
    (id : String) (o : Option Op) (pending : List AppliedOp) (b : AppliedOp)
    → b.client_id ≡ id
    → b.op ≡ rebase o pending
    → NoneOwn id pending
    → Awaits id o (pending ++ b ∷ [])
Awaits-own id o [] b same op h = inl (same, op ∙ unfold rebase in refl, tt)
Awaits-own id o (a ∷ pending) b same op h =
    inr
      (h.0, Awaits-own id (rebase_pair a.op o).1 pending b same (op ∙ rebase-cons o a pending) h.1)

-- The log grows, and the client has one more entry to pull.
grown :
    (base : Text) (s : DocumentServer) (c c' : ClientDocument) (id : String) (o : Option Op)
    → (h : IsSynced base s c) → FitsOpt s.text o
    → c'.revision ≡ c.revision
    → (c'.outstanding ≡ none → c'.sent ≡ false)
    → IsCopy (replay_ops base h.seen) (h.pending ++ entry id o s ∷ []) c'
    → IsSynced base (accepted id o s) c'
grown base s c c' id o h fits at idle copy = record {
  seen = h.seen;
  pending = h.pending ++ entry id o s ∷ [];
  split =
      ap (λ log. log ++ entry id o s ∷ []) h.split
      ∙ append_assoc h.seen h.pending (entry id o s ∷ []);
  at = at ∙ h.at;
  history = accepted-IsHistory base s id o h.history fits;
  copy = copy;
  idle = idle;
}

pub submit-IsSynced :
    (base : Text) (s : DocumentServer) (c : ClientDocument) (id : String) (op : Op) (revision : ℕ)
    → IsOp op
    → id ≢ c.client_id
    → IsSynced base s c
    → IsSynced base (submit id op revision s).1 c
submit-IsSynced base s c id op revision is_op other h = elim (submit-cases s id op revision is_op) [
  | inl (o, fits, e) ↦
      subst (λ s'. IsSynced base s' c) (sym e)
        (grown base s c c id o h fits refl h.idle (record {
          mine = h.copy.mine;
          text = h.copy.text;
          owned =
              Owned-other c.client_id c.sent c.outstanding h.pending (entry id o s) other
                h.copy.owned;
        }))
  | inr e ↦ subst (λ s'. IsSynced base s' c) (sym e) h
]

pub edit-IsSynced :
    (base : Text) (s : DocumentServer) (c : ClientDocument) (op : Op)
    → IsOp op
    → IsSynced base s c
    → IsSynced base s (edit op c).1
edit-IsSynced base s c op is_op h = elim (edit-cases op c is_op) [
  | inr e ↦ subst (IsSynced base s) (sym e) h
  | inl (idle, fits, e) ↦
      let text : c.text ≡ replay_ops base h.seen =
        h.copy.text ∙ ap (patch_opt (replay_ops base h.seen)) idle in
      let unsent : c.sent ≡ false = h.idle idle in
      subst (IsSynced base s) (sym e) (record {
        seen = h.seen;
        pending = h.pending;
        split = h.split;
        at = h.at;
        history = h.history;
        copy = record {
          mine = subst (λ d. Fits d op) text fits;
          text = ap (λ d. patch d op) text;
          owned =
              subst (λ b. Owned c.client_id b (some op) h.pending) (sym unsent)
                (subst (λ b. Owned c.client_id b c.outstanding h.pending) unsent h.copy.owned);
        };
        idle = λ k. unsent;
      })
]

-- A push has nothing to send, or appends the outstanding operation: the server never refuses it.
push-cases :
    (base : Text) (s : DocumentServer) (c : ClientDocument)
    → (h : IsSynced base s c)
    → ((push (c, s) ≡ (ok false, (c, s))) × Pushed c)
      ⊎ ((op : Op) × (c.outstanding ≡ some op)
          × (c.sent ≡ false)
          × (push (c, s) ≡ (
            ok true,
            (record c { sent = true }, accepted c.client_id (rebase (some op) h.pending) s),
          )))
push-cases base s c h = elim (Option-cases c.outstanding) [
  | inl e ↦ inl (push-none s c e, inr e)
  | inr (op, e) ↦ elim (Bool-cases c.sent) [
    | inl k ↦ inl (push-sent s c op e k, inl k)
    | inr k ↦ inr (
      op,
      e,
      k,
      push-submit s (accepted c.client_id (rebase (some op) h.pending) s) c op
          (entry c.client_id (rebase (some op) h.pending) s) e k
          (subst
            (λ n. submit c.client_id op n s ≡ (
              ok (entry c.client_id (rebase (some op) h.pending) s),
              accepted c.client_id (rebase (some op) h.pending) s,
            ))
            (sym h.at)
            (submit-accepted base s h.seen h.pending c.client_id op h.history h.split
              (subst (FitsOpt (replay_ops base h.seen)) e h.copy.mine))),
    )
  ]
]

-- A push keeps the copy, and afterwards nothing is left to send.
pub push-IsSynced :
    (base : Text) (s : DocumentServer) (c : ClientDocument)
    → IsSynced base s c
    → (r : Bool) × (s' : DocumentServer) × (c' : ClientDocument) × (push (c, s) ≡ (ok r, (c', s')))
      × IsSynced base s' c'
      × Pushed c'
      × (c'.client_id ≡ c.client_id)
push-IsSynced base s c h = elim (push-cases base s c h) [
  | inl (e, pushed) ↦ (false, s, c, e, h, pushed, refl)
  | inr (op, some_op, unsent, e) ↦
      let o : Option Op = rebase (some op) h.pending in
      (
        true,
        accepted c.client_id o s,
        record c { sent = true },
        e,
        grown base s c (record c { sent = true }) c.client_id o h
            (rebase-FitsOpt base s h.seen h.pending op h.history h.split
              (subst (FitsOpt (replay_ops base h.seen)) some_op h.copy.mine))
            refl (λ k. cc)
            (record {
              mine = h.copy.mine;
              text = h.copy.text;
              owned =
                  subst (λ q. Awaits c.client_id q (h.pending ++ entry c.client_id o s ∷ []))
                    (sym some_op)
                    (Awaits-own c.client_id (some op) h.pending (entry c.client_id o s) refl refl (
                      subst (λ b. Owned c.client_id b c.outstanding h.pending) unsent
                        h.copy.owned));
            }),
        inl refl,
        refl,
      )
]
