-- ===== src/Ot/Outcomes.antt =====
-- Every outcome of the client's and the server's calls, each as an equation.
use mathlib.Core.Path.{subst}
use hld_lld_interview_handbo.Prelude.{
  ℕ, ◌<◌, ◌≡◌, ◌⊎◌, inl, inr, ◌∙◌, refl, sym, ap, Option, none, some, List, [], ◌∷◌, Bool, true,
  false, arith, length, drop, String, Bool-cases, Option-cases, ltb,
}
use hld_lld_interview_handbo.Common.Error.{Result, ok, err, validation, invalid_state}
use hld_lld_interview_handbo.Ot.{
  Text, Op, insert, delete, transform, AppliedOp, DocumentServer, ClientDocument, rebase,
  rebase_pair, apply_opt, push, edit, submit, accept, apply_op,
}
use hld_lld_interview_handbo.Ot.Convergence.{Fits, FitsOpt, patch, apply_op-eq-patch}
use hld_lld_interview_handbo.Ot.History.{rebase-cons, accepted, accept-FitsOpt}

-- What the constructors of an operation check.
abbrev pub IsOp : Op → Type 0
IsOp (insert p s) = 0 < length s
IsOp (delete p n) = 0 < n

abbrev IsOpOpt : Option Op → Type 0
IsOpOpt none = Unit
IsOpOpt (some op) = IsOp op

pub transform-IsOp : (a b : Op) (f : Bool) → IsOp a → IsOpOpt (transform a b f)
unfolding transform
transform-IsOp (insert p s) (insert q t) f h = ground arith
transform-IsOp (insert p s) (delete q n) f h = ground arith
transform-IsOp (delete p n) (insert q t) f h = ground arith
transform-IsOp (delete p n) (delete q m) f h = ground arith

pub rebase_pair-IsOp : (r o : Option Op) → IsOpOpt o → IsOpOpt (rebase_pair r o).1
unfolding rebase_pair
rebase_pair-IsOp none o h = h
rebase_pair-IsOp (some r) none h = tt
rebase_pair-IsOp (some r) (some m) h = transform-IsOp m r false h

pub rebase-IsOp : (o : Option Op) (log : List AppliedOp) → IsOpOpt o → IsOpOpt (rebase o log)
unfolding rebase
rebase-IsOp o [] h = h
rebase-IsOp o (a ∷ log) h =
    rw (rebase-cons o a log) (rebase-IsOp (rebase_pair a.op o).1 log (rebase_pair-IsOp a.op o h))

-- An operation fits, or applying it raises.
pub apply_op-cases : (d : Text) (op : Op) → IsOp op → Fits d op ⊎ (apply_op d op ≡ err validation)
unfolding apply_op
apply_op-cases d (insert p s) h = ground arith
apply_op-cases d (delete p n) h = ground arith

pub apply_opt-cases :
    (d : Text) (o : Option Op) → IsOpOpt o → FitsOpt d o ⊎ (apply_opt d o ≡ err validation)
apply_opt-cases d none h = inl tt
apply_opt-cases d (some op) h = apply_op-cases d op h

pub accept-cases :
    (s : DocumentServer) (id : String) (o : Option Op)
    → IsOpOpt o
    → (FitsOpt s.text o × ((accept id o s).1 ≡ accepted id o s)) ⊎ ((accept id o s).1 ≡ s)
unfolding accept
accept-cases s id o h = elim (apply_opt-cases s.text o h) [
  | inl fits ↦ inl (fits, ap (λ r. r.1) (accept-FitsOpt s id o fits))
  | inr e ↦ inr (rw (e, accept))
]

-- Whatever is submitted, the server stays or appends an operation that fits its text.
pub submit-cases :
    (s : DocumentServer) (id : String) (op : Op) (revision : ℕ)
    → IsOp op
    → ((o : Option Op) × FitsOpt s.text o × ((submit id op revision s).1 ≡ accepted id o s))
      ⊎ ((submit id op revision s).1 ≡ s)
unfolding submit
submit-cases s id op revision h = elim (Bool-cases (ltb (length s.log) revision)) [
  | inl e ↦ inr (rw (e, submit))
  | inr e ↦
      elim (accept-cases s id (rebase (some op) (drop revision s.log))
        (rebase-IsOp (some op) (drop revision s.log) h)) [
          | inl (fits, k) ↦ inl (rebase (some op) (drop revision s.log), fits, rw (e, submit) k)
          | inr k ↦ inr (rw (e, submit) k)
        ]
]

abbrev applied_edit : Op → ClientDocument → Result Text → Result Unit × ClientDocument
applied_edit op c (err e) = (err e, c)
applied_edit op c (ok text) = (ok tt, record c { text = text; outstanding = some op })

pub edit-idle :
    (op : Op) (c : ClientDocument)
    → c.outstanding ≡ none
    → edit op c ≡ applied_edit op c (apply_op c.text op)
unfolding edit
edit-idle op c e =
    ap
      (λ o. elim o [
        | some _ ↦ (err invalid_state, c)
        | none ↦ elim (apply_op c.text op) [
          | err e ↦ (err e, c)
          | ok text ↦ (ok tt, record c { text = text; outstanding = some op })
        ]
      ])
      e
    ∙ elim (apply_op c.text op) [ err e ↦ refl | ok text ↦ refl ]

-- An edit is refused, or it becomes the one outstanding operation.
pub edit-cases :
    (op : Op) (c : ClientDocument)
    → IsOp op
    → ((c.outstanding ≡ none)
        × Fits c.text op
        × ((edit op c).1 ≡ record c { text = patch c.text op; outstanding = some op }))
      ⊎ ((edit op c).1 ≡ c)
unfolding edit
edit-cases op c is_op = elim (Option-cases c.outstanding) [
  | inr (o, e) ↦ inr (simp (e, edit))
  | inl e ↦ elim (apply_op-cases c.text op is_op) [
    | inl fits ↦ inl (
      e,
      fits,
      ap (λ r. r.1) (edit-idle op c e ∙ ap (applied_edit op c) (apply_op-eq-patch c.text op fits)),
    )
    | inr k ↦ inr (ap (λ r. r.1) (edit-idle op c e ∙ ap (applied_edit op c) k))
  ]
]

pub push-none :
    (s : DocumentServer) (c : ClientDocument)
    → c.outstanding ≡ none
    → push (c, s) ≡ (ok false, (c, s))
unfolding push
push-none s c e = simp (e, push)

pub push-sent :
    (s : DocumentServer) (c : ClientDocument) (op : Op)
    → c.outstanding ≡ some op
    → c.sent ≡ true
    → push (c, s) ≡ (ok false, (c, s))
unfolding push
push-sent s c op e k = simp (e, k, push)

pub push-submit :
    (s s' : DocumentServer) (c : ClientDocument) (op : Op) (a : AppliedOp)
    → c.outstanding ≡ some op
    → c.sent ≡ false
    → submit c.client_id op c.revision s ≡ (ok a, s')
    → push (c, s) ≡ (ok true, (record c { sent = true }, s'))
unfolding push
push-submit s s' c op a e k done =
    subst
      (λ o.
        push (record c { outstanding = o }, s)
        ≡ (ok true, (record c { outstanding = o; sent = true }, s')))
      (sym e)
      (subst
        (λ b.
          push (record c { outstanding = some op; sent = b }, s)
          ≡ (ok true, (record c { outstanding = some op; sent = true }, s')))
        (sym k)
        (ap
          (λ r. elim r.0 [
            | err e ↦ (err e, (record c { outstanding = some op; sent = false }, r.1))
            | ok _ ↦ (ok true, (record c { outstanding = some op; sent = true }, r.1))
          ])
          done))
