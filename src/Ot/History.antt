-- ===== src/Ot/History.antt =====
-- The server's log as a history of its text, and `submit` over it.
use hld_lld_interview_handbo.Prelude.{
  ℕ, suc, ◌+◌, ◌≡◌, ◌∙◌, refl, sym, ap, Option, none, some, List, [], ◌∷◌, ◌++◌, true, false, arith,
  length, drop, String, ltb, length-append,
}
use mathlib.Core.Path.{subst}
use native.Mathlib.Nat.{add-zero}
use hld_lld_interview_handbo.Common.Error.{ok}
use hld_lld_interview_handbo.Ot.{
  Text, Op, AppliedOp, DocumentServer, rebase, rebase_pair, submit, accept,
}
use hld_lld_interview_handbo.Ot.Convergence.{
  Fits, FitsOpt, patch_opt, transform-Fits, patch-transform, apply_opt-eq-patch,
}

-- The text after a history, and that every operation of the history fits where it was applied.
abbrev pub replay_ops : Text → List AppliedOp → Text
replay_ops d [] = d
replay_ops d (a ∷ log) = replay_ops (patch_opt d a.op) log

abbrev pub AllFit : Text → List AppliedOp → Type 0
AllFit d [] = Unit
AllFit d (a ∷ log) = FitsOpt d a.op × AllFit (patch_opt d a.op) log

-- The revisions count from `n`.
abbrev pub IsNumbered : ℕ → List AppliedOp → Type 0
IsNumbered n [] = Unit
IsNumbered n (a ∷ log) = (a.revision ≡ n + 1) × IsNumbered (n + 1) log

pub replay_ops-append :
    (d : Text) (xs ys : List AppliedOp) → replay_ops d (xs ++ ys) ≡ replay_ops (replay_ops d xs) ys
replay_ops-append d [] ys = refl
replay_ops-append d (a ∷ xs) ys = replay_ops-append (patch_opt d a.op) xs ys

pub AllFit-append :
    (d : Text) (xs ys : List AppliedOp)
    → AllFit d xs
    → AllFit (replay_ops d xs) ys
    → AllFit d (xs ++ ys)
AllFit-append d [] ys h k = k
AllFit-append d (a ∷ xs) ys h k = (h.0, AllFit-append (patch_opt d a.op) xs ys h.1 k)

pub AllFit-right :
    (d : Text) (xs ys : List AppliedOp) → AllFit d (xs ++ ys) → AllFit (replay_ops d xs) ys
AllFit-right d [] ys h = h
AllFit-right d (a ∷ xs) ys h = AllFit-right (patch_opt d a.op) xs ys h.1

pub IsNumbered-append :
    (n : ℕ) (xs : List AppliedOp) (a : AppliedOp)
    → IsNumbered n xs
    → a.revision ≡ n + length xs + 1
    → IsNumbered n (xs ++ a ∷ [])
IsNumbered-append n [] a h e = (omega arith, tt)
IsNumbered-append n (x ∷ xs) a h e = (h.0, IsNumbered-append (n + 1) xs a h.1 (omega arith))

pub IsNumbered-right :
    (n : ℕ) (xs ys : List AppliedOp) → IsNumbered n (xs ++ ys) → IsNumbered (n + length xs) ys
IsNumbered-right n [] ys h = rw add-zero h
IsNumbered-right n (x ∷ xs) ys h =
    let e : n + suc (length xs) ≡ n + 1 + length xs = omega arith in
    rw e (IsNumbered-right (n + 1) xs ys h.1)

pub drop-append {ℓ} : {A : Type ℓ} (xs ys : List A) → drop (length xs) (xs ++ ys) ≡ ys
drop-append [] ys = refl
drop-append (x ∷ xs) ys = drop-append xs ys

-- A remote operation and an own one, each transformed, fit after one another and meet.
pub rebase_pair-Fits :
    (d : Text) (remote mine : Option Op)
    → FitsOpt d remote
    → FitsOpt d mine
    → FitsOpt (patch_opt d mine) (rebase_pair remote mine).0
      × FitsOpt (patch_opt d remote) (rebase_pair remote mine).1
      × (patch_opt (patch_opt d mine) (rebase_pair remote mine).0
          ≡ patch_opt (patch_opt d remote) (rebase_pair remote mine).1)
unfolding rebase_pair
rebase_pair-Fits d none none h k = (tt, tt, refl)
rebase_pair-Fits d none (some m) h k = (tt, k, refl)
rebase_pair-Fits d (some r) none h k = (h, tt, refl)
rebase_pair-Fits d (some r) (some m) h k =
    (transform-Fits d r m true h k, transform-Fits d m r false k h, sym (patch-transform d r m h k))

-- One round of the loop of `submit` is what the client does to its own operation.
pub rebase-cons :
    (o : Option Op) (a : AppliedOp) (pending : List AppliedOp)
    → rebase o (a ∷ pending) ≡ rebase (rebase_pair a.op o).1 pending
unfolding rebase rebase_pair
rebase-cons none a [] = ground arith
rebase-cons none a (b ∷ pending) = ground arith
rebase-cons (some op) a pending = ground arith

-- A rebased operation fits the text at the end of the history.
pub rebase-Fits :
    (d : Text) (o : Option Op) (pending : List AppliedOp)
    → FitsOpt d o
    → AllFit d pending
    → FitsOpt (replay_ops d pending) (rebase o pending)
rebase-Fits d o [] h k = unfold rebase in h
rebase-Fits d o (a ∷ pending) h k = rw (rebase-cons o a pending) (
    rebase-Fits (patch_opt d a.op) (rebase_pair a.op o).1 pending
      (rebase_pair-Fits d a.op o k.0 h).1 k.1)

-- A server whose log is a history of its text from `base`.
pub record IsHistory (base : Text) (s : DocumentServer) : Type 0 where
  pub text : s.text ≡ replay_ops base s.log
  pub fits : AllFit base s.log
  pub numbered : IsNumbered 0 s.log

-- The entry that `submit` appends, and the server after it.
abbrev pub entry : String → Option Op → DocumentServer → AppliedOp
entry id o s = record { revision = length s.log + 1; client_id = id; op = o }

abbrev pub accepted : String → Option Op → DocumentServer → DocumentServer
accepted id o s = record { text = patch_opt s.text o; log = s.log ++ entry id o s ∷ [] }

pub accept-FitsOpt :
    (s : DocumentServer) (id : String) (o : Option Op)
    → FitsOpt s.text o
    → accept id o s ≡ (ok (entry id o s), accepted id o s)
unfolding accept
accept-FitsOpt s id o fits = rw (apply_opt-eq-patch s.text o fits, accept)

-- Rebased over what the server has accepted since, an operation fits the server's text.
pub rebase-FitsOpt :
    (base : Text) (s : DocumentServer) (seen pending : List AppliedOp) (op : Op)
    → IsHistory base s
    → s.log ≡ seen ++ pending
    → Fits (replay_ops base seen) op
    → FitsOpt s.text (rebase (some op) pending)
rebase-FitsOpt base s seen pending op h split fits =
    let fits_here : AllFit (replay_ops base seen) pending =
      AllFit-right base seen pending (subst (AllFit base) split h.fits) in
    subst (λ d. FitsOpt d (rebase (some op) pending))
      (sym (h.text ∙ ap (replay_ops base) split ∙ replay_ops-append base seen pending))
      (rebase-Fits (replay_ops base seen) (some op) pending fits fits_here)

-- On a server whose text and revisions are those of its log, an operation that fits the text at its
-- base revision is accepted: `submit` raises nothing, its new text is the old one with the rebased
-- operation applied, and it appends that operation with the next revision.
pub submit-accepted :
    (base : Text) (s : DocumentServer) (seen pending : List AppliedOp) (id : String) (op : Op)
    → IsHistory base s
    → s.log ≡ seen ++ pending
    → Fits (replay_ops base seen) op
    → submit id op (length seen) s
      ≡ (ok (entry id (rebase (some op) pending) s), accepted id (rebase (some op) pending) s)
unfolding submit
submit-accepted base s seen pending id op h split fits =
    let rest : drop (length seen) s.log ≡ pending = rw split (drop-append seen pending) in
    let known : ltb (length s.log) (length seen) ≡ false =
      ground (arith, ap length split, length-append seen pending) in
    rw (known, submit, rest)
      (accept-FitsOpt s id (rebase (some op) pending)
        (rebase-FitsOpt base s seen pending op h split fits))

pub accepted-IsHistory :
    (base : Text) (s : DocumentServer) (id : String) (o : Option Op)
    → IsHistory base s
    → FitsOpt s.text o
    → IsHistory base (accepted id o s)
accepted-IsHistory base s id o h fits = record {
  text = rw (replay_ops-append base s.log (entry id o s ∷ [])) (ap (λ d. patch_opt d o) h.text);
  fits =
      AllFit-append base s.log (entry id o s ∷ []) h.fits
        (subst (λ d. FitsOpt d o) h.text fits, tt);
  numbered = IsNumbered-append 0 s.log (entry id o s) h.numbered (omega arith);
}
