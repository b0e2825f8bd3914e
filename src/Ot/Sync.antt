-- ===== src/Ot/Sync.antt =====
-- A client and the server: the optimistic copy is always the server's text at the client's revision
-- with the outstanding operation applied, and a pull after a push brings both to one text.
use mathlib.Core.Path.{subst}
use hld_lld_interview_handbo.Prelude.{
  ℕ, ◌+◌, ◌≡◌, ◌≢◌, ◌⊎◌, inl, inr, ◌∙◌, refl, sym, ap, Option, none, some, List, [], ◌∷◌, ◌++◌,
  Bool, true, false, arith, length, drop, String, string_dec, All, append-nil, length-append,
  if_pos, if_neg, Bool-cases, ltb,
}
use hld_lld_interview_handbo.Common.Error.{ok, err}
use hld_lld_interview_handbo.Ot.{
  Text, Op, AppliedOp, DocumentServer, ClientDocument, rebase_pair, receive, receive_all, pull,
  ops_since,
}
use hld_lld_interview_handbo.Ot.Convergence.{FitsOpt, patch_opt, apply_opt-eq-patch}
use hld_lld_interview_handbo.Ot.History.{
  replay_ops, replay_ops-append, AllFit, AllFit-right, IsNumbered, IsNumbered-right, drop-append,
  rebase_pair-Fits, IsHistory,
}

abbrev pub NoneOwn : String → List AppliedOp → Type 0
NoneOwn id pending = All (λ a. a.client_id ≢ id) pending

-- The client's operation stands in the pending log, as what the client will have made of it by then.
abbrev pub Awaits : String → Option Op → List AppliedOp → Type 0
Awaits id o [] = ⊥
Awaits id o (a ∷ pending) =
    ((a.client_id ≡ id) × (a.op ≡ o) × NoneOwn id pending)
    ⊎ ((a.client_id ≢ id) × Awaits id (rebase_pair a.op o).1 pending)

abbrev pub Owned : String → Bool → Option Op → List AppliedOp → Type 0
Owned id false o pending = NoneOwn id pending
Owned id true o pending = Awaits id o pending

-- The client's copy, against the text `d` of its revision and what it has yet to pull.
pub record IsCopy (d : Text) (pending : List AppliedOp) (c : ClientDocument) : Type 0 where
  pub mine : FitsOpt d c.outstanding
  pub text : c.text ≡ patch_opt d c.outstanding
  pub owned : Owned c.client_id c.sent c.outstanding pending

-- The client has nothing that it has not pushed.
abbrev pub Pushed : ClientDocument → Type 0
Pushed c = (c.sent ≡ true) ⊎ (c.outstanding ≡ none)

Pushed-rebase_pair :
    (sent : Bool) (r o : Option Op)
    → (sent ≡ true) ⊎ (o ≡ none)
    → (sent ≡ true) ⊎ ((rebase_pair r o).1 ≡ none)
unfolding rebase_pair
Pushed-rebase_pair sent r o (inl e) = inl e
Pushed-rebase_pair sent none o (inr e) = inr e
Pushed-rebase_pair sent (some r) none (inr e) = inr refl
Pushed-rebase_pair sent (some r) (some m) (inr e) = cc

-- The next entry is the client's own operation, or somebody else's.
Owned-cases :
    (id : String) (sent : Bool) (o : Option Op) (a : AppliedOp) (pending : List AppliedOp)
    → Owned id sent o (a ∷ pending)
    → ((a.client_id ≡ id) × (a.op ≡ o) × NoneOwn id pending)
      ⊎ ((a.client_id ≢ id) × Owned id sent (rebase_pair a.op o).1 pending)
Owned-cases id false o a pending h = inr h
Owned-cases id true o a pending h = h

-- What the entries of a history have made of the copy `c`.
pub record IsReceived (d : Text) (pending : List AppliedOp) (n : ℕ) (c c' : ClientDocument)
    : Type 0 where
  pub copy : IsCopy d pending c'
  pub name : c'.client_id ≡ c.client_id
  pub revision : c'.revision ≡ n
  pub pushed : Pushed c → Pushed c'

abbrev own : AppliedOp → ClientDocument → ClientDocument
own a c = record c { revision = a.revision; outstanding = none; sent = false }

abbrev remote : AppliedOp → ClientDocument → ClientDocument
remote a c = record c {
  revision = a.revision;
  outstanding = (rebase_pair a.op c.outstanding).1;
  text = patch_opt c.text (rebase_pair a.op c.outstanding).0;
}

-- One round of `pull` keeps the copy.
receive-IsCopy :
    (d : Text) (a : AppliedOp) (pending : List AppliedOp) (c : ClientDocument)
    → FitsOpt d a.op
    → IsCopy d (a ∷ pending) c
    → (c' : ClientDocument) × (receive a c ≡ (ok tt, c'))
      × IsReceived (patch_opt d a.op) pending a.revision c c'
unfolding receive
receive-IsCopy d a pending c fits h =
    elim (Owned-cases c.client_id c.sent c.outstanding a pending h.owned) [
      | inl (same, op, others) ↦ (
        own a c,
        if_pos (string_dec a.client_id c.client_id) same _ _,
        record {
          copy = record { mine = tt; text = h.text ∙ ap (patch_opt d) (sym op); owned = others };
          name = refl;
          revision = refl;
          pushed = λ e. inr refl;
        },
      )
      | inr (other, owned) ↦
          let (fits_remote, fits_mine, meet) = rebase_pair-Fits d a.op c.outstanding fits h.mine in
          (
            remote a c,
            if_neg (string_dec a.client_id c.client_id) other _ _
                ∙ rw
                    (apply_opt-eq-patch c.text (rebase_pair a.op c.outstanding).0 (
                      subst (λ t. FitsOpt t (rebase_pair a.op c.outstanding).0) (sym h.text)
                        fits_remote))
                    refl,
            record {
              copy = record {
                mine = fits_mine;
                text = ap (λ t. patch_opt t (rebase_pair a.op c.outstanding).0) h.text ∙ meet;
                owned = owned;
              };
              name = refl;
              revision = refl;
              pushed = Pushed-rebase_pair c.sent a.op c.outstanding;
            },
          )
    ]

receive_all-cons :
    (a : AppliedOp) (pending : List AppliedOp) (c c' : ClientDocument)
    → receive a c ≡ (ok tt, c')
    → receive_all (a ∷ pending) c ≡ receive_all pending c'
unfolding receive_all
receive_all-cons a pending c c' e =
    ap (λ r. elim r.0 [ err e ↦ (err e, r.1) | ok _ ↦ receive_all pending r.1 ]) e

-- The loop of `pull` over what is pending never raises, and brings the copy to the end of it.
pub receive_all-IsCopy :
    (d : Text) (n : ℕ) (pending : List AppliedOp) (c : ClientDocument)
    → AllFit d pending
    → IsNumbered n pending
    → c.revision ≡ n
    → IsCopy d pending c
    → (c' : ClientDocument) × (receive_all pending c ≡ (ok tt, c'))
      × IsReceived (replay_ops d pending) [] (n + length pending) c c'
unfolding receive_all
receive_all-IsCopy d n [] c fits numbered at h =
    (c, refl, record { copy = h; name = refl; revision = omega arith; pushed = λ e. e })
receive_all-IsCopy d n (a ∷ pending) c fits numbered at h =
    let (c', first, received) = receive-IsCopy d a pending c fits.0 h in
    let (c'', others, later) =
      receive_all-IsCopy (patch_opt d a.op) (n + 1) pending c' fits.1 numbered.1
        (received.revision ∙ numbered.0) received.copy in
    (
      c'',
      rw (receive_all-cons a pending c c' first) others,
      record {
        copy = later.copy;
        name = later.name ∙ received.name;
        revision = later.revision ∙ omega arith;
        pushed = λ e. later.pushed (received.pushed e);
      },
    )

-- Everything received, nothing is left outstanding of what was pushed.
Pushed-none : (d : Text) (c : ClientDocument) → IsCopy d [] c → Pushed c → c.outstanding ≡ none
Pushed-none d c h (inr e) = e
Pushed-none d c h (inl e) =
    elim (subst (λ sent. Owned c.client_id sent c.outstanding []) e h.owned) [ ]

IsCopy-unsent : (d : Text) (c : ClientDocument) → IsCopy d [] c → c.sent ≡ false
IsCopy-unsent d c h = elim (Bool-cases c.sent) [
  | inl e ↦ elim (subst (λ sent. Owned c.client_id sent c.outstanding []) e h.owned) [ ]
  | inr e ↦ e
]

-- A client whose revision splits the server's log into what it has seen and what it has yet to pull.
pub record IsSynced (base : Text) (s : DocumentServer) (c : ClientDocument) : Type 0 where
  pub seen : List AppliedOp
  pub pending : List AppliedOp
  pub split : s.log ≡ seen ++ pending
  pub at : c.revision ≡ length seen
  pub history : IsHistory base s
  pub copy : IsCopy (replay_ops base seen) pending c
  pub idle : c.outstanding ≡ none → c.sent ≡ false

-- What a pull gives: all of the log is seen, and what was pushed has come back.
pub record IsPulled (base : Text) (s : DocumentServer) (c c' : ClientDocument) : Type 0 where
  pub returned : pull s c ≡ (ok tt, c')
  pub name : c'.client_id ≡ c.client_id
  pub synced : IsSynced base s c'
  pub revision : c'.revision ≡ length s.log
  pub text : s.text ≡ replay_ops base s.log
  pub copy : IsCopy (replay_ops base s.log) [] c'
  pub pushed : Pushed c → c'.outstanding ≡ none

ops_since-drop :
    (s : DocumentServer) (revision : ℕ) (pending : List AppliedOp)
    → ltb (length s.log) revision ≡ false
    → drop revision s.log ≡ pending
    → ops_since revision s ≡ ok pending
unfolding ops_since
ops_since-drop s revision pending known rest = rw (known, ops_since, rest)

pull-ops_since :
    (s : DocumentServer) (c : ClientDocument) (pending : List AppliedOp)
    → ops_since c.revision s ≡ ok pending
    → pull s c ≡ receive_all pending c
unfolding pull
pull-ops_since s c pending e = rw (e, pull)

pub pull-IsPulled :
    (base : Text) (s : DocumentServer) (c : ClientDocument)
    → IsSynced base s c
    → (c' : ClientDocument) × IsPulled base s c c'
pull-IsPulled base s c h =
    let rest : drop c.revision s.log ≡ h.pending =
      rw (h.split, h.at) (drop-append h.seen h.pending) in
    let known : ltb (length s.log) c.revision ≡ false =
      ground (arith, ap length h.split, length-append h.seen h.pending, h.at) in
    let fits : AllFit (replay_ops base h.seen) h.pending =
      AllFit-right base h.seen h.pending (subst (AllFit base) h.split h.history.fits) in
    let zero_add : 0 + length h.seen ≡ length h.seen = omega arith in
    let numbered : IsNumbered (length h.seen) h.pending =
      subst (λ n. IsNumbered n h.pending) zero_add
        (IsNumbered-right 0 h.seen h.pending (subst (IsNumbered 0) h.split h.history.numbered)) in
    let (c', loop, received) =
      receive_all-IsCopy (replay_ops base h.seen) (length h.seen) h.pending c fits numbered h.at
        h.copy in
    let total : length h.seen + length h.pending ≡ length s.log =
      omega (arith, ap length h.split, length-append h.seen h.pending) in
    let copy : IsCopy (replay_ops base s.log) [] c' =
      subst (λ d. IsCopy d [] c')
        (sym (ap (replay_ops base) h.split ∙ replay_ops-append base h.seen h.pending))
        received.copy in
    (
      c',
      record {
        returned =
            pull-ops_since s c h.pending (ops_since-drop s c.revision h.pending known rest) ∙ loop;
        name = received.name;
        synced = record {
          seen = s.log;
          pending = [];
          split = sym (append-nil s.log);
          at = received.revision ∙ total;
          history = h.history;
          copy = copy;
          idle = λ e. IsCopy-unsent (replay_ops base s.log) c' copy;
        };
        revision = received.revision ∙ total;
        text = h.history.text;
        copy = copy;
        pushed = λ e. Pushed-none (replay_ops base s.log) c' copy (received.pushed e);
      },
    )
