-- ===== src/Ot/Editing.antt =====
-- The editing session as a list of events, and the client's text after a push and a pull.
use mathlib.Core.Path.{subst}
use hld_lld_interview_handbo.Prelude.{
  ℕ, ◌≡◌, ◌≢◌, ◌∙◌, refl, sym, ap, none, List, [], ◌∷◌, Bool, length, String, All, inl, inr,
}
use hld_lld_interview_handbo.Common.Error.{ok}
use hld_lld_interview_handbo.Ot.{
  Text, Op, DocumentServer, ClientDocument, new_client, pull, push, edit, submit,
}
use hld_lld_interview_handbo.Ot.Convergence.{patch_opt}
use hld_lld_interview_handbo.Ot.History.{replay_ops}
use hld_lld_interview_handbo.Ot.Sync.{IsSynced, pull-IsPulled}
use hld_lld_interview_handbo.Ot.Outcomes.{IsOp, edit-cases}
use hld_lld_interview_handbo.Ot.Session.{submit-IsSynced, edit-IsSynced, push-IsSynced}

-- A call of this client, or of any other one on the server.
pub data Event : Type 0 where
  edits : Op → Event
  pushes : Event
  pulls : Event
  submits : String → Op → ℕ → Event

abbrev happen : Event → ClientDocument × DocumentServer → ClientDocument × DocumentServer
happen (edits op) (c, s) = ((edit op c).1, s)
happen pushes (c, s) = (push (c, s)).1
happen pulls (c, s) = ((pull s c).1, s)
happen (submits id op revision) (c, s) = (c, (submit id op revision s).1)

abbrev pub run : List Event → ClientDocument × DocumentServer → ClientDocument × DocumentServer
run [] world = world
run (e ∷ events) world = run events (happen e world)

-- Operations come from their constructors, and the other clients have other names.
abbrev pub IsLegal : String → Event → Type 0
IsLegal me (edits op) = IsOp op
IsLegal me pushes = Unit
IsLegal me pulls = Unit
IsLegal me (submits id op revision) = IsOp op × (id ≢ me)

abbrev IsShared : Text → String → ClientDocument × DocumentServer → Type 0
IsShared base me (c, s) = IsSynced base s c × (c.client_id ≡ me)

edit-client_id : (op : Op) (c : ClientDocument) → IsOp op → (edit op c).1.client_id ≡ c.client_id
edit-client_id op c is_op = elim (edit-cases op c is_op) [
  | inl (idle, fits, e) ↦ ap (λ c'. c'.client_id) e
  | inr e ↦ ap (λ c'. c'.client_id) e
]

happen-IsShared :
    (base : Text) (me : String) (e : Event) (world : ClientDocument × DocumentServer)
    → IsLegal me e
    → IsShared base me world
    → IsShared base me (happen e world)
happen-IsShared base me (edits op) (c, s) legal h =
    (edit-IsSynced base s c op legal h.0, edit-client_id op c legal ∙ h.1)
happen-IsShared base me pushes (c, s) legal h =
    let (r, s', c', e, synced, pushed, name) = push-IsSynced base s c h.0 in
    subst (IsShared base me) (ap (λ p. p.1) (sym e)) (synced, name ∙ h.1)
happen-IsShared base me pulls (c, s) legal h =
    let (c', p) = pull-IsPulled base s c h.0 in
    subst (IsShared base me) (ap (λ q. (q.1, s)) (sym p.returned)) (p.synced, p.name ∙ h.1)
happen-IsShared base me (submits id op revision) (c, s) legal h =
    (submit-IsSynced base s c id op revision legal.0 (λ e. legal.1 (e ∙ h.1)) h.0, h.1)

run-IsShared :
    (base : Text) (me : String) (events : List Event) (world : ClientDocument × DocumentServer)
    → All (IsLegal me) events
    → IsShared base me world
    → IsShared base me (run events world)
run-IsShared base me [] world legal h = h
run-IsShared base me (e ∷ events) world legal h =
    run-IsShared base me events (happen e world) legal.1 (happen-IsShared base me e world legal.0 h)

-- A client that joins a fresh server.
abbrev pub opened : Text → String → ClientDocument × DocumentServer
opened base me = (new_client me base 0, record { text = base; log = [] })

opened-IsShared : (base : Text) (me : String) → IsShared base me (opened base me)
opened-IsShared base me = (
  record {
    seen = [];
    pending = [];
    split = refl;
    at = refl;
    history = record { text = refl; fits = tt; numbered = tt };
    copy = record { mine = tt; text = refl; owned = tt };
    idle = λ e. refl;
  },
  refl,
)

-- A client joins a fresh server; then come any calls of the client and any submissions of others
-- with operations that their constructors accept, in any order, refused ones included. A push and a
-- pull after them raise nothing, and leave the client with the server's text, at the server's
-- revision, with nothing outstanding.
pub push-pull_converges :
    (base : Text) (me : String) (events : List Event)
    → All (IsLegal me) events
    → (r : Bool) × (s : DocumentServer) × (c c' : ClientDocument) × (push
          (run events (opened base me))
        ≡ (ok r, (c, s)))
      × (pull s c ≡ (ok tt, c'))
      × (c'.text ≡ s.text)
      × (c'.revision ≡ length s.log)
      × (c'.outstanding ≡ none)
push-pull_converges base me events legal =
    let world : ClientDocument × DocumentServer = run events (opened base me) in
    let shared : IsShared base me world =
      run-IsShared base me events (opened base me) legal (opened-IsShared base me) in
    let (r, s, c, sent, synced, pushed, name) = push-IsSynced base world.1 world.0 shared.0 in
    let (c', p) = pull-IsPulled base s c synced in
    let none_left : c'.outstanding ≡ none = p.pushed pushed in
    (
      r,
      s,
      c,
      c',
      sent,
      p.returned,
      p.copy.text ∙ ap (patch_opt (replay_ops base s.log)) none_left ∙ sym p.text,
      p.revision,
      none_left,
    )
