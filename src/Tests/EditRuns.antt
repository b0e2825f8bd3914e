-- ===== src/Tests/EditRuns.antt =====
-- Two clients who type into and delete from one document.
use mathlib.Core.Path.{ap}
use mathlib.Core.Bool.{false≢true}
use text.Mathlib.Text.{◌==◌}
use hld_lld_interview_handbo.Prelude.{
  ◌≡◌, ◌≢◌, refl, String, some, none, List, [], ◌∷◌, Bool, true, false, arith, length,
}
use hld_lld_interview_handbo.Common.Error.{ok, ◌>>=◌}
use hld_lld_interview_handbo.Ot.{
  Text, Op, insert, delete, transform, apply_op, apply_opt, submit, rebase, AppliedOp,
  DocumentServer, ClientDocument, push, pull,
}
use hld_lld_interview_handbo.Ot.Convergence.{convergence}
use hld_lld_interview_handbo.Ot.History.{entry, accepted, submit-accepted, IsHistory}
use hld_lld_interview_handbo.Ot.Editing.{
  Event, edits, pushes, pulls, submits, run, opened, push-pull_converges,
}

abbrev hello : Text
hello = "h" ∷ "e" ∷ "l" ∷ "l" ∷ "o" ∷ []

-- Both clients touch the third character.
abbrev typed : Op
typed = insert 2 ("y" ∷ [])

abbrev erased : Op
erased = delete 1 3

convergence_example :
    (end : Text) × ((apply_op hello typed >>= λ d. apply_opt d (transform erased typed false))
      ≡ ok end)
    × ((apply_op hello erased >>= λ d. apply_opt d (transform typed erased true)) ≡ ok end)
convergence_example =
    convergence hello typed erased (omega arith, omega arith) (omega arith, omega arith)

abbrev fresh_server : DocumentServer
fresh_server = record { text = hello; log = [] }

-- The server after the other client's first operation.
abbrev busy_server : DocumentServer
busy_server = accepted "bob" (some erased) fresh_server

abbrev bob_entry : AppliedOp
bob_entry = entry "bob" (some erased) fresh_server

busy-IsHistory : IsHistory hello busy_server
busy-IsHistory = record {
  text = refl;
  fits = ((omega arith, omega arith), tt);
  numbered = (refl, tt);
}

submit-accepted_example : submit "alice" typed 0 busy_server ≡ (
  ok (entry "alice" (rebase (some typed) (bob_entry ∷ [])) busy_server),
  accepted "alice" (rebase (some typed) (bob_entry ∷ [])) busy_server,
)
submit-accepted_example =
    submit-accepted hello busy_server [] (bob_entry ∷ []) "alice" typed busy-IsHistory refl
      (omega arith, omega arith)

-- Alice types before she has seen what Bob has deleted, and types again after a pull.
abbrev session : List Event
session =
    edits typed
    ∷ submits "bob" erased 0
    ∷ pushes
    ∷ pulls
    ∷ edits (insert 0 ("!" ∷ []))
    ∷ submits "bob" (delete 0 1) 1
    ∷ []

abbrev alice : String
alice = "alice"

abbrev bob : String
bob = "bob"

-- Different texts decide differently.
different : bob ≢ alice
different e = false≢true (ap (λ s. s == alice) e)

push-pull_converges_example :
    (r : Bool) × (s : DocumentServer) × (c c' : ClientDocument) × (push
        (run session (opened hello "alice"))
      ≡ (ok r, (c, s)))
    × (pull s c ≡ (ok tt, c'))
    × (c'.text ≡ s.text)
    × (c'.revision ≡ length s.log)
    × (c'.outstanding ≡ none)
push-pull_converges_example = push-pull_converges hello "alice" session (
  omega arith,
  ((omega arith, different), (tt, (tt, (omega arith, ((omega arith, different), tt))))),
)
