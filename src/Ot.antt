-- ===== src/Ot.antt =====
-- code/hld/ot_transform.py: the transformation of operations, the sequencing server and the client.
-- A text is the list of its characters.
pub mod Cells
pub mod Commute
pub mod Convergence
pub mod History
pub mod Sync
pub mod Outcomes
pub mod Session
pub mod Editing
use Prim.Native.Char.{Char}
use hld_lld_interview_handbo.Prelude.{
  ℕ, ◌+◌, ◌-◌, String, Option, none, some, List, [], ◌∷◌, ◌++◌, Bool, true, false, ◌||◌, ◌&&◌, not,
  ite, ltb, leb, ◌==◌, if◌then◌else◌, length, take, drop, min, max, string_dec, is_none,
}
use hld_lld_interview_handbo.Prelude.Int.{ℤ, pos, negsuc}
use hld_lld_interview_handbo.Common.Error.{Result, ok, err, validation, invalid_state, ◌>>=◌}
use hld_lld_interview_handbo.Common.Action.{Action}

abbrev pub Text : Type 0
Text = List Char

pub data Op : Type 0 where
  insert : ℕ → Text → Op
  delete : ℕ → ℕ → Op

-- The constructors with the tests of `__post_init__`.
unfoldable pub new_insert : ℤ → Text → Result Op
new_insert (negsuc n) text = err validation
new_insert (pos p) [] = err validation
new_insert (pos p) (c ∷ text) = ok (insert p (c ∷ text))

unfoldable pub new_delete : ℤ → ℤ → Result Op
new_delete (negsuc n) l = err validation
new_delete (pos p) (negsuc n) = err validation
new_delete (pos p) (pos n) = if n == 0 then err validation else ok (delete p n)

-- `text[: op.pos] + op.text + text[op.pos :]`, and the slice without the deleted range.
unfoldable pub splice_in : ℕ → Text → Text → Text
splice_in p s text = take p text ++ (s ++ drop p text)

unfoldable pub splice_out : ℕ → ℕ → Text → Text
splice_out p n text = take p text ++ drop (p + n) text

unfoldable pub apply_op : Text → Op → Result Text
apply_op text (insert p s) = if ltb (length text) p then err validation else ok (splice_in p s text)
apply_op text (delete p n) =
    if ltb (length text) (p + n) then err validation else ok (splice_out p n text)

unfoldable pub transform : Op → Op → Bool → Option Op
transform (insert p s) (insert q t) op_first =
    if ltb q p || (p == q && not op_first)
    then some (insert (p + length t) s)
    else some (insert p s)
transform (insert p s) (delete q n) op_first =
    if leb p q then some (insert p s) else if leb (q + n) p then some (insert (p - n) s) else none
transform (delete p n) (insert q t) op_first =
    if leb q p
    then some (delete (p + length t) n)
    else if leb (p + n) q
    then some (delete p n)
    else some (delete p (n + length t))
transform (delete p n) (delete q m) op_first =
    if leb (q + m) p
    then some (delete (p - m) n)
    else if leb (p + n) q
    then some (delete p n)
    else let overlap = min (p + n) (q + m) - max p q in
      if n - overlap == 0 then none else some (delete (min p q) (n - overlap))

pub record AppliedOp : Type 0 where
  pub revision : ℕ
  pub client_id : String
  pub op : Option Op

pub record DocumentServer : Type 0 where
  pub text : Text
  pub log : List AppliedOp

abbrev pub server_revision : DocumentServer → ℕ
server_revision s = length s.log

unfoldable pub snapshot : DocumentServer → ℕ × Text
snapshot s = (length s.log, s.text)

unfoldable pub ops_since : ℕ → DocumentServer → Result (List AppliedOp)
ops_since revision s =
    if ltb (length s.log) revision then err validation else ok (drop revision s.log)

-- The loop of `submit`: an operation that has transformed away stays away.
unfoldable pub rebase : Option Op → List AppliedOp → Option Op
rebase rebased [] = rebased
rebase none (entry ∷ entries) = none
rebase (some op) (entry ∷ entries) = elim entry.op [
  | none ↦ rebase (some op) entries
  | some against ↦ rebase (transform op against false) entries
]

abbrev pub apply_opt : Text → Option Op → Result Text
apply_opt text none = ok text
apply_opt text (some op) = apply_op text op

-- The end of `submit`: apply and append; one that transformed away still consumes a revision.
unfoldable pub accept : String → Option Op → Action DocumentServer AppliedOp
accept client_id rebased s =
    let applied : AppliedOp = record {
      revision = length s.log + 1;
      client_id = client_id;
      op = rebased;
    } in
    elim (apply_opt s.text rebased) [
      | err e ↦ (err e, s)
      | ok text ↦ (ok applied, record { text = text; log = s.log ++ applied ∷ [] })
    ]

unfoldable pub submit : String → Op → ℕ → Action DocumentServer AppliedOp
submit client_id op base_revision s =
    if ltb (length s.log) base_revision
    then (err validation, s)
    else accept client_id (rebase (some op) (drop base_revision s.log)) s

pub record ClientDocument : Type 0 where
  pub client_id : String
  pub text : Text
  pub revision : ℕ
  pub outstanding : Option Op
  pub sent : Bool

abbrev pub new_client : String → Text → ℕ → ClientDocument
new_client client_id text revision = record {
  client_id = client_id;
  text = text;
  revision = revision;
  outstanding = none;
  sent = false;
}

unfoldable pub edit : Op → Action ClientDocument Unit
edit op c = elim c.outstanding [
  | some _ ↦ (err invalid_state, c)
  | none ↦ elim (apply_op c.text op) [
    | err e ↦ (err e, c)
    | ok text ↦ (ok tt, record c { text = text; outstanding = some op })
  ]
]

-- `push` changes both sides; an exception of `submit` comes before `sent` is set.
unfoldable pub push : Action (ClientDocument × DocumentServer) Bool
push (c, s) = elim c.outstanding [
  | none ↦ (ok false, (c, s))
  | some op ↦
      if c.sent
      then (ok false, (c, s))
      else let (r, s') = submit c.client_id op c.revision s in
        elim r [ err e ↦ (err e, (c, s')) | ok _ ↦ (ok true, (record c { sent = true }, s')) ]
]

-- The remote operation and the outstanding one, each transformed against the other.
unfoldable pub rebase_pair : Option Op → Option Op → Option Op × Option Op
rebase_pair (some remote) (some mine) = (transform remote mine true, transform mine remote false)
rebase_pair remote mine = (remote, mine)

-- One round of the loop of `pull`.
unfoldable pub receive : AppliedOp → Action ClientDocument Unit
receive applied c =
    let (remote, mine) = rebase_pair applied.op c.outstanding in
    ite (string_dec applied.client_id c.client_id)
      (ok tt, record c { revision = applied.revision; outstanding = none; sent = false })
      (elim (apply_opt c.text remote) [
        | err e ↦ (err e, record c { revision = applied.revision; outstanding = mine })
        | ok text ↦
            (ok tt, record c { revision = applied.revision; outstanding = mine; text = text })
      ])

unfoldable pub receive_all : List AppliedOp → Action ClientDocument Unit
receive_all [] c = (ok tt, c)
receive_all (a ∷ rest) c =
    let (r, c') = receive a c in elim r [ err e ↦ (err e, c') | ok _ ↦ receive_all rest c' ]

unfoldable pub pull : DocumentServer → Action ClientDocument Unit
pull s c = elim (ops_since c.revision s) [ err e ↦ (err e, c) | ok ops ↦ receive_all ops c ]
