-- ===== src/Ledger/Changes.antt =====
-- The accounts after `apply_entries` and after the version bumps, account by account, and their sum.
use hld_lld_interview_handbo.Prelude.{
  String, ◌≡◌, ◌∙◌, refl, sym, ap, Option, none, some, List, [], ◌∷◌, ite, arith, string_dec, All,
  map, Option-cases, inl, inr, true, if◌then◌else◌,
}
use hld_lld_interview_handbo.Prelude.Int.{
  pos_part, neg_part, ℤ, pos, ◌+ℤ◌, int_laws, +ℤ_assoc, +ℤ-zero, sum_ℤ,
}
use hld_lld_interview_handbo.Dict.{Dict, string_key, get, put, keys, values, contains}
use hld_lld_interview_handbo.Dict.Laws.{IsDict, get-put}
use hld_lld_interview_handbo.Ledger.{
  Account, Entry, change, add_cents, bump, apply_entries, bump_all, amounts,
}

abbrev pub changed : (Account → Account) → Option Account → Option Account
changed f none = none
changed f (some a) = some (f a)

pub get-change :
    (k : String) (f : Account → Account) (d : Dict String Account) (j : String)
    → get (change k f d) j ≡ ite (string_dec k j) (changed f (get d k)) (get d j)
unfolding change
get-change k f d j = elim (Option-cases (get d k)) [
  | inl e ↦ rw (e, change) (ground (arith, e))
  | inr (a, e) ↦ rw (e, change) (get-put d k (f a) j)
]

-- What the entries add to one account.
unfoldable pub gain : String → List Entry → ℤ
gain j [] = pos 0
gain j (e ∷ entries) =
    ite (string_dec e.account_id j) (e.amount.cents +ℤ gain j entries) (gain j entries)

add_cents-add_cents : (m n : ℤ) (a : Account) → add_cents n (add_cents m a) ≡ add_cents (m +ℤ n) a
add_cents-add_cents m n a = λ i. record a { signed_cents = +ℤ_assoc a.signed_cents m n i }

changed-changed :
    (m n : ℤ) (o : Option Account)
    → changed (add_cents n) (changed (add_cents m) o) ≡ changed (add_cents (m +ℤ n)) o
changed-changed m n none = refl
changed-changed m n (some a) = ap some (add_cents-add_cents m n a)

add_cents-zero : (a : Account) → add_cents (pos 0) a ≡ a
add_cents-zero a = λ i. record a { signed_cents = +ℤ-zero a.signed_cents i }

pub get-apply_entries :
    (entries : List Entry) (d : Dict String Account) (j : String)
    → get (apply_entries entries d) j ≡ changed (add_cents (gain j entries)) (get d j)
unfolding apply_entries gain
get-apply_entries [] d j = elim (Option-cases (get d j)) [
  | inl e ↦ rw e
  | inr (a, e) ↦ rw e (ap some (sym (add_cents-zero a)))
]
get-apply_entries (e ∷ entries) d j =
    let d' = change e.account_id (add_cents e.amount.cents) d in
    get-apply_entries entries d' j
    ∙ ground (
      arith,
      get-change e.account_id (add_cents e.amount.cents) d j,
      changed-changed e.amount.cents (gain j entries) (get d e.account_id),
    )

pub get-bump_all :
    (touched : Dict String Account) (d : Dict String Account) (j : String)
    → IsDict touched
    → get (bump_all (keys touched) d) j
      ≡ (if contains touched j then changed bump (get d j) else get d j)
unfolding bump_all get
get-bump_all [] d j h = refl
get-bump_all ((k, a) ∷ touched) d j h =
    ground (arith, get-bump_all touched (change k bump d) j h.1, get-change k bump d j)

-- The sum of the signed balances.
unfoldable pub total : Dict String Account → ℤ
total d = sum_ℤ (map (λ a. a.signed_cents) (values d))

total-put :
    (d : Dict String Account) (k : String) (a b : Account)
    → get d k ≡ some a
    → total (put d k b) +ℤ a.signed_cents ≡ total d +ℤ b.signed_cents
unfolding total get put
total-put [] k a b h = absurd (cc h)
total-put ((j, c) ∷ d) k a b h = grind (int_laws, total-put d k a b)

pub total-put_new :
    (d : Dict String Account) (k : String) (b : Account)
    → get d k ≡ none
    → total (put d k b) ≡ total d +ℤ b.signed_cents
unfolding total get put
total-put_new [] k b h = omega int_laws
total-put_new ((j, c) ∷ d) k b h = grind (int_laws, total-put_new d k b)

+ℤ_cancel : (x t a : ℤ) → x +ℤ a ≡ t +ℤ a → x ≡ t
+ℤ_cancel x t a h = omega (int_laws, ap pos_part h, ap neg_part h)

add_cancel : (x t a n : ℤ) → x +ℤ a ≡ t +ℤ (a +ℤ n) → x ≡ t +ℤ n
add_cancel x t a n h = omega (int_laws, ap pos_part h, ap neg_part h)

total-add_cents :
    (k : String) (n : ℤ) (d : Dict String Account)
    → contains d k ≡ true
    → total (change k (add_cents n) d) ≡ total d +ℤ n
unfolding change
total-add_cents k n d h = elim (Option-cases (get d k)) [
  | inl e ↦ absurd (cc (e, h))
  | inr (a, e) ↦
      rw (e, change) (add_cancel _ _ a.signed_cents n (total-put d k a (add_cents n a) e))
]

total-bump : (k : String) (d : Dict String Account) → total (change k bump d) ≡ total d
unfolding change
total-bump k d = elim (Option-cases (get d k)) [
  | inl e ↦ rw (e, change)
  | inr (a, e) ↦ rw (e, change) (+ℤ_cancel _ _ a.signed_cents (total-put d k a (bump a) e))
]

pub total-bump_all :
    (ids : List String) (d : Dict String Account) → total (bump_all ids d) ≡ total d
unfolding bump_all
total-bump_all [] d = refl
total-bump_all (k ∷ ids) d = total-bump_all ids (change k bump d) ∙ total-bump k d

-- Every entry names an account that is there.
abbrev pub AllKnown : Dict String Account → List Entry → Type 0
AllKnown d entries = All (λ e. contains d e.account_id ≡ true) entries

AllKnown-change :
    (k : String) (f : Account → Account) (d : Dict String Account) (entries : List Entry)
    → AllKnown d entries
    → AllKnown (change k f d) entries
AllKnown-change k f d [] h = tt
AllKnown-change k f d (e ∷ entries) h =
    (ground (arith, get-change k f d e.account_id, h.0), AllKnown-change k f d entries h.1)

pub total-apply_entries :
    (entries : List Entry) (d : Dict String Account)
    → AllKnown d entries
    → total (apply_entries entries d) ≡ total d +ℤ sum_ℤ (amounts entries)
unfolding apply_entries
total-apply_entries [] d h = sym (+ℤ-zero (total d))
total-apply_entries (e ∷ entries) d h =
    let d' = change e.account_id (add_cents e.amount.cents) d in
    let known = AllKnown-change e.account_id (add_cents e.amount.cents) d entries h.1 in
    total-apply_entries entries d' known
    ∙ rw (total-add_cents e.account_id e.amount.cents d h.0)
        (+ℤ_assoc (total d) e.amount.cents (sum_ℤ (amounts entries)))
