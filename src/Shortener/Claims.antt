-- ===== src/Shortener/Claims.antt =====
-- What `shorten` does to the store of codes, for every strategy, and what each strategy adds.
use hld_lld_interview_handbo.Prelude.{
  ℕ, zero, suc, ◌+◌, ◌≤◌, ◌<◌, ◌≡◌, ◌⊎◌, inl, inr, refl, arith, String, Bool, true, Option, none,
  some, Bool-cases,
}
use hld_lld_interview_handbo.Dict.{string_key}
use hld_lld_interview_handbo.Dict.Laws.{get-put, get-put_self}
use hld_lld_interview_handbo.Common.Error.{Result, ok, err}
use hld_lld_interview_handbo.Shortener.Links.{
  InMemoryCodeStore, claim, resolve, ShortLink, ShortCodeStrategy, max_attempts, is_ours,
  claim_proposed, try_once, attempt_from, shorten,
}

-- Codes keep their URL, and a new code is bound to `long_url`.
pub record Grows (long_url : String) (s s' : InMemoryCodeStore) : Type 0 where
  pub stays : (code url : String) → resolve s code ≡ some url → resolve s' code ≡ some url
  pub new_ones :
      (code url : String)
      → resolve s' code ≡ some url
      → (resolve s code ≡ some url) ⊎ (url ≡ long_url)

Grows-refl : (long_url : String) (s : InMemoryCodeStore) → Grows long_url s s
Grows-refl long_url s = record { stays = λ _ _ e. e; new_ones = λ _ _ e. inl e }

Grows-trans :
    (long_url : String) (s s' s'' : InMemoryCodeStore)
    → Grows long_url s s'
    → Grows long_url s' s''
    → Grows long_url s s''
Grows-trans long_url s s' s'' g h = record {
  stays = λ code url e. h.stays code url (g.stays code url e);
  new_ones = λ code url e. elim (h.new_ones code url e) [
    | inl e' ↦ g.new_ones code url e'
    | inr e' ↦ inr e'
  ];
}

claim-Grows :
    (code long_url : String) (s : InMemoryCodeStore) → Grows long_url s (claim code long_url s).1
unfolding claim resolve
claim-Grows code long_url s = record {
  stays = λ other url e. ground (arith, get-put s.rows code long_url other);
  new_ones = λ other url e. ground (arith, get-put s.rows code long_url other);
}

claim-is_ours :
    (code long_url : String) (s : InMemoryCodeStore)
    → is_ours (claim code long_url s).0 long_url ≡ true
    → resolve (claim code long_url s).1 code ≡ some long_url
unfolding claim resolve
claim-is_ours code long_url s h = ground (arith, get-put_self s.rows code long_url)

-- What the attempts `first + 1` to `first + left` may answer, from `s`.
abbrev pub IsAnswer :
    {G : Type 0}
    → ℕ
    → ℕ
    → String
    → ShortCodeStrategy G
    → ShortCodeStrategy G
    → Result ShortLink
    → Type 0
IsAnswer left first long_url s s' (err e) = s'.collisions ≤ s.collisions + left
IsAnswer left first long_url s s' (ok link) =
    (resolve s'.store link.code ≡ some long_url)
    × (link.long_url ≡ long_url)
    × (first < link.attempts)
    × (link.attempts ≤ first + left)
    × (s'.collisions + first + 1 ≡ s.collisions + link.attempts)

-- Whatever the answer is, an error included, no code that was bound is bound to another URL, and
-- every new code is bound to the URL of the request; a link returned resolves to that URL.
abbrev pub IsServed :
    {G : Type 0}
    → ℕ
    → ℕ
    → String
    → ShortCodeStrategy G
    → Result ShortLink × ShortCodeStrategy G
    → Type 0
IsServed left first long_url s r =
    Grows long_url s.store r.1.store × IsAnswer left first long_url s r.1 r.0

-- An attempt that goes on counts a collision.
abbrev pub IsTried :
    {G : Type 0}
    → ℕ
    → String
    → ShortCodeStrategy G
    → Option (Result ShortLink) × ShortCodeStrategy G
    → Type 0
IsTried attempt long_url s (none, s') =
    Grows long_url s.store s'.store × (s'.collisions ≡ s.collisions + 1)
IsTried attempt long_url s (some r, s') = IsServed 1 attempt long_url s (r, s')

module _ {G : Type 0} (is_blank : String → Bool)
    (candidate : String → ℕ → G → Result String × G) where
  claim_proposed-IsTried :
      (attempt : ℕ) (long_url : String) (code : Result String) (s : ShortCodeStrategy G)
      → IsTried attempt long_url s (claim_proposed is_blank candidate attempt long_url code s)
  unfolding claim_proposed
  claim_proposed-IsTried attempt long_url (err e) s = (Grows-refl long_url s.store, omega arith)
  claim_proposed-IsTried attempt long_url (ok code) s =
      let grown = claim-Grows code long_url s.store in
      elim (Bool-cases (is_ours (claim code long_url s.store).0 long_url)) [
        | inl e ↦ rw e (
          grown,
          (claim-is_ours code long_url s.store e, refl, omega arith, omega arith, omega arith),
        )
        | inr e ↦ rw e (grown, refl)
      ]

  go_on :
      (left first : ℕ) (long_url : String) (s : ShortCodeStrategy G)
      (tried : Option (Result ShortLink) × ShortCodeStrategy G)
      (rest : Result ShortLink × ShortCodeStrategy G)
      → IsTried first long_url s tried
      → IsServed left (first + 1) long_url tried.1 rest
      → IsServed (suc left) first long_url s (elim tried.0 [ none ↦ rest | some r ↦ (r, tried.1) ])
  go_on left first long_url s (none, s') (err e, s'') h k =
      (Grows-trans long_url s.store s'.store s''.store h.0 k.0, omega (arith, h.1, k.1))
  go_on left first long_url s (none, s') (ok link, s'') h k = (
    Grows-trans long_url s.store s'.store s''.store h.0 k.0,
    (k.1.0, k.1.1, omega (arith, k.1.2), omega (arith, k.1.3), omega (arith, h.1, k.1.4)),
  )
  go_on left first long_url s (some (err e), s') rest h k = (h.0, omega (arith, h.1))
  go_on left first long_url s (some (ok link), s') rest h k =
      (h.0, (h.1.0, h.1.1, h.1.2, omega (arith, h.1.3), h.1.4))

  pub attempt_from-IsServed :
      (left first : ℕ) (long_url : String) (s : ShortCodeStrategy G)
      → IsServed left first long_url s (attempt_from is_blank candidate left first long_url s)
  unfolding attempt_from
  attempt_from-IsServed zero first long_url s = (Grows-refl long_url s.store, omega arith)
  attempt_from-IsServed (suc left) first long_url s =
      let proposed = candidate long_url first s.source in
      let tried = try_once is_blank candidate first long_url s in
      go_on left first long_url s tried
        (attempt_from is_blank candidate left (first + 1) long_url tried.1)
        (claim_proposed-IsTried first long_url proposed.0 (record s { source = proposed.1 }))
        (attempt_from-IsServed left (first + 1) long_url tried.1)

  -- For every strategy: whatever `shorten` answers, an error included, no code that was bound is
  -- bound to another URL and every new code is bound to the URL of the request; a link returned
  -- resolves to that URL, and took one attempt more than there were collisions, at most 8.
  pub shorten-IsServed :
      (long_url : String) (s : ShortCodeStrategy G)
      → IsServed max_attempts 0 long_url s (shorten is_blank candidate long_url s)
  unfolding shorten
  shorten-IsServed long_url s = elim (Bool-cases (is_blank long_url)) [
    | inl e ↦ rw e (Grows-refl long_url s.store, omega arith)
    | inr e ↦ rw e (attempt_from-IsServed max_attempts 0 long_url s)
  ]
