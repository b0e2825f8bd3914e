-- ===== src/Shortener/Again.antt =====
-- `HashCodes` gives a URL that was shortened before the same code again.
use hld_lld_interview_handbo.Prelude.{
  ℕ, zero, suc, ◌+◌, ◌≡◌, ◌≢◌, inl, inr, refl, sym, ap, ◌∙◌, arith, String, Bool, none, some,
  string_dec, Bool-cases, Option-cases,
}
use hld_lld_interview_handbo.Prelude.Int.{ℤ}
use mathlib.Core.Path.{subst}
use hld_lld_interview_handbo.Shortener.Claims.{Grows, attempt_from-IsServed}
use hld_lld_interview_handbo.Dict.{string_key, put}
use hld_lld_interview_handbo.Dict.Laws.{get-put_self}
use hld_lld_interview_handbo.Common.Error.{
  Result-cases, Error, Result, ok, err, validation, conflict,
}
use hld_lld_interview_handbo.Shortener.Links.{
  InMemoryCodeStore, claim, resolve, ShortLink, ShortCodeStrategy, max_attempts, claim_proposed,
  attempt_from, shorten, hash_candidate,
}

pub record Kept (s t : InMemoryCodeStore) : Type 0 where
  pub bound : (code url : String) → resolve s code ≡ some url → resolve t code ≡ some url

module _ (is_blank : String → Bool) (digest : String → ℕ) where
  abbrev proposed : String → ℕ → ShortCodeStrategy ℤ → Result String
  proposed long_url attempt s = (hash_candidate digest long_url attempt s.source).0

  abbrev attempts : ℕ → ℕ → String → ShortCodeStrategy ℤ → Result ShortLink × ShortCodeStrategy ℤ
  attempts = attempt_from is_blank (hash_candidate digest)

  abbrev link_of : String → String → ℕ → ShortLink
  link_of code long_url first = record { code = code; long_url = long_url; attempts = first + 1 }

  attempts-ours :
      (left first : ℕ) (code long_url : String) (t : ShortCodeStrategy ℤ)
      → proposed long_url first t ≡ ok code
      → resolve t.store code ≡ some long_url
      → attempts (suc left) first long_url t ≡ (ok (link_of code long_url first), t)
  unfolding attempt_from claim_proposed claim resolve hash_candidate
  attempts-ours left first code long_url t p h = ground arith

  attempts-taken :
      (left first : ℕ) (code long_url owner : String) (t : ShortCodeStrategy ℤ)
      → proposed long_url first t ≡ ok code
      → resolve t.store code ≡ some owner
      → owner ≢ long_url
      → attempts (suc left) first long_url t
        ≡ attempts left (first + 1) long_url (record t { collisions = t.collisions + 1 })
  unfolding attempt_from claim_proposed claim resolve hash_candidate
  attempts-taken left first code long_url owner t p h ne = ground arith

  attempts-free :
      (left first : ℕ) (code long_url : String) (t : ShortCodeStrategy ℤ)
      → proposed long_url first t ≡ ok code
      → resolve t.store code ≡ none
      → attempts (suc left) first long_url t ≡ (
        ok (link_of code long_url first),
        record t { store = record { rows = put t.store.rows code long_url } },
      )
  unfolding attempt_from claim_proposed claim resolve hash_candidate
  attempts-free left first code long_url t p h = ground arith

  attempts-fails :
      (left first : ℕ) (long_url : String) (e : Error) (t : ShortCodeStrategy ℤ)
      → proposed long_url first t ≡ err e
      → attempts (suc left) first long_url t ≡ (err e, t)
  unfolding attempt_from claim_proposed hash_candidate
  attempts-fails left first long_url e t p = ground arith

  AgainFrom : ℕ → ℕ → String → ShortLink → ShortCodeStrategy ℤ → Type 0
  AgainFrom left first long_url link t =
      ((attempts left first long_url t).0 ≡ ok link)
      × ((attempts left first long_url t).1.store ≡ t.store)

  same_owner :
      (left first : ℕ) (code long_url : String) (s t s' : ShortCodeStrategy ℤ) (link : ShortLink)
      → proposed long_url first t ≡ ok code
      → Kept s'.store t.store
      → resolve s'.store code ≡ some long_url
      → link_of code long_url first ≡ link
      → AgainFrom (suc left) first long_url link t
  unfolding AgainFrom
  same_owner left first code long_url s t s' link p k h e =
      let run = attempts-ours left first code long_url t p (k.bound code long_url h) in
      (ap (λ r. r.0) run ∙ ap ok e, ap (λ r. r.1.store) run)

  ok_pair :
      (a b : ShortLink) (s s' : ShortCodeStrategy ℤ)
      → ◌≡◌ {A = Result ShortLink × ShortCodeStrategy ℤ} (ok a, s) (ok b, s')
      → (a ≡ b) × (s ≡ s')
  ok_pair a b s s' e = ground (arith, e)

  err_pair :
      (x : Error) (a : ShortLink) (s s' : ShortCodeStrategy ℤ)
      → ◌≢◌ {A = Result ShortLink × ShortCodeStrategy ℤ} (err x, s) (ok a, s')
  err_pair x a s s' e = ground (arith, e)

  attempts-none :
      (first : ℕ) (long_url : String) (t : ShortCodeStrategy ℤ)
      → attempts zero first long_url t ≡ (err conflict, t)
  unfolding attempt_from
  attempts-none first long_url t = refl

  still_taken :
      (left first : ℕ) (code long_url owner : String) (s t s' : ShortCodeStrategy ℤ)
      (link : ShortLink)
      → Kept s'.store t.store
      → attempts left first long_url s ≡ (ok link, s')
      → resolve s.store code ≡ some owner
      → resolve t.store code ≡ some owner
  still_taken left first code long_url owner s t s' link k run taken =
      let grown : Grows long_url s.store s'.store =
        subst (λ (r : Result ShortLink × ShortCodeStrategy ℤ). Grows long_url s.store r.1.store) run
          (attempt_from-IsServed is_blank (hash_candidate digest) left first long_url s).0 in
      k.bound code owner (grown.stays code owner taken)

  abbrev counted : ShortCodeStrategy ℤ → ShortCodeStrategy ℤ
  counted s = record s { collisions = s.collisions + 1 }

  abbrev claimed : String → String → ShortCodeStrategy ℤ → ShortCodeStrategy ℤ
  claimed code long_url s = record s { store = record { rows = put s.store.rows code long_url } }

  resolve-claimed :
      (code long_url : String) (s : ShortCodeStrategy ℤ)
      → resolve (claimed code long_url s).store code ≡ some long_url
  unfolding resolve
  resolve-claimed code long_url s = get-put_self s.store.rows code long_url

  passed_on :
      (left first : ℕ) (code long_url owner : String) (t : ShortCodeStrategy ℤ) (link : ShortLink)
      → proposed long_url first t ≡ ok code
      → resolve t.store code ≡ some owner
      → owner ≢ long_url
      → AgainFrom left (first + 1) long_url link (counted t)
      → AgainFrom (suc left) first long_url link t
  unfolding AgainFrom
  passed_on left first code long_url owner t link p h ne later =
      subst
        (λ (r : Result ShortLink × ShortCodeStrategy ℤ). (r.0 ≡ ok link) × (r.1.store ≡ t.store))
        (sym (attempts-taken left first code long_url owner t p h ne)) later

  -- The store that the link came from still has its bindings in `t`.
  attempts-again :
      (left first : ℕ) (long_url : String) (s t s' : ShortCodeStrategy ℤ) (link : ShortLink)
      → t.source ≡ s.source
      → Kept s'.store t.store
      → attempts left first long_url s ≡ (ok link, s')
      → AgainFrom left first long_url link t
  attempts-again zero first long_url s t s' link e k run =
      absurd (err_pair conflict link s s' (sym (attempts-none first long_url s) ∙ run))
  attempts-again (suc left) first long_url s t s' link e k run =
      elim (Result-cases (proposed long_url first s)) [
        | inr (x, p) ↦
            absurd (err_pair x link s s' (sym (attempts-fails left first long_url x s p) ∙ run))
        | inl (code, p) ↦
            let p' : proposed long_url first t ≡ ok code =
              ap (λ w. (hash_candidate digest long_url first w).0) e ∙ p in
            elim (Option-cases (resolve s.store code)) [
              | inl free ↦
                  let found =
                    ok_pair (link_of code long_url first) link (claimed code long_url s) s'
                      (sym (attempts-free left first code long_url s p free) ∙ run) in
                  same_owner left first code long_url s t s' link p' k
                    (ap (λ r. resolve r.store code) (sym found.1) ∙ resolve-claimed code long_url s)
                    found.0
              | inr (owner, taken) ↦ elim (string_dec owner long_url) [
                | yes same ↦
                    let ours : resolve s.store code ≡ some long_url = taken ∙ ap some same in
                    let found =
                      ok_pair (link_of code long_url first) link s s'
                        (sym (attempts-ours left first code long_url s p ours) ∙ run) in
                    same_owner left first code long_url s t s' link p' k
                      (ap (λ r. resolve r.store code) (sym found.1) ∙ ours) found.0
                | no ne ↦
                    let kept =
                      still_taken (suc left) first code long_url owner s t s' link k run taken in
                    passed_on left first code long_url owner t link p' kept ne (
                      attempts-again left (first + 1) long_url (counted s) (counted t) s' link e k
                        (sym (attempts-taken left first code long_url owner s p taken ne) ∙ run))
              ]
            ]
      ]

  -- With `HashCodes`, shortening a URL again gives the same link and writes nothing, as long as the
  -- store kept what it bound, whatever it has bound since.
  pub shorten-again :
      (long_url : String) (s t s' : ShortCodeStrategy ℤ) (link : ShortLink)
      → t.source ≡ s.source
      → Kept s'.store t.store
      → shorten is_blank (hash_candidate digest) long_url s ≡ (ok link, s')
      → ((shorten is_blank (hash_candidate digest) long_url t).0 ≡ ok link)
        × ((shorten is_blank (hash_candidate digest) long_url t).1.store ≡ t.store)
  unfolding shorten AgainFrom
  shorten-again long_url s t s' link e k run = elim (Bool-cases (is_blank long_url)) [
    | inl blank ↦ absurd (err_pair validation link s s' (rw blank at run))
    | inr fine ↦ rw fine (attempts-again max_attempts 0 long_url s t s' link e k (rw fine at run))
  ]
