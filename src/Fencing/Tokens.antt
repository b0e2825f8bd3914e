-- ===== src/Fencing/Tokens.antt =====
-- Tokens are ordered by the grants, and the store never goes back behind one.
use hld_lld_interview_handbo.Prelude.{
  ℕ, ◌+◌, ◌≤◌, ◌<◌, ◌≡◌, refl, String, Option, none, some, List, [], ◌∷◌, true, false, arith,
  if◌then◌else◌,
}
use hld_lld_interview_handbo.Prelude.Int.{ℤ, pos, ◌+ℤ◌, ◌≤ℤ◌, ltb_ℤ, +ℤ_parts}
use hld_lld_interview_handbo.Common.Text.{is_empty}
use hld_lld_interview_handbo.Dict.{string_key, get}
use hld_lld_interview_handbo.Dict.Laws.{get-put}
use hld_lld_interview_handbo.Common.Error.{ok, err, fencing}
use hld_lld_interview_handbo.Fencing.{
  Lease, LeaseLockService, acquire, holder, is_held, granted, FencedStore, write,
}

-- A store that checks tokens and has accepted one of at least `n` for the key.
abbrev IsPastToken : ℕ → Option (ℕ × String) → Type 0
IsPastToken n none = ⊥
IsPastToken n (some (m, _)) = n ≤ m

abbrev IsPast : String → ℕ → FencedStore → Type 0
IsPast key n s = (s.check_tokens ≡ true) × IsPastToken n (get s.values key)

write-IsPast :
    (key : String) (n : ℕ) (k v : String) (token : ℕ) (s : FencedStore)
    → IsPast key n s
    → IsPast key n (write k v token s).1
unfolding write
write-IsPast key n k v token s h = ground (arith, get-put s.values k (token, v) key)

-- The store after the writes, whether they are accepted or rejected.
unfoldable pub write_all : List (String × (String × ℕ)) → FencedStore → FencedStore
write_all [] s = s
write_all ((key, (value, token)) ∷ rest) s = write_all rest (write key value token s).1

write_all-IsPast :
    (key : String) (n : ℕ) (writes : List (String × (String × ℕ))) (s : FencedStore)
    → IsPast key n s
    → IsPast key n (write_all writes s)
unfolding write_all
write_all-IsPast key n [] s h = h
write_all-IsPast key n ((k, (v, token)) ∷ rest) s h =
    write_all-IsPast key n rest (write k v token s).1 (write-IsPast key n k v token s h)

accepted-IsPast :
    (key v : String) (token : ℕ) (s : FencedStore)
    → s.check_tokens ≡ true
    → (write key v token s).0 ≡ ok tt
    → IsPast key token (write key v token s).1
unfolding write
accepted-IsPast key v token s c h = ground (arith, get-put s.values key (token, v) key)

older-rejected :
    (key w : String) (token n : ℕ) (s : FencedStore)
    → IsPast key n s
    → token < n
    → write key w token s ≡ (err fencing, record s { rejected = s.rejected + 1 })
unfolding write
older-rejected key w token n s h lt = ground arith

free_held :
    (now : ℤ) (o : Option Lease)
    → (if is_held now o then o else none) ≡ none
    → is_held now o ≡ false
free_held now none h = refl
free_held now (some l) h = ground arith

now_held : (now ttl : ℤ) → pos 1 ≤ℤ ttl → ltb_ℤ now (now +ℤ ttl) ≡ true
now_held now ttl h = ground (arith, +ℤ_parts now ttl)

-- Once a store that checks tokens has accepted a write, every write of the same key with a lower
-- token is rejected, whatever was written in between, and changes only the count of rejections.
pub stale-rejected :
    (key value late : String) (token old : ℕ) (s : FencedStore)
    (between : List (String × (String × ℕ)))
    → s.check_tokens ≡ true
    → (write key value token s).0 ≡ ok tt
    → old < token
    → let s' = write_all between (write key value token s).1 in
      write key late old s' ≡ (err fencing, record s' { rejected = s'.rejected + 1 })
stale-rejected key value late token old s between c h lt =
    older-rejected key late old token _
      (write_all-IsPast key token between _ (accepted-IsPast key value token s c h)) lt

-- A request for a free resource is granted with a token above every one given out before. Then, as
-- long as no time passes, the resource is held under that grant, and a further request for it gets
-- nothing and changes nothing.
pub acquire-exclusive :
    (resource owner other : String) (s : LeaseLockService)
    → is_empty resource ≡ false
    → is_empty owner ≡ false
    → is_empty other ≡ false
    → holder resource s ≡ none
    → pos 1 ≤ℤ s.ttl
    → let l = granted resource owner s in
      let s' = (acquire resource owner s).1 in
      ((acquire resource owner s).0 ≡ ok (some l))
      × (s.next_token < l.token)
      × (holder resource s' ≡ some l)
      × (acquire resource other s' ≡ (ok none, s'))
unfolding acquire holder
acquire-exclusive resource owner other s named owned asked free ttl = ground (
  arith,
  free_held s.clock.now (get s.leases resource) free,
  now_held s.clock.now s.ttl ttl,
  get-put s.leases resource (granted resource owner s) resource,
)
