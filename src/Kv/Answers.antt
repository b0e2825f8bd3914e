-- ===== src/Kv/Answers.antt =====
-- What the data operations answer, at any depth of open transactions.
use hld_lld_interview_handbo.Prelude.{
  ℕ, String, ◌≡◌, ◌⊎◌, ◌∙◌, ap, refl, Option, none, some, ite, arith, string_dec, is_some, true,
  false,
}
use hld_lld_interview_handbo.Prelude.Int.{leb_ℤ, +ℤ_parts, ℤ, pos, ◌+ℤ◌, ◌≤ℤ◌}
use hld_lld_interview_handbo.Common.Error.{ok, err, validation, value_type}
use hld_lld_interview_handbo.Kv.Models.{Value, int, str, Entry, is_expired, unless_expired}
use hld_lld_interview_handbo.Kv.Transactions.{stack_lookup}
use hld_lld_interview_handbo.Kv.Durable.{storage_get}
use hld_lld_interview_handbo.Kv.Visible.{peek, read-eq-peek, peek-read, peek-write}
use hld_lld_interview_handbo.Kv.{
  KvStore, now, read, write, get, set, delete, incr, is_empty, as_int, deadline_of, read_for_incr,
  deadline,
}

abbrev pub value_of : Option Entry → Option Value
value_of none = none
value_of (some e) = some e.value

-- The value of an entry, or the default where there is none.
abbrev pub value_or : Option Value → Option Entry → Option Value
value_or default none = default
value_or default (some e) = some e.value

-- A time to live that `set` accepts.
abbrev pub IsPositive : Option ℤ → Type 0
IsPositive none = Unit
IsPositive (some ttl) = pos 1 ≤ℤ ttl

module _ (session : ℕ) where
  pub now-read : (key : String) (s : KvStore) → now (read session key s).1 ≡ now s
  unfolding read
  now-read key s = ground arith

  pub get-eq-peek :
      (key : String) (default : Option Value) (s : KvStore)
      → (get session key default s).0 ≡ ok (value_or default (peek session s key))
  unfolding get
  get-eq-peek key default s = ground (arith, read-eq-peek session key s)

  -- An empty key, or a time to live that is not positive, makes `set` raise and change nothing.
  pub set_rejects :
      (key : String) (v : Value) (ttl : Option ℤ) (s : KvStore)
      → (is_empty key ≡ true) ⊎ (¬ IsPositive ttl)
      → set session key v ttl s ≡ (err validation, s)
  unfolding set
  set_rejects key v none s h = ground arith
  set_rejects key v (some ttl) s h = ground arith

  -- A deadline in the future has not passed.
  fresh_deadline : (v : Value) (t ttl : ℤ) → pos 1 ≤ℤ ttl → leb_ℤ (t +ℤ ttl) t ≡ false
  fresh_deadline v t ttl h = ground (arith, +ℤ_parts t ttl)

  peek-set :
      (key : String) (v : Value) (ttl : Option ℤ) (s : KvStore) (j : String)
      → is_empty key ≡ false
      → IsPositive ttl
      → ((set session key v ttl s).0 ≡ ok tt)
        × (peek session (set session key v ttl s).1 j
            ≡ ite
                (string_dec key j)
                (some (record { value = v; expires_at = deadline session ttl (now s) }))
                (peek session s j))
  unfolding set write is_expired
  peek-set key v none s j h p =
      ground (arith, peek-write session key (some (record { value = v; expires_at = none })) s j)
  peek-set key v (some ttl) s j h p = ground (
    arith,
    fresh_deadline v (now s) ttl p,
    peek-write session key (some (record { value = v; expires_at = some (now s +ℤ ttl) })) s j,
  )

  -- With a key that is not empty and a positive time to live or none, `set` returns, and then a `get` of
  -- the key gives the value that was set and a `get` of another key gives what it gave before.
  pub get-set :
      (key : String) (v : Value) (ttl : Option ℤ) (s : KvStore) (j : String)
      (default : Option Value)
      → is_empty key ≡ false
      → IsPositive ttl
      → ((set session key v ttl s).0 ≡ ok tt)
        × ((get session j default (set session key v ttl s).1).0
            ≡ ite (string_dec key j) (ok (some v)) (get session j default s).0)
  get-set key v ttl s j default h p =
      let set_lem = peek-set key v ttl s j h p in
      (
        set_lem.0,
        ground (
          arith,
          set_lem.1,
          get-eq-peek j default s,
          get-eq-peek j default (set session key v ttl s).1,
        ),
      )

  pub read_pair :
      (key : String) (s : KvStore)
      → read session key s ≡ (ok (peek session s key), (read session key s).1)
  unfolding read peek
  read_pair key s = ground arith

  pub delete_lem :
      (key : String) (s : KvStore)
      → delete session key s
        ≡ (ok (is_some (peek session s key)), (write session key none (read session key s).1).1)
  unfolding delete write
  delete_lem key s = rw (read_pair key s, delete)

  peek-delete :
      (key : String) (s : KvStore) (j : String)
      → ((delete session key s).0 ≡ ok (is_some (peek session s key)))
        × (peek session (delete session key s).1 j ≡ ite (string_dec key j) none (peek session s j))
  peek-delete key s j =
      rw delete_lem (
        refl,
        peek-write session key none (read session key s).1 j ∙ rw (peek-read session key s j),
      )

  -- `delete` returns whether the key was there, and then a `get` of the key gives its default and a
  -- `get` of another key gives what it gave before.
  pub get-delete :
      (key : String) (s : KvStore) (j : String) (default : Option Value)
      → ((delete session key s).0 ≡ ok (is_some (peek session s key)))
        × ((get session j default (delete session key s).1).0
            ≡ ite (string_dec key j) (ok default) (get session j default s).0)
  get-delete key s j default =
      let del = peek-delete key s j in
      (
        del.0,
        ground
            (arith, del.1, get-eq-peek j default s, get-eq-peek j default (delete session key s).1),
      )

  pub read_for_incr-read :
      (key : String) (s : KvStore) → read_for_incr session key s ≡ read session key s
  unfolding read_for_incr read stack_lookup
  read_for_incr-read key s = ground arith

  -- What `peek` shows has not expired, and stays so with another value.
  renewed :
      (e : Option Entry) (n : ℤ) (t : ℤ)
      → unless_expired t e ≡ e
      → unless_expired t (some (record { value = int n; expires_at = deadline_of e }))
        ≡ some (record { value = int n; expires_at = deadline_of e })
  unfolding is_expired
  renewed none n t h = refl
  renewed (some e) n t h = ground arith

  peek-alive :
      (s : KvStore) (key : String)
      → unless_expired (now s) (peek session s key) ≡ peek session s key
  unfolding peek storage_get
  peek-alive s key = ground arith

  abbrev pub counted : ℤ → KvStore → String → Option Entry
  counted n s key = some (record { value = int n; expires_at = deadline_of (peek session s key) })

  pub incr_lem :
      (key : String) (by : ℤ) (s : KvStore) (n : ℤ)
      → as_int (peek session s key) ≡ ok n
      → incr session key by s
        ≡ (ok (n +ℤ by), (write session key (counted (n +ℤ by) s key) (read session key s).1).1)
  unfolding incr write
  incr_lem key by s n h = rw (read_for_incr-read key s, read_pair key s, h, incr)

  peek-incr :
      (key : String) (by : ℤ) (s : KvStore) (n : ℤ) (j : String)
      → as_int (peek session s key) ≡ ok n
      → peek session (incr session key by s).1 j
        ≡ ite (string_dec key j) (counted (n +ℤ by) s key) (peek session s j)
  peek-incr key by s n j h = rw (incr_lem key by s n h) (
      peek-write session key (counted (n +ℤ by) s key) (read session key s).1 j
      ∙ rw (
        now-read key s,
        peek-read session key s j,
        renewed (peek session s key) (n +ℤ by) (now s) (peek-alive s key),
      ))

  -- Where the key holds an integer or nothing, which counts as 0, `incr` returns the sum, and then a
  -- `get` of the key gives it and a `get` of another key gives what it gave before.
  pub get-incr :
      (key : String) (by : ℤ) (s : KvStore) (n : ℤ) (j : String) (default : Option Value)
      → as_int (peek session s key) ≡ ok n
      → ((incr session key by s).0 ≡ ok (n +ℤ by))
        × ((get session j default (incr session key by s).1).0
            ≡ ite (string_dec key j) (ok (some (int (n +ℤ by)))) (get session j default s).0)
  get-incr key by s n j default h = (
    ap (λ r. r.0) (incr_lem key by s n h),
    ground (
      arith,
      peek-incr key by s n j h,
      get-eq-peek j default s,
      get-eq-peek j default (incr session key by s).1,
    ),
  )

  -- Where the key holds text, `incr` raises and every `get` gives what it gave before.
  pub incr_rejects :
      (key : String) (by : ℤ) (s : KvStore) (t : String) (j : String) (default : Option Value)
      → value_of (peek session s key) ≡ some (str t)
      → ((incr session key by s).0 ≡ err value_type)
        × ((get session j default (incr session key by s).1).0 ≡ (get session j default s).0)
  unfolding incr
  incr_rejects key by s t j default h = ground (
    arith,
    read_for_incr-read key s,
    read-eq-peek session key s,
    peek-read session key s j,
    get-eq-peek j default s,
    get-eq-peek j default (incr session key by s).1,
  )
