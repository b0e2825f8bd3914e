-- ===== src/Dict/Laws.antt =====
-- What a lookup finds after each operation on a dict, and that no operation lists a key twice.
use hld_lld_interview_handbo.Prelude.{◌≡◌, refl, Option, none, some, [], ◌∷◌, ite, arith}
use hld_lld_interview_handbo.Dict.{Key, Dict, get, put, remove, update}

-- The first of two answers that is there.
abbrev pub or_else : {A : Type 0} → Option A → Option A → Option A
or_else none o = o
or_else (some a) o = some a

module _ {K V : Type 0} ⦃e : Key K⦄ where
  pub get-put :
      (d : Dict K V) (k : K) (v : V) (j : K)
      → get (put d k v) j ≡ ite (e.dec k j) (some v) (get d j)
  unfolding get put
  get-put [] k v j = refl
  get-put ((i, w) ∷ d) k v j = ground (arith, get-put d k v j)

  pub get-put_self : (d : Dict K V) (k : K) (v : V) → get (put d k v) k ≡ some v
  get-put_self d k v = ground (arith, get-put d k v k)

  pub get-remove : (d : Dict K V) (k j : K) → get (remove d k) j ≡ ite (e.dec k j) none (get d j)
  unfolding get remove
  get-remove [] k j = ground arith
  get-remove ((i, w) ∷ d) k j = ground (arith, get-remove d k j)

  pub remove_absent : (d : Dict K V) (k : K) → get d k ≡ none → remove d k ≡ d
  unfolding get remove
  remove_absent [] k h = refl
  remove_absent ((i, w) ∷ d) k h = ground (arith, remove_absent d k)

  -- No key is listed twice.
  abbrev pub IsDict : Dict K V → Type 0
  IsDict [] = Unit
  IsDict ((k, v) ∷ d) = (get d k ≡ none) × IsDict d

  pub put-IsDict : (d : Dict K V) (k : K) (v : V) → IsDict d → IsDict (put d k v)
  unfolding get put
  put-IsDict [] k v h = (refl, tt)
  put-IsDict ((i, w) ∷ d) k v h = ground (arith, put-IsDict d k v, get-put d k v i)

  pub remove-IsDict : (d : Dict K V) (k : K) → IsDict d → IsDict (remove d k)
  unfolding get remove
  remove-IsDict [] k h = tt
  remove-IsDict ((i, w) ∷ d) k h = ground (arith, remove-IsDict d k, get-remove d k i)

  pub update-IsDict : (d more : Dict K V) → IsDict d → IsDict (update d more)
  unfolding update
  update-IsDict d [] h = h
  update-IsDict d ((k, v) ∷ more) h = update-IsDict (put d k v) more (put-IsDict d k v h)

  pub get-update :
      (d more : Dict K V) (j : K)
      → IsDict more
      → get (update d more) j ≡ or_else (get more j) (get d j)
  unfolding get update
  get-update d [] j h = refl
  get-update d ((k, v) ∷ more) j h =
      ground (arith, get-update (put d k v) more j h.1, get-put d k v j)
