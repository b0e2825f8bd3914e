-- ===== src/Dict.antt =====
-- Python's `dict`, in insertion order, over keys with a decidable equality. An assignment to a key
-- that is there keeps its place, any other goes to the end. The laws are in `Dict/Laws`.
pub mod Laws
use hld_lld_interview_handbo.Prelude.{
  ℕ, String, Option, none, some, List, [], ◌∷◌, Bool, ite, map, string_dec, ℕ_discrete, is_some,
}

pub record Key (K : Type 0) : Type 0 where
  pub dec : Discrete K

instance abbrev pub string_key : Key String
string_key = record { dec = string_dec }

instance abbrev pub nat_key : Key ℕ
nat_key = record { dec = ℕ_discrete }

abbrev pub Dict : Type 0 → Type 0 → Type 0
Dict K V = List (K × V)

abbrev pub empty : {K V : Type 0} → Dict K V
empty = []

module _ {K V : Type 0} ⦃e : Key K⦄ where
  -- `d.get(k)`
  unfoldable pub get : Dict K V → K → Option V
  get [] k = none
  get ((j, v) ∷ d) k = ite (e.dec j k) (some v) (get d k)

  -- `k in d`
  abbrev pub contains : Dict K V → K → Bool
  contains d k = is_some (get d k)

  -- `d[k] = v`
  unfoldable pub put : Dict K V → K → V → Dict K V
  put [] k v = (k, v) ∷ []
  put ((j, w) ∷ d) k v = ite (e.dec j k) ((j, v) ∷ d) ((j, w) ∷ put d k v)

  -- `d.pop(k, None)` and `del d[k]`
  unfoldable pub remove : Dict K V → K → Dict K V
  remove [] k = []
  remove ((j, w) ∷ d) k = let rest = remove d k in ite (e.dec j k) rest ((j, w) ∷ rest)

  -- `d.setdefault(k, v)`, for its effect on `d`
  abbrev pub set_default : Dict K V → K → V → Dict K V
  set_default d k v = elim (get d k) [ none ↦ put d k v | some _ ↦ d ]

  -- `d.update(more)`
  unfoldable pub update : Dict K V → Dict K V → Dict K V
  update d [] = d
  update d ((k, v) ∷ more) = update (put d k v) more

abbrev pub keys : {K V : Type 0} → Dict K V → List K
keys = map (λ e. e.0)

abbrev pub values : {K V : Type 0} → Dict K V → List V
values = map (λ e. e.1)
