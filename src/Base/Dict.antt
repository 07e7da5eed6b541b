-- ===== src/Base/Dict.antt =====
-- Python's dict: an association list in insertion order. A write to a key that is there keeps its
-- place, as in CPython.
pub mod Keys
use mathlib.Core.Path.{◌≡◌, refl, subst}
use mathlib.Core.Bool.{Bool}
use mathlib.Core.Option.{Option, none, some}
use mathlib.Core.List.{List, [], ◌∷◌, ◌++◌, map}
use native.Mathlib.Omega.{arith}
use Prim.Native.String.{String}
use sth_boring.Base.Tests.{if◌then◌else◌, is_none, Bool-cases}
use sth_boring.Base.Lists.{All}
use mathlib.Core.Logic.{inl, inr}
use sth_boring.Base.Text.{◌==◌, eq_iff}
use mathlib.Core.Bool.{not}

abbrev pub Dict {ℓ} : Type ℓ → Type ℓ
Dict V = List (String × V)

module _ {ℓ} {V : Type ℓ} where
  -- `d.get(k)`
  unfoldable pub get : String → Dict V → Option V
  get k [] = none
  get k ((j, v) ∷ d) = if j == k then some v else get k d

  -- `k in d`
  unfoldable pub has : String → Dict V → Bool
  unfolding get
  has k d = not (is_none (get k d))

  -- `d[k] = v`
  unfoldable pub put : String → V → Dict V → Dict V
  put k v [] = (k, v) ∷ []
  put k v ((j, w) ∷ d) = if j == k then (k, v) ∷ d else (j, w) ∷ put k v d

  -- `d.pop(k, None)`
  unfoldable pub remove : String → Dict V → Dict V
  remove k [] = []
  remove k ((j, v) ∷ d) = let rest = remove k d in if j == k then rest else (j, v) ∷ rest

  -- `list(d)` and `list(d.values())`
  unfoldable pub keys : Dict V → List String
  keys = map (λ e. e.0)

  unfoldable pub values : Dict V → List V
  values = map (λ e. e.1)

  pub get-put :
      (k j : String) (v : V) (d : Dict V) → get j (put k v d) ≡ (if k == j then some v else get j d)
  unfolding get put
  get-put k j v [] = refl
  get-put k j v ((i, w) ∷ d) = ground (arith, eq_iff k j, eq_iff i k, eq_iff i j, get-put k j v d)

  pub get-remove :
      (k j : String) (d : Dict V) → get j (remove k d) ≡ (if k == j then none else get j d)
  unfolding get remove
  get-remove k j [] = ground arith
  get-remove k j ((i, w) ∷ d) = ground (arith, eq_iff k j, eq_iff i k, eq_iff i j, get-remove k j d)

  -- A write to a new key goes to the end.
  pub put_new : (k : String) (v : V) (d : Dict V) → get k d ≡ none → put k v d ≡ d ++ (k, v) ∷ []
  unfolding get put
  put_new k v [] h = refl
  put_new k v ((i, w) ∷ d) h = ground (arith, put_new k v d)

module _ {ℓ κ} {V : Type ℓ} (P : V → Type κ) where
  -- A predicate of all values.
  abbrev pub Every : Dict V → Type κ
  Every d = All (λ e. P e.1) d

  pub Every-remove : (k : String) (d : Dict V) → Every d → Every (remove k d)
  unfolding remove
  Every-remove k [] h = tt
  Every-remove k ((j, v) ∷ d) (p, h) = elim (Bool-cases (j == k)) [
    | inl e ↦ rw e (Every-remove k d h)
    | inr e ↦ rw e (p, Every-remove k d h)
  ]

  pub Every-put : (k : String) (v : V) (d : Dict V) → P v → Every d → Every (put k v d)
  unfolding put
  Every-put k v [] q h = (q, tt)
  Every-put k v ((j, w) ∷ d) q (p, h) = elim (Bool-cases (j == k)) [
    | inl e ↦ rw e (q, h)
    | inr e ↦ rw e (p, Every-put k v d q h)
  ]

  pub Every-append : (k : String) (v : V) (d : Dict V) → P v → Every d → Every (d ++ (k, v) ∷ [])
  Every-append k v [] q h = (q, tt)
  Every-append k v ((j, w) ∷ d) q (p, h) = (p, Every-append k v d q h)

  pub Every-get : (k : String) (d : Dict V) (v : V) → Every d → get k d ≡ some v → P v
  unfolding get
  Every-get k [] v h e = absurd cc
  Every-get k ((j, w) ∷ d) v (p, h) e = elim (Bool-cases (j == k)) [
    | inl q ↦ let same : w ≡ v = ground arith in subst P same p
    | inr q ↦ Every-get k d v h (ground arith)
  ]
