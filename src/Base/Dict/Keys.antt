-- ===== src/Base/Dict/Keys.antt =====
-- The keys of a dict stand once each, and what the operations do to its length.
use sth_boring.Base.Tests.{Bool-cases}
use sth_boring.Base.Text.{◌==◌, eq_iff, eq_sym}
use sth_boring.Base.Lists.{All, length}
use sth_boring.Base.Dict.{Dict, get, has, put, remove}
use Prim.Native.Nat.{suc, ◌≤◌}
use Prim.Native.String.{String}
use mathlib.Core.Path.{◌≡◌, subst, ◌∙◌}
use mathlib.Core.Logic.{inl, inr}
use mathlib.Core.Bool.{true, false}
use mathlib.Core.List.{[], ◌∷◌}
use native.Mathlib.Omega.{arith}

module _ {V : Type 0} where
  abbrev pub Fresh : String → Dict V → Type 0
  Fresh k d = All (λ e. (e.0 == k) ≡ false) d

  -- No key stands twice.
  abbrev pub IsMap : Dict V → Type 0
  IsMap [] = Unit
  IsMap ((k, v) ∷ d) = Fresh k d × IsMap d

  pub Fresh-remove : (k j : String) (d : Dict V) → Fresh k d → Fresh k (remove j d)
  unfolding remove
  Fresh-remove k j [] h = tt
  Fresh-remove k j ((i, v) ∷ d) (h, hs) = elim (Bool-cases (i == j)) [
    | inl e ↦ rw e (Fresh-remove k j d hs)
    | inr e ↦ rw e (h, Fresh-remove k j d hs)
  ]

  pub remove-IsMap : (k : String) (d : Dict V) → IsMap d → IsMap (remove k d)
  unfolding remove
  remove-IsMap k [] h = tt
  remove-IsMap k ((i, v) ∷ d) (f, h) = elim (Bool-cases (i == k)) [
    | inl e ↦ rw e (remove-IsMap k d h)
    | inr e ↦ rw e (Fresh-remove i k d f, remove-IsMap k d h)
  ]

  pub Fresh-put :
      (k j : String) (v : V) (d : Dict V) → (j == k) ≡ false → Fresh k d → Fresh k (put j v d)
  unfolding put
  Fresh-put k j v [] q h = (q, tt)
  Fresh-put k j v ((i, w) ∷ d) q (h, hs) = elim (Bool-cases (i == j)) [
    | inl e ↦ rw e (q, hs)
    | inr e ↦ rw e (h, Fresh-put k j v d q hs)
  ]

  pub put-IsMap : (k : String) (v : V) (d : Dict V) → IsMap d → IsMap (put k v d)
  unfolding put
  put-IsMap k v [] h = (tt, tt)
  put-IsMap k v ((i, w) ∷ d) (f, h) = elim (Bool-cases (i == k)) [
    | inl e ↦
        let same : i ≡ k = ground (arith, eq_iff i k) in rw e (subst (λ j. Fresh j d) same f, h)
    | inr e ↦ rw e (Fresh-put i k v d (eq_sym k i ∙ e) f, put-IsMap k v d h)
  ]

  pub remove-length : (k : String) (d : Dict V) → length (remove k d) ≤ length d
  unfolding remove
  remove-length k [] = omega arith
  remove-length k ((i, v) ∷ d) = ground (arith, remove-length k d)

  pub remove_found-length :
      (k : String) (d : Dict V) → has k d ≡ true → suc (length (remove k d)) ≤ length d
  unfolding remove has get
  remove_found-length k [] h = absurd cc
  remove_found-length k ((i, v) ∷ d) h = ground (arith, remove_found-length k d, remove-length k d)

  pub put_found-length :
      (k : String) (v : V) (d : Dict V) → has k d ≡ true → length (put k v d) ≡ length d
  unfolding put has get
  put_found-length k v [] h = absurd cc
  put_found-length k v ((i, w) ∷ d) h = ground (arith, put_found-length k v d)
