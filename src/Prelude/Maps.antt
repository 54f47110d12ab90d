-- ===== src/Prelude/Maps.antt =====
-- Go's `map[string]V` as an association list. The order of iteration, which Go leaves open, is
-- here the order of first insertion; no theorem depends on it but through `entries`.
use mathlib.Core.Path.{◌≡◌, refl}
use mathlib.Core.Bool.{Bool}
use mathlib.Core.List.{List, [], ◌∷◌, map}
use mathlib.Core.Option.{Option, none, some}
use native.Mathlib.Omega.{arith}
use financial_ai_platform.Prelude.Tests.{if◌then◌else◌}
use financial_ai_platform.Prelude.Lists.{count}
use financial_ai_platform.Prelude.Strings.{Text, text_eq, text_eq_iff, text_eq_refl}

abbrev pub Dict {ℓ} : Type ℓ → Type ℓ
Dict V = List (Text × V)

module _ {ℓ} {V : Type ℓ} where
  -- v, ok := m[k]
  unfoldable pub get : Dict V → Text → Option V
  get [] k = none
  get ((j, v) ∷ m) k = if text_eq j k then some v else get m k

  -- m[k] = v
  unfoldable pub put : Dict V → Text → V → Dict V
  put [] k v = (k, v) ∷ []
  put ((j, w) ∷ m) k v = if text_eq j k then (k, v) ∷ m else (j, w) ∷ put m k v

  -- delete(m, k)
  unfoldable pub remove : Dict V → Text → Dict V
  remove [] k = []
  remove ((j, v) ∷ m) k = let rest = remove m k in if text_eq j k then rest else (j, v) ∷ rest

  -- `for _, v := range m`
  abbrev pub values : Dict V → List V
  values = map (λ e. e.1)

  pub get-put :
      (m : Dict V) (k j : Text) (v : V)
      → get (put m k v) j ≡ (if text_eq k j then some v else get m j)
  unfolding get put
  get-put [] k j v = refl
  get-put ((i, w) ∷ m) k j v =
      ground (arith, text_eq_iff k j, text_eq_iff i k, text_eq_iff i j, get-put m k j v)

  pub get-put_self : (m : Dict V) (k : Text) (v : V) → get (put m k v) k ≡ some v
  get-put_self m k v = ground (arith, get-put m k k v, text_eq_refl k)

  pub get-remove :
      (m : Dict V) (k j : Text) → get (remove m k) j ≡ (if text_eq k j then none else get m j)
  unfolding get remove
  get-remove [] k j = ground arith
  get-remove ((i, v) ∷ m) k j =
      ground (arith, get-remove m k j, text_eq_iff i k, text_eq_iff i j, text_eq_iff k j)

  -- Each key stands once.
  abbrev pub IsDistinct : Dict V → Type ℓ
  IsDistinct [] = Unit
  IsDistinct ((k, v) ∷ m) = (get m k ≡ none) × IsDistinct m

  pub put-IsDistinct : (m : Dict V) (k : Text) (v : V) → IsDistinct m → IsDistinct (put m k v)
  unfolding put get
  put-IsDistinct [] k v h = (refl, tt)
  put-IsDistinct ((j, w) ∷ m) k v h =
      ground (arith, put-IsDistinct m k v h.1, get-put m k j v, text_eq_iff j k, text_eq_iff k j)

  pub remove-IsDistinct : (m : Dict V) (k : Text) → IsDistinct m → IsDistinct (remove m k)
  unfolding remove get
  remove-IsDistinct [] k h = tt
  remove-IsDistinct ((j, w) ∷ m) k h =
      ground (arith, remove-IsDistinct m k h.1, get-remove m k j, text_eq_iff k j)

  -- A new key adds its value, whatever is counted.
  pub count-values-put :
      (p : V → Bool) (m : Dict V) (k : Text) (v : V)
      → get m k ≡ none
      → count p (values (put m k v)) ≡ count p (v ∷ values m)
  unfolding get put
  count-values-put p [] k v h = refl
  count-values-put p ((j, w) ∷ m) k v h = ground (arith, count-values-put p m k v)

pub ruleset dict_laws = (get-put, get-remove)
