-- ===== src/Prelude/Dict.antt =====
-- Go's maps with text keys, as association lists. An iteration that deletes the entries it
-- rejects is `keep`; the order of entries is not that of Go, which has none.
use Prim.Native.Nat.{◌+◌, ◌≤◌}
use Prim.Native.String.{String}
use mathlib.Core.Path.{◌≡◌, refl}
use mathlib.Core.Bool.{Bool, true, false}
use mathlib.Core.Option.{Option, none, some}
use mathlib.Core.List.{List, [], ◌∷◌}
use native.Mathlib.Omega.{arith}
use text.Mathlib.Text.{◌==◌}
use swift_proof.Prelude.Tests.{text_eq, if◌then◌else◌}
use swift_proof.Prelude.Lists.{length}

abbrev pub Dict {ℓ} : Type ℓ → Type ℓ
Dict V = List (String × V)

abbrev pub is_some {ℓ} : {A : Type ℓ} → Option A → Bool
is_some none = false
is_some (some a) = true

-- What a lookup gives after entries that fail `p` are gone.
abbrev pub only {ℓ} : {V : Type ℓ} → (V → Bool) → Option V → Option V
only p none = none
only p (some v) = if p v then some v else none

module _ {ℓ} {V : Type ℓ} where
  unfoldable pub get : String → Dict V → Option V
  get k [] = none
  get k ((j, v) ∷ d) = if j == k then some v else get k d

  unfoldable pub delete : String → Dict V → Dict V
  delete k [] = []
  delete k ((j, v) ∷ d) = let rest = delete k d in if j == k then rest else (j, v) ∷ rest

  unfoldable pub put : String → V → Dict V → Dict V
  put k v [] = (k, v) ∷ []
  put k v ((j, w) ∷ d) = if j == k then (k, v) ∷ d else (j, w) ∷ put k v d

  unfoldable pub keep : (String → V → Bool) → Dict V → Dict V
  unfolding delete
  keep p [] = []
  keep p ((k, v) ∷ d) = let rest = keep p d in if p k v then (k, v) ∷ rest else delete k rest

  pub get-delete :
      (k j : String) (d : Dict V) → get j (delete k d) ≡ (if k == j then none else get j d)
  unfolding get delete
  get-delete k j [] = ground arith
  get-delete k j ((i, v) ∷ d) =
      ground (arith, get-delete k j d, text_eq i k, text_eq i j, text_eq k j)

  pub get-put :
      (k j : String) (v : V) (d : Dict V) → get j (put k v d) ≡ (if k == j then some v else get j d)
  unfolding get put
  get-put k j v [] = refl
  get-put k j v ((i, w) ∷ d) =
      ground (arith, get-put k j v d, text_eq i k, text_eq i j, text_eq k j)

  pub get-keep :
      (p : String → V → Bool) (j : String) (d : Dict V) → get j (keep p d) ≡ only (p j) (get j d)
  unfolding get keep
  get-keep p j [] = refl
  get-keep p j ((i, v) ∷ d) = ground (arith, get-keep p j d, get-delete i j (keep p d), text_eq i j)

  pub length-delete : (k : String) (d : Dict V) → length (delete k d) ≤ length d
  unfolding delete
  length-delete k [] = omega arith
  length-delete k ((i, v) ∷ d) = ground (arith, length-delete k d)

  pub length-put :
      (k : String) (v : V) (d : Dict V)
      → length (put k v d) ≡ (if is_some (get k d) then length d else length d + 1)
  unfolding put get
  length-put k v [] = ground arith
  length-put k v ((i, w) ∷ d) = ground (arith, length-put k v d)
