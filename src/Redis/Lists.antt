-- ===== src/Redis/Lists.antt =====
-- The laws of Redis hashes can be met: an association list, in the order of first insertion.
use free_fire.Prelude.{ℕ, ◌≡◌, refl, Option, none, some, List, [], ◌∷◌, ◌==◌, if◌then◌else◌, arith}
use free_fire.Redis.{Redis}

module _ {V : Type 0} where
  unfoldable pub lookup : List (ℕ × V) → ℕ → Option V
  lookup [] k = none
  lookup ((j, v) ∷ m) k = if j == k then some v else lookup m k

  unfoldable pub insert : List (ℕ × V) → ℕ → V → List (ℕ × V)
  insert [] k v = (k, v) ∷ []
  insert ((j, w) ∷ m) k v = if j == k then (k, v) ∷ m else (j, w) ∷ insert m k v

  unfoldable pub delete : List (ℕ × V) → ℕ → List (ℕ × V)
  delete [] k = []
  delete ((j, v) ∷ m) k = let rest = delete m k in if j == k then rest else (j, v) ∷ rest

  pub lookup-nil : (k : ℕ) → lookup [] k ≡ none
  unfolding lookup
  lookup-nil k = refl

  pub lookup-insert :
      (m : List (ℕ × V)) (k j : ℕ) (v : V)
      → lookup (insert m k v) j ≡ (if k == j then some v else lookup m j)
  unfolding lookup insert
  lookup-insert [] k j v = refl
  lookup-insert ((i, w) ∷ m) k j v = ground (arith, lookup-insert m k j v)

  pub lookup-delete :
      (m : List (ℕ × V)) (k j : ℕ) → lookup (delete m k) j ≡ (if k == j then none else lookup m j)
  unfolding lookup delete
  lookup-delete [] k j = ground arith
  lookup-delete ((i, w) ∷ m) k j = ground (arith, lookup-delete m k j)

instance abbrev pub list_redis : Redis
list_redis = record {
  Map = λ V. List (ℕ × V);
  no_fields = [];
  get = lookup;
  put = insert;
  remove = delete;
  entries = λ m. m;
  get-no_fields = lookup-nil;
  get-put = lookup-insert;
  get-remove = lookup-delete;
}
