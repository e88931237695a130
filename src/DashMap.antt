-- ===== src/DashMap.antt =====
-- The concurrent map of the package `dashmap`, which src/task/manager.rs uses. Its code is not in
-- the repository: the operations are parameters, and the laws are those of its documentation.
use hooch.Base.{ℕ, ◌≡◌, refl, Option, none, some, ◌==◌, if◌then◌else◌}

-- A map with `usize`-like keys. Each call takes effect at once.
pub record DashMap (V : Type 0) : Type 1 where
  pub Map : Type 0
  pub with_capacity : ℕ → Map
  pub insert : ℕ → V → Map → Map
  pub get : ℕ → Map → Option V
  pub get-with_capacity : (n k : ℕ) → get k (with_capacity n) ≡ none
  pub get-insert :
      (j k : ℕ) (v : V) (m : Map) → get j (insert k v m) ≡ (if k == j then some v else get j m)

-- A function meets the laws.
abbrev pub function_map : (V : Type 0) → DashMap V
function_map V = record {
  Map = ℕ → Option V;
  with_capacity = λ n k. none;
  insert = λ k v m j. if k == j then some v else m j;
  get = λ k m. m k;
  get-with_capacity = λ n k. refl;
  get-insert = λ j k v m. refl;
}
