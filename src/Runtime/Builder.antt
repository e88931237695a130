-- ===== src/Runtime/Builder.antt =====
-- src/runtime.rs, the fields and setters of `RuntimeBuilder`.
use hooch.Base.{ℕ}

pub record RuntimeBuilder : Type 0 where
  pub num_workers : ℕ

-- `RuntimeBuilder::new`.
unfoldable pub new : RuntimeBuilder
new = record { num_workers = 1 }

-- `RuntimeBuilder::num_workers`.
unfoldable pub with_num_workers : RuntimeBuilder → ℕ → RuntimeBuilder
with_num_workers builder workers = record builder { num_workers = workers }

-- `Default for RuntimeBuilder`.
unfoldable pub default : RuntimeBuilder
default = new
