-- ===== src/Base/Cells.antt =====
-- A variable that lives in a larger state.
use mathlib.Core.Path.{◌≡◌}

pub record Cell (S A : Type 0) : Type 0 where
  pub load : S → A
  pub store : A → S → S
  pub load-store : (a : A) (s : S) → load (store a s) ≡ a
