-- ===== src/SpecValidator/Errors.antt =====
-- The code that the errors of a check carry.
use gocsi.Base.{◌≡◌, Bool, true, false, Text}
use gocsi.Status.{Check, pass, fail, panics, ◌>>◌, fail_if, Error, status_error, Code}

-- If the check fails, it is by a new status of this code.
pub data FailsWith (c : Code) : Check → Type 0 where
  passing : FailsWith c pass
  panicking : FailsWith c panics
  failing : (m : Text) → FailsWith c (fail (status_error c m))

pub FailsWith-fail_if : (c : Code) (b : Bool) (m : Text) → FailsWith c (fail_if b c m)
FailsWith-fail_if c true m = failing m
FailsWith-fail_if c false m = passing

pub FailsWith->> : {c : Code} {x y : Check} → FailsWith c x → FailsWith c y → FailsWith c (x >> y)
FailsWith->> passing k = k
FailsWith->> panicking k = panicking
FailsWith->> (failing m) k = failing m

pub ruleset code_rules = (passing, failing, panicking, FailsWith-fail_if, FailsWith->>)

pub FailsWith-message :
    {c : Code} {x : Check} {e : Error}
    → FailsWith c x
    → x ≡ fail e
    → (m : Text) × (e ≡ status_error c m)
FailsWith-message passing h = cc
FailsWith-message panicking h = cc
FailsWith-message (failing m) h = (m, cc)
