-- ===== src/Topology/Errors.antt =====
-- Go errors as values, and the pair of a value and an error as a sum.
use p2p_tests.Prelude.{Text}

pub data GoError : Type 0 where
  -- An error of a library, by its text.
  external : Text → GoError
  -- errors.New, errors.Errorf and fmt.Errorf of this program.
  message : Text → GoError
  -- errors.Wrap, errors.Wrapf, and fmt.Errorf of an error: a cause behind a text.
  wrapped : GoError → Text → GoError

pub data Result {ℓ} (A : Type ℓ) : Type ℓ where
  ok : A → Result A
  err : GoError → Result A
