-- ===== src/Errors/Sample.antt =====
-- A gerr for tests and witnesses: an error is its kind, and With and Args change nothing.
use navlink.Base.{refl}
use navlink.Errors.{Gerr}
use navlink.Errors.Kinds.{ErrorKind, kind_beq}

instance abbrev pub kind_gerr : Gerr ErrorKind
kind_gerr = record {
  base = λ k. k;
  with_metadata = λ e _ _. e;
  with_args = λ e _. e;
  matches = kind_beq;
  matches-base = λ _ _. refl;
  matches-with_metadata = λ _ _ _ _. refl;
  matches-with_args = λ _ _ _. refl;
}
