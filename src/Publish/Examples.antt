-- ===== src/Publish/Examples.antt =====
-- publish.go: tests. An error that no one marked as attempted, and that is not known to be one from
-- before the transport was called, is uncertain.
use navlink.Base.{◌≡◌, refl, true, false, none, some, [], ◌∷◌, map}
use navlink.Base.Text.{text}
use navlink.Errors.{coded, canceled, message}
use navlink.Errors.Kinds.{ErrorKind, publish_failed, timeout_error}
use navlink.Errors.Sample.{kind_gerr}
use navlink.Errors.{is_kind, is_canceled, is_deadline_exceeded}
use navlink.Publish.{is_publish_timeout}
use navlink.Publish.{outcome_string, was_attempted, mark_attempted, classify_publish}

classify_test :
    map
      (λ e. outcome_string (classify_publish {E = ErrorKind} e))
      (none
        ∷ some canceled
        ∷ mark_attempted (some canceled)
        ∷ some (coded publish_failed)
        ∷ some (coded timeout_error)
        ∷ some (message (text "boom"))
        ∷ [])
    ≡ text "accepted"
      ∷ text "not_started"
      ∷ text "uncertain"
      ∷ text "not_started"
      ∷ text "uncertain"
      ∷ text "uncertain"
      ∷ []
unfolding classify_publish mark_attempted was_attempted is_kind is_canceled is_deadline_exceeded
classify_test = refl

timeout_test :
    (is_publish_timeout {E = ErrorKind} (coded timeout_error) ≡ true)
    × (is_publish_timeout {E = ErrorKind} canceled ≡ false)
unfolding is_publish_timeout is_kind is_deadline_exceeded
timeout_test = (refl, refl)
