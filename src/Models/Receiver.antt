-- ===== src/Models/Receiver.antt =====
-- ssf-hub/pkg/models/receiver.go: the receiver, its validation and its defaults.
-- A nil slice and an empty one are one list, since the code asks only for lengths; a nil map is
-- `none`. Durations and `int` fields are integers, a float64 is its bits, and a time is the number of
-- nanoseconds since the zero time. The clock readings are arguments.
mod Defs
pub mod Validation
pub mod Defaults
pub use Defs.*
unfoldable pub use Defs.{validate_auth, validate, set_defaults, to_receiver}
