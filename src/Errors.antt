-- ===== src/Errors.antt =====
-- errors.go and status.go: the states of a connection and the errors of the library, with the
-- errors of Go's io and bufio that it passes on. A Go pair of a value and an error is a `Result`.
use Prim.Native.String.{String}
use webson.Common.{ℕ, Bool, true, false, Option, none, some}

-- status.go: -1, 0, 1 and 2.
pub data Status : Type 0 where
  status_yet_ready status_ready status_closed status_timeout : Status

abbrev pub status_eq : Status → Status → Bool
status_eq status_yet_ready status_yet_ready = true
status_eq status_ready status_ready = true
status_eq status_closed status_closed = true
status_eq status_timeout status_timeout = true
status_eq _ _ = false

-- `new_error` is errors.New or fmt.Errorf with its text; `io_error` is any error of the network.
pub data Error : Type 0 where
  msg_yet_complete msg_too_large write_after_close : Error
  cant_write_yet : Status → Error
  new_error : String → Error
  eof buffer_full : Error
  io_error : ℕ → Error

pub data Result {ℓ} (A : Type ℓ) : Type ℓ where
  ok : A → Result A
  err : Error → Result A

infixl 5 ◌>>=◌
abbrev pub ◌>>=◌ {ℓ κ} : {A : Type ℓ} {B : Type κ} → Result A → (A → Result B) → Result B
ok a >>= f = f a
err e >>= f = err e

-- utils.go: a clean end of the connection is no error.
unfoldable pub except_eof : Option Error → Option Error
except_eof none = none
except_eof (some eof) = none
except_eof (some e) = some e
