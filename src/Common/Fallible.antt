-- ===== src/Common/Fallible.antt =====
-- Go's `(T, error)`, where an error is its message.
use Prim.Native.String.{String}

pub data Result (A : Type 0) : Type 0 where
  ok : A → Result A
  err : String → Result A
