-- ===== src/Proto/Server.antt =====
-- What the protocol uses of src/http.c, as an interface: the sockets and the machine at the other
-- end are not in the repository's code.
use frostlake_odbc.Base.{ℕ, Bytes}

-- The outcome of `fl_http_post`: a transport failure with its message, or a status and a body.
pub data Answer : Type 0 where
  failed : Bytes → Answer
  answered : ℕ → Bytes → Answer

-- A server with all that the exchange depends on: what a POST to /api/execute and a DELETE on a
-- path answer, and the state that they leave it in. The path and the address are fixed.
pub record Server : Type 1 where
  pub State : Type 0
  pub post_execute : State → Bytes → Answer × State
  pub delete_path : State → Bytes → ℕ → State
