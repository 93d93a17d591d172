-- ===== src/Commands/ApiRun.antt =====
-- `run` of cmd/api/main.go: the goroutine that serves, the goroutine that waits, and the signals that
-- end the context, interleaved in any order.
use cca_go_indexer.Base.{ℕ, suc, ◌≡◌, ◌≢◌, Bool, true, false, Option, none, some}

-- An error of `srv.Start`, by a number.
abbrev pub ServeError : Type 0
ServeError = ℕ

-- The serving goroutine: `Start` has not returned; it has returned an error other than
-- `ErrServerClosed`; the error is in the channel; the goroutine has ended, after an error or not.
pub data Serving : Type 0 where
  listening : Serving
  failing sent : ServeError → Serving
  ended : Option ServeError → Serving

-- "server error: %w" and "shutdown error: %w"
pub data RunError : Type 0 where
  server_error : ServeError → RunError
  shutdown_error : RunError

-- `run` itself: in `select`, in `srv.Shutdown`, or returned, with an error or nil.
pub data Waiting : Type 0 where
  selecting shutting_down : Waiting
  returned : Option RunError → Waiting

-- The channel `errCh` has room for one error.
pub record System : Type 0 where
  pub serving : Serving
  pub err_ch : Option ServeError
  pub done : Bool
  pub waiting : Waiting
  pub store_open : Bool

abbrev pub init : System
init = record {
  serving = listening;
  err_ch = none;
  done = false;
  waiting = selecting;
  store_open = true;
}

-- The deferred `st.Close()` runs with every return.
abbrev pub return_with : Option RunError → System → System
return_with r s = record s { waiting = returned r; store_open = false }

-- A step of one of the goroutines. `select` takes either case where both are ready, and `Start`
-- returns `ErrServerClosed` only after `Shutdown` was called.
pub data Step (s : System) : System → Type 0 where
  fail : (e : ServeError) → s.serving ≡ listening → Step s (record s { serving = failing e })
  close : s.serving ≡ listening → s.waiting ≢ selecting → Step s (record s { serving = ended none })
  send :
      (e : ServeError)
      → s.serving ≡ failing e
      → s.err_ch ≡ none
      → Step s (record s { serving = sent e; err_ch = some e })
  cancel :
      (e : ServeError)
      → s.serving ≡ sent e
      → Step s (record s { serving = ended (some e); done = true })
  receive :
      (e : ServeError)
      → s.waiting ≡ selecting
      → s.err_ch ≡ some e
      → Step s (return_with (some (server_error e)) (record s { err_ch = none }))
  stop : s.waiting ≡ selecting → s.done ≡ true → Step s (record s { waiting = shutting_down })
  shut_down : s.waiting ≡ shutting_down → Step s (return_with none s)
  fail_to_shut_down : s.waiting ≡ shutting_down → Step s (return_with (some shutdown_error) s)

-- What is reached after so many steps of the goroutines, with signals between them.
pub data Reach : ℕ → System → Type 0 where
  start : Reach 0 init
  later : {n : ℕ} {s t : System} → Reach n s → Step s t → Reach (suc n) t
  signal : {n : ℕ} {s : System} → Reach n s → Reach n (record s { done = true })
