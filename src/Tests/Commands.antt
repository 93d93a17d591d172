-- ===== src/Tests/Commands.antt =====
-- What the theorems on the API's command say for interleavings with a failing server.
use cca_go_indexer.Base.{◌≡◌, refl, inl, true, false, some, none}
use cca_go_indexer.Commands.ApiRun.{
  System, listening, sent, selecting, returned, server_error, Reach, start, later, signal, fail,
  Step, send, receive,
}
use cca_go_indexer.Commands.ApiEnds.{IsReported, is_open, Reach-IsReported}
use cca_go_indexer.Commands.ApiProgress.{Returns, Reach-Returns, Reach_lost}

-- The server fails with the error 7, a signal comes, and `run` returns the error.
abbrev after_error : System
after_error = record {
  serving = sent 7;
  err_ch = none;
  done = true;
  waiting = returned (some (server_error 7));
  store_open = false;
}

reach_error : Reach 3 after_error
reach_error =
    later (later (signal (later start (fail 7 refl))) (send 7 refl refl)) (receive 7 refl refl)

Reach-IsReported_example :
    (false ≡ is_open after_error.waiting) × IsReported true (some 7) after_error.waiting
Reach-IsReported_example = Reach-IsReported reach_error

-- A signal comes while the server listens and `run` is in `select`.
abbrev signaled : System
signaled = record {
  serving = listening;
  err_ch = none;
  done = true;
  waiting = selecting;
  store_open = true;
}

Reach-Returns_example : Returns signaled
Reach-Returns_example = Reach-Returns (signal start) (inl refl)

Reach_lost_example :
    (q u v s : System) × Reach 2 q
    × (q.serving ≡ sent 7)
    × (q.done ≡ false)
    × (q.waiting ≡ selecting)
    × (q.err_ch ≡ some 7)
    × Step q u
    × (u.waiting ≡ selecting)
    × (u.err_ch ≡ some 7)
    × Step u v
    × Step v s
    × (s.waiting ≡ returned none)
Reach_lost_example = Reach_lost 7
