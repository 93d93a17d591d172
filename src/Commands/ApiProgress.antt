-- ===== src/Commands/ApiProgress.antt =====
-- That `run` of cmd/api/main.go returns, and with what it may return after the server failed.
use cca_go_indexer.Base.{
  ℕ, zero, suc, ◌+◌, ◌<◌, ◌≤◌, ◌≡◌, ◌≢◌, refl, ap, ◌∙◌, ◌⊎◌, inl, inr, arith, Bool, true, false,
  Option, none, some,
}
use mathlib.Core.Path.{subst}
use cca_go_indexer.Commands.ApiRun.{
  ServeError, Serving, listening, failing, sent, ended, RunError, Waiting, selecting, shutting_down,
  returned, System, Step, fail, close, send, cancel, receive, stop, shut_down, fail_to_shut_down,
  Reach, start, later,
}
use cca_go_indexer.Commands.ApiEnds.{
  IsSound, HasStopped, in_channel, sent_error, left, Step-left, Step-IsSound, signal-IsSound,
  Reach-IsSound,
}

-- Every step but the failure of the server, which the program does not take.
abbrev pub IsOwn : {s t : System} → Step s t → Type 0
IsOwn (fail e a) = ⊥
IsOwn (close a b) = Unit {0}
IsOwn (send e a b) = Unit {0}
IsOwn (cancel e a) = Unit {0}
IsOwn (receive e a b) = Unit {0}
IsOwn (stop a b) = Unit {0}
IsOwn (shut_down a) = Unit {0}
IsOwn (fail_to_shut_down a) = Unit {0}

-- `run` returns, whatever happens: it has, or the program has a step of its own to take, and `run`
-- returns after each step that can be taken and after a signal.
pub data Returns : System → Type 0 where
  has_returned : {s : System} (r : Option RunError) → s.waiting ≡ returned r → Returns s
  goes_on :
      {s t : System} (step : Step s t)
      → IsOwn step
      → ((u : System) → Step s u → Returns u)
      → (s.done ≡ false → Returns (record s { done = true }))
      → Returns s

-- The context is done, or the server is not up any more.
abbrev pub IsEnding : System → Type 0
IsEnding s = (s.done ≡ true) ⊎ (s.serving ≢ listening)

Step-IsEnding : {s t : System} → Step s t → IsEnding s → IsEnding t
Step-IsEnding (fail e a) h = inr (λ k. cc)
Step-IsEnding (close a b) h = inr (λ k. cc)
Step-IsEnding (send e a b) h = inr (λ k. cc)
Step-IsEnding (cancel e a) h = inr (λ k. cc)
Step-IsEnding (receive e a b) h = h
Step-IsEnding (stop a b) h = h
Step-IsEnding (shut_down a) h = h
Step-IsEnding (fail_to_shut_down a) h = h

-- The steps and the first signal that may still come.
abbrev signals_left : Bool → ℕ
signals_left true = 0
signals_left false = 1

abbrev rank : System → ℕ
rank s = left s + signals_left s.done

Step-signals : {s t : System} → Step s t → signals_left t.done ≤ signals_left s.done
Step-signals (fail e a) = omega arith
Step-signals (close a b) = omega arith
Step-signals (send e a b) = omega arith
Step-signals (cancel e a) = omega arith
Step-signals (receive e a b) = omega arith
Step-signals (stop a b) = omega arith
Step-signals (shut_down a) = omega arith
Step-signals (fail_to_shut_down a) = omega arith

-- `run` has returned, or the program has a step of its own.
abbrev HasNext : System → Type 0
HasNext s =
    ((r : Option RunError) × (s.waiting ≡ returned r))
    ⊎ ((t : System) × (step : Step s t) × IsOwn step)

channel_of :
    (s : System) (v : Serving)
    → IsSound s
    → s.waiting ≡ selecting
    → s.serving ≡ v
    → s.err_ch ≡ sent_error v
channel_of s v p a b = p.channel ∙ ap (λ w. in_channel w (sent_error s.serving)) a ∙ ap sent_error b

selecting-HasNext :
    (s : System) (v : Serving) (done : Bool)
    → IsSound s
    → IsEnding s
    → s.waiting ≡ selecting
    → s.serving ≡ v
    → s.done ≡ done
    → HasNext s
selecting-HasNext s v true p h a b d = inr (_, stop a d, tt)
selecting-HasNext s listening false p (inl done) a b d = ground arith
selecting-HasNext s listening false p (inr down) a b d = absurd (down b)
selecting-HasNext s (failing e) false p h a b d =
    inr (_, send e b (channel_of s (failing e) p a b), tt)
selecting-HasNext s (sent e) false p h a b d = inr (_, cancel e b, tt)
selecting-HasNext s (ended none) false p h a b d =
    absurd (subst (HasStopped s.done s.waiting) b p.stopped a)
selecting-HasNext s (ended (some e)) false p h a b d =
    let canceled : s.done ≡ true = subst (HasStopped s.done s.waiting) b p.stopped in ground arith

waiting-HasNext : (s : System) (w : Waiting) → IsSound s → IsEnding s → s.waiting ≡ w → HasNext s
waiting-HasNext s selecting p h a = selecting-HasNext s s.serving s.done p h a refl refl
waiting-HasNext s shutting_down p h a = inr (_, shut_down a, tt)
waiting-HasNext s (returned r) p h a = inl (r, a)

ranked-Returns : (m : ℕ) (s : System) → IsSound s → IsEnding s → rank s < m → Returns s
ranked-Returns zero s p h k = absurd (omega arith)
ranked-Returns (suc m) s p h k = elim (waiting-HasNext s s.waiting p h refl) [
  | inl (r, a) ↦ has_returned r a
  | inr (t, step, own) ↦
      goes_on step own
        (λ u next.
          ranked-Returns m u (Step-IsSound p next) (Step-IsEnding next h)
            (omega (arith, Step-left next, Step-signals next)))
        (λ quiet.
          let one : signals_left s.done ≡ 1 = ap signals_left quiet in
          ranked-Returns m (record s { done = true }) (signal-IsSound s p) (inl refl) (omega arith))
]

-- Wherever the interleaving has come to: once the context is done or the server is not up any more,
-- `run` returns, whatever steps and signals follow, and until then the program always has a step of its
-- own to take.
pub Reach-Returns : {n : ℕ} {s : System} → Reach n s → IsEnding s → Returns s
Reach-Returns {n} {s} r h = ranked-Returns (suc (rank s)) s (Reach-IsSound r) h (omega arith)

-- An error of the server can be lost: there is an interleaving in which, before any signal, the error
-- that `Start` returned is in the channel and `run` is in `select`; the goroutine's cancellation, the
-- choice of the context's end although the error is in the channel, and the shutdown follow, and `run`
-- returns nil.
pub Reach_lost :
    (e : ServeError)
    → (q u v s : System) × Reach 2 q
      × (q.serving ≡ sent e)
      × (q.done ≡ false)
      × (q.waiting ≡ selecting)
      × (q.err_ch ≡ some e)
      × Step q u
      × (u.waiting ≡ selecting)
      × (u.err_ch ≡ some e)
      × Step u v
      × Step v s
      × (s.waiting ≡ returned none)
Reach_lost e = (
  _,
  _,
  _,
  _,
  later (later start (fail e refl)) (send e refl refl),
  refl,
  refl,
  refl,
  refl,
  cancel e refl,
  refl,
  refl,
  stop refl refl,
  shut_down refl,
  refl,
)
