-- ===== src/Commands/ApiEnds.antt =====
-- How `run` of cmd/api/main.go ends.
use cca_go_indexer.Base.{
  ℕ, ◌+◌, ◌<◌, ◌≡◌, ◌≢◌, refl, sym, ap, ◌∙◌, arith, Bool, true, false, Option, none, some,
}
use mathlib.Core.Path.{subst}
use cca_go_indexer.Commands.ApiRun.{
  ServeError, Serving, listening, failing, sent, ended, server_error, shutdown_error, Waiting,
  selecting, shutting_down, returned, System, Step, fail, close, send, cancel, receive, stop,
  shut_down, fail_to_shut_down, Reach, start, later, signal,
}

-- The steps that the two goroutines have before them.
abbrev pub serving_left : Serving → ℕ
serving_left listening = 3
serving_left (failing e) = 2
serving_left (sent e) = 1
serving_left (ended o) = 0

abbrev pub waiting_left : Waiting → ℕ
waiting_left selecting = 2
waiting_left shutting_down = 1
waiting_left (returned r) = 0

abbrev pub left : System → ℕ
left s = serving_left s.serving + waiting_left s.waiting

pub Step-left : {s t : System} → Step s t → left t < left s
Step-left (fail e a) = rw a (omega arith)
Step-left (close a b) = rw a (omega arith)
Step-left (send e a b) = rw a (omega arith)
Step-left (cancel e a) = rw a (omega arith)
Step-left (receive e a b) = rw a (omega arith)
Step-left (stop a b) = rw a (omega arith)
Step-left (shut_down a) = rw a (omega arith)
Step-left (fail_to_shut_down a) = rw a (omega arith)

-- The error that the serving goroutine has put into the channel.
abbrev pub sent_error : Serving → Option ServeError
sent_error listening = none
sent_error (failing e) = none
sent_error (sent e) = some e
sent_error (ended o) = o

-- What is still in the channel; `run` takes an error only to return it.
abbrev pub in_channel : Waiting → Option ServeError → Option ServeError
in_channel (returned (some (server_error e))) o = none
in_channel w o = o

abbrev pub is_open : Waiting → Bool
is_open (returned r) = false
is_open w = true

-- The error that `run` returns is one that `Start` has returned, and it returns nil, or that the
-- shutdown failed, only after the context was done.
abbrev pub IsReported : Bool → Option ServeError → Waiting → Type 0
IsReported done o selecting = Unit {0}
IsReported done o (returned (some (server_error e))) = o ≡ some e
IsReported done o w = done ≡ true

-- The serving goroutine ends after `Shutdown` was called or after it has canceled the context.
abbrev pub HasStopped : Bool → Waiting → Serving → Type 0
HasStopped done w (ended none) = w ≢ selecting
HasStopped done w (ended (some e)) = done ≡ true
HasStopped done w v = Unit {0}

pub record IsSound (s : System) : Type 0 where
  pub channel : s.err_ch ≡ in_channel s.waiting (sent_error s.serving)
  pub store : s.store_open ≡ is_open s.waiting
  pub reported : IsReported s.done (sent_error s.serving) s.waiting
  pub stopped : HasStopped s.done s.waiting s.serving

in_channel_unreported :
    (done : Bool) (o : Option ServeError) (w : Waiting)
    → IsReported done none w
    → in_channel w o ≡ o
in_channel_unreported done o selecting h = refl
in_channel_unreported done o shutting_down h = refl
in_channel_unreported done o (returned none) h = refl
in_channel_unreported done o (returned (some (server_error e))) h = ground arith
in_channel_unreported done o (returned (some shutdown_error)) h = refl

IsReported-send :
    (done : Bool) (o : Option ServeError) (w : Waiting)
    → IsReported done none w
    → IsReported done o w
IsReported-send done o selecting h = tt
IsReported-send done o shutting_down h = h
IsReported-send done o (returned none) h = h
IsReported-send done o (returned (some (server_error e))) h = ground arith
IsReported-send done o (returned (some shutdown_error)) h = h

IsReported-done :
    (done : Bool) (o : Option ServeError) (w : Waiting) → IsReported done o w → IsReported true o w
IsReported-done done o selecting h = tt
IsReported-done done o shutting_down h = refl
IsReported-done done o (returned none) h = refl
IsReported-done done o (returned (some (server_error e))) h = h
IsReported-done done o (returned (some shutdown_error)) h = refl

HasStopped-done :
    (done : Bool) (w : Waiting) (v : Serving) → HasStopped done w v → HasStopped true w v
HasStopped-done done w listening h = tt
HasStopped-done done w (failing e) h = tt
HasStopped-done done w (sent e) h = tt
HasStopped-done done w (ended none) h = h
HasStopped-done done w (ended (some e)) h = refl

select-HasStopped :
    (done : Bool) (w w' : Waiting) (v : Serving)
    → w' ≢ selecting
    → HasStopped done w v
    → HasStopped done w' v
select-HasStopped done w w' listening moved h = tt
select-HasStopped done w w' (failing e) moved h = tt
select-HasStopped done w w' (sent e) moved h = tt
select-HasStopped done w w' (ended none) moved h = moved
select-HasStopped done w w' (ended (some e)) moved h = h

pub Step-IsSound : {s t : System} → IsSound s → Step s t → IsSound t
Step-IsSound {s} p (fail e a) = record {
  channel = p.channel ∙ ap (λ v. in_channel s.waiting (sent_error v)) a;
  store = p.store;
  reported = subst (λ v. IsReported s.done (sent_error v) s.waiting) a p.reported;
  stopped = tt;
}
Step-IsSound {s} p (close a b) = record {
  channel = p.channel ∙ ap (λ v. in_channel s.waiting (sent_error v)) a;
  store = p.store;
  reported = subst (λ v. IsReported s.done (sent_error v) s.waiting) a p.reported;
  stopped = b;
}
Step-IsSound {s} p (send e a b) =
    let before = subst (λ v. IsReported s.done (sent_error v) s.waiting) a p.reported in
    record {
      channel = sym (in_channel_unreported s.done (some e) s.waiting before);
      store = p.store;
      reported = IsReported-send s.done (some e) s.waiting before;
      stopped = tt;
    }
Step-IsSound {s} p (cancel e a) = record {
  channel = p.channel ∙ ap (λ v. in_channel s.waiting (sent_error v)) a;
  store = p.store;
  reported =
      IsReported-done s.done (some e) s.waiting
        (subst (λ v. IsReported s.done (sent_error v) s.waiting) a p.reported);
  stopped = refl;
}
Step-IsSound {s} p (receive e a b) = record {
  channel = refl;
  store = refl;
  reported = sym (p.channel ∙ ap (λ w. in_channel w (sent_error s.serving)) a) ∙ b;
  stopped =
      select-HasStopped s.done s.waiting (returned (some (server_error e))) s.serving (λ k. cc)
        p.stopped;
}
Step-IsSound {s} p (stop a b) = record {
  channel = p.channel ∙ ap (λ w. in_channel w (sent_error s.serving)) a;
  store = p.store ∙ ap is_open a;
  reported = b;
  stopped = select-HasStopped s.done s.waiting shutting_down s.serving (λ k. cc) p.stopped;
}
Step-IsSound {s} p (shut_down a) = record {
  channel = p.channel ∙ ap (λ w. in_channel w (sent_error s.serving)) a;
  store = refl;
  reported = subst (IsReported s.done (sent_error s.serving)) a p.reported;
  stopped = select-HasStopped s.done s.waiting (returned none) s.serving (λ k. cc) p.stopped;
}
Step-IsSound {s} p (fail_to_shut_down a) = record {
  channel = p.channel ∙ ap (λ w. in_channel w (sent_error s.serving)) a;
  store = refl;
  reported = subst (IsReported s.done (sent_error s.serving)) a p.reported;
  stopped =
      select-HasStopped s.done s.waiting (returned (some shutdown_error)) s.serving (λ k. cc)
        p.stopped;
}

pub signal-IsSound : (s : System) → IsSound s → IsSound (record s { done = true })
signal-IsSound s p = record {
  channel = p.channel;
  store = p.store;
  reported = IsReported-done s.done (sent_error s.serving) s.waiting p.reported;
  stopped = HasStopped-done s.done s.waiting s.serving p.stopped;
}

pub Reach-IsSound : {n : ℕ} {s : System} → Reach n s → IsSound s
Reach-IsSound start = record { channel = refl; store = refl; reported = tt; stopped = tt }
Reach-IsSound (later r step) = Step-IsSound (Reach-IsSound r) step
Reach-IsSound (signal {n} {s} r) = signal-IsSound s (Reach-IsSound r)

-- In every interleaving, the store is closed once `run` has returned, and not before; an error of the
-- server that `run` returns is one that `Start` has returned, and `run` ends without one only after the
-- context was done.
pub Reach-IsReported :
    {n : ℕ} {s : System}
    → Reach n s
    → (s.store_open ≡ is_open s.waiting) × IsReported s.done (sent_error s.serving) s.waiting
Reach-IsReported r = let p = Reach-IsSound r in (p.store, p.reported)
