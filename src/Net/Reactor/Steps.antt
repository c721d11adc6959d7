-- ===== src/Net/Reactor/Steps.antt =====
-- src/net/TcpServer.cpp: the life of a server, from call to call of its loop.
use user_center.Base.{
  Bytes, ℕ, ◌<◌, ◌≡◌, ◌∙◌, refl, sym, ap, subst, List, [], ◌∷◌, Option, none, some, inl, inr,
  some_eq, Bool-cases, if_true, if_false, ◌⊎◌,
}
use user_center.Http.Request.{HttpRequest}
use user_center.Buffer.Memory.{IsValid}
use user_center.Net.Channel.Masks.{EpollLaws}
use user_center.Net.Connection.{Kernel, Link, is_idle}
use user_center.Net.Server.{
  TcpServer, find, on_new_connection, check_idle_timeout, check_each, check_idle_connections,
  force_close,
}
use user_center.Net.Server.Table.{CloseLaws, Serves}
use user_center.Net.Server.Serving.{on_new_connection-Serves, on_connection_closed-Serves}
use user_center.Net.Reactor.{send_on, shutdown_on, ready}
use user_center.Net.Reactor.Laws.{EventLaws}
use user_center.Net.Reactor.Events.{GoesOn}
use user_center.Net.Reactor.Serving.{
  Outcome, Undefined, send_on-Serves, shutdown_on-Serves, ready-Serves,
}

module _ {W : Type 0} (kernel : Kernel W) (epoll : EpollLaws kernel.epoll_ctl)
    (request_callback : ℕ → HttpRequest → Link (TcpServer W) → Option (Link (TcpServer W))) where
  open epoll use {registered}

  -- What the loop of a server does: time passes, or a client connects, with epoll left alone; a new
  -- connection is taken on; an event comes for a connection of the table; a message or a shutdown
  -- of a worker is run on one; the idle ones are looked for; one of the table that was idle is closed.
  pub data Steps : TcpServer W → TcpServer W → Type 0 where
    here : {s : TcpServer W} → Steps s s
    waits :
        {s t : TcpServer W} (w : W)
        → registered w ≡ registered s.world
        → Steps (record s { world = w }) t
        → Steps s t
    connects :
        {s u t : TcpServer W} (fd : ℕ)
        → registered s.world fd ≡ none
        → on_new_connection kernel fd s ≡ some u
        → Steps u t
        → Steps s t
    event :
        {s u t : TcpServer W} (fd p revents : ℕ)
        → find fd s.connections ≡ some p
        → ready kernel request_callback p revents s ≡ some u
        → Steps u t
        → Steps s t
    sends :
        {s u t : TcpServer W} (fd p : ℕ) (message : Bytes)
        → find fd s.connections ≡ some p
        → send_on kernel p message s ≡ some u
        → Steps u t
        → Steps s t
    shuts_down :
        {s u t : TcpServer W} (fd p : ℕ)
        → find fd s.connections ≡ some p
        → shutdown_on kernel p s ≡ some u
        → Steps u t
        → Steps s t
    checks :
        {s t : TcpServer W} (seconds : ℕ)
        → Steps (check_idle_connections kernel seconds s) t
        → Steps s t
    times_out :
        {s u t : TcpServer W} (fd p : ℕ)
        → find fd s.connections ≡ some p
        → force_close kernel p s ≡ some u
        → Steps u t
        → Steps s t

-- The part of a server that its idle checks leave alone.
same_table :
    {W : Type 0} (kernel : Kernel W) (epoll : EpollLaws kernel.epoll_ctl) (s t : TcpServer W)
    → t.connections ≡ s.connections
    → t.objects ≡ s.objects
    → t.created ≡ s.created
    → epoll.registered t.world ≡ epoll.registered s.world
    → Serves kernel epoll s
    → Serves kernel epoll t
same_table kernel epoll s t table objects created world h = record {
  each = λ fd p found.
      let b = h.each fd p (sym (ap (find fd) table) ∙ found) in
      record {
        made = subst (λ n. p < n) (sym created) b.made;
        writing = b.writing;
        watched = record {
          same_fd = ap (λ f. (f p).channel.fd) objects ∙ b.watched.same_fd;
          events = ap (λ f. (f p).channel.events) objects ∙ b.watched.events;
          in_epoll = ap (λ f. (f p).channel.in_epoll) objects ∙ b.watched.in_epoll;
          kernel = ap (λ f. f fd) world ∙ b.watched.kernel;
        };
        valid = subst (λ f. IsValid (f p).input) (sym objects) b.valid;
        alive = ap (λ f. (f p).alive) objects ∙ b.alive;
      };
}

module _ {W : Type 0} (kernel : Kernel W) (epoll : EpollLaws kernel.epoll_ctl) where
  idle-Serves :
      (seconds p : ℕ) (s : TcpServer W)
      → Serves kernel epoll s
      → Serves kernel epoll (check_idle_timeout kernel seconds p s)
  unfolding check_idle_timeout
  idle-Serves seconds p s h =
      elim (Bool-cases (is_idle (kernel.clock s.world) seconds (s.objects p))) [
        | inl idle ↦
            subst (Serves kernel epoll) (sym (if_true _ _ idle))
              (same_table kernel epoll s _ refl refl refl refl h)
        | inr active ↦ subst (Serves kernel epoll) (sym (if_false _ _ active)) h
      ]

  each-Serves :
      (seconds : ℕ) (table : List (ℕ × ℕ)) (s : TcpServer W)
      → Serves kernel epoll s
      → Serves kernel epoll (check_each kernel seconds table s)
  unfolding check_each
  each-Serves seconds [] s h = h
  each-Serves seconds ((fd, p) ∷ rest) s h =
      each-Serves seconds rest (check_idle_timeout kernel seconds p s) (idle-Serves seconds p s h)

  checks-Serves :
      (seconds : ℕ) (s : TcpServer W)
      → Serves kernel epoll s
      → Serves kernel epoll (check_idle_connections kernel seconds s)
  unfolding check_idle_connections
  checks-Serves seconds s h = each-Serves seconds s.connections s h

  module _ (events : EventLaws kernel epoll) (closing : CloseLaws kernel epoll)
      (request_callback : ℕ → HttpRequest → Link (TcpServer W) → Option (Link (TcpServer W)))
      (answers : GoesOn kernel epoll events closing request_callback) where
    -- Over any steps of the loop all connections of the table stay served.
    pub Steps-Serves :
        (s t : TcpServer W)
        → Steps kernel epoll request_callback s t
        → Serves kernel epoll s
        → Serves kernel epoll t
    unfolding force_close
    Steps-Serves s t here h = h
    Steps-Serves s t (waits w same rest) h =
        Steps-Serves (record s { world = w }) t rest
          (same_table kernel epoll s (record s { world = w }) refl refl refl same h)
    Steps-Serves s t (connects {u} fd unknown step rest) h =
        let (v, e, served, _, _) = on_new_connection-Serves kernel epoll fd s h unknown in
        Steps-Serves u t rest (subst (Serves kernel epoll) (some_eq (sym e ∙ step)) served)
    Steps-Serves s t (event {u} fd p revents found step rest) h =
        elim (ready-Serves kernel epoll events closing request_callback fd p revents s answers h
          found) [
            | inl (v, e, served, _, _) ↦
                Steps-Serves u t rest (subst (Serves kernel epoll) (some_eq (sym e ∙ step)) served)
            | inr (undefined, _, _, _) ↦ absurd (let x = sym undefined ∙ step in cc)
          ]
    Steps-Serves s t (sends {u} fd p message found step rest) h =
        let (v, e, served, _, _) =
          send_on-Serves kernel epoll events closing fd p message s h found in
        Steps-Serves u t rest (subst (Serves kernel epoll) (some_eq (sym e ∙ step)) served)
    Steps-Serves s t (shuts_down {u} fd p found step rest) h =
        let (v, e, served, _, _) = shutdown_on-Serves kernel epoll events closing fd p s h found in
        Steps-Serves u t rest (subst (Serves kernel epoll) (some_eq (sym e ∙ step)) served)
    Steps-Serves s t (checks seconds rest) h =
        Steps-Serves (check_idle_connections kernel seconds s) t rest (checks-Serves seconds s h)
    Steps-Serves s t (times_out {u} fd p found step rest) h =
        let (v, e, served, _, _, _) =
          on_connection_closed-Serves kernel epoll closing fd p s h found in
        Steps-Serves u t rest (subst (Serves kernel epoll) (some_eq (sym e ∙ step)) served)

    pub Steps-ready :
        (s t : TcpServer W) (fd p revents : ℕ)
        → Steps kernel epoll request_callback s t
        → Serves kernel epoll s
        → find fd t.connections ≡ some p
        → Serves kernel epoll t
          × (((u : TcpServer W) × (ready kernel request_callback p revents t ≡ some u)
                × Serves kernel epoll u
                × Outcome kernel epoll events closing fd p u)
              ⊎ Undefined kernel epoll events closing request_callback fd p revents t)
    Steps-ready s t fd p revents steps h found =
        let served = Steps-Serves s t steps h in
        (
          served,
          elim (ready-Serves kernel epoll events closing request_callback fd p revents t answers
              served found) [
                | inl (u, e, after, how, _) ↦ inl (u, e, after, how)
                | inr undefined ↦ inr undefined
              ],
        )
