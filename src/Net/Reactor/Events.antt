-- ===== src/Net/Reactor/Events.antt =====
-- src/net/Connection.cpp and src/net/Channel.cpp: the callbacks of one event on a connection of the server,
-- in whatever order the channel calls them.
use user_center.Base.{
  ◌≤◌, ◌⊎◌, ◌≡◌, true, false, none, some, arith, length, ℕ, ◌∙◌, inl, inr, refl, sym, ap, subst,
  List, [], ◌∷◌, Option, Bytes, ◌==◌, if_true, if_false, Bool-cases,
}
use user_center.Buffer.{
  read_fd, read_room, ReadAnswer, read_failed, read_ok, IoResult, io_error, io_count, Buffer,
}
use user_center.Buffer.Memory.{IsValid}
use user_center.Buffer.Io.{read_fd-IsValid}
use user_center.Http.Request.{HttpRequest}
use user_center.Http.Context.{Parsed, is_error, reset}
use user_center.Http.Context.Chunks.{parse_total}
use user_center.Net.Channel.{Callback, on_error, on_read, on_write, handle_event}
use user_center.Net.Channel.Masks.{EpollLaws}
use user_center.Net.Connection.{
  bind, while_alive, Kernel, Connection, Link, update_active_time, send_in_loop,
  send_error_response, error_response, reset_context, after_parse, parse_input, after_read,
  handle_read, called, looks_again, call_all, handle_link_event,
}
use user_center.Net.Server.{TcpServer}
use user_center.Net.Server.Table.{CloseLaws}
use user_center.Net.Reactor.{served_kernel, close_callback}
use user_center.Net.Reactor.Laws.{EventLaws}
use user_center.Net.Reactor.Links.{Lives, Continues, Gone, Runs, bind-Runs, alive-Runs, stir}
use user_center.Net.Reactor.Callbacks.{
  reads, for_reads, reads-for_reads, reads_first, few_callbacks,
}
use user_center.Net.Reactor.Calls.{close-Continues, send-Continues, write-Continues}

read-IsValid : (a : ReadAnswer) (b : Buffer) → IsValid b → IsValid (read_fd a b).1
unfolding read_fd
read-IsValid (read_failed e) b v = v
read-IsValid (read_ok bytes) b v = read_fd-IsValid bytes b v

module _ {W : Type 0} (kernel : Kernel W) (epoll : EpollLaws kernel.epoll_ctl)
    (events : EventLaws kernel epoll) (closing : CloseLaws kernel epoll)
    (request_callback : ℕ → HttpRequest → Link (TcpServer W) → Option (Link (TcpServer W))) where
  open epoll use {registered}
  open events use {is_open}

  -- The request callback goes on too, and touches no other connection.
  abbrev pub GoesOn : Type 0
  GoesOn =
      (s : TcpServer W) (fd p : ℕ) (r : HttpRequest) (l : Link (TcpServer W))
      → Lives kernel epoll events s fd p l
      → Continues kernel epoll events s fd p (request_callback p r l)

  abbrev event : Link (TcpServer W) → ℕ → Option (Link (TcpServer W))
  event l p =
      handle_link_event (served_kernel kernel) (close_callback kernel p) (request_callback p) l

  abbrev received : ℕ → Link (TcpServer W) → Option (Link (TcpServer W))
  received p l = handle_read (served_kernel kernel) (close_callback kernel p) (request_callback p) l

  -- The read callback has closed the connection, or has itself used it after that.
  abbrev pub Closes : ℕ → ℕ → Link (TcpServer W) → Type 0
  Closes fd p l =
      (received p l ≡ none)
      ⊎ ((m : Link (TcpServer W)) × (received p l ≡ some m) × Gone kernel epoll events fd p m)

  module _ (answers : GoesOn) (s : TcpServer W) (fd p : ℕ) where
    abbrev pub On : Option (Link (TcpServer W)) → Type 0
    On o = Runs kernel epoll events s fd p o

    abbrev pub Now : Link (TcpServer W) → Type 0
    Now l = Lives kernel epoll events s fd p l

    reset-On :
        (l : Link (TcpServer W))
        → Now l
        → On (reset_context (served_kernel kernel) (close_callback kernel p) (request_callback p) l)
    unfolding reset_context
    reset-On l h =
        let c : Connection = record (l.conn) { context = reset } in
        alive-Runs kernel epoll events s fd p
          (λ k. some (record k { conn = record (k.conn) { context = reset } })) l h
          (inl (
            record l { conn = c },
            refl,
            stir kernel epoll events s fd p l c l.world.world h refl refl h.valid refl refl,
          ))

    parsed-On :
        (q : Parsed Buffer) (l : Link (TcpServer W))
        → IsValid q.buffer
        → Now l
        → On (after_parse (served_kernel kernel) (close_callback kernel p) (request_callback p) q l)
    unfolding after_parse send_error_response
    parsed-On q l v h =
        let c : Connection = record (l.conn) { input = q.buffer; context = q.context } in
        let m : Link (TcpServer W) = record l { conn = c } in
        let h' : Now m =
          stir kernel epoll events s fd p l c l.world.world h refl refl v refl refl in
        elim (Bool-cases (is_error q.context.state)) [
          | inl refused ↦ subst On (sym (if_true _ _ refused)) (
              bind-Runs kernel epoll events s fd p _ _
                (inl (send-Continues kernel epoll events closing s fd p (error_response 400) m h'))
                (λ k g.
                  alive-Runs kernel epoll events s fd p (close_callback kernel p) k g
                    (inl (close-Continues kernel epoll events closing s fd p k g))))
          | inr fine ↦ elim (Bool-cases q.complete) [
            | inl whole ↦ subst On (sym (if_false _ _ fine ∙ if_true _ _ whole)) (
                bind-Runs kernel epoll events s fd p _ _
                  (inl (answers s fd p q.context.request m h')) reset-On)
            | inr part ↦ subst On (sym (if_false _ _ fine ∙ if_false _ _ part)) (inl (m, refl, h'))
          ]
        ]

    input-On :
        (l : Link (TcpServer W))
        → Now l
        → On (parse_input (served_kernel kernel) (close_callback kernel p) (request_callback p) l)
    unfolding parse_input
    input-On l h =
        let (q, e, v) = parse_total l.conn.context l.conn.input h.valid in
        subst On
          (sym (
            ap
              (λ o. bind o (λ x.
                after_parse (served_kernel kernel) (close_callback kernel p) (request_callback p) x
                  l))
              e))
          (parsed-On q l v h)

    after_read-On :
        (r : IoResult) (l : Link (TcpServer W))
        → Now l
        → On (after_read (served_kernel kernel) (close_callback kernel p) (request_callback p) r l)
    unfolding after_read update_active_time
    after_read-On (io_error e) l h = inl (close-Continues kernel epoll events closing s fd p l h)
    after_read-On (io_count n) l h = elim (Bool-cases (n == 0)) [
      | inl closed ↦
          subst On (sym (if_true _ _ closed))
            (inl (close-Continues kernel epoll events closing s fd p l h))
      | inr bytes ↦
          let m = update_active_time (served_kernel kernel) l in
          subst On (sym (if_false _ _ bytes)) (
            input-On m (
              stir kernel epoll events s fd p l m.conn l.world.world h refl refl h.valid refl refl))
    ]

    read-On :
        (l : Link (TcpServer W))
        → Now l
        → On (handle_read (served_kernel kernel) (close_callback kernel p) (request_callback p) l)
    unfolding handle_read
    read-On l h =
        let n = l.conn.channel.fd in
        let room = read_room l.conn.input in
        let r = kernel.readv n room l.world.world in
        let (epoll_same, open_same) = events.read_law n room l.world.world in
        let c : Connection = record (l.conn) { input = (read_fd r.0 l.conn.input).1 } in
        after_read-On (read_fd r.0 l.conn.input).0
          (record { conn = c; world = record (l.world) { world = r.1 } })
          (stir kernel epoll events s fd p l c r.1 h refl refl
            (read-IsValid r.0 l.conn.input h.valid) epoll_same open_same)

    called-On :
        (c : Callback) (l : Link (TcpServer W))
        → Now l
        → On (called (served_kernel kernel) (close_callback kernel p) (request_callback p) c l)
    unfolding called
    called-On on_error l h = inl (close-Continues kernel epoll events closing s fd p l h)
    called-On on_read l h = read-On l h
    called-On on_write l h = inl (write-Continues kernel epoll events closing s fd p l h)

    again-On :
        (c : Callback) (l : Link (TcpServer W))
        → Now l
        → On (looks_again (served_kernel kernel) (close_callback kernel p) (request_callback p) c l)
    unfolding looks_again
    again-On on_error l h = inl (l, refl, h)
    again-On on_read l h =
        alive-Runs kernel epoll events s fd p (λ m. some m) l h (inl (l, refl, h))
    again-On on_write l h = inl (l, refl, h)

    -- The last callback of an event.
    ends :
        {o : Option (Link (TcpServer W))}
        → Continues kernel epoll events s fd p o
        → Continues kernel epoll events s fd p (bind o (λ m. bind (some m) (λ k. some k)))
    ends (m, e, h) = (m, ap (λ q. bind q (λ k. some k)) e, h)

    all-On :
        (cs : List Callback) (l : Link (TcpServer W))
        → Now l
        → On (call_all (served_kernel kernel) (close_callback kernel p) (request_callback p) cs l)
    unfolding call_all
    all-On [] l h = inl (l, refl, h)
    all-On (c ∷ cs) l h =
        bind-Runs kernel epoll events s fd p _ _ (called-On c l h)
          (λ m g. bind-Runs kernel epoll events s fd p _ _ (again-On c m g) (all-On cs))

    -- An error, or readiness for writes alone, uses nothing of an object that it has had destroyed.
    only-On :
        (cs : List Callback) (l : Link (TcpServer W))
        → reads cs ≡ false
        → length cs ≤ 1
        → Now l
        → Continues kernel epoll events s fd p
            (call_all (served_kernel kernel) (close_callback kernel p) (request_callback p) cs l)
    unfolding call_all called looks_again
    only-On [] l e few h = (l, refl, h)
    only-On (on_error ∷ []) l e few h =
        ends (close-Continues kernel epoll events closing s fd p l h)
    only-On (on_read ∷ []) l e few h = cc
    only-On (on_write ∷ []) l e few h =
        ends (write-Continues kernel epoll events closing s fd p l h)
    only-On (c ∷ d ∷ cs) l e few h = absurd (omega arith)

    abbrev run : List Callback → Link (TcpServer W) → Option (Link (TcpServer W))
    run cs l = call_all (served_kernel kernel) (close_callback kernel p) (request_callback p) cs l

    -- A read first, and a write at most behind it.
    first-On :
        (ws : List Callback) (l : Link (TcpServer W))
        → reads ws ≡ false
        → length ws ≤ 1
        → Now l
        → Continues kernel epoll events s fd p (run (on_read ∷ ws) l)
          ⊎ ((run (on_read ∷ ws) l ≡ none) × (s.held p ≡ false) × Closes fd p l)
    unfolding call_all called looks_again
    first-On ws l none_read few h = elim (read-On l h) [
      | inr (e, free) ↦
          inr (ap (λ o. bind o (λ m. bind (while_alive (λ k. some k) m) (run ws))) e, free, inl e)
      | inl (m, e, h') ↦ elim h'.is [
        | inl g ↦
            let (k, e', h'') = only-On ws m none_read few h' in
            inl (
              k,
              ap (λ o. bind o (λ q. bind (while_alive (λ r. some r) q) (run ws))) e
                  ∙ ap (λ o. bind o (run ws)) (if_true (some m) none g.alive)
                  ∙ e',
              h'',
            )
        | inr gone ↦ elim (all-On (on_read ∷ ws) l h) [
          | inl goes ↦ inl goes
          | inr (undefined, free) ↦ inr (undefined, free, inr (m, e, gone))
        ]
      ]
    ]

    -- The callbacks of an event go through, unless a read of an object that nothing else holds has had
    -- it destroyed.
    pub event-On :
        (l : Link (TcpServer W))
        → Now l
        → Continues kernel epoll events s fd p (event l p)
          ⊎ ((event l p ≡ none)
              × (s.held p ≡ false)
              × (for_reads l.conn.channel.revents ≡ true)
              × Closes fd p l)
    unfolding handle_link_event
    event-On l h =
        let cs = handle_event l.conn.channel in
        elim (Bool-cases (reads cs)) [
          | inr none_read ↦ inl (only-On cs l none_read (few_callbacks l.conn.channel none_read) h)
          | inl some_read ↦
              let (ws, same, none_read, few) = reads_first l.conn.channel some_read in
              elim (first-On ws l none_read few h) [
                | inl (m, e, h') ↦ inl (m, ap (λ xs. run xs l) same ∙ e, h')
                | inr (undefined, free, gone) ↦ inr (
                  ap (λ xs. run xs l) same ∙ undefined,
                  free,
                  reads-for_reads l.conn.channel some_read,
                  gone,
                )
              ]
        ]

-- A callback that answers with a message, as the limit of requests and the refusals of the pool do.
pub send-GoesOn :
    {W : Type 0} (kernel : Kernel W) (epoll : EpollLaws kernel.epoll_ctl)
    (events : EventLaws kernel epoll) (closing : CloseLaws kernel epoll)
    (text : HttpRequest → Bytes)
    → GoesOn kernel epoll events closing
        (λ p r l. send_in_loop (served_kernel kernel) (close_callback kernel p) (text r) l)
send-GoesOn kernel epoll events closing text s fd p r l h =
    send-Continues kernel epoll events closing s fd p (text r) l h
