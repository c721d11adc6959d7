-- ===== src/Net/Connection.antt =====
-- include/net/Connection.h and src/net/Connection.cpp: what a connection does in the loop's thread when
-- its descriptor is ready, and when it is given a message. The system calls are the parameter
-- `kernel` on a state `W` of the outside world; the two callbacks that the server and main set are
-- parameters as well. `none` is an abort of the process,
-- or the use of an object that is destroyed.
pub mod Writing
pub mod Sending
pub mod Reading
pub mod Requests
use user_center.Base.{
  ℕ, ◌+◌, ◌-◌, ◌/◌, ◌++◌, List, [], ◌∷◌, Option, none, some, Bool, true, false, Bytes, codes, ltb,
  leb, length, to_string, if◌then◌else◌, ◌==◌,
}
use user_center.Buffer.{
  Buffer, init, initial_size, contents, readable_bytes, append, retrieve, ReadAnswer, WriteAnswer,
  write_failed, write_ok, IoResult, io_error, io_count, read_room, read_fd,
}
use user_center.Http.Request.{HttpRequest}
use user_center.Http.Response.{crlf}
use user_center.Http.Context.{HttpContext, Parsed, parse, reset, is_error}
use user_center.Net.Channel.{
  Channel, new_channel, Callback, on_error, on_read, on_write, handle_event, CtlOp, is_writing,
  enable_reading, enable_writing, disable_writing, end_channel,
}

-- The system calls of this class. The clock counts nanoseconds.
pub record Kernel (W : Type 0) : Type 0 where
  pub epoll_ctl : CtlOp → ℕ → ℕ → W → Option W
  pub readv : ℕ → ℕ → W → ReadAnswer × W
  pub write : ℕ → Bytes → W → WriteAnswer × W
  pub shutdown_write : ℕ → W → W
  pub close : ℕ → W → W
  pub clock : W → ℕ

-- EAGAIN, which is EWOULDBLOCK
abbrev pub eagain : ℕ
eagain = 11

-- `alive` says whether a shared pointer still owns the object.
pub record Connection : Type 0 where
  pub channel : Channel
  pub input : Buffer
  pub output : Buffer
  pub context : HttpContext
  pub last_active : ℕ
  pub alive : Bool

-- A connection in its world.
pub record Link (W : Type 0) : Type 0 where
  pub conn : Connection
  pub world : W

abbrev pub bind {ℓ κ} : {A : Type ℓ} {B : Type κ} → Option A → (A → Option B) → Option B
bind none f = none
bind (some a) f = f a

-- `(now - lastActiveTime_)` in whole seconds against the timeout.
unfoldable pub is_idle : ℕ → ℕ → Connection → Bool
is_idle now timeout c = leb timeout ((now - c.last_active) / 1000000000)

-- A member that is used after a callback: the behaviour is undefined once the object is destroyed.
abbrev pub while_alive : {W : Type 0} → (Link W → Option (Link W)) → Link W → Option (Link W)
while_alive f l = if l.conn.alive then f l else none

abbrev pub error_status : ℕ → Bytes
error_status status =
    if status == 400
    then codes "Bad Request"
    else if status == 404
    then codes "Not Found"
    else codes "Internal Server Error"

unfoldable pub error_response : ℕ → Bytes
error_response status =
    codes "HTTP/1.1 "
    ++ to_string status
    ++ codes " "
    ++ error_status status
    ++ crlf
    ++ codes "Content-Length: "
    ++ to_string (length (error_status status))
    ++ crlf
    ++ codes "Connection: close"
    ++ crlf
    ++ crlf
    ++ error_status status

module _ {W : Type 0} (kernel : Kernel W) where
  open kernel use {epoll_ctl, readv, write, shutdown_write, close, clock}

  -- A call of the channel on the link.
  unfoldable pub relinked : Link W → Option (Channel × W) → Option (Link W)
  relinked l none = none
  relinked l (some (c, w)) = some (record { conn = record (l.conn) { channel = c }; world = w })

  unfoldable pub start_writing : Link W → Option (Link W)
  unfolding relinked enable_writing
  start_writing l = relinked l (enable_writing epoll_ctl l.conn.channel l.world)

  unfoldable pub stop_writing : Link W → Option (Link W)
  unfolding relinked disable_writing
  stop_writing l = relinked l (disable_writing epoll_ctl l.conn.channel l.world)

  -- The constructor: reading is enabled at once.
  unfoldable pub create : ℕ → W → Option (Link W)
  unfolding relinked enable_reading new_channel init reset
  create fd w =
      let l : Link W = record {
        conn = record {
          channel = new_channel fd;
          input = init initial_size;
          output = init initial_size;
          context = reset;
          last_active = clock w;
          alive = true;
        };
        world = w;
      } in
      relinked l (enable_reading epoll_ctl l.conn.channel w)

  unfoldable pub update_active_time : Link W → Link W
  update_active_time l = record l { conn = record (l.conn) { last_active = clock l.world } }

  -- The bytes that went out leave the output buffer.
  unfoldable pub drop_sent : ℕ → Link W → Link W
  unfolding update_active_time retrieve
  drop_sent n l =
      let active = update_active_time l in
      record active { conn = record (active.conn) { output = retrieve n active.conn.output } }

  -- `::write` of all that waits in the output buffer.
  unfoldable pub write_output : Link W → WriteAnswer × Link W
  unfolding contents
  write_output l =
      let r = write l.conn.channel.fd (contents l.conn.output) l.world in
      (r.0, record l { world = r.1 })

  unfoldable pub shutdown : Link W → Link W
  shutdown l = record l { world = shutdown_write l.conn.channel.fd l.world }

  unfoldable pub remove_connection : Link W → Option (Link W)
  unfolding relinked end_channel
  remove_connection l =
      bind (relinked l (end_channel epoll_ctl l.conn.channel l.world))
        (λ m. some (record m { world = close m.conn.channel.fd m.world }))

  module _ (close_callback : Link W → Option (Link W)) where
    -- handleError and handleClose
    abbrev pub handle_error : Link W → Option (Link W)
    handle_error l = close_callback l

    abbrev pub handle_close : Link W → Option (Link W)
    handle_close l = close_callback l

    unfoldable pub after_send : WriteAnswer × Link W → Option (Link W)
    unfolding start_writing drop_sent
    after_send (write_failed e, l) = if e == eagain then start_writing l else handle_error l
    after_send (write_ok n, l) =
        let rest = drop_sent n l in
        if ltb 0 (readable_bytes rest.conn.output) then start_writing rest else some rest

    -- A message joins the output; it is written at once unless a write event is awaited.
    unfoldable pub send_in_loop : Bytes → Link W → Option (Link W)
    unfolding append is_writing after_send write_output
    send_in_loop message l =
        let m : Link W = record l {
          conn = record (l.conn) { output = append message l.conn.output };
        } in
        if is_writing l.conn.channel then some m else after_send (write_output m)

    unfoldable pub after_write : WriteAnswer × Link W → Option (Link W)
    unfolding stop_writing drop_sent
    after_write (write_failed e, l) = if e == eagain then some l else handle_error l
    after_write (write_ok n, l) =
        let rest = drop_sent n l in
        if readable_bytes rest.conn.output == 0 then stop_writing rest else some rest

    unfoldable pub handle_write : Link W → Option (Link W)
    unfolding stop_writing after_write write_output
    handle_write l =
        if readable_bytes l.conn.output == 0 then stop_writing l else after_write (write_output l)

    unfoldable pub send_error_response : ℕ → Link W → Option (Link W)
    unfolding error_response send_in_loop
    send_error_response status l = send_in_loop (error_response status) l

    module _ (request_callback : HttpRequest → Link W → Option (Link W)) where
      -- The context starts afresh for the next request.
      unfoldable pub reset_context : Link W → Option (Link W)
      unfolding reset
      reset_context =
          while_alive (λ l. some (record l { conn = record (l.conn) { context = reset } }))

      -- What the parser made of the input so far.
      unfoldable pub after_parse : Parsed Buffer → Link W → Option (Link W)
      unfolding send_error_response reset_context
      after_parse p l =
          let m : Link W = record l {
            conn = record (l.conn) { input = p.buffer; context = p.context };
          } in
          if is_error p.context.state
          then bind (send_error_response 400 m) (while_alive handle_error)
          else if p.complete
          then bind (request_callback p.context.request m) reset_context
          else some m

      unfoldable pub parse_input : Link W → Option (Link W)
      unfolding parse after_parse
      parse_input l = bind (parse l.conn.context l.conn.input) (λ p. after_parse p l)

      unfoldable pub after_read : IoResult → Link W → Option (Link W)
      unfolding parse_input update_active_time
      after_read (io_error e) l = handle_error l
      after_read (io_count n) l =
          if n == 0 then handle_close l else parse_input (update_active_time l)

      unfoldable pub handle_read : Link W → Option (Link W)
      unfolding read_fd read_room after_read
      handle_read l =
          let r = readv l.conn.channel.fd (read_room l.conn.input) l.world in
          let s = read_fd r.0 l.conn.input in
          after_read s.0 (record { conn = record (l.conn) { input = s.1 }; world = r.1 })

      -- Channel::handleEvent with the three callbacks of the constructor.
      unfoldable pub called : Callback → Link W → Option (Link W)
      unfolding handle_read handle_write
      called on_error l = handle_error l
      called on_read l = handle_read l
      called on_write l = handle_write l

      -- Behind the read callback handleEvent looks at `revents_` again.
      unfoldable pub looks_again : Callback → Link W → Option (Link W)
      looks_again on_error l = some l
      looks_again on_read l = while_alive (λ m. some m) l
      looks_again on_write l = some l

      unfoldable pub call_all : List Callback → Link W → Option (Link W)
      unfolding called looks_again
      call_all [] l = some l
      call_all (c ∷ cs) l = bind (called c l) (λ m. bind (looks_again c m) (call_all cs))

      unfoldable pub handle_link_event : Link W → Option (Link W)
      unfolding call_all handle_event
      handle_link_event l = call_all (handle_event l.conn.channel) l
