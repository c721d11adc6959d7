-- ===== src/Net/Connection/Reading.antt =====
-- src/net/Connection.cpp: a connection that reads answers what the parse of all the bytes that have
-- arrived comes to, wherever the network cut them.
use user_center.Base.{
  ℕ, ◌+◌, ◌≡◌, ◌∙◌, ◌++◌, refl, sym, ap, subst, List, [], ◌∷◌, Option, some, none, Bool, false,
  Bytes, arith, length, append_assoc, append-nil, if◌then◌else◌, if_false, ◌==◌, some_eq,
}
use user_center.Buffer.{Buffer, contents, readable_bytes, read_fd, read_room, ReadAnswer, read_ok}
use user_center.Buffer.Memory.{IsValid, length-contents}
use user_center.Buffer.Io.{read_fd-IsValid, contents-read_fd}
use user_center.Http.Request.{HttpRequest}
use user_center.Http.Context.{HttpContext, Parsed, reset, is_error}
use user_center.Http.Context.Chunks.{text_loop, loop_total, loop-append, parse-Answers}
use user_center.Http.Context.Prefixes.{text_parse, joined, Waits, prefix-Waits}
use user_center.Net.Connection.{
  bind, Kernel, Link, send_error_response, reset_context, while_alive, after_parse, parse_input,
  after_read, handle_read, update_active_time,
}

abbrev waiting : HttpContext → Bytes → Bool → Option (Parsed Bytes)
waiting c xs k = some (record { context = c; buffer = xs; complete = k })

module _ {W : Type 0} where
  -- The parser waits, in the state that it is in after the bytes that arrived since it was fresh.
  pub record Hears (arrived : Bytes) (l : Link W) : Type 0 where
    pub valid : IsValid l.conn.input
    pub parsed :
        text_parse arrived
        ≡ some
            (record { context = l.conn.context; buffer = contents l.conn.input; complete = false })

  -- The link after a parse.
  pub record Holds (t : Parsed Bytes) (m : Link W) : Type 0 where
    pub valid : IsValid m.conn.input
    pub context : m.conn.context ≡ t.context
    pub unread : contents m.conn.input ≡ t.buffer

  -- The read has touched nothing but the input and the parser, and the time of the last activity.
  pub record Touches (kernel : Kernel W) (l : Link W) (v : W) (m : Link W) : Type 0 where
    pub world : m.world ≡ v
    pub output : m.conn.output ≡ l.conn.output
    pub channel : m.conn.channel ≡ l.conn.channel
    pub alive : m.conn.alive ≡ l.conn.alive
    pub active : m.conn.last_active ≡ kernel.clock v

  -- The parser of a connection that is not destroyed starts afresh.
  abbrev pub afresh : Link W → Option (Link W)
  afresh l =
      if l.conn.alive then some (record l { conn = record (l.conn) { context = reset } }) else none

  still_Hears :
      (xs : Bytes) (t : Parsed Bytes) (m : Link W)
      → text_parse xs ≡ some t
      → Waits t
      → Holds t m
      → Hears xs m
  still_Hears xs t m found quiet holds = record {
    valid = holds.valid;
    parsed =
        rw (holds.context, holds.unread) (found ∙ ap (waiting t.context t.buffer) quiet.complete);
  }

module _ {W : Type 0} (kernel : Kernel W) (close_callback : Link W → Option (Link W))
    (request_callback : HttpRequest → Link W → Option (Link W)) where
  -- What the connection does about a parse: it answers 400 and is closed, or hands the request over
  -- and starts afresh, or waits.
  abbrev pub responds : Parsed Bytes → Link W → Option (Link W)
  responds t m =
      if is_error t.context.state
      then bind (send_error_response kernel close_callback 400 m) (while_alive close_callback)
      else if t.complete
      then bind (request_callback t.context.request m) afresh
      else some m

  after_parse-responds :
      (l : Link W) (p : Parsed Buffer) (t : Parsed Bytes)
      → IsValid p.buffer
      → p.context ≡ t.context
      → contents p.buffer ≡ t.buffer
      → p.complete ≡ t.complete
      → (m : Link W) × Holds t m
        × (m ≡ record l {
          conn = record (l.conn) { input = m.conn.input; context = m.conn.context };
        })
        × (after_parse kernel close_callback request_callback p l ≡ responds t m)
  unfolding after_parse reset_context
  after_parse-responds l p t v ctx left done =
      let m : Link W = record l {
        conn = record (l.conn) { input = p.buffer; context = p.context };
      } in
      (m, record { valid = v; context = ctx; unread = left }, refl, rw (ctx, done))

  -- Bytes are read into a connection that has heard `arrived`: it responds to the parse of all of
  -- them from a fresh context.
  pub handle_read-responds :
      (arrived : Bytes) (c : ℕ) (s : Bytes) (l : Link W) (v : W)
      → Hears arrived l
      → kernel.readv l.conn.channel.fd (read_room l.conn.input) l.world ≡ (read_ok (c ∷ s), v)
      → (t : Parsed Bytes) × (text_parse (arrived ++ c ∷ s) ≡ some t)
        × ((m : Link W) × Holds t m
            × Touches kernel l v m
            × (handle_read kernel close_callback request_callback l ≡ responds t m))
  unfolding handle_read after_read parse_input update_active_time read_fd
  handle_read-responds arrived c s l v h e =
      let bytes = c ∷ s in
      let b = (read_fd (read_ok bytes) l.conn.input).1 in
      let w : IsValid b = read_fd-IsValid bytes l.conn.input h.valid in
      let all : contents b ≡ contents l.conn.input ++ bytes =
        contents-read_fd bytes l.conn.input h.valid in
      let (t, found) =
        loop_total (length (arrived ++ bytes) + 2) reset (arrived ++ bytes) (omega arith) in
      let run : text_loop (readable_bytes b + 2) l.conn.context (contents b) ≡ some t = rw (all) (
        loop-append (length arrived + 2) reset arrived bytes _ (length (arrived ++ bytes) + 2)
          (readable_bytes b + 2) h.parsed (omega arith)
          (omega (arith, length-contents b w, ap length all))
        ∙ found) in
      let (p, parsed, ctx, shows, done) = parse-Answers l.conn.context b t w run in
      let next : Link W =
        update_active_time kernel (record { conn = record (l.conn) { input = b }; world = v }) in
      let not_empty : (length bytes == 0) ≡ false = ground arith in
      let (m, holds, same, answer) = after_parse-responds next p t shows.0 ctx shows.1 done in
      (
        t,
        found,
        (
          m,
          holds,
          record {
            world = ap (λ k. k.world) same;
            output = ap (λ k. k.conn.output) same;
            channel = ap (λ k. k.conn.channel) same;
            alive = ap (λ k. k.conn.alive) same;
            active = ap (λ k. k.conn.last_active) same;
          },
          ap
                (λ (r : ReadAnswer × W).
                  after_read kernel close_callback request_callback (read_fd r.0 l.conn.input).0
                    (record {
                      conn = record (l.conn) { input = (read_fd r.0 l.conn.input).1 };
                      world = r.1;
                    }))
                e
              ∙ if_false _ _ not_empty
              ∙ ap (λ o. bind o (λ q. after_parse kernel close_callback request_callback q next))
                  parsed
              ∙ answer,
        ),
      )

  -- Reads of some bytes, one after the other, each answered.
  pub data Reads : List Bytes → Link W → Link W → Type 0 where
    no_read : {l : Link W} → Reads [] l l
    reads :
        {l m k : Link W} {c : ℕ} {s : Bytes} {rest : List Bytes} (v : W)
        → kernel.readv l.conn.channel.fd (read_room l.conn.input) l.world ≡ (read_ok (c ∷ s), v)
        → handle_read kernel close_callback request_callback l ≡ some m
        → Reads rest m k
        → Reads ((c ∷ s) ∷ rest) l k

  -- While what has arrived is not yet a request, nor an error, the reads leave the connection in the
  -- state of the parse of all of it.
  pub Reads-Hears :
      (chunks : List Bytes) (arrived : Bytes) (l k : Link W) (t : Parsed Bytes)
      → Reads chunks l k
      → Hears arrived l
      → text_parse (arrived ++ joined chunks) ≡ some t
      → Waits t
      → Hears (arrived ++ joined chunks) k
  Reads-Hears [] arrived l k t no_read h e waits =
      subst (λ s. Hears s l) (sym (append-nil arrived)) h
  Reads-Hears ([] ∷ rest) arrived l k t read h e waits = elim read [ ]
  Reads-Hears ((c ∷ s) ∷ rest) arrived l k t (reads v reading step more) h e waits =
      let all = append_assoc arrived (c ∷ s) (joined rest) in
      let (u, found, (m, holds, _, answer)) = handle_read-responds arrived c s l v h reading in
      let quiet : Waits u =
        prefix-Waits (arrived ++ c ∷ s) (joined rest) u t found (ap text_parse all ∙ e) waits in
      let same =
        some_eq (sym step ∙ answer ∙ if_false _ _ quiet.error ∙ if_false _ _ quiet.complete) in
      let next : Hears (arrived ++ c ∷ s) m =
        still_Hears (arrived ++ c ∷ s) u m found quiet holds in
      subst (λ s. Hears s k) all
        (Reads-Hears rest (arrived ++ c ∷ s) m k t (subst (λ q. Reads rest q k) same more) next
          (ap text_parse all ∙ e) waits)
