-- ===== src/Net/Connection/Requests.antt =====
-- src/net/Connection.cpp: a request that a client writes reaches the request callback, wherever the network
-- cuts it.
use user_center.Base.{
  ℕ, ◌+◌, ◌≡◌, ◌∙◌, ◌++◌, refl, sym, ap, subst, List, [], ◌∷◌, Option, some, none, if◌then◌else◌,
  Bytes, arith, length, append-nil, some_eq,
}
use user_center.Buffer.{read_room, read_ok}
use user_center.Http.Request.{HttpRequest}
use user_center.Http.Context.{reset}
use user_center.Http.Context.Chunks.{loop_total}
use user_center.Http.Context.Prefixes.{text_parse, joined, Waits, before_end-Waits}
use user_center.Http.Context.Messages.{Message, IsMessage, render, request_of, answer_of}
use user_center.Http.Context.Messages.Parsing.{loop-render}
use user_center.Net.Connection.{bind, Kernel, Link, handle_read}
use user_center.Net.Connection.Reading.{
  Touches, Hears, Holds, Reads, Reads-Hears, responds, handle_read-responds,
}

module _ {W : Type 0} (kernel : Kernel W) (close_callback : Link W → Option (Link W))
    (request_callback : HttpRequest → Link W → Option (Link W)) where
  parsed-render :
      (m : Message) (h : IsMessage m) → text_parse (render m) ≡ some (answer_of (request_of m) [])
  parsed-render m h =
      subst (λ s. text_parse s ≡ some (answer_of (request_of m) [])) (append-nil (render m))
        (loop-render m [] (length (render m ++ []) + 2) h (omega arith))

  -- A client writes a request, which comes in any number of reads: the reads before the last one leave
  -- the connection waiting, and the last one hands exactly that request to the request callback, on a
  -- connection that holds nothing unread, with the output, the channel and the world as they were and the
  -- time of this read, and then starts the parser afresh, unless the callback has had the connection destroyed.
  pub Reads-render :
      (m : Message) (chunks : List Bytes) (c : ℕ) (s : Bytes) (l k : Link W) (v : W)
      → IsMessage m
      → joined chunks ++ c ∷ s ≡ render m
      → Hears [] l
      → Reads kernel close_callback request_callback chunks l k
      → kernel.readv k.conn.channel.fd (read_room k.conn.input) k.world ≡ (read_ok (c ∷ s), v)
      → Hears (joined chunks) k
        × ((n : Link W) × Holds (answer_of (request_of m) []) n
            × Touches kernel k v n
            × (handle_read kernel close_callback request_callback k
                ≡ bind (request_callback (request_of m) n) (λ q.
                  if q.conn.alive
                  then some (record q { conn = record (q.conn) { context = reset } })
                  else none)))
  Reads-render m chunks c s l k v h text fresh earlier reading =
      let whole : text_parse (joined chunks ++ c ∷ s) ≡ some (answer_of (request_of m) []) =
        ap text_parse text ∙ parsed-render m h in
      let (u, part) = loop_total (length (joined chunks) + 2) reset (joined chunks) (omega arith) in
      let quiet : Waits u =
        before_end-Waits (joined chunks) c s u (answer_of (request_of m) []) part whole refl in
      let heard =
        Reads-Hears kernel close_callback request_callback chunks [] l k u earlier fresh part
          quiet in
      let (t, found, (n, holds, same, answer)) =
        handle_read-responds kernel close_callback request_callback (joined chunks) c s k v heard
          reading in
      let at : t ≡ answer_of (request_of m) [] = some_eq (sym found ∙ whole) in
      (
        heard,
        (
          n,
          subst (λ q. Holds q n) at holds,
          same,
          answer ∙ ap (λ q. responds kernel close_callback request_callback q n) at,
        ),
      )
