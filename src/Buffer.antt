-- ===== src/Buffer.antt =====
-- include/utils/Buffer.h and src/utils/Buffer.cpp: the network buffer. Its memory is the list of
-- all bytes of `buffer_`; the bytes not yet taken are those from `read_index` up to `write_index`.
-- Sizes are ℕ: no buffer comes near 2 ^ 64 bytes. What the kernel's readv and writev answer is an
-- argument. An assertion of the source is a hypothesis of the theorems.
pub mod Memory
pub mod Effects
pub mod Io
pub mod Queue
use user_center.Base.{
  ℕ, ◌+◌, ◌-◌, ◌<◌, ◌≡◌, List, ◌++◌, Option, none, some, Bytes, arith, length, take, drop,
  replicate, copy_to, ltb, leb, if◌then◌else◌, ◌==◌, zero, suc, [], ◌∷◌, ◌&&◌,
}
use mathlib.Core.Option

abbrev pub cheap_prepend : ℕ
cheap_prepend = 8

abbrev pub initial_size : ℕ
initial_size = 1024

-- sizeof(extrabuf)
abbrev pub extra_size : ℕ
extra_size = 65536

pub record Buffer : Type 0 where
  pub store : Bytes
  pub read_index : ℕ
  pub write_index : ℕ

unfoldable pub init : ℕ → Buffer
init initial = record {
  store = replicate (cheap_prepend + initial) 0;
  read_index = cheap_prepend;
  write_index = cheap_prepend;
}

abbrev pub readable_bytes : Buffer → ℕ
readable_bytes b = b.write_index - b.read_index

abbrev pub writable_bytes : Buffer → ℕ
writable_bytes b = length b.store - b.write_index

abbrev pub prependable_bytes : Buffer → ℕ
prependable_bytes b = b.read_index

-- The bytes from `peek()` up to the end of the readable part.
unfoldable pub contents : Buffer → Bytes
contents b = take (readable_bytes b) (drop b.read_index b.store)

unfoldable pub retrieve_all : Buffer → Buffer
retrieve_all b = record b { read_index = cheap_prepend; write_index = cheap_prepend }

unfoldable pub retrieve : ℕ → Buffer → Buffer
unfolding retrieve_all
retrieve len b =
    if ltb len (readable_bytes b)
    then record b { read_index = b.read_index + len }
    else retrieve_all b

-- `std::string(peek(), len)`
unfoldable pub peek_string : ℕ → Buffer → Bytes
peek_string len b = take len (drop b.read_index b.store)

unfoldable pub retrieve_as_string : ℕ → Buffer → Bytes × Buffer
unfolding peek_string
retrieve_as_string len b = (peek_string len b, retrieve len b)

unfoldable pub retrieve_all_as_string : Buffer → Bytes × Buffer
retrieve_all_as_string b = retrieve_as_string (readable_bytes b) b

-- `buffer_.resize(n)`
unfoldable pub resize : ℕ → Bytes → Bytes
resize n xs = take n xs ++ replicate (n - length xs) 0

unfoldable pub make_space : ℕ → Buffer → Buffer
unfolding resize contents
make_space len b =
    if ltb (writable_bytes b + prependable_bytes b) (len + cheap_prepend)
    then record b { store = resize (b.write_index + len) b.store }
    else record {
      store = copy_to b.store cheap_prepend (contents b);
      read_index = cheap_prepend;
      write_index = cheap_prepend + readable_bytes b;
    }

unfoldable pub ensure_writable_bytes : ℕ → Buffer → Buffer
unfolding make_space
ensure_writable_bytes len b = if ltb (writable_bytes b) len then make_space len b else b

-- `std::copy` to `beginWrite()`, and the step of `writeIndex_`.
unfoldable pub write_back : Bytes → Buffer → Buffer
write_back str b = record b {
  store = copy_to b.store b.write_index str;
  write_index = b.write_index + length str;
}

unfoldable pub append : Bytes → Buffer → Buffer
unfolding write_back
append str b = write_back str (ensure_writable_bytes (length str) b)

-- A prepend that does not fit is logged, and changes nothing.
unfoldable pub prepend : Bytes → Buffer → Buffer
prepend str b = if ltb (prependable_bytes b) (length str) then b else record b {
  store = copy_to b.store (b.read_index - length str) str;
  read_index = b.read_index - length str;
}

-- `memmem(…, "\r\n", 2)`: the offset of the first CR that an LF follows.
unfoldable pub find_crlf_bytes : Bytes → Option ℕ
find_crlf_bytes [] = none
find_crlf_bytes (a ∷ []) = none
find_crlf_bytes (a ∷ b ∷ s) =
    if a == 13 && b == 10 then some 0 else Option.map suc (find_crlf_bytes (b ∷ s))

unfoldable pub find_crlf : Buffer → Option ℕ
find_crlf b = find_crlf_bytes (contents b)

-- The search from an offset, with the answer counted from `peek()` too.
unfoldable pub find_crlf_from : ℕ → Buffer → Option ℕ
find_crlf_from start b = Option.map (λ n. start + n) (find_crlf_bytes (drop start (contents b)))

-- An answer of readv: an errno, or the bytes put into the two areas.
pub data ReadAnswer : Type 0 where
  read_failed : ℕ → ReadAnswer
  read_ok : Bytes → ReadAnswer

-- What readFd returns: -1 with the errno saved, or the count of bytes read.
pub data IoResult : Type 0 where
  io_error : ℕ → IoResult
  io_count : ℕ → IoResult

-- The room that readFd offers to readv, in one area or two.
unfoldable pub read_room : Buffer → ℕ
read_room b =
    if ltb (writable_bytes b) extra_size then writable_bytes b + extra_size else writable_bytes b

-- readv fills the writable area first; `extrabuf` takes the rest.
unfoldable pub read_fd : ReadAnswer → Buffer → IoResult × Buffer
unfolding append
read_fd (read_failed e) b = (io_error e, b)
read_fd (read_ok bytes) b =
    let filled = record b {
      store = copy_to b.store b.write_index (take (writable_bytes b) bytes);
    } in
    (
      io_count (length bytes),
      if leb (length bytes) (writable_bytes b)
          then record filled { write_index = b.write_index + length bytes }
          else append (drop (writable_bytes b) bytes)
              (record filled { write_index = length b.store }),
    )

pub data WriteAnswer : Type 0 where
  write_failed : ℕ → WriteAnswer
  write_ok : ℕ → WriteAnswer

unfoldable pub after_writev : WriteAnswer → Buffer → IoResult × Buffer
unfolding retrieve retrieve_all
after_writev (write_failed e) b = (io_error e, b)
after_writev (write_ok n) b =
    (io_count n, if ltb n (readable_bytes b) then retrieve n b else retrieve_all b)

-- An empty buffer writes nothing, whatever the kernel would answer.
unfoldable pub write_fd : WriteAnswer → Buffer → IoResult × Buffer
unfolding after_writev
write_fd answer b = if readable_bytes b == 0 then (io_count 0, b) else after_writev answer b

unfoldable pub shrink : ℕ → Buffer → Buffer
unfolding contents
shrink reserve b =
    let capacity = cheap_prepend + readable_bytes b + reserve in
    if leb (length b.store) capacity then b else record {
      store = copy_to (replicate capacity 0) cheap_prepend (contents b);
      read_index = cheap_prepend;
      write_index = cheap_prepend + readable_bytes b;
    }
