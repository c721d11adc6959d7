-- ===== src/Buffer/Queue.antt =====
-- The contract of the whole of Buffer.h: a buffer is a queue of bytes. The memory, the two indices,
-- the moves and the growth cannot be seen from outside.
use user_center.Base.{
  ℕ, ◌≤◌, ◌≡◌, ◌∙◌, ap, ap₂, refl, ◌++◌, List, [], ◌∷◌, Bytes, arith, length, take, drop, take_all,
  drop_all,
}
use user_center.Buffer.{
  Buffer, contents, retrieve_all, retrieve_as_string, retrieve_all_as_string, ensure_writable_bytes,
  append, read_fd, read_ok, write_fd, write_ok, shrink, readable_bytes,
}
use user_center.Buffer.Memory.{
  IsValid, length-contents, peek_string_lem, retrieve-IsValid, contents-retrieve,
  contents-retrieve_all, retrieve_all-IsValid,
}
use user_center.Buffer.Effects.{
  append-IsValid, contents-append, shrink-IsValid, contents-shrink, ensure-IsValid, contents-ensure,
}
use user_center.Buffer.Io.{read_fd-IsValid, contents-read_fd, write_fd-IsValid, contents-write_fd}

pub data Op : Type 0 where
  appends reads : Bytes → Op
  takes sends reserves shrinks : ℕ → Op
  takes_all clears : Op

-- The bytes that a call hands back, and the buffer after it.
unfoldable pub step : Op → Buffer → Bytes × Buffer
unfolding retrieve_as_string retrieve_all_as_string
step (appends str) b = ([], append str b)
step (reads bytes) b = ([], (read_fd (read_ok bytes) b).1)
step (takes n) b = retrieve_as_string n b
step (sends n) b = ([], (write_fd (write_ok n) b).1)
step (reserves n) b = ([], ensure_writable_bytes n b)
step (shrinks n) b = ([], shrink n b)
step takes_all b = retrieve_all_as_string b
step clears b = ([], retrieve_all b)

-- The same calls on a plain list of bytes.
abbrev pub queue_step : Op → Bytes → Bytes × Bytes
queue_step (appends str) q = ([], q ++ str)
queue_step (reads bytes) q = ([], q ++ bytes)
queue_step (takes n) q = (take n q, drop n q)
queue_step (sends n) q = ([], drop n q)
queue_step (reserves n) q = ([], q)
queue_step (shrinks n) q = ([], q)
queue_step takes_all q = (q, [])
queue_step clears q = ([], [])

-- No call takes more than there is.
abbrev pub Allowed : Op → Bytes → Type 0
Allowed (takes n) q = n ≤ length q
Allowed (sends n) q = n ≤ length q
Allowed _ q = Unit {0}

unfoldable pub run : List Op → Buffer → List Bytes × Buffer
run [] b = ([], b)
run (o ∷ os) b = ((step o b).0 ∷ (run os (step o b).1).0, (run os (step o b).1).1)

abbrev pub queue_run : List Op → Bytes → List Bytes × Bytes
queue_run [] q = ([], q)
queue_run (o ∷ os) q =
    ((queue_step o q).0 ∷ (queue_run os (queue_step o q).1).0, (queue_run os (queue_step o q).1).1)

abbrev pub AllAllowed : List Op → Bytes → Type 0
AllAllowed [] q = Unit {0}
AllAllowed (o ∷ os) q = Allowed o q × AllAllowed os (queue_step o q).1

-- One call, seen from outside: the memory stays well-formed, the bytes handed back are the queue's,
-- and so are the bytes that are left.
abbrev pub Agrees : Bytes × Buffer → Bytes × Bytes → Type 0
Agrees r s = IsValid r.1 × (r.0 ≡ s.0) × (contents r.1 ≡ s.1)

readable : (n : ℕ) (b : Buffer) → IsValid b → n ≤ length (contents b) → n ≤ readable_bytes b
readable n b v h = omega (arith, length-contents b v)

takes-Agrees :
    (n : ℕ) (b : Buffer)
    → IsValid b
    → n ≤ readable_bytes b
    → Agrees (retrieve_as_string n b) (take n (contents b), drop n (contents b))
unfolding retrieve_as_string
takes-Agrees n b v h = (retrieve-IsValid n b v, peek_string_lem n b h, contents-retrieve n b v h)

takes_all-Agrees : (b : Buffer) → IsValid b → Agrees (retrieve_all_as_string b) (contents b, [])
unfolding retrieve_all_as_string
takes_all-Agrees b v =
    let n = readable_bytes b in
    let whole = length-contents b v in
    let (valid, out, left) = takes-Agrees n b v (omega arith) in
    (
      valid,
      out ∙ take_all n (contents b) (omega (arith, whole)),
      left ∙ drop_all n (contents b) (omega (arith, whole)),
    )

step-Agrees :
    (o : Op) (b : Buffer)
    → IsValid b
    → Allowed o (contents b)
    → Agrees (step o b) (queue_step o (contents b))
unfolding step retrieve_all
step-Agrees (appends str) b v h = (append-IsValid str b v, refl, contents-append str b v)
step-Agrees (reads bytes) b v h = (read_fd-IsValid bytes b v, refl, contents-read_fd bytes b v)
step-Agrees (takes n) b v h = takes-Agrees n b v (readable n b v h)
step-Agrees (sends n) b v h =
    (write_fd-IsValid n b v (readable n b v h), refl, contents-write_fd n b v (readable n b v h))
step-Agrees (reserves n) b v h = (ensure-IsValid n b v, refl, contents-ensure n b v)
step-Agrees (shrinks n) b v h = (shrink-IsValid n b v, refl, contents-shrink n b v)
step-Agrees takes_all b v h = takes_all-Agrees b v
step-Agrees clears b v h = (retrieve_all-IsValid b v, refl, contents-retrieve_all b)

-- Over any sequence of calls in which none takes more than there is, a well-formed buffer hands back
-- the same bytes as a plain queue that starts with its readable bytes, ends with the same bytes
-- readable, and is well-formed again. Errors of the kernel's reads and writes are left out: they
-- change nothing.
pub run-queue_run :
    (os : List Op) (b : Buffer)
    → IsValid b
    → AllAllowed os (contents b)
    → ((run os b).0 ≡ (queue_run os (contents b)).0)
      × (contents (run os b).1 ≡ (queue_run os (contents b)).1)
      × IsValid (run os b).1
unfolding run
run-queue_run [] b v h = (refl, refl, v)
run-queue_run (o ∷ os) b v (h, hs) =
    let (valid, out, left) = step-Agrees o b v h in
    let (outs, end, good) = run-queue_run os (step o b).1 valid (rw left hs) in
    (
      ap₂ (λ x xs. x ∷ xs) out (outs ∙ ap (λ q. (queue_run os q).0) left),
      end ∙ ap (λ q. (queue_run os q).1) left,
      good,
    )
