-- ===== src/Buffer/Io.antt =====
-- readFd and writeFd of Buffer.cpp against any answer that the kernel may give.
use user_center.Base.{
  ℕ, ◌≤◌, ◌≡◌, ◌∙◌, ap, ◌++◌, Bytes, arith, length, take, drop, copy_to, length-take, take_all,
  Bool-cases, inl, inr, leb, true, false, append_assoc, ◌==◌, take-append-drop,
}
use user_center.Buffer.{
  Buffer, readable_bytes, writable_bytes, contents, retrieve, retrieve_all, write_back, append,
  read_fd, write_fd, read_ok, write_ok,
}
use user_center.Buffer.Memory.{
  IsValid, retrieve-IsValid, contents-retrieve, write_back-IsValid, contents-write_back,
}
use user_center.Buffer.Effects.{append-IsValid, contents-append}

module _ (bytes : Bytes) (b : Buffer) (v : IsValid b) where
  -- What readFd leaves when the bytes fit, and when they do not.
  read_fits : length bytes ≤ writable_bytes b → (read_fd (read_ok bytes) b).1 ≡ write_back bytes b
  unfolding read_fd write_back
  read_fits h = elim (Bool-cases (leb (length bytes) (writable_bytes b))) [
    | inl fits ↦ rw (fits, take_all (writable_bytes b) bytes h)
    | inr over ↦ absurd (ground arith)
  ]

  read_overflows :
      leb (length bytes) (writable_bytes b) ≡ false
      → (read_fd (read_ok bytes) b).1
        ≡ append (drop (writable_bytes b) bytes) (write_back (take (writable_bytes b) bytes) b)
  unfolding read_fd write_back
  read_overflows over = rw over (
      ap
        (λ n. append (drop (writable_bytes b) bytes) (record b {
          store = copy_to b.store b.write_index (take (writable_bytes b) bytes);
          write_index = n;
        }))
        (ground (arith, length-take (writable_bytes b) bytes, v)))

  pub read_fd-IsValid : IsValid (read_fd (read_ok bytes) b).1
  read_fd-IsValid = elim (Bool-cases (leb (length bytes) (writable_bytes b))) [
    | inl fits ↦ rw (read_fits (ground arith)) (write_back-IsValid bytes b v (ground arith))
    | inr over ↦ rw (read_overflows over) (
        append-IsValid (drop (writable_bytes b) bytes) _ (
          write_back-IsValid (take (writable_bytes b) bytes) b v
            (omega (arith, length-take (writable_bytes b) bytes))))
  ]

  -- All that readv delivered stands behind what was readable, also the part that went through the
  -- buffer on the stack.
  pub contents-read_fd : contents (read_fd (read_ok bytes) b).1 ≡ contents b ++ bytes
  contents-read_fd = elim (Bool-cases (leb (length bytes) (writable_bytes b))) [
    | inl fits ↦ rw (read_fits (ground arith)) (contents-write_back bytes b v (ground arith))
    | inr over ↦
        let front = take (writable_bytes b) bytes in
        let back = drop (writable_bytes b) bytes in
        let room : length front ≤ writable_bytes b =
          omega (arith, length-take (writable_bytes b) bytes) in
        rw (read_overflows over) (
          contents-append back _ (write_back-IsValid front b v room)
          ∙ ap (λ c. c ++ back) (contents-write_back front b v room)
          ∙ append_assoc (contents b) front back
          ∙ ap (◌++◌ (contents b)) (take-append-drop (writable_bytes b) bytes))
  ]

module _ (n : ℕ) (b : Buffer) (v : IsValid b) (sent : n ≤ readable_bytes b) where
  zero_sent : (readable_bytes b == 0) ≡ true → 0 ≡ n
  zero_sent e = ground arith

  -- With nothing readable the call returns at once; with something it is a retrieve.
  write_step : (readable_bytes b == 0) ≡ false → (write_fd (write_ok n) b).1 ≡ retrieve n b
  unfolding write_fd retrieve retrieve_all
  write_step some_left = rw some_left (ground arith)

  -- writeFd drops exactly the bytes that the kernel took.
  pub contents-write_fd : contents (write_fd (write_ok n) b).1 ≡ drop n (contents b)
  contents-write_fd = elim (Bool-cases (readable_bytes b == 0)) [
    | inl empty ↦ unfold write_fd in rw empty (ap (λ k. drop k (contents b)) (zero_sent empty))
    | inr some_left ↦ rw (write_step some_left) (contents-retrieve n b v sent)
  ]

  pub write_fd-IsValid : IsValid (write_fd (write_ok n) b).1
  write_fd-IsValid = elim (Bool-cases (readable_bytes b == 0)) [
    | inl empty ↦ unfold write_fd in rw empty v
    | inr some_left ↦ rw (write_step some_left) (retrieve-IsValid n b v)
  ]
