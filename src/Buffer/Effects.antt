-- ===== src/Buffer/Effects.antt =====
-- The writing operations of Buffer.cpp: what append, prepend, shrink, readFd and writeFd do to the
-- readable bytes, on every branch.
use user_center.Base.{
  ℕ, ◌+◌, ◌-◌, ◌≤◌, ◌≡◌, ◌∙◌, ap, ◌++◌, Bytes, arith, length, take, drop, replicate, copy_to,
  length-drop, length-replicate, length-copy_to, drop-drop, take-copy_to, drop-copy_to, take-plus,
  Bool-cases, inl, inr, ltb, leb, drop_end-copy_to,
}
use user_center.Buffer.{
  Buffer, cheap_prepend, readable_bytes, writable_bytes, prependable_bytes, contents,
  ensure_writable_bytes, append, prepend, shrink,
}
use user_center.Buffer.Memory.{
  IsValid, write_back-IsValid, contents-write_back, relocated, relocated-IsValid,
  contents-relocated, make_space-IsValid, contents-make_space, make_space_room,
}

module _ (len : ℕ) (b : Buffer) (v : IsValid b) where
  pub ensure-IsValid : IsValid (ensure_writable_bytes len b)
  unfolding ensure_writable_bytes
  ensure-IsValid = elim (Bool-cases (ltb (writable_bytes b) len)) [
    | inl short ↦ rw short (make_space-IsValid len b v (ground arith))
    | inr fits ↦ rw fits v
  ]

  pub contents-ensure : contents (ensure_writable_bytes len b) ≡ contents b
  unfolding ensure_writable_bytes
  contents-ensure = elim (Bool-cases (ltb (writable_bytes b) len)) [
    | inl short ↦ rw short (contents-make_space len b v (ground arith))
    | inr fits ↦ rw fits
  ]

  -- The room that was asked for is there.
  pub ensure_room : len ≤ writable_bytes (ensure_writable_bytes len b)
  unfolding ensure_writable_bytes
  ensure_room = elim (Bool-cases (ltb (writable_bytes b) len)) [
    | inl short ↦ rw short (make_space_room len b v (ground arith))
    | inr fits ↦ rw fits (ground arith)
  ]

module _ (str : Bytes) (b : Buffer) (v : IsValid b) where
  pub append-IsValid : IsValid (append str b)
  unfolding append
  append-IsValid =
      write_back-IsValid str _ (ensure-IsValid (length str) b v) (ensure_room (length str) b v)

  pub contents-append : contents (append str b) ≡ contents b ++ str
  unfolding append
  contents-append =
      contents-write_back str _ (ensure-IsValid (length str) b v) (ensure_room (length str) b v)
      ∙ ap (λ c. c ++ str) (contents-ensure (length str) b v)

  pub prepend-IsValid : IsValid (prepend str b)
  unfolding prepend
  prepend-IsValid = ground (arith, v, length-copy_to b.store (b.read_index - length str) str)

  -- In a well-formed buffer a prepend that fits in front puts its bytes before what is readable.
  pub contents-prepend :
      length str ≤ prependable_bytes b → contents (prepend str b) ≡ str ++ contents b
  unfolding prepend contents
  contents-prepend h = elim (Bool-cases (ltb (prependable_bytes b) (length str))) [
    | inl long ↦ absurd (ground arith)
    | inr fits ↦ rw fits placed
  ]
    where
      start : ℕ
      start = b.read_index - length str

      total : ℕ
      total = b.write_index - start

      behind :
          take (readable_bytes b) (drop (length str) (copy_to (drop start b.store) 0 str))
          ≡ take (readable_bytes b) (drop b.read_index b.store)
      behind = ap (take (readable_bytes b)) (
          drop_end-copy_to (drop start b.store) str
          ∙ drop-drop start (length str) b.read_index b.store (omega arith))

      placed :
          take total (drop start (copy_to b.store start str))
          ≡ str ++ take (readable_bytes b) (drop b.read_index b.store)
      placed =
          ap (take total) (drop-copy_to b.store start start 0 str (omega arith))
          ∙ take-plus (length str) (readable_bytes b) total (copy_to (drop start b.store) 0 str)
              (omega (arith, v.ordered))
          ∙ ap
              (λ c.
                c
                ++ take (readable_bytes b) (drop (length str) (copy_to (drop start b.store) 0 str)))
              (take-copy_to (drop start b.store) 0 str (length str) (omega arith)
                (omega (arith, length-drop start b.store, v.ordered, v.within)))
          ∙ ap (λ c. str ++ c) behind

module _ (reserve : ℕ) (b : Buffer) (v : IsValid b) where
  shrink_room :
      cheap_prepend + readable_bytes b
      ≤ length (replicate {A = ℕ} (cheap_prepend + readable_bytes b + reserve) 0)
  shrink_room =
      omega (arith, length-replicate {A = ℕ} (cheap_prepend + readable_bytes b + reserve) 0)

  pub shrink-IsValid : IsValid (shrink reserve b)
  unfolding shrink
  shrink-IsValid =
      elim (Bool-cases (leb (length b.store) (cheap_prepend + readable_bytes b + reserve))) [
        | inl small ↦ rw small v
        | inr large ↦ rw large (unfold relocated in relocated-IsValid b _ v shrink_room)
      ]

  pub contents-shrink : contents (shrink reserve b) ≡ contents b
  unfolding shrink
  contents-shrink =
      elim (Bool-cases (leb (length b.store) (cheap_prepend + readable_bytes b + reserve))) [
        | inl small ↦ rw small
        | inr large ↦ rw large (unfold relocated in contents-relocated b _ v shrink_room)
      ]

  -- Nor does the memory grow.
  pub shrink-le : length (shrink reserve b).store ≤ length b.store
  unfolding shrink
  shrink-le =
      let capacity = cheap_prepend + readable_bytes b + reserve in
      ground (
        arith,
        length-copy_to (replicate capacity 0) cheap_prepend (contents b),
        length-replicate {A = ℕ} capacity 0,
      )
