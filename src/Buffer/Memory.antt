-- ===== src/Buffer/Memory.antt =====
-- Where the readable bytes lie in the memory: the well-formedness of a buffer, and what each
-- operation of Buffer.cpp does to it and to the readable bytes.
use user_center.Base.{
  ℕ, ◌+◌, ◌-◌, ◌<◌, ◌≤◌, ◌≡◌, ◌∙◌, ap, sym, refl, ◌++◌, Bytes, arith, length, take, drop, replicate,
  copy_to, length-append, length-take, length-drop, length-replicate, length-copy_to, take_all,
  take-append, drop-append, drop_all, drop-drop, drop-take, take-take, take-copy_to, drop-copy_to,
  Bool-cases, inl, inr, ltb, false, [],
}
use user_center.Buffer.{
  Buffer, cheap_prepend, readable_bytes, writable_bytes, prependable_bytes, contents, init,
  retrieve, retrieve_all, peek_string, write_back, resize, make_space,
}

pub record IsValid (b : Buffer) : Type 0 where
  pub ordered : b.read_index ≤ b.write_index
  pub within : b.write_index ≤ length b.store
  pub headroom : cheap_prepend ≤ length b.store

pub length-contents : (b : Buffer) → IsValid b → length (contents b) ≡ readable_bytes b
unfolding contents
length-contents b v = omega (
  arith,
  length-take (readable_bytes b) (drop b.read_index b.store),
  length-drop b.read_index b.store,
)

pub init-IsValid : (n : ℕ) → IsValid (init n)
unfolding init
init-IsValid n =
    let size = length-replicate {A = ℕ} (cheap_prepend + n) 0 in
    record { ordered = omega arith; within = omega (arith, size); headroom = omega (arith, size) }

pub init-empty : (n : ℕ) → contents (init n) ≡ []
unfolding init contents
init-empty n = refl

-- Taking a prefix of the readable bytes.
pub peek_string_lem :
    (n : ℕ) (b : Buffer) → n ≤ readable_bytes b → peek_string n b ≡ take n (contents b)
unfolding peek_string contents
peek_string_lem n b h = sym (take-take n (readable_bytes b) (drop b.read_index b.store) h)

pub retrieve-IsValid : (n : ℕ) (b : Buffer) → IsValid b → IsValid (retrieve n b)
unfolding retrieve
retrieve-IsValid n b v = ground arith

contents-advance :
    (n : ℕ) (b : Buffer)
    → n ≤ readable_bytes b
    → contents (record b { read_index = b.read_index + n }) ≡ drop n (contents b)
unfolding contents
contents-advance n b h =
    ap (take (b.write_index - (b.read_index + n)))
      (sym (drop-drop b.read_index n (b.read_index + n) b.store refl))
    ∙ sym (
        drop-take n (b.write_index - (b.read_index + n)) (readable_bytes b)
          (drop b.read_index b.store) (omega arith))

pub retrieve_all-IsValid : (b : Buffer) → IsValid b → IsValid (retrieve_all b)
unfolding retrieve_all
retrieve_all-IsValid b v = omega (arith, v.headroom)

pub contents-retrieve_all : (b : Buffer) → contents (retrieve_all b) ≡ []
unfolding contents retrieve_all
contents-retrieve_all b = refl

pub contents-retrieve :
    (n : ℕ) (b : Buffer)
    → IsValid b
    → n ≤ readable_bytes b
    → contents (retrieve n b) ≡ drop n (contents b)
unfolding retrieve
contents-retrieve n b v h = elim (Bool-cases (ltb n (readable_bytes b))) [
  | inl less ↦ rw less (contents-advance n b h)
  | inr all ↦ rw all (
      contents-retrieve_all b ∙ sym (drop_all n (contents b) (ground (arith, length-contents b v))))
]

pub write_back-IsValid :
    (str : Bytes) (b : Buffer)
    → IsValid b
    → length str ≤ writable_bytes b
    → IsValid (write_back str b)
unfolding write_back
write_back-IsValid str b v h =
    let size = length-copy_to b.store b.write_index str in
    record {
      ordered = omega (arith, v.ordered);
      within = omega (arith, size, v.within);
      headroom = omega (arith, size, v.headroom);
    }

pub contents-write_back :
    (str : Bytes) (b : Buffer)
    → IsValid b
    → length str ≤ writable_bytes b
    → contents (write_back str b) ≡ contents b ++ str
unfolding contents write_back
contents-write_back str b v h =
    let m = b.write_index + length str - b.read_index in
    let size = length-drop b.read_index b.store in
    ap (take m) (
      drop-copy_to b.store b.read_index b.write_index (readable_bytes b) str
        (omega (arith, v.ordered)))
    ∙ take-copy_to (drop b.read_index b.store) (readable_bytes b) str m (omega (arith, v.ordered))
        (omega (arith, size, v.ordered, v.within))

-- Growing the memory keeps what is readable.
resize_keeps :
    (n r k : ℕ) (xs : Bytes)
    → length xs ≤ n
    → r + k ≤ length xs
    → take k (drop r (resize n xs)) ≡ take k (drop r xs)
unfolding resize
resize_keeps n r k xs h g =
    rw (take_all n xs h, drop-append r xs (replicate (n - length xs) 0) (omega arith))
      (take-append k (drop r xs) (replicate (n - length xs) 0) (omega (arith, length-drop r xs)))

pub length-resize : (n : ℕ) (xs : Bytes) → length (resize n xs) ≡ n
unfolding resize
length-resize n xs = omega (
  arith,
  length-append (take n xs) (replicate (n - length xs) 0),
  length-take n xs,
  length-replicate {A = ℕ} (n - length xs) 0,
)

-- Copying the readable bytes to just behind the cheap prepend area of a memory with room.
unfoldable pub relocated : (b : Buffer) (xs : Bytes) → Buffer
relocated b xs = record {
  store = copy_to xs cheap_prepend (contents b);
  read_index = cheap_prepend;
  write_index = cheap_prepend + readable_bytes b;
}

module _ (b : Buffer) (xs : Bytes) (v : IsValid b)
    (room : cheap_prepend + readable_bytes b ≤ length xs) where
  pub relocated-IsValid : IsValid (relocated b xs)
  unfolding relocated
  relocated-IsValid =
      let size = length-copy_to xs cheap_prepend (contents b) in
      record { ordered = omega arith; within = omega (arith, size); headroom = omega (arith, size) }

  pub contents-relocated : contents (relocated b xs) ≡ contents b
  unfolding relocated
  contents-relocated =
      let c = contents b in
      let m = cheap_prepend + readable_bytes b - cheap_prepend in
      unfold contents in
      ap (take m) (drop-copy_to xs cheap_prepend cheap_prepend 0 c refl)
      ∙ take-copy_to (drop cheap_prepend xs) 0 c m (omega (arith, length-contents b v))
          (omega (arith, length-drop cheap_prepend xs))

-- The move to the front is made only where the target lies before the source, as `std::copy` asks.
pub move_is_forward :
    (len : ℕ) (b : Buffer)
    → writable_bytes b < len
    → ltb (writable_bytes b + prependable_bytes b) (len + cheap_prepend) ≡ false
    → cheap_prepend < b.read_index
move_is_forward len b h e = ground arith

module _ (len : ℕ) (b : Buffer) (v : IsValid b) (short : writable_bytes b < len) where
  pub make_space-IsValid : IsValid (make_space len b)
  unfolding make_space
  make_space-IsValid =
      elim (Bool-cases (ltb (writable_bytes b + prependable_bytes b) (len + cheap_prepend))) [
        | inl grow ↦
            let size = length-resize (b.write_index + len) b.store in
            rw grow (record {
              ordered = v.ordered;
              within = omega (arith, size);
              headroom = omega (arith, size, v.headroom, v.within);
            })
        | inr move ↦
            let front = move_is_forward len b short move in
            rw move (
              unfold relocated in
              relocated-IsValid b b.store v (omega (arith, v.ordered, v.within, front)))
      ]

  pub contents-make_space : contents (make_space len b) ≡ contents b
  unfolding make_space
  contents-make_space =
      elim (Bool-cases (ltb (writable_bytes b + prependable_bytes b) (len + cheap_prepend))) [
        | inl grow ↦ rw grow (
            unfold contents in
            resize_keeps (b.write_index + len) b.read_index (readable_bytes b) b.store (omega arith)
              (omega (arith, v.ordered, v.within)))
        | inr move ↦
            let front = move_is_forward len b short move in
            rw move (
              unfold relocated in
              contents-relocated b b.store v (omega (arith, v.ordered, v.within, front)))
      ]

  pub make_space_room : len ≤ writable_bytes (make_space len b)
  unfolding make_space
  make_space_room = ground (
    arith,
    length-resize (b.write_index + len) b.store,
    length-copy_to b.store cheap_prepend (contents b),
    v,
  )
