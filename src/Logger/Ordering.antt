-- ===== src/Logger/Ordering.antt =====
-- src/utils/Logger.cpp: what the threads log comes out once and in order, whatever the writer does in
-- between, and neither a buffer nor the file outgrows its limit.
use user_center.Base.{
  ℕ, ◌+◌, ◌-◌, ◌≤◌, ◌<◌, ◌≡◌, ◌∙◌, ◌++◌, ◌⊎◌, inl, inr, refl, sym, ap, subst, List, [], ◌∷◌, true,
  Bytes, arith, ltb, ltb→lt, length, take, length-take, length-append, append_assoc, append-nil,
  if_true, if_false, Bool-cases,
}
use user_center.Logger.{
  AsyncLogger, Sink, to_file, to_console, console_end, is_empty, line_of, need_length, cut_message,
  log_line, make_room, insert_line,
}

-- The text of the lines in an output: the ends of batches on the console are none of it.
abbrev pub shown : Sink → Bytes → Bytes
shown console_end bytes = []
shown to_file bytes = bytes
shown to_console bytes = bytes

-- The text that the writer has put out, in order, less the end that follows a batch on the console.
abbrev pub all_out : List (Sink × Bytes) → Bytes
all_out [] = []
all_out ((s, bytes) ∷ rest) = shown s bytes ++ all_out rest

pub all_out-append :
    (xs : List (Sink × Bytes)) (s : Sink) (bytes : Bytes)
    → all_out (xs ++ (s, bytes) ∷ []) ≡ all_out xs ++ shown s bytes
all_out-append [] s bytes = append-nil (shown s bytes)
all_out-append ((t, x) ∷ xs) s bytes =
    ap (λ r. shown t x ++ r) (all_out-append xs s bytes)
    ∙ sym (append_assoc (shown t x) (all_out xs) (shown s bytes))

length-line_of :
    (size : ℕ) (header message : Bytes)
    → length header < size
    → length (line_of size header message) ≡ need_length size header message
unfolding line_of cut_message need_length
length-line_of size header message h =
    elim (Bool-cases (ltb size (length header + length message + 1))) [
      | inl over ↦
          let cut = take (size - length header - 1) message in
          rw (over) (
            omega (
              arith,
              length-append (header ++ cut) (10 ∷ []),
              length-append header cut,
              length-take (size - length header - 1) message,
              ltb→lt size (length header + length message + 1) over,
            ))
      | inr fits ↦
          rw (fits) (
            omega
              (arith, length-append (header ++ message) (10 ∷ []), length-append header message))
    ]

need-room :
    (size : ℕ) (header message : Bytes)
    → length header < size
    → need_length size header message ≤ size
unfolding need_length
need-room size header message h = ground arith

-- The buffers keep their limit.
pub record Bounded (l : AsyncLogger) : Type 0 where
  pub current : length l.current ≤ l.buffer_size
  pub next : length l.next ≤ l.buffer_size

-- A line joins what the buffers hold, and the rest of the logger stays.
pub record Kept (line : Bytes) (l m : AsyncLogger) : Type 0 where
  pub bounded : Bounded m
  pub same_count : m.dropped_count ≡ l.dropped_count
  pub same_size : m.buffer_size ≡ l.buffer_size
  pub same_output : m.output ≡ l.output
  pub same_file : m.file_size ≡ l.file_size
  pub held : m.next ++ m.current ≡ (l.next ++ l.current) ++ line

pub empty-nil : (s : Bytes) → is_empty s ≡ true → s ≡ []
empty-nil [] e = refl
empty-nil (c ∷ s) e = cc

-- A call that passes the guards keeps its line, or drops it and counts it.
pub log_line-cases :
    (header message : Bytes) (l : AsyncLogger)
    → length header < l.buffer_size
    → Bounded l
    → Kept (line_of l.buffer_size header message) l (log_line header message l)
      ⊎ (log_line header message l ≡ record l { dropped_count = l.dropped_count + 1 })
unfolding log_line make_room insert_line
log_line-cases header message l h b =
    let line = line_of l.buffer_size header message in
    let size = length-line_of l.buffer_size header message h in
    elim (Bool-cases
      (ltb l.buffer_size (length l.current + need_length l.buffer_size header message))) [
        | inr fits ↦ inl (
            subst (Kept line l) (sym (if_false _ _ fits)) (record {
              bounded = record {
                current = ground (arith, length-append l.current line, size);
                next = b.next;
              };
              same_count = refl;
              same_size = refl;
              same_output = refl;
              same_file = refl;
              held = sym (append_assoc l.next l.current line);
            }))
        | inl full ↦ elim (Bool-cases (is_empty l.next)) [
          | inr busy ↦ inr (if_true _ _ full ∙ if_false _ _ busy)
          | inl free ↦
              let none_next = empty-nil l.next free in
              inl (
                subst (Kept line l) (sym (if_true _ _ full ∙ if_true _ _ free)) (record {
                  bounded = record {
                    current = omega (
                      arith,
                      ap length (ap (λ s. s ++ line) none_next),
                      size,
                      need-room l.buffer_size header message h,
                    );
                    next = b.current;
                  };
                  same_count = refl;
                  same_size = refl;
                  same_output = refl;
                  same_file = refl;
                  held = rw (none_next) refl;
                }))
        ]
      ]
