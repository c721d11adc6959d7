-- ===== src/Logger/Turns.antt =====
-- src/utils/Logger.cpp: what a turn of the writer takes and puts out.
use user_center.Base.{
  ◌+◌, ◌≤◌, ◌<◌, ◌≡◌, ◌∙◌, ◌++◌, inl, inr, refl, sym, ap, subst, [], Bool, true, Bytes, arith, leb,
  length, append-nil, append_assoc, ◌∷◌, not, if_true, if_false, Bool-cases,
}
use user_center.Logger.{
  AsyncLogger, to_file, to_console, console_end, max_file_size, is_empty, take_buffer, write_buffer,
  roll_if_full, roll_file, put_out, put_last, take_all, write_when_exit,
}
use user_center.Logger.Ordering.{all_out, all_out-append, Bounded, empty-nil}

-- What the writer takes stood in front of what stays.
pub record Took (l : AsyncLogger) (r : Bytes × AsyncLogger) : Type 0 where
  pub fits : length r.0 ≤ l.buffer_size
  pub bounded : Bounded r.1
  pub same_size : r.1.buffer_size ≡ l.buffer_size
  pub same_output : r.1.output ≡ l.output
  pub same_file : r.1.file_size ≡ l.file_size
  pub held : r.0 ++ (r.1.next ++ r.1.current) ≡ l.next ++ l.current

pub take_buffer-Took : (l : AsyncLogger) → Bounded l → Took l (take_buffer l)
unfolding take_buffer
take_buffer-Took l b = elim (Bool-cases (is_empty l.next)) [
  | inr full ↦ subst (Took l) (sym (if_true _ _ (ap not full))) (record {
    fits = b.next;
    bounded = record { current = b.current; next = omega arith };
    same_size = refl;
    same_output = refl;
    same_file = refl;
    held = refl;
  })
  | inl none_next ↦
      subst (Took l) (sym (if_false _ _ (ap not none_next)))
        (elim (Bool-cases (is_empty l.current)) [
          | inr full ↦ subst (Took l) (sym (if_true _ _ (ap not full))) (record {
            fits = b.current;
            bounded = record { current = b.next; next = omega arith };
            same_size = refl;
            same_output = refl;
            same_file = refl;
            held =
                ap (λ s. l.current ++ s) (empty-nil l.next none_next)
                ∙ append-nil l.current
                ∙ ap (λ s. s ++ l.current) (sym (empty-nil l.next none_next));
          })
          | inl nothing ↦ subst (Took l) (sym (if_false _ _ (ap not nothing))) (record {
            fits = omega arith;
            bounded = b;
            same_size = refl;
            same_output = refl;
            same_file = refl;
            held = refl;
          })
        ])
]

-- The writer has put these bytes out and the file is within its limit; the buffers stay.
pub record Put (bytes : Bytes) (l m : AsyncLogger) : Type 0 where
  pub same_current : m.current ≡ l.current
  pub same_next : m.next ≡ l.next
  pub same_size : m.buffer_size ≡ l.buffer_size
  pub file_fits : m.file_size < max_file_size
  pub out : all_out m.output ≡ all_out l.output ++ bytes

put_out-Put :
    (bytes : Bytes) (l : AsyncLogger)
    → l.file_size + length bytes < max_file_size
    → Put bytes l (put_out bytes l)
unfolding put_out
put_out-Put bytes l h = elim (Bool-cases l.is_open) [
  | inl opened ↦ subst (Put bytes l) (sym (if_true _ _ opened)) (record {
    same_current = refl;
    same_next = refl;
    same_size = refl;
    file_fits = h;
    out = all_out-append l.output to_file bytes;
  })
  | inr closed ↦ subst (Put bytes l) (sym (if_false _ _ closed)) (record {
    same_current = refl;
    same_next = refl;
    same_size = refl;
    file_fits = omega arith;
    out =
        ap all_out
          (sym (append_assoc l.output ((to_console, bytes) ∷ []) ((console_end, 10 ∷ []) ∷ [])))
        ∙ all_out-append (l.output ++ (to_console, bytes) ∷ []) console_end (10 ∷ [])
        ∙ append-nil (all_out (l.output ++ (to_console, bytes) ∷ []))
        ∙ all_out-append l.output to_console bytes;
  })
]

roll_if_full-Put :
    (opens : Bool) (bytes : Bytes) (l : AsyncLogger)
    → length bytes < max_file_size
    → Put bytes l (put_out bytes (roll_if_full opens bytes l))
unfolding roll_if_full roll_file
roll_if_full-Put opens bytes l h =
    elim (Bool-cases (leb max_file_size (l.file_size + length bytes))) [
      | inr room ↦
          subst (λ m. Put bytes l (put_out bytes m)) (sym (if_false _ _ room))
            (put_out-Put bytes l (ground arith))
      | inl full ↦
          let rolled : AsyncLogger = record l { is_open = opens; file_size = 0 } in
          let p = put_out-Put bytes rolled (omega arith) in
          subst (λ m. Put bytes l (put_out bytes m)) (sym (if_true rolled l full))
            (record {
              same_current = p.same_current;
              same_next = p.same_next;
              same_size = p.same_size;
              file_fits = p.file_fits;
              out = p.out;
            })
    ]

pub write_buffer-Put :
    (opens : Bool) (bytes : Bytes) (l : AsyncLogger)
    → length bytes < max_file_size
    → l.file_size < max_file_size
    → Put bytes l (write_buffer opens bytes l)
unfolding write_buffer
write_buffer-Put opens bytes l h k = elim (Bool-cases (is_empty bytes)) [
  | inr full ↦
      subst (Put bytes l) (sym (if_true _ _ (ap not full))) (roll_if_full-Put opens bytes l h)
  | inl nothing ↦ subst (Put bytes l) (sym (if_false _ _ (ap not nothing))) (record {
    same_current = refl;
    same_next = refl;
    same_size = refl;
    file_fits = k;
    out =
        sym (
          ap (λ s. all_out l.output ++ s) (empty-nil bytes nothing)
          ∙ append-nil (all_out l.output));
  })
]

pub exit-output :
    (l : AsyncLogger)
    → l.is_open ≡ true
    → all_out (write_when_exit true l).output ≡ all_out l.output ++ (l.next ++ l.current)
unfolding write_when_exit take_all put_last roll_if_full roll_file
exit-output l opened =
    let bytes = l.next ++ l.current in
    let rest : AsyncLogger = record l { next = []; current = [] } in
    let rolled : AsyncLogger = record rest { is_open = true; file_size = 0 } in
    elim (Bool-cases (is_empty bytes)) [
      | inl nothing ↦
          ap (λ m. all_out m.output)
            (if_false (put_last bytes (roll_if_full true bytes rest)) rest (ap not nothing))
          ∙ sym (
              ap (λ s. all_out l.output ++ s) (empty-nil bytes nothing)
              ∙ append-nil (all_out l.output))
      | inr full ↦
          ap (λ m. all_out m.output)
            (if_true (put_last bytes (roll_if_full true bytes rest)) rest (ap not full))
          ∙ elim (Bool-cases (leb max_file_size (rest.file_size + length bytes))) [
            | inl over ↦
                ap (λ m. all_out (put_last bytes m).output) (if_true rolled rest over)
                ∙ all_out-append l.output to_file bytes
            | inr room ↦
                ap (λ m. all_out (put_last bytes m).output) (if_false rolled rest room)
                ∙ ap (λ m. all_out m.output) (if_true _ rest opened)
                ∙ all_out-append l.output to_file bytes
          ]
    ]
