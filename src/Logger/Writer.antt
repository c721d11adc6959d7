-- ===== src/Logger/Writer.antt =====
-- src/utils/Logger.cpp: the threads that log and the thread that writes, in any order.
use user_center.Base.{
  ℕ, ◌≤◌, ◌<◌, ◌≡◌, ◌∙◌, ◌++◌, inl, inr, refl, sym, ap, subst, List, [], ◌∷◌, Bool, true, false,
  Bytes, arith, length, append_assoc, append-nil, if◌then◌else◌, if_true, if_false, ◌==◌,
  Bool-cases,
}
use user_center.Logger.{
  AsyncLogger, max_file_size, is_empty, line_of, log_line, take_buffer, write_buffer, roll_file,
  write_when_exit, new_logger, init,
}
use user_center.Logger.Turns.{take_buffer-Took, write_buffer-Put, exit-output}
use user_center.Logger.Ordering.{all_out, Bounded, empty-nil, log_line-cases}

-- The logger, the buffer that the writer has taken, and the lines that were not dropped.
pub record Run : Type 0 where
  pub logger : AsyncLogger
  pub taken : Bytes
  pub lines : Bytes

-- A thread logs a line that passes the guards; the writer takes a buffer, once it has written the last
-- one; the writer writes, and if it rolls the file, the file opens again or not.
pub data Act : Type 0 where
  logs : Bytes → Bytes → Act
  takes : Act
  writes : Bool → Act

unfoldable pub step : Act → Run → Run
step (logs header message) r =
    let l = log_line header message r.logger in
    record r {
      logger = l;
      lines =
          if l.dropped_count == r.logger.dropped_count
          then r.lines ++ line_of r.logger.buffer_size header message
          else r.lines;
    }
step takes r =
    if is_empty r.taken
    then record r { taken = (take_buffer r.logger).0; logger = (take_buffer r.logger).1 }
    else r
step (writes opens) r = record r { logger = write_buffer opens r.taken r.logger; taken = [] }

unfoldable pub steps : List Act → Run → Run
unfolding step
steps [] r = r
steps (a ∷ rest) r = steps rest (step a r)

-- The header fits in a buffer with the line's end.
abbrev pub Fits : ℕ → List Act → Type 0
Fits size [] = Unit
Fits size (logs header message ∷ rest) = (length header < size) × Fits size rest
Fits size (takes ∷ rest) = Fits size rest
Fits size (writes _ ∷ rest) = Fits size rest

pub record Ordered (size : ℕ) (r : Run) : Type 0 where
  pub of_size : r.logger.buffer_size ≡ size
  pub bounded : Bounded r.logger
  pub taken_fits : length r.taken ≤ size
  pub file_fits : r.logger.file_size < max_file_size
  pub order : r.lines ≡ (all_out r.logger.output ++ r.taken) ++ (r.logger.next ++ r.logger.current)

logs-Ordered :
    (size : ℕ) (header message : Bytes) (r : Run)
    → length header < size
    → Ordered size r
    → Ordered size (step (logs header message) r)
unfolding step
logs-Ordered size header message r h o =
    let line = line_of r.logger.buffer_size header message in
    let l = log_line header message r.logger in
    let next : Bytes → Run = λ s. record r { logger = l; lines = s } in
    elim (log_line-cases header message r.logger (omega (arith, h, o.of_size)) o.bounded) [
      | inl kept ↦
          let same : (l.dropped_count == r.logger.dropped_count) ≡ true =
            ground (arith, kept.same_count) in
          subst (λ s. Ordered size (next s)) (sym (if_true (r.lines ++ line) r.lines same))
            (record {
              of_size = kept.same_size ∙ o.of_size;
              bounded = kept.bounded;
              taken_fits = o.taken_fits;
              file_fits = omega (arith, kept.same_file, o.file_fits);
              order =
                  ap (λ s. s ++ line) o.order
                  ∙ append_assoc (all_out r.logger.output ++ r.taken)
                      (r.logger.next ++ r.logger.current) line
                  ∙ ap (λ s. (all_out r.logger.output ++ r.taken) ++ s) (sym kept.held)
                  ∙ ap (λ s. (all_out s ++ r.taken) ++ (l.next ++ l.current))
                      (sym kept.same_output);
            })
      | inr dropped ↦
          let more : (l.dropped_count == r.logger.dropped_count) ≡ false =
            ground (arith, ap (λ q. q.dropped_count) dropped) in
          subst (λ s. Ordered size (next s)) (sym (if_false (r.lines ++ line) r.lines more))
            (subst (λ q. Ordered size (record r { logger = q })) (sym dropped)
              (record {
                of_size = o.of_size;
                bounded = record { current = o.bounded.current; next = o.bounded.next };
                taken_fits = o.taken_fits;
                file_fits = o.file_fits;
                order = o.order;
              }))
    ]

takes-Ordered : (size : ℕ) (r : Run) → Ordered size r → Ordered size (step takes r)
unfolding step
takes-Ordered size r o =
    let taken : Run = record r {
      taken = (take_buffer r.logger).0;
      logger = (take_buffer r.logger).1;
    } in
    let t = take_buffer-Took r.logger o.bounded in
    elim (Bool-cases (is_empty r.taken)) [
      | inr busy ↦ subst (Ordered size) (sym (if_false taken r busy)) o
      | inl free ↦ subst (Ordered size) (sym (if_true taken r free)) (record {
        of_size = t.same_size ∙ o.of_size;
        bounded = t.bounded;
        taken_fits = omega (arith, t.fits, o.of_size);
        file_fits = omega (arith, t.same_file, o.file_fits);
        order =
            o.order
            ∙ ap (λ s. (all_out r.logger.output ++ s) ++ (r.logger.next ++ r.logger.current))
                (empty-nil r.taken free)
            ∙ ap (λ s. s ++ (r.logger.next ++ r.logger.current))
                (append-nil (all_out r.logger.output))
            ∙ ap (λ s. all_out r.logger.output ++ s) (sym t.held)
            ∙ sym (
                append_assoc (all_out r.logger.output) taken.taken
                  (taken.logger.next ++ taken.logger.current))
            ∙ ap (λ s. (all_out s ++ taken.taken) ++ (taken.logger.next ++ taken.logger.current))
                (sym t.same_output);
      })
    ]

writes-Ordered :
    (size : ℕ) (opens : Bool) (r : Run)
    → size < max_file_size
    → Ordered size r
    → Ordered size (step (writes opens) r)
unfolding step
writes-Ordered size opens r small o =
    let m = write_buffer opens r.taken r.logger in
    let p =
      write_buffer-Put opens r.taken r.logger (omega (arith, o.taken_fits, small)) o.file_fits in
    record {
      of_size = p.same_size ∙ o.of_size;
      bounded = record {
        current = omega (arith, ap length p.same_current, p.same_size, o.bounded.current);
        next = omega (arith, ap length p.same_next, p.same_size, o.bounded.next);
      };
      taken_fits = omega arith;
      file_fits = p.file_fits;
      order =
          o.order
          ∙ ap (λ s. s ++ (r.logger.next ++ r.logger.current))
              (sym p.out ∙ sym (append-nil (all_out m.output)))
          ∙ ap (λ s. (all_out m.output ++ []) ++ (s ++ r.logger.current)) (sym p.same_next)
          ∙ ap (λ s. (all_out m.output ++ []) ++ (m.next ++ s)) (sym p.same_current);
    }

-- A logger that was set up with this size, before anything is logged.
abbrev pub started : ℕ → Bool → Run
started size opens = record { logger = init size opens new_logger; taken = []; lines = [] }

steps-Ordered :
    (size : ℕ) (acts : List Act) (r : Run)
    → size < max_file_size
    → Fits size acts
    → Ordered size r
    → Ordered size (steps acts r)
unfolding steps
steps-Ordered size [] r small fits o = o
steps-Ordered size (logs header message ∷ rest) r small (h, fits) o =
    steps-Ordered size rest _ small fits (logs-Ordered size header message r h o)
steps-Ordered size (takes ∷ rest) r small fits o =
    steps-Ordered size rest _ small fits (takes-Ordered size r o)
steps-Ordered size (writes opens ∷ rest) r small fits o =
    steps-Ordered size rest _ small fits (writes-Ordered size opens r small o)

-- With buffers below the size of a file, and headers that fit in a buffer: in any order of log calls
-- and the writer's turns, what was put out (less the line end behind each batch on the console), what the writer has taken and what the buffers hold are
-- together the lines that were not counted as dropped, each once and in order; the buffers keep their
-- size, and the file stays below its limit.
pub started-Ordered :
    (size : ℕ) (opens : Bool) (acts : List Act)
    → size < max_file_size
    → Fits size acts
    → Ordered size (steps acts (started size opens))
unfolding init new_logger roll_file
started-Ordered size opens acts small fits = steps-Ordered size acts _ small fits (record {
  of_size = refl;
  bounded = record { current = omega arith; next = omega arith };
  taken_fits = omega arith;
  file_fits = omega arith;
  order = refl;
})

-- When the writer has written what it took and leaves, while the file is open and opens again if it is
-- rolled, all lines that were not counted as dropped have been put out, in order.
pub exit-all_out :
    (size : ℕ) (opens : Bool) (acts : List Act)
    → size < max_file_size
    → Fits size acts
    → (steps acts (started size opens)).taken ≡ []
    → (steps acts (started size opens)).logger.is_open ≡ true
    → all_out (write_when_exit true (steps acts (started size opens)).logger).output
      ≡ (steps acts (started size opens)).lines
exit-all_out size opens acts small fits idle opened =
    let r = steps acts (started size opens) in
    let held = r.logger.next ++ r.logger.current in
    let o = started-Ordered size opens acts small fits in
    exit-output r.logger opened
    ∙ sym (
        o.order
        ∙ ap (λ s. (all_out r.logger.output ++ s) ++ held) idle
        ∙ ap (λ s. s ++ held) (append-nil (all_out r.logger.output)))
