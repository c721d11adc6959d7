-- ===== src/Examples/Logging.antt =====
-- The logger at work: two lines fill the buffers, a third is dropped, and the writer takes its turns.
use user_center.Base.{◌≡◌, refl, List, [], ◌∷◌, true, Bytes, arith}
use user_center.Logger.{
  log_line, line_of, cut_message, need_length, make_room, insert_line, take_buffer, write_buffer,
  roll_if_full, roll_file, put_out, write_when_exit, init, new_logger,
}
use user_center.Logger.Ordering.{all_out}
use user_center.Logger.Writer.{
  Act, logs, takes, writes, steps, step, started, Ordered, started-Ordered, exit-all_out,
}

abbrev busy : List Act
busy =
    logs (1 ∷ []) (2 ∷ 3 ∷ [])
    ∷ logs (4 ∷ []) (5 ∷ 6 ∷ [])
    ∷ logs (7 ∷ []) (8 ∷ [])
    ∷ takes
    ∷ logs (9 ∷ []) []
    ∷ writes true
    ∷ []

abbrev kept : Bytes
kept = 1 ∷ 2 ∷ 3 ∷ 10 ∷ 4 ∷ 5 ∷ 6 ∷ 10 ∷ 9 ∷ 10 ∷ []

started-Ordered_example : Ordered 4 (steps busy (started 4 true))
started-Ordered_example =
    started-Ordered 4 true busy (omega arith)
      (omega arith, (omega arith, (omega arith, (omega arith, tt))))

exit-all_out_example :
    all_out (write_when_exit true (steps busy (started 4 true)).logger).output
    ≡ (steps busy (started 4 true)).lines
unfolding steps step log_line line_of cut_message need_length make_room insert_line take_buffer
    write_buffer roll_if_full roll_file put_out init new_logger
exit-all_out_example =
    exit-all_out 4 true busy (omega arith)
      (omega arith, (omega arith, (omega arith, (omega arith, tt)))) refl refl

-- The third line came while both buffers were full.
steps-kept : (steps busy (started 4 true)).lines ≡ kept
unfolding steps step log_line line_of cut_message need_length make_room insert_line take_buffer
    write_buffer roll_if_full roll_file put_out init new_logger
steps-kept = refl
