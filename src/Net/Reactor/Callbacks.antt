-- ===== src/Net/Reactor/Callbacks.antt =====
-- src/net/Channel.cpp: which callbacks handleEvent calls for an event.
use Prim.Native.Nat.{bit_and}
use user_center.Base.{
  ℕ, ◌≤◌, ◌≡◌, ◌∙◌, ◌++◌, ◌==◌, ◌&&◌, not, refl, sym, ap, subst, inl, inr, List, [], ◌∷◌, Bool,
  true, false, arith, length, if◌then◌else◌, if_true, if_false, Bool-cases,
}
use user_center.Net.Channel.{
  Channel, Callback, on_error, on_read, on_write, handle_event, called_if, failure_event,
  read_event, write_event,
}

-- Whether the read callback is among those of an event.
abbrev pub reads : List Callback → Bool
reads [] = false
reads (on_error ∷ cs) = reads cs
reads (on_read ∷ cs) = true
reads (on_write ∷ cs) = reads cs

-- An event that is no error and no hang-up, and is one for reads.
abbrev pub for_reads : ℕ → Bool
for_reads revents = bit_and revents failure_event == 0 && not (bit_and revents read_event == 0)

pub reads-for_reads : (c : Channel) → reads (handle_event c) ≡ true → for_reads c.revents ≡ true
unfolding handle_event called_if
reads-for_reads c e = elim (Bool-cases (bit_and c.revents failure_event == 0)) [
  | inr failed ↦ absurd (let x = sym e ∙ ap reads (if_false _ (on_error ∷ []) failed) in cc)
  | inl fine ↦ elim (Bool-cases (bit_and c.revents read_event == 0)) [
    | inr read ↦ rw (fine, read) refl
    | inl quiet ↦ elim (Bool-cases (bit_and c.revents write_event == 0)) [
      | inl idle ↦
          absurd (let x : false ≡ reads (handle_event c) = rw (fine, quiet, idle) refl in cc)
      | inr write ↦
          absurd (let x : false ≡ reads (handle_event c) = rw (fine, quiet, write) refl in cc)
    ]
  ]
]

pub reads_first :
    (c : Channel)
    → reads (handle_event c) ≡ true
    → (ws : List Callback) × (handle_event c ≡ on_read ∷ ws) × (reads ws ≡ false) × (length ws ≤ 1)
unfolding handle_event called_if
reads_first c e = elim (Bool-cases (bit_and c.revents failure_event == 0)) [
  | inr failed ↦ absurd (let x = sym e ∙ ap reads (if_false _ (on_error ∷ []) failed) in cc)
  | inl fine ↦ elim (Bool-cases (bit_and c.revents read_event == 0)) [
    | inr read ↦ elim (Bool-cases (bit_and c.revents write_event == 0)) [
      | inl idle ↦ ([], rw (fine, read, idle) refl, refl, omega arith)
      | inr write ↦ (on_write ∷ [], rw (fine, read, write) refl, refl, omega arith)
    ]
    | inl quiet ↦ elim (Bool-cases (bit_and c.revents write_event == 0)) [
      | inl idle ↦
          absurd (let x : false ≡ reads (handle_event c) = rw (fine, quiet, idle) refl in cc)
      | inr write ↦
          absurd (let x : false ≡ reads (handle_event c) = rw (fine, quiet, write) refl in cc)
    ]
  ]
]

pub few_callbacks : (c : Channel) → reads (handle_event c) ≡ false → length (handle_event c) ≤ 1
unfolding handle_event called_if
few_callbacks c e = elim (Bool-cases (bit_and c.revents failure_event == 0)) [
  | inr failed ↦ subst (λ cs. length cs ≤ 1) (sym (if_false _ (on_error ∷ []) failed)) (omega arith)
  | inl fine ↦ elim (Bool-cases (bit_and c.revents read_event == 0)) [
    | inr read ↦ absurd (
        let x =
          sym e
          ∙ ap reads (if_true _ _ fine)
          ∙ ap
              (λ b.
                reads
                  ((if b then [] else on_read ∷ []) ++ called_if c.revents write_event on_write))
              read in
        cc)
    | inl quiet ↦ elim (Bool-cases (bit_and c.revents write_event == 0)) [
      | inl idle ↦ rw (fine, quiet, idle) (omega arith)
      | inr write ↦ rw (fine, quiet, write) (omega arith)
    ]
  ]
]
