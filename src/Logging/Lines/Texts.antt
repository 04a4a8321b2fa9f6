-- ===== src/Logging/Lines/Texts.antt =====
-- What a statement of the log writes, and when it ends the process.
use starry.Common.{
  ℕ, ◌-◌, ◌≤◌, ◌<◌, ◌≡◌, ◌⊎◌, refl, ap, sym, ◌∙◌, inl, inr, true, false, List, [], ◌∷◌, ◌++◌, ◌==◌,
  leb, if◌then◌else◌, Bool-cases, Outcome, ok, err, fatal, length, take, min, append_assoc,
  append-nil, take-append_le, take-append_ge, take-le, length-take, arith, take-zero_eq, leb→le,
  ap₂, ==_iff, subst,
}
use starry.Logging.{Bytes, append_stream, avail}
use starry.Logging.Appends.{take-min}
use starry.Logging.Lines.{
  LogLevel, trace, debug, info, warn, error, fatal_level, small_buffer, level_number, is_logged,
  Place, has_slash, after_slash, put_all, prefix_texts, errno_texts, finish_texts, Sink, is_fatal,
  close_logger, log,
}

abbrev pub concat : List Bytes → Bytes
concat [] = []
concat (t ∷ ts) = t ++ concat ts

-- A stream of `size` bytes keeps the first `size` bytes of all that is put into it.
append_stream-take :
    (size : ℕ) (whole text : Bytes)
    → append_stream size (take size whole) text ≡ take size (whole ++ text)
unfolding append_stream avail
append_stream-take size whole text = elim (Bool-cases (leb size (length whole))) [
  | inl full ↦
      let h = leb→le size (length whole) full in
      ap (λ t. take size whole ++ t)
        (take-zero_eq (min (length text) (size - length (take size whole))) text
          (omega (arith, length-take size whole)))
      ∙ append-nil (take size whole)
      ∙ sym (take-append_le size whole text h)
  | inr room ↦
      let h : length whole ≤ size = ground (arith, room) in
      let e : take size whole ≡ whole = take-le size whole h in
      ap (λ w. w ++ take (min (length text) (size - length w)) text) e
      ∙ ap (λ t. whole ++ t) (take-min (size - length whole) text)
      ∙ sym (take-append_ge size (size - length whole) whole text (omega arith))
]

put_all-take :
    (whole : Bytes) (texts : List Bytes)
    → put_all (take small_buffer whole) texts ≡ take small_buffer (whole ++ concat texts)
put_all-take whole [] = ap (take small_buffer) (sym (append-nil whole))
put_all-take whole (t ∷ ts) =
    ap (λ x. put_all x ts) (append_stream-take small_buffer whole t)
    ∙ put_all-take (whole ++ t) ts
    ∙ ap (take small_buffer) (append_assoc whole t (concat ts))

-- The whole text of a line.
abbrev pub line_text : LogLevel → ℕ → Bytes → Bytes → Place → List Bytes → Bytes
line_text level errno message number p texts =
    ((concat (prefix_texts level p) ++ concat (errno_texts errno message number)) ++ concat texts)
    ++ concat (finish_texts p)

-- What is written of it: the first 4096 bytes.
abbrev pub line : LogLevel → ℕ → Bytes → Bytes → Place → List Bytes → Bytes
line level errno message number p texts =
    take small_buffer (line_text level errno message number p texts)

put_line :
    (level : LogLevel) (errno : ℕ) (message number : Bytes) (p : Place) (texts : List Bytes)
    → put_all
        (put_all
          (put_all (put_all [] (prefix_texts level p)) (errno_texts errno message number))
          texts)
        (finish_texts p)
      ≡ line level errno message number p texts
put_line level errno message number p texts =
    let a : Bytes = concat (prefix_texts level p) in
    let b : Bytes = concat (errno_texts errno message number) in
    ap
      (λ x. put_all (put_all (put_all x (errno_texts errno message number)) texts) (finish_texts p))
      (put_all-take [] (prefix_texts level p))
    ∙ ap (λ x. put_all (put_all x texts) (finish_texts p))
        (put_all-take a (errno_texts errno message number))
    ∙ ap (λ x. put_all x (finish_texts p)) (put_all-take (a ++ b) texts)
    ∙ put_all-take ((a ++ b) ++ concat texts) (finish_texts p)

-- What the sink is after a line of a level.
pub record Written (level : LogLevel) (text : Bytes) (s : Sink) (r : Sink × Outcome (Unit {0}))
    : Type 0 where
  pub one_line : r.0.written ≡ s.written ++ (text ∷ [])
  pub ends : (level ≡ fatal_level) → (r.0.flushed ≡ true) × (r.1 ≡ err fatal)
  pub goes_on : (level ≡ fatal_level → ⊥) → (r.0.flushed ≡ s.flushed) × (r.1 ≡ ok tt)

close_logger-Written :
    (level : LogLevel) (text : Bytes) (s : Sink) → Written level text s (close_logger level text s)
unfolding close_logger is_fatal
close_logger-Written trace t s = record {
  one_line = refl;
  ends = λ e. absurd (cc);
  goes_on = λ e. (refl, refl);
}
close_logger-Written debug t s = record {
  one_line = refl;
  ends = λ e. absurd (cc);
  goes_on = λ e. (refl, refl);
}
close_logger-Written info t s = record {
  one_line = refl;
  ends = λ e. absurd (cc);
  goes_on = λ e. (refl, refl);
}
close_logger-Written warn t s = record {
  one_line = refl;
  ends = λ e. absurd (cc);
  goes_on = λ e. (refl, refl);
}
close_logger-Written error t s = record {
  one_line = refl;
  ends = λ e. absurd (cc);
  goes_on = λ e. (refl, refl);
}
close_logger-Written fatal_level t s = record {
  one_line = refl;
  ends = λ e. (refl, refl);
  goes_on = λ e. absurd (e refl);
}

-- A level passes if it is not below that of the log, or if it is WARN or above.
abbrev pub Passes : LogLevel → LogLevel → Type 0
Passes global level = (level_number global ≤ level_number level) ⊎ (3 ≤ level_number level)

by_leb :
    (g n : ℕ)
    → n < 3
    → ((leb g n ≡ true) × ((g ≤ n) ⊎ (3 ≤ n))) ⊎ ((leb g n ≡ false) × (n < g) × (n < 3))
by_leb g n h = elim (Bool-cases (leb g n)) [
  | inl e ↦ inl (e, inl (leb→le g n e))
  | inr e ↦ inr (e, ground (arith, e), h)
]

is_logged-cases :
    (global level : LogLevel)
    → ((is_logged global level ≡ true) × Passes global level)
      ⊎ ((is_logged global level ≡ false)
          × (level_number level < level_number global)
          × (level_number level < 3))
unfolding is_logged
is_logged-cases global trace = by_leb (level_number global) 0 (omega arith)
is_logged-cases global debug = by_leb (level_number global) 1 (omega arith)
is_logged-cases global info = by_leb (level_number global) 2 (omega arith)
is_logged-cases global warn = inl (refl, inr (omega arith))
is_logged-cases global error = inl (refl, inr (omega arith))
is_logged-cases global fatal_level = inl (refl, inr (omega arith))

-- A statement of the log writes nothing when its level is below that of the log and below WARN; else
-- it writes one line, the first 4096 bytes of its whole text. The process ends, after a flush, exactly
-- if the level is FATAL and the line is written.
pub log-Written :
    (global level : LogLevel) (errno : ℕ) (message number : Bytes) (p : Place) (texts : List Bytes)
    (s : Sink)
    → (Passes global level
        × Written level
            (line level errno message number p texts)
            s
            (log global level errno message number p texts s))
      ⊎ ((level_number level < level_number global)
          × (level_number level < 3)
          × (log global level errno message number p texts s ≡ (s, ok tt)))
unfolding log
log-Written global level errno message number p texts s = elim (is_logged-cases global level) [
  | inr (off, below, low) ↦ inr (below, low, rw off refl)
  | inl (on, passes) ↦ inl (
    passes,
    subst (Written level (line level errno message number p texts) s)
        (sym (
          ap (λ b. if b then close_logger level written s else (s, ok tt)) on
          ∙ ap (λ x. close_logger level x s) (put_line level errno message number p texts)))
        (close_logger-Written level (line level errno message number p texts) s),
  )
]
  where
    written : Bytes
    written =
        put_all
          (put_all (put_all (put_all [] (prefix_texts level p)) (errno_texts errno message number))
            texts)
          (finish_texts p)

-- The name of a file is what stands behind the last slash of its path.
pub after_slash_lem :
    (path : Bytes)
    → (has_slash (after_slash path) ≡ false)
      × ((has_slash path ≡ false) × (after_slash path ≡ path)
          ⊎ (dir : Bytes) × (path ≡ dir ++ (b'/' ∷ after_slash path)))
unfolding after_slash has_slash
after_slash_lem [] = (refl, inl (refl, refl))
after_slash_lem (c ∷ path) = elim (Bool-cases (c == b'/')) [
  | inl slash ↦ rw slash ((after_slash_lem path).0, inr (behind slash (after_slash_lem path).1))
  | inr other ↦ elim (Bool-cases (has_slash path)) [
    | inl more ↦
        rw (other, more) ((after_slash_lem path).0, inr (further more (after_slash_lem path).1))
    | inr last ↦ rw (other, last) (rw (other, last) refl, inl (refl, refl))
  ]
]
  where
    behind :
        (c == b'/') ≡ true
        → (has_slash path ≡ false) × (after_slash path ≡ path)
          ⊎ (dir : Bytes) × (path ≡ dir ++ (b'/' ∷ after_slash path))
        → (dir : Bytes) × (c ∷ path ≡ dir ++ (b'/' ∷ after_slash path))
    behind slash (inl (none_left, same)) = ([], ap₂ ◌∷◌ ((==_iff c b'/').0 slash) (sym same))
    behind slash (inr (dir, e)) = (c ∷ dir, ap (◌∷◌ c) e)

    further :
        has_slash path ≡ true
        → (has_slash path ≡ false) × (after_slash path ≡ path)
          ⊎ (dir : Bytes) × (path ≡ dir ++ (b'/' ∷ after_slash path))
        → (dir : Bytes) × (c ∷ path ≡ dir ++ (b'/' ∷ after_slash path))
    further more (inl (none_left, same)) = absurd (cc)
    further more (inr (dir, e)) = (c ∷ dir, ap (◌∷◌ c) e)
