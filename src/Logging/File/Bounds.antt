-- ===== src/Logging/File/Bounds.antt =====
-- How long a log file gets, and that rolling loses nothing.
use starry.Common.{
  ℕ, ◌+◌, ◌-◌, ◌*◌, ◌/◌, ◌≤◌, ◌<◌, ◌≡◌, refl, sym, ap, ◌∙◌, Bool, true, false, ◌&&◌, List, [], ◌∷◌,
  ◌++◌, append-nil, append_assoc, Option, some, length, ltb, leb, if◌then◌else◌, if_ind, if_split,
  subst, lt→ltb, ltb_false→le, lt→leb_false, le→ltb_false, ne→==_false, ◌==◌, ◌⊎◌, inl, inr, ok,
  arith,
}
use starry.Logging.File.{
  LogFile, second, roll_per_seconds, Reading, put_text, is_too_long, flush, reopen, roll_file,
  check_age, check_roll, append_unlocked, is_name, open_log, append_all,
}

abbrev pub joined : List (List ℕ) → List ℕ
joined [] = []
joined (xs ∷ xss) = xs ++ joined xss

-- All that was put into files, in order.
abbrev pub all_bytes : LogFile → List ℕ
all_bytes l = joined l.closed ++ l.file

-- The size of the open file.
abbrev pub position : LogFile → ℕ
position l = l.start + length l.file

joined-append : (xss : List (List ℕ)) (xs : List ℕ) → joined (xss ++ (xs ∷ [])) ≡ joined xss ++ xs
joined-append [] xs = append-nil xs
joined-append (ys ∷ xss) xs =
    ap (λ t. ys ++ t) (joined-append xss xs) ∙ sym (append_assoc ys (joined xss) xs)

-- A file is open, holds what was put into it and no more, and the counter is below its limit.
pub record IsFine (l : LogFile) : Type 0 where
  pub opened : l.is_open ≡ true
  pub counted : l.count < l.check_every
  pub bounded : position l ≤ l.roll_size

-- What follows the writing of a line: all that was put stays in its place, a file is open, and it is
-- not too long; `now` is the clock in `rollFile`.
record Settled (l l' : LogFile) (now : ℕ) : Type 0 where
  bytes : all_bytes l' ≡ all_bytes l
  opened : l'.is_open ≡ true
  roll_size : l'.roll_size ≡ l.roll_size
  check_every : l'.check_every ≡ l.check_every
  count : l'.count ≡ l.count
  last_roll : (l'.last_roll ≡ l.last_roll) ⊎ (l'.last_roll ≡ now)
  bounded : position l' ≤ l.roll_size

roll_file-Settled :
    (l : LogFile) (now n : ℕ)
    → l.last_roll / second < now / second
    → n ≤ l.roll_size
    → Settled l (roll_file l now (some n)) now
unfolding roll_file reopen
roll_file-Settled l now n h m =
    rw (lt→ltb l.last_roll now later, other)
      (record {
        bytes = append-nil (joined (l.closed ++ (l.file ∷ []))) ∙ joined-append l.closed l.file;
        opened = refl;
        roll_size = refl;
        check_every = refl;
        count = refl;
        last_roll = inr refl;
        bounded = omega (arith, m);
      })
  where
    later : l.last_roll < now
    later = omega (arith, h)

    other : (l.last_roll / second == now / second) ≡ false
    other = ne→==_false (l.last_roll / second) (now / second) (λ e. omega (arith, e, h))

same-Settled :
    (l : LogFile) (last_flush flushed now : ℕ)
    → l.is_open ≡ true
    → position l ≤ l.roll_size
    → Settled l (record l { last_flush = last_flush; flushed = flushed }) now
same-Settled l last_flush flushed now o b = record {
  bytes = refl;
  opened = o;
  roll_size = refl;
  check_every = refl;
  count = refl;
  last_roll = inl refl;
  bounded = b;
}

check_age-Settled :
    (l : LogFile) (now roll_now n : ℕ)
    → l.is_open ≡ true
    → position l ≤ l.roll_size
    → l.last_roll / second < roll_now / second
    → n ≤ l.roll_size
    → Settled l (check_age l (record { now = now; roll_now = roll_now; opened = some n })) roll_now
unfolding check_age flush
check_age-Settled l now roll_now n o b h m =
    if_ind After (ltb roll_per_seconds ((now - l.last_roll) / second))
      (roll_file-Settled l roll_now n h m)
      (if_ind After (ltb (l.flush_interval * second) (now - l.last_flush))
        (same-Settled l now (length l.file) roll_now o b)
        (same-Settled l l.last_flush l.flushed roll_now o b))
  where
    After : LogFile → Type 0
    After l' = Settled l l' roll_now

-- The same with what the counter does.
record Checked (l l' : LogFile) (now : ℕ) : Type 0 where
  fine : IsFine l'
  bytes : all_bytes l' ≡ all_bytes l
  roll_size : l'.roll_size ≡ l.roll_size
  last_roll : (l'.last_roll ≡ l.last_roll) ⊎ (l'.last_roll ≡ now)

Settled-Checked :
    (l l' : LogFile) (count now : ℕ)
    → count < l.check_every
    → Settled (record l { count = count }) l' now
    → Checked l l' now
Settled-Checked l l' count now c s = record {
  fine = record {
    opened = s.opened;
    counted = omega (arith, s.count, s.check_every, c);
    bounded = omega (arith, s.bounded, s.roll_size);
  };
  bytes = s.bytes;
  roll_size = s.roll_size;
  last_roll = s.last_roll;
}

check_roll-Checked :
    (l : LogFile) (now roll_now n : ℕ)
    → l.is_open ≡ true
    → l.count < l.check_every
    → l.last_roll / second < roll_now / second
    → n ≤ l.roll_size
    → Checked l (check_roll l (record { now = now; roll_now = roll_now; opened = some n })) roll_now
unfolding check_roll is_too_long
check_roll-Checked l now roll_now n o c h m =
    if_split After (l.is_open && ltb l.roll_size (position l))
      (λ p.
        Settled-Checked l (roll_file l roll_now (some n)) l.count roll_now c
          (roll_file-Settled l roll_now n h m))
      (λ p.
        let fits =
          ltb_false→le l.roll_size (position l)
            (and_false l.is_open (ltb l.roll_size (position l)) o p) in
        if_split After (leb l.check_every (l.count + 1))
          (λ q.
            let l0 = record l { count = 0 } in
            Settled-Checked l
              (check_age l0 (record { now = now; roll_now = roll_now; opened = some n })) 0 roll_now
              (omega (arith, c)) (check_age-Settled l0 now roll_now n o fits h m))
          (λ q.
            Settled-Checked l (record l { count = l.count + 1 }) (l.count + 1) roll_now
              (not_yet l.check_every l.count q)
              (same-Settled (record l { count = l.count + 1 }) l.last_flush l.flushed roll_now o
                fits)))
  where
    After : LogFile → Type 0
    After l' = Checked l l' roll_now

    and_false : (a b : Bool) → a ≡ true → (a && b) ≡ false → b ≡ false
    and_false true b o p = p
    and_false false b o p = absurd (cc)

    not_yet : (a b : ℕ) → leb a (b + 1) ≡ false → b + 1 < a
    not_yet a b h = ground arith

-- One `append`, when the clock is in a later second than the last roll and a file can be opened that
-- is not too long already: no byte is lost or moved, and the open file stays within the size.
pub append_unlocked_lem :
    (l : LogFile) (text : List ℕ) (now roll_now n : ℕ)
    → IsFine l
    → l.last_roll / second < roll_now / second
    → n ≤ l.roll_size
    → (l' : LogFile) × (append_unlocked l text
          (record { now = now; roll_now = roll_now; opened = some n })
        ≡ l')
      × IsFine l'
      × (all_bytes l' ≡ all_bytes l ++ text)
      × (l'.roll_size ≡ l.roll_size)
      × ((l'.last_roll ≡ l.last_roll) ⊎ (l'.last_roll ≡ roll_now))
unfolding append_unlocked put_text
append_unlocked_lem l text now roll_now n f h m =
    let l1 = record l { file = l.file ++ text } in
    let r : Reading = record { now = now; roll_now = roll_now; opened = some n } in
    let c = check_roll-Checked l1 now roll_now n f.opened f.counted h m in
    (
      check_roll l1 r,
      ap (λ b. check_roll (if b then l1 else l) r) f.opened,
      c.fine,
      c.bytes ∙ sym (append_assoc (joined l.closed) l.file text),
      c.roll_size,
      c.last_roll,
    )

-- The clock gets to another second from line to line, and the files that are opened are within the
-- size.
abbrev pub IsSteady : ℕ → ℕ → List (List ℕ × Reading) → Type 0
IsSteady size t [] = Unit {0}
IsSteady size t ((text, r) ∷ rest) =
    ((t / second < r.roll_now / second) × ((n : ℕ) × (r.opened ≡ some n) × (n ≤ size)))
    × IsSteady size r.roll_now rest

abbrev pub texts : List (List ℕ × Reading) → List ℕ
texts [] = []
texts ((text, r) ∷ rest) = text ++ texts rest

-- Any number of lines, from an open file that is within the size, with a clock that is in a later
-- second at each line than at the one before, and files that can be opened and are within the size
-- when they are: over all the files the bytes are those of the lines, in order, and the open file is
-- within the size.
pub append_all_lem :
    (lines : List (List ℕ × Reading)) (l : LogFile) (t : ℕ)
    → IsFine l
    → l.last_roll ≤ t
    → IsSteady l.roll_size t lines
    → IsFine (append_all l lines) × (all_bytes (append_all l lines) ≡ all_bytes l ++ texts lines)
unfolding append_all
append_all_lem [] l t f b s = (f, sym (append-nil (all_bytes l)))
append_all_lem ((text, r) ∷ rest) l t f b ((h, (n, o, m)), s) =
    let a = append_unlocked_lem l text r.now r.roll_now n f (omega (arith, b, h)) m in
    let same : append_unlocked l text r ≡ a.0 =
      ap (λ x. append_unlocked l text (record { now = r.now; roll_now = r.roll_now; opened = x })) o
      ∙ a.1 in
    let i =
      append_all_lem rest a.0 r.roll_now a.2
        (elim a.5 [ inl e ↦ omega (arith, e, b, h) | inr e ↦ omega (arith, e) ])
        (subst (λ x. IsSteady x r.roll_now rest) (sym a.4) s) in
    subst
      (λ x.
        IsFine (append_all x rest)
        × (all_bytes (append_all x rest) ≡ all_bytes l ++ (text ++ texts rest)))
      (sym same)
      (i.0, i.1 ∙ ap (λ x. x ++ texts rest) a.3 ∙ append_assoc (all_bytes l) text (texts rest))

-- With no open file, a line is lost as long as the counter stays below its limit.
append_closed :
    (lines : List (List ℕ × Reading)) (l : LogFile)
    → l.is_open ≡ false
    → l.count + length lines < l.check_every
    → all_bytes (append_all l lines) ≡ all_bytes l
unfolding append_all append_unlocked put_text check_roll is_too_long
append_closed [] l o h = refl
append_closed ((text, r) ∷ rest) l o h =
    subst (λ x. all_bytes (append_all x rest) ≡ all_bytes l) (sym next)
      (append_closed rest (record l { count = l.count + 1 }) o (omega (arith, h)))
  where
    next : append_unlocked l text r ≡ record l { count = l.count + 1 }
    next =
        ap (λ b. check_roll (if b then record l { file = l.file ++ text } else l) r) o
        ∙ ap
            (λ b.
              if b && ltb l.roll_size (position l)
              then roll_file l r.roll_now r.opened
              else if leb l.check_every (l.count + 1)
              then check_age (record l { count = 0 }) r
              else record l { count = l.count + 1 })
            o
        ∙ ap
            (λ b.
              if b then check_age (record l { count = 0 }) r else record l { count = l.count + 1 })
            (lt→leb_false l.check_every (l.count + 1) (omega (arith, h)))

-- When the clock does not advance between the initializers of the constructor and its `rollFile`,
-- no file is opened, and the lines that are logged are lost until `checkEveryN_` of them are counted.
pub open_log-same_time :
    (name : List ℕ) (roll_size flush_interval check_every now1 now2 now3 : ℕ) (opened : Option ℕ)
    (lines : List (List ℕ × Reading))
    → is_name name ≡ true
    → now3 ≤ now1
    → length lines < check_every
    → (l : LogFile) × (open_log name roll_size flush_interval check_every now1 now2 now3 opened
        ≡ ok l)
      × (all_bytes (append_all l lines) ≡ [])
unfolding open_log roll_file
open_log-same_time name roll_size flush_interval check_every now1 now2 now3 opened lines g h m =
    let l : LogFile = record {
      roll_size = roll_size;
      flush_interval = flush_interval;
      check_every = check_every;
      count = 0;
      last_roll = now1;
      last_flush = now2;
      is_open = false;
      start = 0;
      file = [];
      flushed = 0;
      closed = [];
    } in
    (
      l,
      rw (open_log, g, le→ltb_false now1 now3 h) refl,
      append_closed lines l refl (omega (arith, m)),
    )
