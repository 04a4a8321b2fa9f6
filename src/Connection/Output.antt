-- ===== src/Connection/Output.antt =====
-- The output that waits: what `sendInLoop` queues behind it.
use starry.Common.{
  ℕ, ◌≤◌, ◌≡◌, ◌≢◌, refl, sym, ◌∙◌, inl, inr, Bool, true, false, ◌&&◌, List, [], ◌∷◌, ◌++◌, length,
  ltb, leb, Bool-cases, lt→ltb, append-nil, arith, max_size, add_size, ok,
}
use starry.Buffer.{Buffer, readable_bytes}
use starry.Buffer.Contents.{contents, readable-length}
use starry.Buffer.Contents
use starry.Buffer.Append.{Fits, append_lem}
use starry.Channel.{enable_writing, apply_interest, is_writing}
use starry.Channel.Mask.{IsMask, apply_interest-IsMask, apply_interest_lem}
use starry.Connection.{
  Connection, disconnected, queue_rest, queue_in_loop, high_water_mark, set_interest,
}
use starry.Connection.Inv.{Inv}

nil_of_length {ℓ} : {A : Type ℓ} (xs : List A) → length xs ≡ 0 → xs ≡ []
nil_of_length [] h = refl
nil_of_length (x ∷ xs) h = absurd (omega arith)

-- What `queue_rest` leaves: the same connection with `rest` behind its output.
pub record Queued (c : Connection) (rest : List ℕ) (c' : Connection) : Type 0 where
  pub inv : Inv c'
  pub state : c'.state ≡ c.state
  pub wire : c'.wire ≡ c.wire
  pub output : contents c'.output ≡ contents c.output ++ rest

-- The state in which `queue_rest` is called: what is not to be written may wait.
pub record Sendable (c : Connection) : Type 0 where
  pub inv : Inv c
  pub open_side : c.write_shut ≡ false
  pub live : c.state ≢ disconnected

queue_rest-nil : (c : Connection) → queue_rest c [] ≡ ok c
unfolding queue_rest
queue_rest-nil c = refl

append-cons_ne : (xs : List ℕ) (x : ℕ) (rest : List ℕ) → xs ++ (x ∷ rest) ≢ []
append-cons_ne [] x rest e = cc
append-cons_ne (y ∷ ys) x rest e = cc

-- The connection with the new output and the functor of the high water mark, if it is crossed.
abbrev with_output : Connection → ℕ → Buffer → Connection
with_output c n o =
    let old_len = readable_bytes c.output in
    record (queue_in_loop c
      (leb c.high_water (add_size old_len n) && ltb old_len c.high_water && c.has_high_water)
      (high_water_mark (add_size old_len n))) { output = o }

with_output-Queued :
    (c : Connection) (x : ℕ) (rest : List ℕ) (o : Buffer) (r : Bool) (events : ℕ)
    → Sendable c
    → Contents.Inv o
    → contents o ≡ contents c.output ++ (x ∷ rest)
    → IsMask events
    → is_writing events ≡ true
    → Queued c
        (x ∷ rest)
        (record (with_output c (length (x ∷ rest)) o) { events = events; registered = r })
with_output-Queued c x rest o r events s v out mask w = record {
  inv = record {
    input_valid = s.inv.input_valid;
    output_valid = v;
    mask = mask;
    pending = λ _ e. append-cons_ne (contents c.output) x rest (sym out ∙ e);
    empty = λ _ q. absurd (cc);
    closed = λ q. absurd (s.live q);
    shut = λ q. absurd (let h = s.open_side in cc);
  };
  state = refl;
  wire = refl;
  output = out;
}

queue_rest-Queued :
    (c : Connection) (x : ℕ) (rest : List ℕ)
    → Sendable c
    → length (x ∷ rest) ≤ max_size
    → Fits c.output (length (x ∷ rest))
    → (c' : Connection) × (queue_rest c (x ∷ rest) ≡ ok c') × Queued c (x ∷ rest) c'
unfolding queue_rest
queue_rest-Queued c x rest s k f =
    let (o, e, v, out) = append_lem c.output (x ∷ rest) s.inv.output_valid k f in
    elim (Bool-cases (is_writing c.events)) [
      | inl w ↦ (
        with_output c (length (x ∷ rest)) o,
        rw (lt→ltb 0 (length (x ∷ rest)) (omega arith), e, w) refl,
        with_output-Queued c x rest o c.registered c.events s v out s.inv.mask w,
      )
      | inr w ↦ (
        set_interest (with_output c (length (x ∷ rest)) o) enable_writing,
        rw (lt→ltb 0 (length (x ∷ rest)) (omega arith), e, w) refl,
        with_output-Queued c x rest o true (apply_interest enable_writing c.events) s v out
            (apply_interest-IsMask enable_writing s.inv.mask)
            (apply_interest_lem enable_writing s.inv.mask).1,
      )
    ]

pub queue_rest_lem :
    (c : Connection) (rest : List ℕ)
    → Sendable c
    → length rest ≤ max_size
    → Fits c.output (length rest)
    → (c' : Connection) × (queue_rest c rest ≡ ok c') × Queued c rest c'
queue_rest_lem c [] s k f = (
  c,
  queue_rest-nil c,
  record { inv = s.inv; state = refl; wire = refl; output = sym (append-nil (contents c.output)) },
)
queue_rest_lem c (x ∷ rest) s k f = queue_rest-Queued c x rest s k f
