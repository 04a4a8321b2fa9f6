-- ===== src/Logging/Steps.antt =====
-- `append` and `stop`, called from other threads, between the steps of `threadFunc`.
use starry.Common.{
  ℕ, zero, suc, ◌+◌, ◌≤◌, ◌≡◌, refl, sym, ap, ◌∙◌, ◌⊎◌, inl, inr, List, [], ◌∷◌, ◌++◌, append_assoc,
  append-nil, Option, none, some, length, take, if◌then◌else◌, Outcome, ok, ◌>>=◌, arith,
}
use starry.Logging.{
  Bytes, Phase, testing, waiting, writing, finished, AsyncLogging, split_back, start, stop, append,
  swap, write_buffers, refill, write,
}

pub data Event : Type 0 where
  line : Bytes → Event
  ask_stop : Event
  writer : Event

module _ (size : ℕ) where
  -- What the writer does next.
  unfoldable pub writer_from : Phase → AsyncLogging → Outcome AsyncLogging
  writer_from testing l =
      ok (if l.running then record l { phase = waiting } else record l { phase = finished })
  writer_from waiting l = ok (swap size l)
  writer_from writing l = write size l
  writer_from finished l = ok l

  unfoldable pub step : Event → AsyncLogging → Outcome AsyncLogging
  step (line b) l = append size l b
  step ask_stop l = ok (stop l)
  step writer l = writer_from l.phase l

  unfoldable pub run : List Event → AsyncLogging → Outcome AsyncLogging
  run [] l = ok l
  run (e ∷ es) l = step e l >>= λ l'. run es l'

-- No pointer of the list is null.
abbrev pub AreThere : List (Option Bytes) → Type 0
AreThere [] = Unit {0}
AreThere (p ∷ ps) = ((b : Bytes) × (p ≡ some b)) × AreThere ps

abbrev pub bytes_of : Option Bytes → Bytes
bytes_of none = []
bytes_of (some b) = b

-- The bytes of the buffers of a list, in order.
abbrev pub data_of : List (Option Bytes) → Bytes
data_of [] = []
data_of (p ∷ ps) = bytes_of p ++ data_of ps

-- The spares of the writer: outside the writing it has two and nothing to write; within it has
-- given one away, or two when there are two buffers.
abbrev pub SparesFit : Phase → AsyncLogging → Type 0
SparesFit testing l = (l.new1 ≡ some []) × (l.new2 ≡ some []) × (l.to_write ≡ [])
SparesFit waiting l = (l.new1 ≡ some []) × (l.new2 ≡ some []) × (l.to_write ≡ [])
SparesFit writing l =
    (l.new1 ≡ none)
    × ((l.new2 ≡ some []) ⊎ ((l.new2 ≡ none) × (2 ≤ length l.to_write)))
    × (1 ≤ length l.to_write)
    × AreThere l.to_write
SparesFit finished l = (l.new1 ≡ some []) × (l.new2 ≡ some []) × (l.to_write ≡ [])

pub record Inv (l : AsyncLogging) : Type 0 where
  pub current : (b : Bytes) × (l.current ≡ some b)
  pub buffers : AreThere l.buffers
  pub next : (l.next ≡ some []) ⊎ ((l.next ≡ none) × (1 ≤ length l.buffers))
  pub spares : SparesFit l.phase l
  pub ordered :
      l.dropped ≡ 0
      → l.output ++ (data_of l.to_write ++ (data_of l.buffers ++ bytes_of l.current)) ≡ l.accepted

pub start-Inv : Inv start
unfolding start
start-Inv = record {
  current = ([], refl);
  buffers = tt;
  next = inl refl;
  spares = (refl, refl, refl);
  ordered = λ h. refl;
}

pub AreThere-append :
    (ps : List (Option Bytes)) (p : Option Bytes)
    → AreThere ps
    → (b : Bytes) × (p ≡ some b)
    → AreThere (ps ++ (p ∷ []))
AreThere-append [] p h b = (b, tt)
AreThere-append (q ∷ ps) p (a, h) b = (a, AreThere-append ps p h b)

pub AreThere-take : (n : ℕ) (ps : List (Option Bytes)) → AreThere ps → AreThere (take n ps)
AreThere-take zero ps h = tt
AreThere-take (suc n) [] h = tt
AreThere-take (suc n) (p ∷ ps) (a, h) = (a, AreThere-take n ps h)

pub data_of-append :
    (ps : List (Option Bytes)) (p : Option Bytes)
    → data_of (ps ++ (p ∷ [])) ≡ data_of ps ++ bytes_of p
data_of-append [] p = append-nil (bytes_of p)
data_of-append (q ∷ ps) p =
    ap (λ t. bytes_of q ++ t) (data_of-append ps p)
    ∙ sym (append_assoc (bytes_of q) (data_of ps) (bytes_of p))

-- `back()` of buffers that are there.
split_back_lem :
    (p : Option Bytes) (ps : List (Option Bytes))
    → AreThere (p ∷ ps)
    → (qs : List (Option Bytes)) × (b : Bytes) × (split_back (p ∷ ps) ≡ ok (qs, some b))
      × AreThere qs
      × (length qs ≡ length ps)
unfolding split_back
split_back_lem p [] ((b, e), h) = ([], b, ap (λ x. ok ([], x)) e, tt, refl)
split_back_lem p (q ∷ ps) (a, h) =
    let r = split_back_lem q ps h in (p ∷ r.0, r.1, rw (split_back, r.2) refl, (a, r.3), ap suc r.4)

-- A spare is got back from the buffers when it is gone and there is one.
pub refill_lem :
    (size : ℕ) (p : Option Bytes) (ps : List (Option Bytes))
    → AreThere ps
    → (p ≡ some []) ⊎ ((p ≡ none) × (1 ≤ length ps))
    → (qs : List (Option Bytes)) × (refill size p ps ≡ ok (some [], qs))
      × AreThere qs
      × (length ps ≤ length qs + 1)
unfolding refill
refill_lem size p ps h (inl e) = (ps, rw e refl, h, omega arith)
refill_lem size p [] h (inr (e, n)) = absurd (omega (arith, n))
refill_lem size p (q ∷ ps) h (inr (e, n)) =
    let r = split_back_lem q ps h in (r.0, rw (e, refill, r.2) refl, r.3, omega (arith, r.4))

pub write_buffers_lem :
    (size : ℕ) (ps : List (Option Bytes)) (output : Bytes)
    → AreThere ps
    → write_buffers size ps output ≡ ok (output ++ data_of ps)
unfolding write_buffers
write_buffers_lem size [] output h = ap ok (sym (append-nil output))
write_buffers_lem size (p ∷ ps) output ((b, e), h) =
    rw (e, write_buffers, write_buffers_lem size ps (output ++ b) h)
      (ap ok (append_assoc output b (data_of ps)))
