-- ===== src/LoopPool/Turns.antt =====
-- The loops of a pool are given out in turn.
use native.Mathlib.Nat.{mod-lt, mod-eq_of_lt, mod_self}
use starry.Common.{
  ℕ, zero, suc, ◌+◌, ◌%◌, ◌<◌, ◌≡◌, ◌≢◌, refl, sym, ap, ap₂, ◌∙◌, true, false, List, [], ◌∷◌, ◌++◌,
  append_assoc, length, length-append, ◌==◌, ne→==_false, Bool-cases, inl, inr, Outcome, ok, ◌>>=◌,
  arith,
}
use starry.LoopPool.{LoopPool, at, get_next_loop, get_loop_for_hash}

-- What so many calls of `getNextLoop` give.
unfoldable pub next_loops : ℕ → LoopPool → Outcome (List ℕ × LoopPool)
next_loops zero p = ok ([], p)
next_loops (suc n) p = get_next_loop p >>= λ r. next_loops n r.1 >>= λ s. ok (r.0 ∷ s.0, s.1)

positive : (n : ℕ) → (n == 0) ≡ false → 0 < n
positive n e = ground arith

at-append : (pre : List ℕ) (l : ℕ) (post : List ℕ) → at (pre ++ (l ∷ post)) (length pre) ≡ ok l
unfolding at
at-append [] l post = refl
at-append (x ∷ pre) l post = at-append pre l post

pub at-lt : (ls : List ℕ) (i : ℕ) → i < length ls → (l : ℕ) × (at ls i ≡ ok l)
unfolding at
at-lt [] i h = absurd (omega arith)
at-lt (l ∷ ls) zero h = (l, refl)
at-lt (l ∷ ls) (suc i) h = at-lt ls i (omega arith)

-- With a loop at its index, `getNextLoop` gives that loop.
get_next_loop-at :
    (p : LoopPool) (l : ℕ)
    → p.started ≡ true
    → at p.loops p.next ≡ ok l
    → (length p.loops == 0) ≡ false
    → get_next_loop p ≡ ok (l, record p { next = (p.next + 1) % length p.loops })
unfolding get_next_loop
get_next_loop-at p l s e n = rw (get_next_loop, s, n, e) refl

-- The index after a loop that is not the last, and after the last one.
next-inside : (n m : ℕ) → n + 1 < m → (n + 1) % m ≡ n + 1
next-inside n m h = mod-eq_of_lt h

some_left :
    (pre : List ℕ) (l : ℕ) (post : List ℕ) (n : ℕ)
    → n ≡ length (pre ++ (l ∷ post))
    → (n == 0) ≡ false
some_left pre l post n h = ne→==_false n 0 (λ e. omega (arith, h, e, length-append pre (l ∷ post)))

-- From the loop at `next` on to the end.
next_loops-rest :
    (post pre : List ℕ) (p : LoopPool)
    → p.started ≡ true
    → p.loops ≡ pre ++ post
    → post ≢ []
    → p.next ≡ length pre
    → next_loops (length post) p ≡ ok (post, record p { next = 0 })
unfolding next_loops
next_loops-rest [] pre p s e h n = absurd (h refl)
next_loops-rest (l ∷ []) pre p s e h n =
    let g =
      get_next_loop-at p l s (ap₂ at e n ∙ at-append pre l [])
        (some_left pre l [] (length p.loops) (ap length e)) in
    let wrap : (p.next + 1) % length p.loops ≡ 0 =
      ap (λ k. k % length p.loops) {x = p.next + 1} {y = length p.loops}
        (omega (arith, n, ap length e, length-append pre (l ∷ [])))
      ∙ mod_self (length p.loops) in
    ap (λ r. r >>= λ x. ok (x.0 ∷ [], x.1)) g ∙ ap (λ k. ok (l ∷ [], record p { next = k })) wrap
next_loops-rest (l ∷ m ∷ post) pre p s e h n =
    let g =
      get_next_loop-at p l s (ap₂ at e n ∙ at-append pre l (m ∷ post))
        (some_left pre l (m ∷ post) (length p.loops) (ap length e)) in
    let on : (p.next + 1) % length p.loops ≡ length (pre ++ (l ∷ [])) =
      next-inside p.next (length p.loops)
        (omega (arith, n, ap length e, length-append pre (l ∷ m ∷ post)))
      ∙ omega (arith, n, length-append pre (l ∷ [])) in
    let p1 : LoopPool = record p { next = (p.next + 1) % length p.loops } in
    let r =
      next_loops-rest (m ∷ post) (pre ++ (l ∷ [])) p1 s
        (e ∙ sym (append_assoc pre (l ∷ []) (m ∷ post))) (λ q. cc) on in
    ap (λ r. r >>= λ x. next_loops (suc (length post)) x.1 >>= λ y. ok (x.0 ∷ y.0, y.1)) g
    ∙ ap (λ r. r >>= λ y. ok (l ∷ y.0, y.1)) r

-- As many calls of `getNextLoop` as there are loops, from the first one on, give each loop once
-- and in order, and the pool is then as it was before them.
pub next_loops_lem :
    (p : LoopPool)
    → p.started ≡ true
    → p.loops ≢ []
    → p.next ≡ 0
    → next_loops (length p.loops) p ≡ ok (p.loops, p)
next_loops_lem p s h n =
    next_loops-rest p.loops [] p s refl h n ∙ ap (λ k. ok (p.loops, record p { next = k })) (sym n)

-- `getLoopForHash` never leaves the vector, and a hash has its loop for good.
pub get_loop_for_hash_lem :
    (p : LoopPool) (hash_code : ℕ) → (l : ℕ) × (get_loop_for_hash p hash_code ≡ ok l)
unfolding get_loop_for_hash
get_loop_for_hash_lem p hash_code = elim (Bool-cases (length p.loops == 0)) [
  | inl e ↦ (p.base_loop, rw (get_loop_for_hash, e) refl)
  | inr e ↦
      let r =
        at-lt p.loops (hash_code % length p.loops)
          (mod-lt hash_code (positive (length p.loops) e)) in
      (r.0, rw (get_loop_for_hash, e) r.1)
]

-- A pool that has been started, with its index inside its loops.
pub record IsReady (p : LoopPool) : Type 0 where
  pub started : p.started ≡ true
  pub inside : (length p.loops == 0) ≡ false → p.next < length p.loops

-- `getNextLoop` never leaves the vector.
pub get_next_loop-IsReady :
    (p : LoopPool)
    → IsReady p
    → (l : ℕ) × (p' : LoopPool) × (get_next_loop p ≡ ok (l, p')) × IsReady p'
unfolding get_next_loop
get_next_loop-IsReady p r = elim (Bool-cases (length p.loops == 0)) [
  | inl e ↦ (p.base_loop, p, rw (get_next_loop, r.started, e) refl, r)
  | inr e ↦
      let a = at-lt p.loops p.next (r.inside e) in
      (
        a.0,
        record p { next = (p.next + 1) % length p.loops },
        get_next_loop-at p a.0 r.started a.1 e,
        record {
          started = r.started;
          inside = λ _. mod-lt (p.next + 1) (positive (length p.loops) e);
        },
      )
]
