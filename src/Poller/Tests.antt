-- ===== src/Poller/Tests.antt =====
-- A kernel that is a function from descriptors to events, and a loop on it.
use starry.Common.{
  ℕ, ◌≡◌, ◌≢◌, refl, sym, List, [], ◌∷◌, Option, none, some, ◌==◌, ==_refl, ne→==_false,
  if◌then◌else◌, lookup, put, Outcome, ok, err, fatal, ltb, ap, ◌∙◌, ◌⊎◌, inl, inr, Bool-cases,
  Option-cases,
}
use starry.Channel.{
  enable_reading, enable_writing, disable_writing, disable_all, apply_interest, is_none_event, init,
}
use starry.Poller.Kernel.{Kernel, CtlOp, ctl_add, ctl_mod, ctl_del}
use starry.Poller.{has_channel, update_channel, update_by_index, update, change_interest}
use starry.Poller.World.{
  World, Call, change, call, run, Coherent, Refused, change-Coherent, run-Coherent,
}

abbrev Table : Type 0
Table = ℕ → Option ℕ

abbrev set : Table → ℕ → Option ℕ → Table
set t fd e = λ f. if fd == f then e else t f

set-hit : (t : Table) (fd : ℕ) (e : Option ℕ) → set t fd e fd ≡ e
set-hit t fd e = rw (==_refl fd) refl

set-miss : (t : Table) (fd : ℕ) (e : Option ℕ) (other : ℕ) → other ≢ fd → set t fd e other ≡ t other
set-miss t fd e other away = rw (ne→==_false fd other (λ q. away (sym q))) refl

-- It has room for descriptors below 1024.
abbrev table_ctl : Table → CtlOp → ℕ → ℕ → Option Table
table_ctl t ctl_add fd events =
    if ltb fd 1024
    then elim (t fd) [ none ↦ some (set t fd (some events)) | some e ↦ none ]
    else none
table_ctl t ctl_mod fd events = elim (t fd) [ none ↦ none | some e ↦ some (set t fd (some events)) ]
table_ctl t ctl_del fd events = elim (t fd) [ none ↦ none | some e ↦ some (set t fd none) ]

-- A call that has succeeded has set the entry of its descriptor.
set-eq :
    (t t' : Table) (fd : ℕ) (e : Option ℕ)
    → set t fd e ≡ t'
    → (t' fd ≡ e) × ((other : ℕ) → other ≢ fd → t' other ≡ t other)
set-eq t t' fd e h = (
  sym (ap (λ x. x fd) h) ∙ set-hit t fd e,
  λ other away. sym (ap (λ x. x other) h) ∙ set-miss t fd e other away,
)

some_eq : (t t' : Table) → some t ≡ some t' → t ≡ t'
some_eq t t' h = ap (λ o. elim o [ none ↦ t | some x ↦ x ]) h

add_sets :
    (t t' : Table) (fd events : ℕ)
    → table_ctl t ctl_add fd events ≡ some t'
    → set t fd (some events) ≡ t'
add_sets t t' fd events h = elim (Bool-cases (ltb fd 1024)) [
  | inr full ↦ absurd (cc (rw (table_ctl, full) at h))
  | inl room ↦ elim (Option-cases (t fd)) [
    | inl free ↦ some_eq (set t fd (some events)) t' (rw (table_ctl, room, free) at h)
    | inr (e, taken) ↦ absurd (cc (rw (table_ctl, room, taken) at h))
  ]
]

mod_sets :
    (t t' : Table) (fd events : ℕ)
    → table_ctl t ctl_mod fd events ≡ some t'
    → set t fd (some events) ≡ t'
mod_sets t t' fd events h = elim (Option-cases (t fd)) [
  | inl free ↦ absurd (cc (rw (table_ctl, free) at h))
  | inr (e, taken) ↦ some_eq (set t fd (some events)) t' (rw (table_ctl, taken) at h)
]

del_sets :
    (t t' : Table) (fd events : ℕ) → table_ctl t ctl_del fd events ≡ some t' → set t fd none ≡ t'
del_sets t t' fd events h = elim (Option-cases (t fd)) [
  | inl free ↦ absurd (cc (rw (table_ctl, free) at h))
  | inr (e, taken) ↦ some_eq (set t fd none) t' (rw (table_ctl, taken) at h)
]

abbrev table : Kernel
table = record {
  State = Table;
  ctl = table_ctl;
  interest = λ t fd. t fd;
  add_registers = λ t t' fd events h. set-eq t t' fd (some events) (add_sets t t' fd events h);
  mod_changes = λ t t' fd events h. set-eq t t' fd (some events) (mod_sets t t' fd events h);
  del_removes = λ t t' fd events h. set-eq t t' fd none (del_sets t t' fd events h);
}

-- The channel of descriptor `fd` stands at address `fd`; nothing is registered.
abbrev fresh : World table
fresh = record {
  poller = record { epoll = λ fd. none; channels = []; event_list_size = 16 };
  channel_at = λ fd. init fd fd;
}

fresh-Coherent : Coherent fresh
unfolding init lookup
fresh-Coherent = record {
  own = λ fd. refl;
  synced = λ fd. (refl, refl);
  watched = λ fd h. absurd (cc);
}

abbrev world_or : World table → Outcome (World table) → World table
world_or w (ok w') = w'
world_or w (err f) = w

abbrev opened : List Call
opened = change 5 enable_reading ∷ change 7 enable_reading ∷ change 5 enable_writing ∷ []

abbrev watching : World table
watching = world_or fresh (run fresh opened)

abbrev silenced : World table
silenced = world_or fresh (run fresh (change 5 enable_reading ∷ change 5 disable_all ∷ []))

run-opened : run fresh opened ≡ ok watching
unfolding run call change_interest update_channel update_by_index update init lookup put has_channel
    is_none_event apply_interest
run-opened = refl

watching-Coherent : Coherent watching
watching-Coherent = run-Coherent opened fresh watching fresh-Coherent run-opened

silenced-Coherent : Coherent silenced
unfolding run call change_interest update_channel update_by_index update init lookup put has_channel
    is_none_event apply_interest
silenced-Coherent =
    run-Coherent (change 5 enable_reading ∷ change 5 disable_all ∷ []) fresh silenced fresh-Coherent
      refl

watching-events : watching.poller.epoll 5 ≡ some 7
unfolding run call change_interest update_channel update_by_index update init lookup put has_channel
    is_none_event apply_interest
watching-events = refl

run-Coherent_example : Coherent watching
run-Coherent_example = run-Coherent opened fresh watching fresh-Coherent run-opened

change-Coherent_example :
    (Refused watching 5 disable_writing × (call watching (change 5 disable_writing) ≡ err fatal))
    ⊎ ((w : World table) × (call watching (change 5 disable_writing) ≡ ok w) × Coherent w)
change-Coherent_example = change-Coherent watching 5 disable_writing watching-Coherent

-- No room is left for descriptor 2000.
full-fatal : call fresh (change 2000 enable_reading) ≡ err fatal
unfolding call change_interest update_channel update_by_index update init lookup put apply_interest
full-fatal = refl
