-- ===== src/Connection/Drain.antt =====
-- `handleWrite` and `shutdown`: the output goes out, and only then the sending side is shut.
use starry.Common.{ℕ, ◌≡◌, refl, ◌⊎◌, inl, inr, Bool, true, [], ◌++◌, take, drop, err, fatal}
use starry.Buffer.{Buffer}
use starry.Buffer.Contents.{contents}
use starry.Buffer.Contents
use starry.Channel.{disable_writing, is_writing}
use starry.Connection.{
  Connection, disconnecting, Wrote, wrote, would_block, write_error, handle_write, wrote_some,
  queue_in_loop, write_complete, set_interest,
}
use starry.Connection.Inv.{Inv, stream}

-- What a write of `n` bytes leaves.
pub record Drained (c : Connection) (n : ℕ) (c' : Connection) : Type 0 where
  pub inv : Inv c'
  pub state : c'.state ≡ c.state
  pub wire : c'.wire ≡ c.wire ++ take n (contents c.output)
  pub left : contents c'.output ≡ drop n (contents c.output)
  pub same : stream c' ≡ stream c
  pub shut : contents c'.output ≡ [] → c.state ≡ disconnecting → c'.write_shut ≡ true

abbrev rest_of : Connection → ℕ → Buffer → Connection
rest_of c n o = record c { output = o; wire = c.wire ++ take n (contents c.output) }

-- The same when nothing is left: no more writing, and the sending side as `write_shut` says.
abbrev emptied : Connection → ℕ → Buffer → Bool → Connection
emptied c n o shut =
    record (queue_in_loop (set_interest (rest_of c n o) disable_writing) c.has_write_complete
      write_complete) { write_shut = shut }

-- When the channel waits to write, a write that fails, that would only block or that takes nothing
-- ends the process.
pub handle_write-fatal :
    (c : Connection) (w : Wrote)
    → is_writing c.events ≡ true
    → (w ≡ would_block) ⊎ ((w ≡ write_error) ⊎ (w ≡ wrote 0))
    → handle_write c w ≡ err fatal
unfolding handle_write wrote_some
handle_write-fatal c w on (inl e) = rw (e, on) refl
handle_write-fatal c w on (inr (inl e)) = rw (e, on) refl
handle_write-fatal c w on (inr (inr e)) = rw (e, on) refl
