-- ===== src/Buffer/Tests.antt =====
-- The buffer's theorems on small buffers.
use starry.Common.{◌≡◌, refl, [], ◌∷◌, arith, err, assertion}
use starry.Buffer.{Buffer, append, ensure_writable_bytes, make_space, compact}
use starry.Buffer.Contents.{Inv}
use starry.Buffer.Outcomes.{Appended, append-outcome}
use starry.Buffer.Socket.{ReadFd, received, read_fd, read_fd-outcome}

-- Eight bytes in front, then "ab\r\ncd", then room for four.
abbrev line : Buffer
line = record {
  bytes = 0 ∷ 0 ∷ 0 ∷ 0 ∷ 0 ∷ 0 ∷ 0 ∷ 0 ∷ 97 ∷ 98 ∷ 13 ∷ 10 ∷ 99 ∷ 100 ∷ 0 ∷ 0 ∷ 0 ∷ 0 ∷ [];
  reader_index = 8;
  writer_index = 14;
}

line-Inv : Inv line
line-Inv = record {
  ordered = omega arith;
  inside = omega arith;
  reserved = omega arith;
  small = omega arith;
}

-- Two readable bytes at the end of the storage, so that more have to be moved to the front.
abbrev late : Buffer
late = record {
  bytes = 0 ∷ 0 ∷ 0 ∷ 0 ∷ 0 ∷ 0 ∷ 0 ∷ 0 ∷ 0 ∷ 0 ∷ 0 ∷ 0 ∷ 0 ∷ 0 ∷ 0 ∷ 0 ∷ 97 ∷ 98 ∷ [];
  reader_index = 16;
  writer_index = 18;
}

late-Inv : Inv late
late-Inv = record {
  ordered = omega arith;
  inside = omega arith;
  reserved = omega arith;
  small = omega arith;
}

append-late : append late (1 ∷ 2 ∷ []) ≡ err assertion
unfolding append ensure_writable_bytes make_space compact
append-late = refl

append-outcome_example : Appended late (1 ∷ 2 ∷ []) (append late (1 ∷ 2 ∷ []))
append-outcome_example = append-outcome late (1 ∷ 2 ∷ []) late-Inv (omega arith)

read_fd-outcome_example :
    ReadFd line (1 ∷ 2 ∷ 3 ∷ 4 ∷ 5 ∷ []) (read_fd line (received (1 ∷ 2 ∷ 3 ∷ 4 ∷ 5 ∷ [])))
read_fd-outcome_example = read_fd-outcome line (1 ∷ 2 ∷ 3 ∷ 4 ∷ 5 ∷ []) line-Inv (omega arith)
