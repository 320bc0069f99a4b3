-- ===== src/Measure/Copy.antt =====
-- `io.Copy` of the standard library, over readers and writers that share one state, as
-- service/metrics/metrics.go calls it.
use outline_ss_server.Prelude.{
  ℕ, zero, suc, ◌+◌, ◌≡◌, refl, Option, none, some, List, length, ltb, ◌==◌, if◌then◌else◌,
}
use outline_ss_server.Net.GoError.{GoError, plain}

-- How a `Read` ends: with a nil error, with io.EOF, or with another error.
pub data Ended : Type 0 where
  more eof : Ended
  failed : GoError → Ended

-- `Read` by the length of its buffer, `Write` by its bytes, and a copy, which is `none` while it has
-- not returned.
abbrev pub Read : Type 0 → Type 0
Read S = ℕ → S → (List ℕ × Ended) × S

abbrev pub Write : Type 0 → Type 0
Write S = List ℕ → S → (ℕ × Option GoError) × S

abbrev pub Copying : Type 0 → Type 0
Copying S = S → Option ((ℕ × Option GoError) × S)

-- An io.Writer, and its `ReadFrom` if it is an io.ReaderFrom. `ReadFrom` calls the `Read` that it is given.
pub record Writer (S : Type 0) : Type 0 where
  pub write : Write S
  pub read_from : Option (Read S → Copying S)

-- An io.Reader, and its `WriteTo` if it is an io.WriterTo.
pub record Reader (S : Type 0) : Type 0 where
  pub read : Read S
  pub write_to : Option (Writer S → Copying S)

-- Whether the loop of a copy goes on.
pub data Verdict : Type 0 where
  goes_on : Verdict
  stops : Option GoError → Verdict

abbrev pub invalid_write : GoError
invalid_write = plain "invalid write result"

abbrev pub short_write : GoError
short_write = plain "short write"

-- `ew`, or the error for a count that `Write` must not return.
abbrev pub or_invalid : Option GoError → GoError
or_invalid none = invalid_write
or_invalid (some e) = e

-- What a turn of the loop makes of the result of `Write`, for so many bytes.
abbrev pub written_of : ℕ → ℕ → Option GoError → ℕ × Verdict
written_of nr nw ew = if ltb nr nw then (0, stops (some (or_invalid ew))) else (
  nw,
  elim ew [
    | some e ↦ stops (some e)
    | none ↦ if nw == nr then goes_on else stops (some short_write)
  ],
)

-- What it then makes of the error of `Read`.
abbrev pub after_read : Ended → Verdict → Verdict
after_read ended (stops e) = stops e
after_read more goes_on = goes_on
after_read eof goes_on = stops none
after_read (failed e) goes_on = stops (some e)

abbrev pub buffer_size : ℕ
buffer_size = 32_768

module _ {S : Type 0} where
  -- `Write` of what was read, unless that is nothing.
  unfoldable pub write_turn : Write S → List ℕ → S → (ℕ × Verdict) × S
  write_turn write bs s =
      if length bs == 0
      then ((0, goes_on), s)
      else (let ((nw, ew), s') = write bs s in (written_of (length bs) nw ew, s'))

  unfoldable pub turn : Write S → Read S → S → (ℕ × Verdict) × S
  unfolding write_turn
  turn write read s =
      let ((bs, ended), s₁) = read buffer_size s in
      let ((n, v), s₂) = write_turn write bs s₁ in ((n, after_read ended v), s₂)

  -- The loop of a copy, for at most so many turns; `none` if it has not ended by then.
  unfoldable pub copy_loop : ℕ → Write S → Read S → ℕ → Copying S
  unfolding turn
  copy_loop zero write read written s = none
  copy_loop (suc fuel) write read written s =
      let ((n, v), s') = turn write read s in
      let rest = copy_loop fuel write read (written + n) s' in
      elim v [ goes_on ↦ rest | stops e ↦ some ((written + n, e), s') ]

  -- The reader's `WriteTo` first, then the writer's `ReadFrom`, then the loop.
  unfoldable pub io_copy : ℕ → Writer S → Reader S → Copying S
  unfolding copy_loop
  io_copy fuel w r s = elim r.write_to [
    | some write_to ↦ write_to w s
    | none ↦ elim w.read_from [
      | some read_from ↦ read_from r.read s
      | none ↦ copy_loop fuel w.write r.read 0 s
    ]
  ]

  -- Without a fast path the copy is the loop.
  pub io_copy_plain :
      (fuel : ℕ) (w : Writer S) (r : Reader S) (s : S)
      → r.write_to ≡ none
      → w.read_from ≡ none
      → io_copy fuel w r s ≡ copy_loop fuel w.write r.read 0 s
  unfolding io_copy
  io_copy_plain fuel w r s a b = rw (a, io_copy) (rw (b, io_copy) refl)

  pub io_copy_write_to :
      (fuel : ℕ) (w : Writer S) (r : Reader S) (s : S) (f : Writer S → Copying S)
      → r.write_to ≡ some f
      → io_copy fuel w r s ≡ f w s
  unfolding io_copy
  io_copy_write_to fuel w r s f a = rw (a, io_copy) refl

  pub io_copy_read_from :
      (fuel : ℕ) (w : Writer S) (r : Reader S) (s : S) (f : Read S → Copying S)
      → r.write_to ≡ none
      → w.read_from ≡ some f
      → io_copy fuel w r s ≡ f r.read s
  unfolding io_copy
  io_copy_read_from fuel w r s f a b = rw (a, io_copy) (rw (b, io_copy) refl)
