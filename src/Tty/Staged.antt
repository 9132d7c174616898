-- ===== src/Tty/Staged.antt =====
-- The length of the staged line of kernel/dev/tty.c, and what a read takes of it.
use void.Base.{
  ℕ, zero, suc, ◌-◌, ◌≤◌, ◌<◌, ◌≡◌, List, [], ◌∷◌, ◌++◌, arith, length, take-append-drop,
  length-take, length-drop, length-append,
}
use void.Tty.{Tty, feed, pump, read_line, tty_read, line_max}

feed_bounded : (t : Tty) (c : ℕ) → length t.line < line_max → length (feed t c).0.line < line_max
unfolding feed
feed_bounded t c h =
    let less = length-take (length t.line - 1) t.line in
    let more = length-append t.line (10 ∷ []) in
    let more' = length-append t.line (c ∷ []) in ground (arith, less, more, more')

pump_bounded :
    (spins : ℕ) (t : Tty) (input : List ℕ)
    → length t.line < line_max
    → length (pump spins t input).0.line < line_max
unfolding pump
pump_bounded zero t input h = h
pump_bounded (suc spins) t [] h = h
pump_bounded (suc spins) t (c ∷ input) h =
    pump_bounded spins (feed t c).0 input (feed_bounded t c h)

-- Whatever is typed, a read hands out at most `n` bytes, the first of the staged line, keeps the
-- rest of it in order, and the line stays within its buffer of 256 bytes.
pub tty_read_bounded :
    (t : Tty) (n : ℕ) (input : List ℕ)
    → length t.line < line_max
    → (length (tty_read t n input).0 ≤ n)
      × ((tty_read t n input).0 ++ (tty_read t n input).1.line ≡ (pump 128 t input).0.line)
      × (length (tty_read t n input).1.line < line_max)
unfolding tty_read read_line
tty_read_bounded t n input h =
    let staged = (pump 128 t input).0.line in
    (
      omega (arith, length-take n staged),
      take-append-drop n staged,
      omega (arith, length-drop n staged, pump_bounded 128 t input h),
    )
