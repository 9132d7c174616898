-- ===== src/Tests/Tty.antt =====
-- Witnesses and runs for the terminal.
use void.Base.{ℕ, ◌≡◌, refl, List, [], ◌∷◌, arith, take, drop}
use void.Tty.{init, feed, pump, read_line, tty_read, echo_byte}
use void.Tty.Editing.{reverse, survivors, tty_read_lem}

-- "ab", backspace, "c", carriage return
abbrev typed : List ℕ
typed = 97 ∷ 98 ∷ 8 ∷ 99 ∷ 13 ∷ []

reads_ac : (tty_read init 10 typed).0 ≡ 97 ∷ 99 ∷ 10 ∷ []
unfolding tty_read pump feed read_line echo_byte
reads_ac = refl

tty_read_lem_example :
    ((tty_read init 2 typed).0 ≡ take 2 (reverse (survivors 0 (reverse typed))))
    × ((tty_read init 2 typed).1.line ≡ drop 2 (reverse (survivors 0 (reverse typed))))
    × ((tty_read init 2 typed).2 ≡ [])
tty_read_lem_example = tty_read_lem init 2 typed refl (omega arith) refl
