-- ===== src/Tty.antt =====
-- The terminal, kernel/dev/tty.c: its line discipline.
-- The staged line is the list of the bytes below `tty_line_len`. What the device layer gets is the
-- list of the bytes in the order of the writes; `console` says whether the serial console is there.
pub mod Editing
pub mod Staged
use void.Base.{
  ℕ, zero, suc, ◌+◌, ◌-◌, Bool, true, false, not, ◌&&◌, ◌||◌, Option, none, some, List, [], ◌∷◌,
  ◌++◌, ltb, leb, ◌==◌, if◌then◌else◌, length, take, drop, Ret, ok, err, inval, io,
}

abbrev pub line_max : ℕ
line_max = 256

abbrev pub echo_on : ℕ
echo_on = 0x545401

abbrev pub echo_off : ℕ
echo_off = 0x545402

pub record Tty : Type 0 where
  pub line : List ℕ
  pub echo : Bool

abbrev pub init : Tty
init = record { line = []; echo = true }

unfoldable pub ioctl : Tty → ℕ → Ret Tty
ioctl t req =
    if req == echo_on
    then ok (record t { echo = true })
    else if req == echo_off
    then ok (record t { echo = false })
    else err inval

-- Backspace or DEL.
abbrev pub erases : ℕ → Bool
erases c = c == 8 || c == 127

-- Line feed or carriage return.
abbrev pub ends_line : ℕ → Bool
ends_line c = c == 10 || c == 13

abbrev pub printable : ℕ → Bool
printable c = leb 32 c && ltb c 127

-- The bytes that tty_echo_byte writes.
unfoldable pub echo_byte : Tty → ℕ → List ℕ
echo_byte t c =
    if not t.echo
    then []
    else if erases c
    then 8 ∷ 32 ∷ 8 ∷ []
    else if ends_line c
    then 13 ∷ 10 ∷ []
    else c ∷ []

abbrev pub has_room : Tty → Bool
has_room t = ltb (length t.line) (line_max - 1)

abbrev pub stage : Tty → ℕ → Tty
stage t c = record t { line = t.line ++ c ∷ [] }

-- One byte of input: the terminal after it and what is echoed.
unfoldable pub feed : Tty → ℕ → Tty × List ℕ
unfolding echo_byte
feed t c =
    if ends_line c
    then ((if has_room t then stage t 10 else t), echo_byte t 10)
    else if erases c
    then (if ltb 0 (length t.line)
        then (record t { line = take (length t.line - 1) t.line }, echo_byte t 8)
        else (t, []))
    else if c == 4
    then (record t { line = [] }, [])
    else if printable c
    then (if has_room t then (stage t c, echo_byte t c) else (t, []))
    else ((if has_room t then stage t c else t), [])

-- At most `spins` bytes of the input that is ready: the terminal, the input left, and the echo.
unfoldable pub pump : ℕ → Tty → List ℕ → Tty × List ℕ × List ℕ
unfolding feed
pump zero t input = (t, input, [])
pump (suc spins) t [] = (t, [], [])
pump (suc spins) t (c ∷ input) =
    let fed = feed t c in let rest = pump spins fed.0 input in (rest.0, rest.1, fed.1 ++ rest.2)

-- The bytes that are handed out, and the terminal after.
unfoldable pub read_line : Tty → ℕ → List ℕ × Tty
read_line t n = (take n t.line, record t { line = drop n t.line })

-- The bytes handed out, the terminal, the input left, and the echo.
unfoldable pub tty_read : Tty → ℕ → List ℕ → List ℕ × Tty × List ℕ × List ℕ
unfolding pump read_line
tty_read t n input =
    let pumped = pump 128 t input in
    let read = read_line pumped.0 n in (read.0, read.1, pumped.1, pumped.2)

-- `written` is what dev_write answers.
unfoldable pub tty_write : (console : Bool) → (written : Ret ℕ) → List ℕ → Ret ℕ
tty_write console written buf =
    if not console then err io else elim written [ err e ↦ err e | ok w ↦ ok (length buf) ]
