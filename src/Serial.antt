-- ===== src/Serial.antt =====
-- src/kernel/hardware/com/com.c, src/kernel/libk/serial/debug.c and src/kernel/libk/serial/log.c: the
-- serial port and the log lines. What the port answers is a parameter, by the number of the read. A
-- string is its bytes, up to the first 0; formatted text is a parameter of the callers.
pub mod Lines
pub mod Tests
use apopt_os.Base.{
  ℕ, zero, suc, ◌+◌, ◌%◌, ◌≡◌, Bool, true, false, ◌&&◌, Option, none, some, List, [], ◌∷◌, bit_and,
  u8, ◌==◌, if◌then◌else◌,
}

-- The writes to the ports, the latest first, the number of reads so far, and the two locks.
pub record Serial : Type 0 where
  pub writes : List (ℕ × ℕ)
  pub reads : ℕ
  pub debug_lock : Bool
  pub log_lock : Bool

abbrev pub Port : Type 0
Port = ℕ → ℕ → ℕ

-- A run that returns, that stops in a kernel panic, or that never ends or uses up its fuel.
pub data Run : Type 0 where
  returns : Serial → Run
  halts : Serial → Run
  spins : Run

abbrev pub then_run : Run → (Serial → Run) → Run
then_run (returns s) next = next s
then_run (halts s) next = halts s
then_run spins next = spins

abbrev pub com1 : ℕ
com1 = 0x3F8

abbrev pub outb : Serial → ℕ → ℕ → Serial
outb s port value = record s { writes = (port, u8 value) ∷ s.writes }

-- com_init
unfoldable pub com_init : Serial → ℕ → Serial
com_init s port =
    outb
      (outb
        (outb
          (outb (outb (outb (outb s (port + 1) 0) (port + 3) 0x80) (port + 0) 0x03) (port + 1) 0)
          (port + 3) 0x03)
        (port + 2) 0xC7)
      (port + 4) 0x0B

-- com_is_transmit_empty and com_is_received: a bit of the line status at the read `k`
abbrev pub com_is_transmit_empty : Port → ℕ → ℕ → Bool
com_is_transmit_empty device port k =
    if bit_and (u8 (device k (port + 5))) 0x20 == 0 then false else true

abbrev pub com_is_received : Port → ℕ → ℕ → Bool
com_is_received device port k = if bit_and (u8 (device k (port + 5))) 1 == 0 then false else true

-- The number of the first read, from `k` on, that passes the test.
unfoldable pub wait_until : ℕ → (ℕ → Bool) → ℕ → Option ℕ
wait_until zero ready k = none
wait_until (suc fuel) ready k =
    let rest = wait_until fuel ready (k + 1) in if ready k then some k else rest

abbrev pub sent : Serial → ℕ → ℕ → Option ℕ → Run
sent s port c none = spins
sent s port c (some k) = returns (outb (record s { reads = k + 1 }) port c)

unfoldable pub com_send_char : ℕ → Port → ℕ → Serial → ℕ → Run
com_send_char fuel device port s c =
    sent s port c (wait_until fuel (com_is_transmit_empty device port) s.reads)

unfoldable pub com_send_string : ℕ → Port → ℕ → Serial → List ℕ → Run
com_send_string fuel device port s [] = returns s
com_send_string fuel device port s (c ∷ str) =
    let rest =
      then_run (com_send_char fuel device port s c) λ s'. com_send_string fuel device port s' str in
    if c == 0 then returns s else rest

abbrev pub received : Port → ℕ → Serial → Option ℕ → Option (ℕ × Serial)
received device port s none = none
received device port s (some k) = some (u8 (device (k + 1) port), record s { reads = k + 2 })

unfoldable pub com_recv : ℕ → Port → ℕ → Serial → Option (ℕ × Serial)
com_recv fuel device port s =
    received device port s (wait_until fuel (com_is_received device port) s.reads)

-- `text` is what vsnprintf writes to the buffer. On one processor, a lock that is taken is never freed.
unfoldable pub debug : ℕ → Port → Serial → List ℕ → Run
debug fuel device s text =
    let open_run =
      then_run (com_send_string fuel device com1 (record s { debug_lock = true }) text)
        λ t. returns (record t { debug_lock = false }) in
    if s.debug_lock then spins else open_run

pub data LogStatus : Type 0 where
  info warning panic success fail : LogStatus

-- "\e[0;3" with a digit, and the other sequence
abbrev pub color_code : ℕ → List ℕ
color_code digit = 0x1B ∷ 0x5B ∷ 0x30 ∷ 0x3B ∷ 0x33 ∷ (0x30 + digit) ∷ 0x6D ∷ []

abbrev pub term_color_reset : List ℕ
term_color_reset = 0x1B ∷ 0x5B ∷ 0x30 ∷ 0x6D ∷ []

abbrev pub color_of : LogStatus → List ℕ
color_of info = color_code 6
color_of warning = color_code 3
color_of panic = color_code 1
color_of success = color_code 2
color_of fail = color_code 5

abbrev pub is_color_code : List ℕ → Bool
is_color_code (a ∷ b ∷ rest) = a == 0x1B && b == 0x5B
is_color_code _ = false

-- `set_color` is debug_set_color, and `line` the text of the line in the format of its status.
abbrev pub end_line : (Serial → List ℕ → Run) → LogStatus → Serial → Run
end_line set_color panic s = halts s
end_line set_color _ s =
    then_run (set_color s term_color_reset) λ t. returns (record t { log_lock = false })

unfoldable pub log_line :
    (Serial → List ℕ → Run) → ℕ → Port → Serial → LogStatus → (LogStatus → List ℕ) → Run
log_line set_color fuel device s status line =
    let locked =
      then_run (set_color (record s { log_lock = true }) (color_of status))
        λ t. then_run (debug fuel device t (line status)) λ u. end_line set_color status u in
    if s.log_lock then spins else locked

-- A failed assertion logs a line, with the lock still held; `depth` bounds these calls.
unfoldable pub debug_set_color : ℕ → ℕ → Port → (LogStatus → List ℕ) → Serial → List ℕ → Run
debug_set_color zero fuel device failed s code = spins
debug_set_color (suc depth) fuel device failed s code =
    let t = record s { debug_lock = true } in
    let set_color = debug_set_color depth fuel device failed in
    let refused = log_line set_color fuel device t panic failed in
    let passed =
      then_run (com_send_string fuel device com1 t code)
        λ u. returns (record u { debug_lock = false }) in
    if s.debug_lock then spins else (if is_color_code code then passed else refused)

unfoldable pub log_impl :
    ℕ → ℕ → Port → (LogStatus → List ℕ) → Serial → LogStatus → (LogStatus → List ℕ) → Run
log_impl depth fuel device failed s status line =
    log_line (debug_set_color depth fuel device failed) fuel device s status line
