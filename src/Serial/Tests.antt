-- ===== src/Serial/Tests.antt =====
-- A port whose buffer is empty at every third read.
use apopt_os.Base.{
  ℕ, ◌+◌, ◌-◌, ◌%◌, ◌≡◌, refl, true, false, List, [], ◌∷◌, ◌==◌, if◌then◌else◌, arith,
}
use apopt_os.Serial.{
  Serial, Port, com1, com_is_transmit_empty, LogStatus, warning, color_of, log_impl,
}
use apopt_os.Serial.Lines.{IsReady, Logged, wire, log_impl-Logged}

abbrev third_read : Port
third_read k port = if k % 3 == 0 then 0x20 else 0

empty_at : (k : ℕ) → k % 3 ≡ 0 → com_is_transmit_empty third_read com1 k ≡ true
empty_at k e = rw e refl

third_read-IsReady : IsReady 5 third_read com1
third_read-IsReady k = ((3 - k % 3) % 3, omega arith, empty_at (k + (3 - k % 3) % 3) (omega arith))

abbrev fresh_serial : Serial
fresh_serial = record { writes = []; reads = 0; debug_lock = false; log_lock = false }

-- "hi"
abbrev hi_line : LogStatus → List ℕ
hi_line status = 104 ∷ 105 ∷ []

log_impl-Logged_example :
    Logged warning
      (log_impl 1 5 third_read hi_line fresh_serial warning hi_line)
      (wire com1 (hi_line warning) (wire com1 (color_of warning) fresh_serial.writes))
log_impl-Logged_example =
    log_impl-Logged 5 third_read third_read-IsReady 0 hi_line fresh_serial warning hi_line
      (omega arith, omega arith, (omega arith, omega arith, tt)) refl refl
