-- ===== src/Serial/Lines.antt =====
-- What goes out of the serial port.
use apopt_os.Base.{
  ℕ, zero, suc, ◌+◌, ◌<◌, ◌≡◌, ◌∙◌, refl, sym, ap, Bool, true, false, some, List, [], ◌∷◌, u8, ◌==◌,
  arith, Bool-cases, inl, inr,
}
use apopt_os.Serial.{
  Serial, Port, Run, returns, halts, then_run, com1, outb, com_is_transmit_empty, wait_until,
  com_send_char, com_send_string, debug, LogStatus, info, warning, panic, success, fail, color_code,
  term_color_reset, color_of, is_color_code, end_line, log_line, debug_set_color, log_impl,
}

-- After fewer than `fuel` reads from any read on, the transmission buffer is empty.
abbrev pub IsReady : ℕ → Port → ℕ → Type 0
IsReady fuel device port =
    (k : ℕ) → (j : ℕ) × (j < fuel) × (com_is_transmit_empty device port (k + j) ≡ true)

-- bytes of a string
abbrev pub IsText : List ℕ → Type 0
IsText [] = Unit {0}
IsText (c ∷ str) = (0 < c) × (c < 256) × IsText str

-- The writes of the bytes, one after the other.
abbrev pub wire : ℕ → List ℕ → List (ℕ × ℕ) → List (ℕ × ℕ)
wire port [] w = w
wire port (c ∷ str) w = wire port str ((port, c) ∷ w)

-- The state `t` comes from `s` by the writes `w`, with the same locks.
pub record IsSent (s t : Serial) (w : List (ℕ × ℕ)) : Type 0 where
  pub written : t.writes ≡ w
  pub debug_kept : t.debug_lock ≡ s.debug_lock
  pub log_kept : t.log_lock ≡ s.log_lock

-- A line that has ended: the writes `w`, then the sequence that resets the colour, and free locks.
abbrev pub Closed : Run → List (ℕ × ℕ) → Type 0
Closed run w =
    (t : Serial) × (run ≡ returns t)
    × (t.writes ≡ wire com1 term_color_reset w)
    × (t.debug_lock ≡ false)
    × (t.log_lock ≡ false)

abbrev pub Logged : LogStatus → Run → List (ℕ × ℕ) → Type 0
Logged panic run w = (t : Serial) × (run ≡ halts t) × (t.writes ≡ w)
Logged info run w = Closed run w
Logged warning run w = Closed run w
Logged success run w = Closed run w
Logged fail run w = Closed run w

IsText-color_code : (d : ℕ) → d < 10 → IsText (color_code d)
IsText-color_code d h = (
  omega arith,
  omega arith,
  (
    omega arith,
    omega arith,
    (
      omega arith,
      omega arith,
      (
        omega arith,
        omega arith,
        (omega arith, omega arith, (omega arith, omega arith, (omega arith, omega arith, tt))),
      ),
    ),
  ),
)

IsText-color : (status : LogStatus) → IsText (color_of status)
IsText-color info = IsText-color_code 6 (omega arith)
IsText-color warning = IsText-color_code 3 (omega arith)
IsText-color panic = IsText-color_code 1 (omega arith)
IsText-color success = IsText-color_code 2 (omega arith)
IsText-color fail = IsText-color_code 5 (omega arith)

IsText-reset : IsText term_color_reset
IsText-reset = (
  omega arith,
  omega arith,
  (omega arith, omega arith, (omega arith, omega arith, (omega arith, omega arith, tt))),
)

is_color_code-color_of : (status : LogStatus) → is_color_code (color_of status) ≡ true
is_color_code-color_of info = refl
is_color_code-color_of warning = refl
is_color_code-color_of panic = refl
is_color_code-color_of success = refl
is_color_code-color_of fail = refl

wait_until-ready :
    (fuel : ℕ) (ready : ℕ → Bool) (k j : ℕ)
    → ready (k + j) ≡ true
    → j < fuel
    → (i : ℕ) × (wait_until fuel ready k ≡ some i)
unfolding wait_until
wait_until-ready zero ready k j e h = absurd (omega arith)
wait_until-ready (suc fuel) ready k zero e h =
    let same : k + 0 ≡ k = omega arith in let e' : ready k ≡ true = rw same at e in rw e' (k, refl)
wait_until-ready (suc fuel) ready k (suc j) e h = elim (Bool-cases (ready k)) [
  | inl empty ↦ rw empty (k, refl)
  | inr waits ↦
      let same : k + suc j ≡ k + 1 + j = omega arith in
      rw waits (wait_until-ready fuel ready (k + 1) j (rw same at e) (omega arith))
]

module _ (fuel : ℕ) (device : Port) where
  com_send_char_lem :
      (port : ℕ) (s : Serial) (c : ℕ)
      → IsReady fuel device port
      → c < 256
      → (t : Serial) × (com_send_char fuel device port s c ≡ returns t)
        × IsSent s t ((port, c) ∷ s.writes)
  unfolding com_send_char
  com_send_char_lem port s c ready small =
      let (j, h, e) = ready s.reads in
      let (i, found) = wait_until-ready fuel (com_is_transmit_empty device port) s.reads j e h in
      let byte : u8 c ≡ c = omega arith in
      (
        outb (record s { reads = i + 1 }) port c,
        rw found refl,
        record { written = rw byte refl; debug_kept = refl; log_kept = refl },
      )

  -- Where the transmission buffer gets empty within `fuel` reads, com_send_string returns, and its
  -- bytes have gone out in their order.
  pub com_send_string_lem :
      (port : ℕ) (s : Serial) (str : List ℕ)
      → IsReady fuel device port
      → IsText str
      → (t : Serial) × (com_send_string fuel device port s str ≡ returns t)
        × IsSent s t (wire port str s.writes)
  unfolding com_send_string
  com_send_string_lem port s [] ready text =
      (s, refl, record { written = refl; debug_kept = refl; log_kept = refl })
  com_send_string_lem port s (c ∷ str) ready (pos, small, text) =
      let (t, e, a) = com_send_char_lem port s c ready small in
      let (u, f, b) = com_send_string_lem port t str ready text in
      let more : (c == 0) ≡ false = ground arith in
      (
        u,
        rw (more, e) f,
        record {
          written = b.written ∙ ap (wire port str) a.written;
          debug_kept = b.debug_kept ∙ a.debug_kept;
          log_kept = b.log_kept ∙ a.log_kept;
        },
      )

  module _ (ready : IsReady fuel device com1) where
    debug_lem :
        (s : Serial) (text : List ℕ)
        → IsText text
        → s.debug_lock ≡ false
        → (t : Serial) × (debug fuel device s text ≡ returns t)
          × (t.writes ≡ wire com1 text s.writes)
          × (t.debug_lock ≡ false)
          × (t.log_lock ≡ s.log_lock)
    unfolding debug
    debug_lem s text clean free =
        let (t, e, a) =
          com_send_string_lem com1 (record s { debug_lock = true }) text ready clean in
        (record t { debug_lock = false }, rw (free, e) refl, a.written, refl, a.log_kept)

    debug_set_color_lem :
        (depth : ℕ) (failed : LogStatus → List ℕ) (s : Serial) (code : List ℕ)
        → IsText code
        → is_color_code code ≡ true
        → s.debug_lock ≡ false
        → (t : Serial) × (debug_set_color (suc depth) fuel device failed s code ≡ returns t)
          × (t.writes ≡ wire com1 code s.writes)
          × (t.debug_lock ≡ false)
          × (t.log_lock ≡ s.log_lock)
    unfolding debug_set_color
    debug_set_color_lem depth failed s code clean is_code free =
        let (t, e, a) =
          com_send_string_lem com1 (record s { debug_lock = true }) code ready clean in
        (record t { debug_lock = false }, rw (free, is_code, e) refl, a.written, refl, a.log_kept)

    -- The sequence that resets the colour, and the free lock.
    reset_lem :
        (depth : ℕ) (failed : LogStatus → List ℕ) (u : Serial)
        → u.debug_lock ≡ false
        → Closed
            (then_run
              (debug_set_color (suc depth) fuel device failed u term_color_reset)
              λ t. returns (record t { log_lock = false }))
            u.writes
    reset_lem depth failed u free =
        let (t, e, a, b, c) =
          debug_set_color_lem depth failed u term_color_reset IsText-reset refl free in
        (record t { log_lock = false }, rw e refl, a, b, refl)

    -- The last part of a line, behind its text.
    end_line-Logged :
        (depth : ℕ) (failed : LogStatus → List ℕ) (status : LogStatus) (u : Serial)
        → u.debug_lock ≡ false
        → Logged status
            (end_line (debug_set_color (suc depth) fuel device failed) status u)
            u.writes
    end_line-Logged depth failed panic u free = (u, refl, refl)
    end_line-Logged depth failed info u free = reset_lem depth failed u free
    end_line-Logged depth failed warning u free = reset_lem depth failed u free
    end_line-Logged depth failed success u free = reset_lem depth failed u free
    end_line-Logged depth failed fail u free = reset_lem depth failed u free

    -- Where the transmission buffer gets empty within `fuel` reads and both locks are free, log_impl
    -- sends the colour of the status and the line. For a panic it then halts; for every other status it
    -- sends the sequence that resets the colour and returns, with both locks free.
    pub log_impl-Logged :
        (depth : ℕ) (failed : LogStatus → List ℕ) (s : Serial) (status : LogStatus)
        (line : LogStatus → List ℕ)
        → IsText (line status)
        → s.debug_lock ≡ false
        → s.log_lock ≡ false
        → Logged status
            (log_impl (suc depth) fuel device failed s status line)
            (wire com1 (line status) (wire com1 (color_of status) s.writes))
    unfolding log_impl log_line
    log_impl-Logged depth failed s status line clean free free' =
        let (t, e, a, b, c) =
          debug_set_color_lem depth failed (record s { log_lock = true }) (color_of status)
            (IsText-color status) (is_color_code-color_of status) free in
        let (u, f, a', b', c') = debug_lem t (line status) clean b in
        let sent_all : u.writes ≡ wire com1 (line status) (wire com1 (color_of status) s.writes) =
          a' ∙ ap (wire com1 (line status)) a in
        rw (free', e, f, sym sent_all) (end_line-Logged depth failed status u b')
