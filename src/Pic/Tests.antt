-- ===== src/Pic/Tests.antt =====
-- The controllers with mask registers that start as 0 and keep the last byte written.
use apopt_os.Base.{◌≡◌, [], ◌∷◌, true, ◌==◌, ==_iff, if◌then◌else◌, refl}
use apopt_os.Pic.{Device}
use apopt_os.Pic.Laws.{KeepsMasks}

last_write : Device
last_write [] port = 0
last_write (e ∷ w) port = if e.0 == port then e.1 else last_write w port

last_write-KeepsMasks : KeepsMasks last_write
unfolding last_write
last_write-KeepsMasks = record {
  same = λ w port v. let e : (port == port) ≡ true = (==_iff _ _).1 refl in rw e refl;
  first = λ w v. refl;
  second = λ w v. refl;
}
