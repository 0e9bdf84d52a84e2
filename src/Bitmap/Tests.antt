-- ===== src/Bitmap/Tests.antt =====
-- The bitmap operations on two bytes.
use apopt_os.Base.{replicate, refl, arith}
use apopt_os.Bitmap.{Bitmap}
use apopt_os.Bitmap.Laws.{IsValid, replicate-IsValid}

abbrev two_bytes : Bitmap
two_bytes = record { map = 0; bytes = replicate 2 0x55; size = 2 }

two_bytes-IsValid : IsValid two_bytes
two_bytes-IsValid = replicate-IsValid two_bytes 0x55 (omega arith) refl
