-- ===== src/Itoa/Tests.antt =====
-- The printer on a buffer at 100.
use missy_kernel.Base.{ℕ, ◌≡◌, arith, Store, some, List, map, length}
use missy_kernel.Strings.Text.{IsText}
use missy_kernel.Itoa.{Printer, itoa}
use missy_kernel.Itoa.Glyphs.{capitals}
use missy_kernel.Itoa.Numeral.{IsNumeral, itoa_lem}

abbrev p0 : Printer
p0 = record { mem = λ a. 7; errno = 0 }

itoa_example :
    (ds : List ℕ) × (m : Store) × IsNumeral 16 48879 ds
    × (itoa 100 48879 16 p0 ≡ (some (length (map capitals ds)), record p0 { mem = m }))
    × IsText m 100 (map capitals ds)
itoa_example = itoa_lem 100 48879 16 p0 (omega arith) (omega arith) (omega arith)
