-- ===== src/Strings/Tests.antt =====
-- The string routines on a memory with the strings "ab" at 0 and "ac" at 3.
use missy_kernel.Base.{ℕ, ◌≡◌, ◌↔◌, ◌≢◌, refl, arith, Store, some, if◌then◌else◌, ◌==◌, ◌||◌}
use missy_kernel.Strings.{strcmp, strncmp}
use missy_kernel.Strings.Copy.{IsString}
use missy_kernel.Strings.Compare.{IsBytes, SameString, strcmp_lem}

abbrev text : Store
text a = if (a == 0) || (a == 3) then 97 else if a == 1 then 98 else if a == 4 then 99 else 0

text-IsBytes : IsBytes text
text-IsBytes i = ground arith

ab-IsString : IsString text 0 2
ab-IsString = record { end = refl; inner = λ i h. ground (arith, h) }

ac-IsString : IsString text 3 2
ac-IsString = record { end = refl; inner = λ i h. ground (arith, h) }

-- The strings differ behind the length, and are still reported as different.
past_the_length : strncmp text 0 3 1 ≢ 0
unfolding strncmp
past_the_length e = omega arith

strcmp_example : (r : ℕ) × (strcmp 9 text 0 3 ≡ some r) × ((r ≡ 0) ↔ SameString text 0 3 2 2)
strcmp_example = strcmp_lem 9 text 0 3 2 2 text-IsBytes ab-IsString ac-IsString (omega arith)
