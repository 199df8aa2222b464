-- ===== src/Segment/Tests.antt =====
-- Runs of the search for a place, and uses of the theorems at concrete inputs.
use remus_tutorial.Prelude.{
  ℕ, ◌+◌, ◌-◌, ◌*◌, ◌/◌, ◌≡◌, arith, refl, some, none, done, abort, List, [], ◌∷◌,
}
use remus_tutorial.Segment.{Line, scan, find_mmap_location}
use remus_tutorial.Segment.Places.{RoundsUp, Located, find_mmap_location-Located}

-- The macro for numbers.
abbrev roundup : ℕ → ℕ → ℕ
roundup x y = (x + (y - 1)) / y * y

roundup-RoundsUp : RoundsUp roundup 4096
roundup-RoundsUp = record {
  up = λ x h. omega arith;
  aligned = λ x h. omega arith;
  inside = λ x h. omega arith;
}

-- Regions at 4096 and behind a gap that is too small.
abbrev mapped : List Line
mapped = some (4096, 8192) ∷ none ∷ some (10000, 13000) ∷ some (20480, 24576) ∷ []

found_16384 : find_mmap_location roundup 4096 4096 (some mapped) ≡ done (some 16384)
unfolding find_mmap_location scan
found_16384 = refl

no_power : find_mmap_location roundup 4096 5000 (some mapped) ≡ abort
unfolding find_mmap_location
no_power = refl

find_mmap_location-Located_example :
    Located roundup 4096 roundup-RoundsUp 4096 mapped
      (find_mmap_location roundup 4096 4096 (some mapped))
find_mmap_location-Located_example =
    find_mmap_location-Located roundup 4096 roundup-RoundsUp 4096 mapped refl refl (omega arith)
      (omega arith)
      (
        omega arith,
        omega arith,
        omega arith,
        (omega arith, omega arith, omega arith, (omega arith, omega arith, omega arith, tt)),
      )
