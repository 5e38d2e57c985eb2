-- ===== src/Topology/Arrangement.antt =====
-- src/topology/arrangement.cpp: where each Slave's screens stand, by its device id, and the letters
-- that the file of the arrangement has for the directions. The file itself is not modelled.
use no_cap_kvm.Prelude.{ℕ, Option, none, some, List, [], ◌∷◌, ◌≡◌, refl, ◌==◌, if◌then◌else◌}
use no_cap_kvm.Prelude.Int.{ℤ}
use no_cap_kvm.Prelude.Assoc.{lookup, insert, erase, SortedFrom, lookup-insert, lookup-erase}
use no_cap_kvm.Topology.Geometry.{Direction, left, right, up, down, ArrangementEntry}

-- 'L', 'R', 'U' and 'D'
unfoldable pub direction_char : Direction → ℕ
direction_char left = 76
direction_char right = 82
direction_char up = 85
direction_char down = 68

unfoldable pub direction_from_char : ℕ → Option Direction
direction_from_char ch =
    if ch == 76
    then some left
    else if ch == 82
    then some right
    else if ch == 85
    then some up
    else if ch == 68
    then some down
    else none

-- The std::unordered_map, as a list in ascending order of the ids.
abbrev pub ScreenArrangement : Type 0
ScreenArrangement = List (ℕ × ArrangementEntry)

unfoldable pub get : ScreenArrangement → ℕ → Option ArrangementEntry
get entries device_id = lookup device_id entries

unfoldable pub set : ScreenArrangement → ℕ → Direction → ℤ → ScreenArrangement
set entries device_id direction offset =
    insert device_id (record { device_id = device_id; direction = direction; offset = offset })
      entries

unfoldable pub forget : ScreenArrangement → ℕ → ScreenArrangement
forget entries device_id = erase device_id entries

unfoldable pub list : ScreenArrangement → List ArrangementEntry
list [] = []
list ((device_id, entry) ∷ entries) = entry ∷ list entries

-- The letter of a direction is read as that direction.
pub direction_from_char-direction_char :
    (d : Direction) → direction_from_char (direction_char d) ≡ some d
unfolding direction_from_char direction_char
direction_from_char-direction_char left = refl
direction_from_char-direction_char right = refl
direction_from_char-direction_char up = refl
direction_from_char-direction_char down = refl

-- What was set for a device is what is found for it, and the other devices keep what they had.
pub get-set :
    (entries : ScreenArrangement) (i j : ℕ) (direction : Direction) (offset : ℤ)
    → get (set entries i direction offset) j ≡ (
        if i == j
        then some (record { device_id = i; direction = direction; offset = offset })
        else get entries j)
unfolding get set
get-set entries i j direction offset =
    lookup-insert j i (record { device_id = i; direction = direction; offset = offset }) entries

-- A device that was forgotten has no place, and the others keep theirs.
pub get-forget :
    (entries : ScreenArrangement) (i j : ℕ)
    → SortedFrom 0 entries
    → get (forget entries i) j ≡ (if i == j then none else get entries j)
unfolding get forget
get-forget entries i j s = lookup-erase 0 j i entries s
