-- ===== src/Base/Paths.antt =====
-- What the program uses of Python's `strip`, `split`, `endswith` and `removeprefix` on names, paths
-- and datasets.
use Prim.Native.Char.{Char, code}
use Prim.Native.String.{String, ◌++◌ as append}
use mathlib.Core.Path.{◌≡◌, refl}
use mathlib.Core.Bool.{Bool, true, false, ◌&&◌}
use mathlib.Core.Option.{Option, none, some}
use mathlib.Core.List.{List, [], ◌∷◌}
use condora.Base.Tests.{nat_beq, if◌then◌else◌}

abbrev pub is_blank : String → Bool
is_blank String.[] = true
is_blank (String.◌∷◌ c s) = false

-- The text where Python takes it for true.
abbrev pub truthy : Option String → Option String
truthy none = none
truthy (some s) = if is_blank s then none else some s

abbrev pub is_slash : Char → Bool
is_slash c = nat_beq (code c) b'/'

-- `s.lstrip("/")` and `s.rstrip("/")`
unfoldable pub lstrip_slashes : String → String
lstrip_slashes String.[] = ""
lstrip_slashes (String.◌∷◌ c s) =
    let rest = lstrip_slashes s in if is_slash c then rest else String.◌∷◌ c s

unfoldable pub rstrip_slashes : String → String
rstrip_slashes String.[] = ""
rstrip_slashes (String.◌∷◌ c s) =
    let rest = rstrip_slashes s in if is_slash c && is_blank rest then "" else String.◌∷◌ c rest

-- The character in front of the first part.
abbrev pub on_first : Char → List String → List String
on_first c [] = String.◌∷◌ c "" ∷ []
on_first c (part ∷ parts) = String.◌∷◌ c part ∷ parts

-- `s.split("/")`
unfoldable pub split_slashes : String → List String
split_slashes String.[] = "" ∷ []
split_slashes (String.◌∷◌ c s) =
    let rest = split_slashes s in if is_slash c then "" ∷ rest else on_first c rest

-- `p` is the front of the text, and this is what follows it.
unfoldable pub after_prefix : String → String → Option String
after_prefix String.[] s = some s
after_prefix (String.◌∷◌ c p) String.[] = none
after_prefix (String.◌∷◌ c p) (String.◌∷◌ d s) =
    let rest = after_prefix p s in if nat_beq (code c) (code d) then rest else none

-- `s.removeprefix(p)`
unfoldable pub remove_prefix : String → String → String
unfolding after_prefix
remove_prefix p s = elim (after_prefix p s) [ none ↦ s | some rest ↦ rest ]

-- `s.endswith(p)`
unfoldable pub ends_with : String → String → Bool
unfolding after_prefix
ends_with String.[] p = is_blank p
ends_with (String.◌∷◌ c s) p =
    let later = ends_with s p in
    elim (after_prefix p (String.◌∷◌ c s)) [
      | none ↦ later
      | some rest ↦ if is_blank rest then true else later
    ]

-- `os.path.join(a, b)`, of a relative `b`
unfoldable pub join_path : String → String → String
unfolding ends_with
join_path a b =
    if is_blank a then b else if ends_with a "/" then append a b else append a (append "/" b)

abbrev pub last_part : List String → String
last_part [] = ""
last_part (part ∷ []) = part
last_part (part ∷ next ∷ parts) = last_part (next ∷ parts)

-- `os.path.basename(path)`
unfoldable pub basename : String → String
unfolding split_slashes
basename path = last_part (split_slashes path)

-- Three parts, if there are just three.
abbrev pub three : List String → Option (String × (String × String))
three (primary ∷ processing ∷ tier ∷ []) = some (primary, (processing, tier))
three _ = none

-- `dataset.strip("/").split("/")`, if it has three parts.
unfoldable pub dataset_parts : String → Option (String × (String × String))
unfolding lstrip_slashes rstrip_slashes split_slashes
dataset_parts dataset = three (split_slashes (rstrip_slashes (lstrip_slashes dataset)))

dataset_parts_run : dataset_parts "/Gen/Run3-v1/AODSIM" ≡ some ("Gen", ("Run3-v1", "AODSIM"))
unfolding dataset_parts
dataset_parts_run = refl

ends_with_run : ends_with "T2_A_Temp" "_Temp" ≡ true
unfolding ends_with
ends_with_run = refl
