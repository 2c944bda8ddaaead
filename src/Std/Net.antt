-- ===== src/Std/Net.antt =====
-- Of Go's `net`: SplitHostPort.
use blockade.Prelude.{
  eqb, if◌then◌else◌, length, Error, new, Result, ok, err, Bytes, bytes, ℕ, zero, suc, ◌+◌, ◌≡◌,
  refl, Bool, false, ◌||◌, Option, none, some, [], ◌∷◌,
}
use mathlib.Core.Option
use blockade.Std.Strings.{drop}

abbrev pub has : ℕ → Bytes → Bool
has c [] = false
has c (x ∷ s) = eqb x c || has c s

-- The position of the last `c` (strings.LastIndexByte).
last_index : ℕ → Bytes → Option ℕ
last_index c [] = none
last_index c (x ∷ s) = elim (last_index c s) [
  | some i ↦ some (suc i)
  | none ↦ if eqb x c then some 0 else none
]

-- The position of the first `c` (bytealg.IndexByteString).
index : ℕ → Bytes → Option ℕ
index c [] = none
index c (x ∷ s) = if eqb x c then some 0 else Option.map suc (index c s)

take : ℕ → Bytes → Bytes
take zero s = []
take (suc n) [] = []
take (suc n) (c ∷ s) = c ∷ take n s

abbrev missing_port : Error
missing_port = new "missing port in address"

abbrev too_many_colons : Error
too_many_colons = new "too many colons in address"

abbrev missing_bracket : Error
missing_bracket = new "missing ']' in address"

-- The host part once the port's colon and the host are known; `j` and `k` are where a '[' and a
-- ']' are looked for.
finish : Bytes → Bytes → ℕ → ℕ → Result Bytes
unfolding drop
finish hostport host j k =
    if has b'[' (drop j hostport)
    then err (new "unexpected '[' in address")
    else if has b']' (drop k hostport)
    then err (new "unexpected ']' in address")
    else ok host

-- A host in brackets, whose ']' stands at `end`; `i` is the last colon.
bracketed : Bytes → ℕ → ℕ → Result Bytes
unfolding finish drop take
bracketed hostport i end =
    if eqb (end + 1) (length hostport)
    then err missing_port
    else if eqb (end + 1) i
    then finish hostport (drop 1 (take end hostport)) 1 (end + 1)
    else elim (drop (end + 1) hostport) [
      | [] ↦ err missing_port
      | c ∷ _ ↦ if eqb c b':' then err too_many_colons else err missing_port
    ]

plain : Bytes → ℕ → Result Bytes
unfolding finish take
plain hostport i =
    if has b':' (take i hostport)
    then err too_many_colons
    else finish hostport (take i hostport) 0 0

abbrev starts_with_bracket : Bytes → Bool
starts_with_bracket [] = false
starts_with_bracket (c ∷ s) = eqb c b'['

-- The host of "host:port" or "[host]:port".
unfoldable pub split_host : Bytes → Result Bytes
unfolding last_index index bracketed plain
split_host hostport = elim (last_index b':' hostport) [
  | none ↦ err missing_port
  | some i ↦
      if starts_with_bracket hostport
      then (elim (index b']' hostport) [
        | none ↦ err missing_bracket
        | some end ↦ bracketed hostport i end
      ])
      else plain hostport i
]

split_v4 : split_host (bytes "10.0.0.7:4711") ≡ ok (bytes "10.0.0.7")
unfolding split_host
split_v4 = refl

split_v6 : split_host (bytes "[::1]:80") ≡ ok (bytes "::1")
unfolding split_host
split_v6 = refl

split_bare : split_host (bytes "::1") ≡ err too_many_colons
unfolding split_host
split_bare = refl
