-- ===== src/Tests/Strings.antt =====
-- The functions of pintos lib/string.c on a memory of eight bytes: the string "ab" at address 1 and
-- four more bytes at address 4.
use jungle_data_structures.Prelude.{
  ℕ, ◌+◌, ◌≤◌, ◌≡◌, refl, inl, inr, List, [], ◌∷◌, some, arith, get_elem?, get_elem?-some, take,
}
use jungle_data_structures.Prelude.Run.{Outcome, done, panic}
use jungle_data_structures.Str.Bytes.{Mem, Owns, IsString, load, store, poke}
use jungle_data_structures.Str.Defs.{memcpy, memmove, strcmp, strlcpy, copy_up, copy_down}
use jungle_data_structures.Str.Copy.{Copies, memmove-copied, copy-null}
use jungle_data_structures.Str.Text.{strcmp-compare_text, compare_text}
use jungle_data_structures.Str.Lcpy.{strlcpy-kept, strlcpy-zero, kept, SameBeyond}

abbrev bytes : List ℕ
bytes = 9 ∷ 97 ∷ 98 ∷ 0 ∷ 97 ∷ 7 ∷ 0 ∷ 7 ∷ []

abbrev mem : Mem
mem a = get_elem? bytes a

mem-Owns : (a n : ℕ) → a + n ≤ 8 → Owns mem a n
mem-Owns a n le i lt = get_elem?-some bytes (a + i) (omega arith)

abbrev ab : List ℕ
ab = 97 ∷ 98 ∷ []

abbrev a7 : List ℕ
a7 = 97 ∷ 7 ∷ []

ab-IsString : IsString mem 1 ab
ab-IsString = (omega arith, refl, (omega arith, refl, refl))

a7-IsString : IsString mem 4 a7
a7-IsString = (omega arith, refl, (omega arith, refl, refl))

abbrev Reads : Outcome Mem ℕ → ℕ → ℕ → ℕ → Type 0
Reads (done r m) v a b = (r ≡ v) × (m a ≡ some b)
Reads r v a b = ⊥

-- An overlapping move upwards by one: it copies, and returns the destination.
memmove_up : Reads (memmove 2 1 3 mem) 2 3 98
unfolding memmove copy_down load store poke
memmove_up = (refl, refl)

-- An overlapping move downwards by one: it copies, and returns the end of the destination.
memmove_down : Reads (memmove 1 2 3 mem) 4 1 98
unfolding memmove copy_up load store poke
memmove_down = (refl, refl)

memmove-copied_example : Copies mem 1 2 3 4 (memmove 1 2 3 mem)
memmove-copied_example =
    memmove-copied mem 1 2 3 (mem-Owns 1 3 (omega arith)) (mem-Owns 2 3 (omega arith))
      (inl (omega arith)) (inl (omega arith))

copy-null_example : (memcpy 0 2 3 mem ≡ panic) × (memmove 0 2 3 mem ≡ panic)
copy-null_example = copy-null mem 0 2 3 (inl refl) (omega arith)

strcmp-compare_text_example : strcmp 3 1 4 mem ≡ done (compare_text ab a7) mem
strcmp-compare_text_example =
    strcmp-compare_text 3 1 4 mem ab a7 (omega arith) (omega arith) ab-IsString a7-IsString
      (omega arith)

strlcpy-kept_example :
    (k : Mem) × (strlcpy 3 4 1 2 mem ≡ done 2 k)
    × IsString k 4 (take (kept 2 2) ab)
    × SameBeyond mem k 4 2
strlcpy-kept_example =
    strlcpy-kept 3 4 1 2 mem ab (omega arith) (omega arith) (omega arith)
      (mem-Owns 4 2 (omega arith)) ab-IsString (inr (omega arith)) (omega arith)

strlcpy-zero_example : strlcpy 3 4 1 0 mem ≡ done 2 mem
strlcpy-zero_example =
    strlcpy-zero 3 4 1 mem ab (omega arith) (omega arith) ab-IsString (omega arith)
