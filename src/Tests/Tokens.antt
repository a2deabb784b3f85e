-- ===== src/Tests/Tokens.antt =====
-- The searches of pintos lib/string.c on a memory of ten bytes: the strings "bab" at address 1, "ab"
-- at 5 and "b" at 8.
use jungle_data_structures.Prelude.{ℕ, ◌≡◌, refl, List, [], ◌∷◌, arith, get_elem?, some}
use jungle_data_structures.Prelude.Run.{Outcome, Ends, done}
use jungle_data_structures.Str.Bytes.{Mem, IsString, load, store, poke}
use jungle_data_structures.Str.Defs.{strchr, strchr_loop}
use jungle_data_structures.Str.Search.{strstr, strstr-index_of}
use jungle_data_structures.Str.Tokens.{skip_loop, token_loop, strtok_r}
use jungle_data_structures.Str.NextToken.{Token, strtok_r-Token}

abbrev text : Mem
text a = get_elem? (9 ∷ 98 ∷ 97 ∷ 98 ∷ 0 ∷ 97 ∷ 98 ∷ 0 ∷ 98 ∷ 0 ∷ []) a

abbrev bab : List ℕ
bab = 98 ∷ 97 ∷ 98 ∷ []

abbrev ab : List ℕ
ab = 97 ∷ 98 ∷ []

abbrev b_only : List ℕ
b_only = 98 ∷ []

bab-IsString : IsString text 1 bab
bab-IsString = (omega arith, refl, (omega arith, refl, (omega arith, refl, refl)))

ab-IsString : IsString text 5 ab
ab-IsString = (omega arith, refl, (omega arith, refl, refl))

b_only-IsString : IsString text 8 b_only
b_only-IsString = (omega arith, refl, refl)

strstr-index_of_example : strstr 4 1 5 text ≡ done 2 text
strstr-index_of_example =
    strstr-index_of 4 1 5 text bab ab (omega arith) (omega arith) bab-IsString ab-IsString
      (omega arith) (omega arith)

strtok_r-Token_example :
    Ends (Token text b_only 8 (omega arith) b_only-IsString 1 bab) (strtok_r 5 1 8 7 text)
strtok_r-Token_example =
    strtok_r-Token text b_only 8 (omega arith) b_only-IsString 5 1 7 1 bab refl (omega arith)
      bab-IsString (omega arith)

abbrev Reads : Outcome Mem (ℕ × ℕ) → (token saved a byte : ℕ) → Type 0
Reads (done k m) token saved a byte = (k ≡ (token, saved)) × (m a ≡ some byte)
Reads r token saved a byte = ⊥

-- The first token of "bab" cut at "b", and none behind it.
token_first : Reads (strtok_r 5 1 8 7 text) 2 4 3 0
unfolding strtok_r skip_loop token_loop strchr strchr_loop load store poke
token_first = (refl, refl)

token_none : Reads (strtok_r 5 0 8 4 text) 0 4 3 98
unfolding strtok_r skip_loop token_loop strchr strchr_loop load store poke
token_none = (refl, refl)
