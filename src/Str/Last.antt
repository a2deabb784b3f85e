-- ===== src/Str/Last.antt =====
-- `strrchr` of pintos lib/string.c.
use jungle_data_structures.Prelude.{
  ℕ, zero, suc, ◌+◌, ◌%◌, ◌<◌, ◌≡◌, ◌≢◌, refl, ap, ◌∙◌, true, false, ◌⊎◌, inl, inr, Bool-cases,
  List, [], ◌∷◌, ◌++◌, length, ◌==◌, ne→==, if◌then◌else◌, arith,
}
use jungle_data_structures.Prelude.Run.{done}
use jungle_data_structures.Str.Bytes.{Mem, IsString, load-done}
use jungle_data_structures.Str.Defs.{strrchr_loop, strrchr}

-- No character is `c`.
abbrev pub Lacks : ℕ → List ℕ → Type 0
Lacks c [] = Unit
Lacks c (x ∷ xs) = (x ≢ c) × Lacks c xs

-- `r` is the address of the last `c` in the characters from `a`, or `p` where none is one.
abbrev pub IsLast : (a c p : ℕ) → List ℕ → (r : ℕ) → Type 0
IsLast a c p xs r =
    ((ps : List ℕ) × (ss : List ℕ) × (xs ≡ ps ++ c ∷ ss) × (r ≡ a + length ps) × Lacks c ss)
    ⊎ (Lacks c xs × (r ≡ p))

eq_of_test : (x c : ℕ) → (x == c) ≡ true → x ≡ c
eq_of_test x c t = ground arith

ne_of_test : (x c : ℕ) → (x == c) ≡ false → x ≢ c
ne_of_test x c f = ground arith

IsLast-next :
    (a c p x : ℕ) (xs : List ℕ) (r : ℕ)
    → IsLast (a + 1) c (if x == c then a else p) xs r
    → IsLast a c p (x ∷ xs) r
IsLast-next a c p x xs r (inl (ps, ss, e, q, out)) =
    inl (x ∷ ps, ss, ap (λ (t : List ℕ). x ∷ t) e, omega arith, out)
IsLast-next a c p x xs r (inr (out, q)) = elim (Bool-cases (x == c)) [
  | inl t ↦ inl ([], xs, ap (λ (k : ℕ). k ∷ xs) (eq_of_test x c t), q ∙ rw t (omega arith), out)
  | inr f ↦ inr ((ne_of_test x c f, out), q ∙ rw f refl)
]

strrchr_loop-IsLast :
    (fuel a c p : ℕ) (m : Mem) (xs : List ℕ)
    → IsString m a xs
    → length xs < fuel
    → (r : ℕ) × (strrchr_loop fuel a c p m ≡ done r m) × IsLast a c p xs r
unfolding strrchr_loop
strrchr_loop-IsLast zero a c p m xs s lt = ground arith
strrchr_loop-IsLast (suc fuel) a c p m [] s lt = (p, rw (load-done m a 0 s) refl, inr (tt, refl))
strrchr_loop-IsLast (suc fuel) a c p m (x ∷ xs) (ne, e, s) lt =
    let (r, run, v) =
      strrchr_loop-IsLast fuel (a + 1) c (if x == c then a else p) m xs s (omega arith) in
    (r, rw (load-done m a x e, ne→== x 0 ne) run, IsLast-next a c p x xs r v)

-- `strrchr` returns the address of the last character of the string that is `c` converted to a
-- character, or `NULL` if there is none, and writes nothing. One round more than there are
-- characters is enough.
pub strrchr-IsLast :
    (fuel a c : ℕ) (m : Mem) (xs : List ℕ)
    → IsString m a xs
    → length xs < fuel
    → (r : ℕ) × (strrchr fuel a c m ≡ done r m) × IsLast a (c % 256) 0 xs r
unfolding strrchr
strrchr-IsLast fuel a c m xs s lt = strrchr_loop-IsLast fuel a (c % 256) 0 m xs s lt
