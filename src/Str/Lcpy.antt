-- ===== src/Str/Lcpy.antt =====
-- `strlcpy` of pintos lib/string.c.
use jungle_data_structures.Prelude.{
  ℕ, zero, suc, ◌+◌, ◌-◌, ◌<◌, ◌≤◌, ◌≡◌, ◌≢◌, ◌⊎◌, inl, inr, ap, ◌∙◌, some, List, [], ◌∷◌, ltb,
  if◌then◌else◌, arith, ne→==, length, take, lt→ltb,
}
use jungle_data_structures.Prelude.Run.{done}
use jungle_data_structures.Str.Bytes.{
  Mem, Owns, IsString, copied, poke, poke_self, poke_ne, store-done,
}
use jungle_data_structures.Str.Defs.{strlcpy}
use jungle_data_structures.Str.Copy.{copied_inside, copied_outside, memcpy-copied}
use jungle_data_structures.Str.Text.{strlen-length}

-- A terminated prefix that was copied elsewhere is a string there.
IsString-take :
    (m k : Mem) (src dst n : ℕ) (xs : List ℕ)
    → IsString m src xs
    → n ≤ length xs
    → ((i : ℕ) → i < n → k (dst + i) ≡ m (src + i))
    → k (dst + n) ≡ some 0
    → IsString k dst (take n xs)
IsString-take m k src dst zero xs s le same end = ap k (omega arith) ∙ end
IsString-take m k src dst (suc n) [] s le same end = elim le [ ]
IsString-take m k src dst (suc n) (x ∷ xs) (ne, e, s) le same end = (
  ne,
  ap k (omega arith) ∙ same 0 (omega arith) ∙ ap m (omega arith) ∙ e,
  IsString-take m k (src + 1) (dst + 1) n xs s (omega arith)
      (λ i lt. ap k (omega arith) ∙ same (suc i) (omega arith) ∙ ap m (omega arith))
      (ap k (omega arith) ∙ end),
)

Owns-string : (m : Mem) (a : ℕ) (xs : List ℕ) → IsString m a xs → Owns m a (length xs)
Owns-string m a [] s i lt = elim lt [ ]
Owns-string m a (x ∷ xs) (ne, e, s) zero lt = (x, ap m (omega arith) ∙ e)
Owns-string m a (x ∷ xs) (ne, e, s) (suc i) lt =
    let (b, eb) = Owns-string m (a + 1) xs s i (omega arith) in (b, ap m (omega arith) ∙ eb)

-- Memory changes at most in the `n` bytes from `dst`.
abbrev pub SameBeyond : Mem → Mem → ℕ → ℕ → Type 0
SameBeyond m k dst n = (a : ℕ) → (a < dst) ⊎ (dst + n ≤ a) → k a ≡ m a

-- A copy of `n` bytes followed by a null byte.
module _ (m k : Mem) (dst src n : ℕ) (xs : List ℕ) (s : IsString m src xs)
    (le : n ≤ length xs) where
  IsString-copied :
      ((a : ℕ) → k a ≡ copied m dst src n a) → IsString (poke k (dst + n) 0) dst (take n xs)
  IsString-copied copy =
      IsString-take m (poke k (dst + n) 0) src dst n xs s le
        (λ i lt.
          poke_ne k (dst + n) 0 (dst + i) (omega arith)
          ∙ copy (dst + i)
          ∙ copied_inside m dst src n i lt)
        (poke_self k (dst + n) 0)

  SameBeyond-copied :
      (size : ℕ)
      → n < size
      → ((a : ℕ) → k a ≡ copied m dst src n a)
      → SameBeyond m (poke k (dst + n) 0) dst size
  SameBeyond-copied size lt copy a out =
      poke_ne k (dst + n) 0 a (omega arith) ∙ copy a ∙ copied_outside m dst src n a (omega arith)

-- The length that `strlcpy` copies.
abbrev pub kept : ℕ → ℕ → ℕ
kept len size = if ltb len (size - 1) then len else size - 1

-- `strlcpy` of a string into `size` owned bytes, `size` not 0, that do not overlap the source with
-- its terminator: the destination becomes the first `size - 1` characters (all of them if there
-- are fewer) with a terminator, no byte beyond the `size` changes, and the length of the source
-- is returned.
pub strlcpy-kept :
    (fuel dst src size : ℕ) (m : Mem) (xs : List ℕ)
    → dst ≢ 0
    → src ≢ 0
    → 0 < size
    → Owns m dst size
    → IsString m src xs
    → (dst + size ≤ src) ⊎ (src + length xs < dst)
    → length xs < fuel
    → (k : Mem) × (strlcpy fuel dst src size m ≡ done (length xs) k)
      × IsString k dst (take (kept (length xs) size) xs)
      × SameBeyond m k dst size
unfolding strlcpy
strlcpy-kept fuel dst src size m xs nd ns nz od s apart lt =
    let n = kept (length xs) size in
    let le : n ≤ length xs = ground arith in
    let ns' : n < size = ground arith in
    let od' : Owns m dst n = λ i l. od i (omega arith) in
    let os : Owns m src n = λ i l. Owns-string m src xs s i (omega arith) in
    let (k, run, copy) = memcpy-copied m dst src n od' os (inl nd) (inl ns) (omega arith) in
    let (c, ec) = od n ns' in
    let end = copy (dst + n) ∙ copied_outside m dst src n (dst + n) (inr (omega arith)) ∙ ec in
    (
      poke k (dst + n) 0,
      rw (
        ne→== dst 0 nd,
        ne→== src 0 ns,
        strlen-length fuel src m xs ns s lt,
        lt→ltb 0 size nz,
        run,
        store-done k (dst + n) 0 c end,
      ),
      IsString-copied m k dst src n xs s le copy,
      SameBeyond-copied m k dst src n xs s le size ns' copy,
    )

-- With `size` 0 `strlcpy` writes nothing and returns the length of the source.
pub strlcpy-zero :
    (fuel dst src : ℕ) (m : Mem) (xs : List ℕ)
    → dst ≢ 0
    → src ≢ 0
    → IsString m src xs
    → length xs < fuel
    → strlcpy fuel dst src 0 m ≡ done (length xs) m
unfolding strlcpy
strlcpy-zero fuel dst src m xs nd ns s lt =
    rw (ne→== dst 0 nd, ne→== src 0 ns, strlen-length fuel src m xs ns s lt)
