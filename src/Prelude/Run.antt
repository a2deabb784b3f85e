-- ===== src/Prelude/Run.antt =====
-- Runs of C code over a memory of type `S`: how a call ends, and how calls are sequenced.
use mathlib.Core.Path.{◌≡◌, refl, sym, ap, ap₂, ◌∙◌, subst}
use mathlib.Core.Bool.{Bool, true, false}

-- `fault` is undefined behaviour, such as a bad pointer that is followed; `panic` is an `ASSERT`
-- that fails; `out_of_fuel` is a loop that was given too few rounds.
pub data Outcome (S A : Type 0) : Type 0 where
  done : A → S → Outcome S A
  fault : Outcome S A
  panic : Outcome S A
  out_of_fuel : Outcome S A

module _ {S : Type 0} where
  abbrev pub give_up : {A : Type 0} → S → Outcome S A
  give_up h = out_of_fuel

  abbrev pub assert : Bool → S → Outcome S (Unit {0})
  assert true h = done tt h
  assert false h = panic

module _ {S A B : Type 0} where
  abbrev pub continue : Outcome S A → (A → S → Outcome S B) → Outcome S B
  continue (done a h) k = k a h
  continue fault k = fault
  continue panic k = panic
  continue out_of_fuel k = out_of_fuel

  infixl 5 ◌>>=◌ ◌>>◌
  abbrev pub ◌>>=◌ : (S → Outcome S A) → (A → S → Outcome S B) → S → Outcome S B
  m >>= k = λ h. continue (m h) k

  abbrev pub ◌>>◌ : (S → Outcome S A) → (S → Outcome S B) → S → Outcome S B
  m >> k = m >>= λ _. k

pub done_value :
    {S A : Type 0} {a b : A} {h k : S} → ◌≡◌ {A = Outcome S A} (done a h) (done b k) → a ≡ b
done_value e = cc

-- The run comes to its end, with a value and a memory of which `Q` holds.
pub record Ends {S A : Type 0} (Q : A → S → Type 0) (r : Outcome S A) : Type 0 where
  pub value : A
  pub memory : S
  pub ended : r ≡ done value memory
  pub holds : Q value memory

pub Ends-done : {S A : Type 0} {Q : A → S → Type 0} {a : A} {h : S} → Q a h → Ends Q (done a h)
Ends-done {a} {h} w = record { value = a; memory = h; ended = refl; holds = w }

pub Ends-continue :
    {S A B : Type 0} {P : A → S → Type 0} {Q : B → S → Type 0} {r : Outcome S A}
    {k : A → S → Outcome S B}
    → Ends P r
    → ((a : A) (h : S) → P a h → Ends Q (k a h))
    → Ends Q (continue r k)
Ends-continue {Q} {k} e f =
    subst (Ends Q) (sym (ap (λ o. continue o k) e.ended)) (f e.value e.memory e.holds)

pub Ends-map :
    {S A : Type 0} {P Q : A → S → Type 0} {r : Outcome S A}
    → Ends P r
    → ((a : A) (h : S) → P a h → Q a h)
    → Ends Q r
Ends-map e f = record {
  value = e.value;
  memory = e.memory;
  ended = e.ended;
  holds = f e.value e.memory e.holds;
}

-- A run whose end is known exactly.
pub Ends-exact :
    {S A : Type 0} {r : Outcome S A} {b : A} {g : S}
    → Ends (λ a h. (a ≡ b) × (h ≡ g)) r
    → r ≡ done b g
Ends-exact e = e.ended ∙ ap₂ (λ a h. done a h) e.holds.0 e.holds.1

pub exact_then :
    {S A B : Type 0} {Q : B → S → Type 0} {r : Outcome S A} (k : A → S → Outcome S B) {a : A}
    {h : S}
    → r ≡ done a h
    → Ends Q (k a h)
    → Ends Q (continue r k)
exact_then {Q} k e w = subst (Ends Q) (sym (ap (λ o. continue o k) e)) w
