-- ===== src/Syntax/Utf8.antt =====
-- Well-formed UTF-8, which a `&str` is: a lead byte is followed by its continuation bytes.
use ontixa.Prelude.{
  ℕ, zero, suc, ◌≤◌, ◌<◌, ◌≡◌, ◌⊎◌, inl, inr, Bool, true, false, List, [], ◌∷◌, length, drop,
  Bool-cases, arith,
}
use ontixa.Syntax.Lexer.{run_len}

-- The list is the tail of a text in which `k` continuation bytes are due.
abbrev pub Due : ℕ → List ℕ → Type 0
Due zero [] = Unit
Due (suc k) [] = ⊥
Due zero (b ∷ r) =
    (b < 0x80) × Due 0 r
    ⊎ (0xC0 ≤ b) × (b < 0xE0) × Due 1 r
    ⊎ (0xE0 ≤ b) × (b < 0xF0) × Due 2 r
    ⊎ (0xF0 ≤ b) × Due 3 r
Due (suc k) (b ∷ r) = (0x80 ≤ b) × (b < 0xC0) × Due k r

abbrev pub Utf8 : List ℕ → Type 0
Utf8 = Due 0

-- The tail of a text after any number of bytes.
abbrev pub Within : List ℕ → Type 0
Within r = (k : ℕ) × Due k r

pub within : (r : List ℕ) → Utf8 r → Within r
within r h = (0, h)

pub Within-tail : (b : ℕ) (r : List ℕ) → Within (b ∷ r) → Within r
Within-tail b r (zero, inl h) = (0, h.1)
Within-tail b r (zero, inr (inl h)) = (1, h.2)
Within-tail b r (zero, inr (inr (inl h))) = (2, h.2)
Within-tail b r (zero, inr (inr (inr h))) = (3, h.1)
Within-tail b r (suc k, h) = (k, h.2)

-- An ASCII byte is a character of its own.
pub ascii_tail : (b : ℕ) (r : List ℕ) → Within (b ∷ r) → b < 0x80 → Utf8 r
ascii_tail b r (zero, inl h) l = h.1
ascii_tail b r (zero, inr (inl h)) l = absurd (omega arith)
ascii_tail b r (zero, inr (inr (inl h))) l = absurd (omega arith)
ascii_tail b r (zero, inr (inr (inr h))) l = absurd (omega arith)
ascii_tail b r (suc k, h) l = absurd (omega arith)

pub ascii_here : (b : ℕ) (r : List ℕ) → Within (b ∷ r) → b < 0x80 → Utf8 (b ∷ r)
ascii_here b r h l = inl (l, ascii_tail b r h l)

pub Within-end : Within [] → Utf8 []
Within-end h = tt

pub run_len-le : (p : ℕ → Bool) (r : List ℕ) → run_len p r ≤ length r
unfolding run_len
run_len-le p [] = omega arith
run_len-le p (b ∷ r) = ground (arith, run_len-le p r)

-- A run of ASCII bytes ends between characters.
pub run_len-Utf8 :
    (p : ℕ → Bool)
    → ((b : ℕ) → p b ≡ true → b < 0x80)
    → (r : List ℕ) → Utf8 r
    → Utf8 (drop (run_len p r) r)
unfolding run_len
run_len-Utf8 p ascii [] h = tt
run_len-Utf8 p ascii (b ∷ r) h = elim (Bool-cases (p b)) [
  | inl hit ↦
      rw (hit, run_len) (run_len-Utf8 p ascii r (ascii_tail b r (within (b ∷ r) h) (ascii b hit)))
  | inr miss ↦ rw (miss, run_len) h
]

-- So does a run up to an ASCII byte.
pub run_len-until :
    (p : ℕ → Bool)
    → ((b : ℕ) → p b ≡ false → b < 0x80)
    → (r : List ℕ) → Within r
    → Utf8 (drop (run_len p r) r)
unfolding run_len
run_len-until p ascii [] h = tt
run_len-until p ascii (b ∷ r) h = elim (Bool-cases (p b)) [
  | inl hit ↦ rw (hit, run_len) (run_len-until p ascii r (Within-tail b r h))
  | inr miss ↦ rw (miss, run_len) (ascii_here b r h (ascii b miss))
]
