-- ===== src/Syntax/Raw.antt =====
-- The tables of the kinds: `kind_to_raw`, `kind_from_raw`, `keyword_kind` and `describe` of crates/ontixa-syntax/src/kinds.rs.
use mathlib.Core.Path.{subst₂}
use ontixa.Prelude.{
  ℕ, ◌≡◌, refl, sym, ◌∙◌, List, arith, true, Bool, ◌&&◌, some, inl, inr, All, Bool-cases, subst, ap,
  ◌∷◌, ◌++◌, [], if◌then◌else◌, and-both, ◌↔◌,
}
use ontixa.Syntax.Describe.{describe}
use ontixa.Syntax.Kinds.{
  SyntaxKind, kind_to_raw, kind_from_raw, kind_table, whitespace, is_keyword, keyword_kind,
  keywords, first_arm, is_reserved_keyword, bytes_eq, bytes_of,
}
use Prim.Native.String.{String}

-- Every kind comes back from its raw number: the enumeration and the table have one order.
pub kind_from_raw-kind_to_raw : (k : SyntaxKind) → kind_from_raw (kind_to_raw k) ≡ k
unfolding kind_from_raw kind_to_raw kind_table
kind_from_raw-kind_to_raw whitespace = refl
kind_from_raw-kind_to_raw _ = refl

pub bytes_eq_sound : (as' bs : List ℕ) → bytes_eq as' bs ≡ true → as' ≡ bs
bytes_eq_sound [] [] p = refl
bytes_eq_sound (a ∷ as') (b ∷ bs) p =
    let (q, r) : (a ≡ b) × (bytes_eq as' bs ≡ true) = ground arith in
    let e = bytes_eq_sound as' bs r in cc
bytes_eq_sound [] (b ∷ bs) p = absurd (ground arith)
bytes_eq_sound (a ∷ as') [] p = absurd (ground arith)

-- A list of arms with a property of each is one with the property of the arm that `first_arm` takes.
first_arm-taken :
    (P : List ℕ → SyntaxKind → Type 0) (text : List ℕ) (arms : List (String × SyntaxKind))
    (k : SyntaxKind)
    → All (λ (arm : String × SyntaxKind). P (bytes_of (arm.0)) (arm.1)) arms
    → first_arm text arms ≡ some k
    → P text k
unfolding first_arm
first_arm-taken P text [] k a p = absurd (ground arith)
first_arm-taken P text ((s, k₀) ∷ arms) k a p = elim (Bool-cases (bytes_eq text (bytes_of s))) [
  | inl t ↦
      let e : k₀ ≡ k = ground arith in subst₂ P (sym (bytes_eq_sound text (bytes_of s) t)) e a.0
  | inr t ↦
      let q : first_arm text arms ≡ some k = ground arith in first_arm-taken P text arms k a.1 q
]

-- A text between backticks.
abbrev pub quoted : List ℕ → List ℕ
quoted text = 96 ∷ (text ++ 96 ∷ [])

but_last : List ℕ → List ℕ
but_last [] = []
but_last (b ∷ []) = []
but_last (b ∷ c ∷ bs) = b ∷ but_last (c ∷ bs)

-- What stands between the first and the last byte.
unquoted : List ℕ → List ℕ
unfolding but_last
unquoted [] = []
unquoted (b ∷ bs) = but_last bs

but_last-append : (bs : List ℕ) (b : ℕ) → but_last (bs ++ b ∷ []) ≡ bs
unfolding but_last
but_last-append [] b = refl
but_last-append (a ∷ []) b = refl
but_last-append (a ∷ c ∷ bs) b = ap (λ r. a ∷ r) (but_last-append (c ∷ bs) b)

-- The kind is a keyword, and messages name it by the text between backticks.
abbrev pub Named : List ℕ → SyntaxKind → Type 0
Named text k = (is_keyword k ≡ true) × (bytes_of (describe k) ≡ quoted text)

all_named : List (String × SyntaxKind) → Bool
all_named [] = true
all_named (arm ∷ arms) =
    is_keyword (arm.1)
    && (bytes_eq (bytes_of (describe (arm.1))) (quoted (bytes_of (arm.0))) && all_named arms)

All-all_named :
    (arms : List (String × SyntaxKind))
    → all_named arms ≡ true
    → All (λ (arm : String × SyntaxKind). Named (bytes_of (arm.0)) (arm.1)) arms
unfolding all_named
All-all_named [] p = tt
All-all_named (arm ∷ arms) p =
    let (q, r) = and-both (is_keyword (arm.1)) _ p in
    let (s, t) =
      and-both (bytes_eq (bytes_of (describe (arm.1))) (quoted (bytes_of (arm.0)))) _ r in
    ((q, bytes_eq_sound _ _ s), All-all_named arms t)

keywords-Named : All (λ (arm : String × SyntaxKind). Named (bytes_of (arm.0)) (arm.1)) keywords
keywords-Named =
    All-all_named keywords (unfold all_named keywords is_keyword kind_to_raw describe in refl)

found :
    (k : SyntaxKind)
    → (if is_keyword k then keyword_kind (unquoted (bytes_of (describe k))) else some k) ≡ some k
unfolding is_keyword kind_to_raw keyword_kind keywords first_arm unquoted but_last describe
    is_reserved_keyword
found whitespace = refl
found _ = refl

-- `keyword_kind` finds a kind for a text exactly when the kind is a keyword and `describe` gives the
-- text between backticks: no keyword is missing from its table and none has another's text.
pub keyword_kind-describe :
    (text : List ℕ) (k : SyntaxKind) → (keyword_kind text ≡ some k) ↔ Named text k
unfolding keyword_kind
keyword_kind-describe text k = (
  (λ p. first_arm-taken Named text keywords k keywords-Named p),
  (λ (a, b).
      let e : unquoted (bytes_of (describe k)) ≡ text =
        ap unquoted b ∙ unfold unquoted in but_last-append text 96 in
      let f : keyword_kind (unquoted (bytes_of (describe k))) ≡ some k =
        sym (rw a refl) ∙ found k in
      subst (λ t. keyword_kind t ≡ some k) e f),
)
