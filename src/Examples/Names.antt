-- ===== src/Examples/Names.antt =====
-- Interned texts and types: crates/ontixa-source/src/intern.rs, crates/ontixa-types/src/ty.rs.
use mathlib.Core.Option
use ontixa.Prelude.{ℕ, ◌≡◌, ◌↔◌, List, [], ◌∷◌, some, arith}
use ontixa.Source.Interner.{Interner, IsInverse, new, intern, get, resolve, intern-resolve}
use ontixa.Types.Ty.{Ty, ElemTy, TypeRef, ElemRef, ty, elem, from_ref, elem_from_ref, elem_ref}
use ontixa.Types.Compatible.{elem_iff, elem-from_ref}

new-IsInverse : IsInverse new
unfolding new get resolve
new-IsInverse = record {
  map_then_text = λ t id p. absurd (ground arith);
  text_then_map = λ t id p. absurd (ground arith);
}

abbrev fn_text : List ℕ
fn_text = 102 ∷ 110 ∷ []

-- An interner with one text.
abbrev one_text : Interner
one_text = (intern fn_text new).1

one_text-IsInverse : IsInverse one_text
one_text-IsInverse = let (_, _, _, inv) = intern-resolve fn_text new new-IsInverse in inv

intern-resolve_example :
    (resolve ((intern (97 ∷ []) one_text).0) ((intern (97 ∷ []) one_text).1) ≡ some (97 ∷ []))
    × (get (97 ∷ []) ((intern (97 ∷ []) one_text).1) ≡ some ((intern (97 ∷ []) one_text).0))
    × ((id : ℕ) (u : List ℕ)
        → resolve id one_text ≡ some u
        → resolve id ((intern (97 ∷ []) one_text).1) ≡ some u)
    × IsInverse ((intern (97 ∷ []) one_text).1)
intern-resolve_example = intern-resolve (97 ∷ []) one_text one_text-IsInverse

elem_iff_example :
    (elem (Ty.struct 2) ≡ some (ElemTy.struct 2)) ↔ (ty (ElemTy.struct 2) ≡ Ty.struct 2)
elem_iff_example = elem_iff (Ty.struct 2) (ElemTy.struct 2)

elem-from_ref_example :
    elem (from_ref (TypeRef.array ElemRef.i32))
    ≡ Option.map elem_from_ref (elem_ref (TypeRef.array ElemRef.i32))
elem-from_ref_example = elem-from_ref (TypeRef.array ElemRef.i32)
