-- ===== src/Syntax/Describe.antt =====
-- The names of kinds in messages: `describe` of crates/ontixa-syntax/src/kinds.rs.
use Prim.Native.String.{String}
use ontixa.Prelude.{if◌then◌else◌}
use ontixa.Syntax.Kinds.{
  SyntaxKind, is_reserved_keyword, whitespace, comment, ident, int_number, float_number, string,
  char, error_token, data_kw, fn_kw, let_kw, return_kw, if_kw, else_kw, true_kw, false_kw,
  unsafe_kw, mut_kw, shared_kw, region_kw, parallel_kw, trait_kw, impl_kw, match_kw, for_kw,
  while_kw, loop_kw, break_kw, continue_kw, struct_kw, enum_kw, pub_kw, use_kw, mod_kw, const_kw,
  static_kw, type_kw, where_kw, as_kw, in_kw, move_kw, async_kw, await_kw, dyn_kw, try_kw, self_kw,
  self_type_kw, super_kw, crate_kw, requires_kw, ensures_kw, invariant_kw, l_paren, r_paren,
  l_brace, r_brace, l_bracket, r_bracket, comma, semicolon, colon, colon2, dot, dot2, arrow,
  fat_arrow, plus, minus, star, slash, percent, eq, eq2, neq, lt, le, gt, ge, not, and2, or2, amp,
  pipe, caret, tilde, shl, shr, plus_eq, minus_eq, star_eq, slash_eq, percent_eq, question, at,
  pound, eof,
}

unfoldable pub describe : SyntaxKind → String
unfolding is_reserved_keyword
describe whitespace = "whitespace"
describe comment = "comment"
describe ident = "identifier"
describe int_number = "integer literal"
describe float_number = "float literal"
describe string = "string literal"
describe char = "character literal"
describe error_token = "unrecognized character"
describe data_kw = "`data`"
describe fn_kw = "`fn`"
describe let_kw = "`let`"
describe return_kw = "`return`"
describe if_kw = "`if`"
describe else_kw = "`else`"
describe true_kw = "`true`"
describe false_kw = "`false`"
describe unsafe_kw = "`unsafe`"
describe mut_kw = "`mut`"
describe shared_kw = "`shared`"
describe region_kw = "`region`"
describe parallel_kw = "`parallel`"
describe trait_kw = "`trait`"
describe impl_kw = "`impl`"
describe match_kw = "`match`"
describe for_kw = "`for`"
describe while_kw = "`while`"
describe loop_kw = "`loop`"
describe break_kw = "`break`"
describe continue_kw = "`continue`"
describe struct_kw = "`struct`"
describe enum_kw = "`enum`"
describe pub_kw = "`pub`"
describe use_kw = "`use`"
describe mod_kw = "`mod`"
describe const_kw = "`const`"
describe static_kw = "`static`"
describe type_kw = "`type`"
describe where_kw = "`where`"
describe as_kw = "`as`"
describe in_kw = "`in`"
describe move_kw = "`move`"
describe async_kw = "`async`"
describe await_kw = "`await`"
describe dyn_kw = "`dyn`"
describe try_kw = "`try`"
describe self_kw = "`self`"
describe self_type_kw = "`Self`"
describe super_kw = "`super`"
describe crate_kw = "`crate`"
describe requires_kw = "`requires`"
describe ensures_kw = "`ensures`"
describe invariant_kw = "`invariant`"
describe l_paren = "`(`"
describe r_paren = "`)`"
describe l_brace = "`{`"
describe r_brace = "`}`"
describe l_bracket = "`[`"
describe r_bracket = "`]`"
describe comma = "`,`"
describe semicolon = "`;`"
describe colon = "`:`"
describe colon2 = "`::`"
describe dot = "`.`"
describe dot2 = "`..`"
describe arrow = "`->`"
describe fat_arrow = "`=>`"
describe plus = "`+`"
describe minus = "`-`"
describe star = "`*`"
describe slash = "`/`"
describe percent = "`%`"
describe eq = "`=`"
describe eq2 = "`==`"
describe neq = "`!=`"
describe lt = "`<`"
describe le = "`<=`"
describe gt = "`>`"
describe ge = "`>=`"
describe not = "`!`"
describe and2 = "`&&`"
describe or2 = "`||`"
describe amp = "`&`"
describe pipe = "`|`"
describe caret = "`^`"
describe tilde = "`~`"
describe shl = "`<<`"
describe shr = "`>>`"
describe plus_eq = "`+=`"
describe minus_eq = "`-=`"
describe star_eq = "`*=`"
describe slash_eq = "`/=`"
describe percent_eq = "`%=`"
describe question = "`?`"
describe at = "`@`"
describe pound = "`#`"
describe eof = "end of file"
describe k = if is_reserved_keyword k then "reserved keyword" else "syntax node"
