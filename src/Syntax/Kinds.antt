-- ===== src/Syntax/Kinds.antt =====
-- Token and node kinds: crates/ontixa-syntax/src/kinds.rs, with the source's names in lower case.
use Prim.Native.Char.{code}
use Prim.Native.String.{String}
use ontixa.Prelude.{
  ℕ, Bool, true, false, List, [], ◌∷◌, Option, none, some, leb, ◌==◌, ◌&&◌, if◌then◌else◌,
  get_elem?,
}

pub data SyntaxKind : Type 0 where
  whitespace comment ident int_number float_number string char error_token : SyntaxKind
  data_kw fn_kw let_kw return_kw if_kw else_kw true_kw false_kw use_kw as_kw : SyntaxKind
  unsafe_kw mut_kw shared_kw region_kw parallel_kw trait_kw impl_kw match_kw : SyntaxKind
  for_kw while_kw loop_kw break_kw continue_kw struct_kw enum_kw pub_kw mod_kw : SyntaxKind
  const_kw static_kw type_kw where_kw in_kw move_kw async_kw await_kw dyn_kw : SyntaxKind
  try_kw self_kw self_type_kw super_kw crate_kw requires_kw ensures_kw : SyntaxKind
  invariant_kw l_paren r_paren l_brace r_brace l_bracket r_bracket comma : SyntaxKind
  semicolon colon colon2 dot dot2 arrow fat_arrow plus minus star slash percent : SyntaxKind
  eq eq2 neq lt le gt ge not and2 or2 amp pipe caret tilde shl shr plus_eq : SyntaxKind
  minus_eq star_eq slash_eq percent_eq question at pound source_file use_decl : SyntaxKind
  data_decl field fn_decl param_list param ret_type type_ref name name_ref block : SyntaxKind
  let_stmt assign_stmt return_stmt expr_stmt if_expr bin_expr prefix_expr : SyntaxKind
  call_expr arg_list field_expr path_expr paren_expr literal struct_lit : SyntaxKind
  struct_lit_field index_expr range array_expr for_expr variant match_expr : SyntaxKind
  match_arm_list match_arm pat_variant pat_bind error eof : SyntaxKind

-- `kind as u16`: the discriminant, in the order of the enumeration.
unfoldable pub kind_to_raw : SyntaxKind → ℕ
kind_to_raw whitespace = 0
kind_to_raw comment = 1
kind_to_raw ident = 2
kind_to_raw int_number = 3
kind_to_raw float_number = 4
kind_to_raw string = 5
kind_to_raw char = 6
kind_to_raw error_token = 7
kind_to_raw data_kw = 8
kind_to_raw fn_kw = 9
kind_to_raw let_kw = 10
kind_to_raw return_kw = 11
kind_to_raw if_kw = 12
kind_to_raw else_kw = 13
kind_to_raw true_kw = 14
kind_to_raw false_kw = 15
kind_to_raw use_kw = 16
kind_to_raw as_kw = 17
kind_to_raw unsafe_kw = 18
kind_to_raw mut_kw = 19
kind_to_raw shared_kw = 20
kind_to_raw region_kw = 21
kind_to_raw parallel_kw = 22
kind_to_raw trait_kw = 23
kind_to_raw impl_kw = 24
kind_to_raw match_kw = 25
kind_to_raw for_kw = 26
kind_to_raw while_kw = 27
kind_to_raw loop_kw = 28
kind_to_raw break_kw = 29
kind_to_raw continue_kw = 30
kind_to_raw struct_kw = 31
kind_to_raw enum_kw = 32
kind_to_raw pub_kw = 33
kind_to_raw mod_kw = 34
kind_to_raw const_kw = 35
kind_to_raw static_kw = 36
kind_to_raw type_kw = 37
kind_to_raw where_kw = 38
kind_to_raw in_kw = 39
kind_to_raw move_kw = 40
kind_to_raw async_kw = 41
kind_to_raw await_kw = 42
kind_to_raw dyn_kw = 43
kind_to_raw try_kw = 44
kind_to_raw self_kw = 45
kind_to_raw self_type_kw = 46
kind_to_raw super_kw = 47
kind_to_raw crate_kw = 48
kind_to_raw requires_kw = 49
kind_to_raw ensures_kw = 50
kind_to_raw invariant_kw = 51
kind_to_raw l_paren = 52
kind_to_raw r_paren = 53
kind_to_raw l_brace = 54
kind_to_raw r_brace = 55
kind_to_raw l_bracket = 56
kind_to_raw r_bracket = 57
kind_to_raw comma = 58
kind_to_raw semicolon = 59
kind_to_raw colon = 60
kind_to_raw colon2 = 61
kind_to_raw dot = 62
kind_to_raw dot2 = 63
kind_to_raw arrow = 64
kind_to_raw fat_arrow = 65
kind_to_raw plus = 66
kind_to_raw minus = 67
kind_to_raw star = 68
kind_to_raw slash = 69
kind_to_raw percent = 70
kind_to_raw eq = 71
kind_to_raw eq2 = 72
kind_to_raw neq = 73
kind_to_raw lt = 74
kind_to_raw le = 75
kind_to_raw gt = 76
kind_to_raw ge = 77
kind_to_raw not = 78
kind_to_raw and2 = 79
kind_to_raw or2 = 80
kind_to_raw amp = 81
kind_to_raw pipe = 82
kind_to_raw caret = 83
kind_to_raw tilde = 84
kind_to_raw shl = 85
kind_to_raw shr = 86
kind_to_raw plus_eq = 87
kind_to_raw minus_eq = 88
kind_to_raw star_eq = 89
kind_to_raw slash_eq = 90
kind_to_raw percent_eq = 91
kind_to_raw question = 92
kind_to_raw at = 93
kind_to_raw pound = 94
kind_to_raw source_file = 95
kind_to_raw use_decl = 96
kind_to_raw data_decl = 97
kind_to_raw field = 98
kind_to_raw fn_decl = 99
kind_to_raw param_list = 100
kind_to_raw param = 101
kind_to_raw ret_type = 102
kind_to_raw type_ref = 103
kind_to_raw name = 104
kind_to_raw name_ref = 105
kind_to_raw block = 106
kind_to_raw let_stmt = 107
kind_to_raw assign_stmt = 108
kind_to_raw return_stmt = 109
kind_to_raw expr_stmt = 110
kind_to_raw if_expr = 111
kind_to_raw bin_expr = 112
kind_to_raw prefix_expr = 113
kind_to_raw call_expr = 114
kind_to_raw arg_list = 115
kind_to_raw field_expr = 116
kind_to_raw path_expr = 117
kind_to_raw paren_expr = 118
kind_to_raw literal = 119
kind_to_raw struct_lit = 120
kind_to_raw struct_lit_field = 121
kind_to_raw index_expr = 122
kind_to_raw range = 123
kind_to_raw array_expr = 124
kind_to_raw for_expr = 125
kind_to_raw variant = 126
kind_to_raw match_expr = 127
kind_to_raw match_arm_list = 128
kind_to_raw match_arm = 129
kind_to_raw pat_variant = 130
kind_to_raw pat_bind = 131
kind_to_raw error = 132
kind_to_raw eof = 133

-- `KIND_TABLE`
unfoldable pub kind_table : List SyntaxKind
kind_table =
    whitespace ∷ comment ∷ ident ∷ int_number ∷ float_number ∷ string ∷ char ∷ error_token ∷ data_kw
    ∷ fn_kw ∷ let_kw ∷ return_kw ∷ if_kw ∷ else_kw ∷ true_kw ∷ false_kw ∷ use_kw ∷ as_kw ∷ unsafe_kw
    ∷ mut_kw ∷ shared_kw ∷ region_kw ∷ parallel_kw ∷ trait_kw ∷ impl_kw ∷ match_kw ∷ for_kw
    ∷ while_kw ∷ loop_kw ∷ break_kw ∷ continue_kw ∷ struct_kw ∷ enum_kw ∷ pub_kw ∷ mod_kw ∷ const_kw
    ∷ static_kw ∷ type_kw ∷ where_kw ∷ in_kw ∷ move_kw ∷ async_kw ∷ await_kw ∷ dyn_kw ∷ try_kw
    ∷ self_kw ∷ self_type_kw ∷ super_kw ∷ crate_kw ∷ requires_kw ∷ ensures_kw ∷ invariant_kw
    ∷ l_paren ∷ r_paren ∷ l_brace ∷ r_brace ∷ l_bracket ∷ r_bracket ∷ comma ∷ semicolon ∷ colon
    ∷ colon2 ∷ dot ∷ dot2 ∷ arrow ∷ fat_arrow ∷ plus ∷ minus ∷ star ∷ slash ∷ percent ∷ eq ∷ eq2
    ∷ neq ∷ lt ∷ le ∷ gt ∷ ge ∷ not ∷ and2 ∷ or2 ∷ amp ∷ pipe ∷ caret ∷ tilde ∷ shl ∷ shr ∷ plus_eq
    ∷ minus_eq ∷ star_eq ∷ slash_eq ∷ percent_eq ∷ question ∷ at ∷ pound ∷ source_file ∷ use_decl
    ∷ data_decl ∷ field ∷ fn_decl ∷ param_list ∷ param ∷ ret_type ∷ type_ref ∷ name ∷ name_ref
    ∷ block ∷ let_stmt ∷ assign_stmt ∷ return_stmt ∷ expr_stmt ∷ if_expr ∷ bin_expr ∷ prefix_expr
    ∷ call_expr ∷ arg_list ∷ field_expr ∷ path_expr ∷ paren_expr ∷ literal ∷ struct_lit
    ∷ struct_lit_field ∷ index_expr ∷ range ∷ array_expr ∷ for_expr ∷ variant ∷ match_expr
    ∷ match_arm_list ∷ match_arm ∷ pat_variant ∷ pat_bind ∷ error ∷ eof ∷ []

unfoldable pub kind_from_raw : ℕ → SyntaxKind
unfolding kind_table
kind_from_raw raw = elim (get_elem? kind_table raw) [ none ↦ error | some k ↦ k ]

unfoldable pub is_trivia : SyntaxKind → Bool
is_trivia whitespace = true
is_trivia comment = true
is_trivia _ = false

unfoldable pub is_keyword : SyntaxKind → Bool
unfolding kind_to_raw
is_keyword k =
    leb (kind_to_raw data_kw) (kind_to_raw k) && leb (kind_to_raw k) (kind_to_raw invariant_kw)

unfoldable pub is_reserved_keyword : SyntaxKind → Bool
unfolding kind_to_raw
is_reserved_keyword k =
    leb (kind_to_raw unsafe_kw) (kind_to_raw k) && leb (kind_to_raw k) (kind_to_raw invariant_kw)

-- The bytes of an ASCII text.
abbrev pub bytes_of : String → List ℕ
bytes_of String.[] = []
bytes_of (String.◌∷◌ c s) = code c ∷ bytes_of s

abbrev pub bytes_eq : List ℕ → List ℕ → Bool
bytes_eq [] [] = true
bytes_eq (a ∷ as') (b ∷ bs) = a == b && bytes_eq as' bs
bytes_eq _ _ = false

-- The arms of `keyword_kind`, in order.
unfoldable pub keywords : List (String × SyntaxKind)
keywords =
    ("data", data_kw)
    ∷ ("fn", fn_kw)
    ∷ ("let", let_kw)
    ∷ ("return", return_kw)
    ∷ ("if", if_kw)
    ∷ ("else", else_kw)
    ∷ ("true", true_kw)
    ∷ ("false", false_kw)
    ∷ ("unsafe", unsafe_kw)
    ∷ ("mut", mut_kw)
    ∷ ("shared", shared_kw)
    ∷ ("region", region_kw)
    ∷ ("parallel", parallel_kw)
    ∷ ("trait", trait_kw)
    ∷ ("impl", impl_kw)
    ∷ ("match", match_kw)
    ∷ ("for", for_kw)
    ∷ ("while", while_kw)
    ∷ ("loop", loop_kw)
    ∷ ("break", break_kw)
    ∷ ("continue", continue_kw)
    ∷ ("struct", struct_kw)
    ∷ ("enum", enum_kw)
    ∷ ("pub", pub_kw)
    ∷ ("use", use_kw)
    ∷ ("mod", mod_kw)
    ∷ ("const", const_kw)
    ∷ ("static", static_kw)
    ∷ ("type", type_kw)
    ∷ ("where", where_kw)
    ∷ ("as", as_kw)
    ∷ ("in", in_kw)
    ∷ ("move", move_kw)
    ∷ ("async", async_kw)
    ∷ ("await", await_kw)
    ∷ ("dyn", dyn_kw)
    ∷ ("try", try_kw)
    ∷ ("self", self_kw)
    ∷ ("Self", self_type_kw)
    ∷ ("super", super_kw)
    ∷ ("crate", crate_kw)
    ∷ ("requires", requires_kw)
    ∷ ("ensures", ensures_kw)
    ∷ ("invariant", invariant_kw)
    ∷ []

-- A `match` on a text: the first arm that fits.
unfoldable pub first_arm : List ℕ → List (String × SyntaxKind) → Option SyntaxKind
first_arm text [] = none
first_arm text ((s, k) ∷ arms) = if bytes_eq text (bytes_of s) then some k else first_arm text arms

unfoldable pub keyword_kind : List ℕ → Option SyntaxKind
unfolding first_arm keywords
keyword_kind text = first_arm text keywords
